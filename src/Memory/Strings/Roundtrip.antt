-- ===== src/Memory/Strings/Roundtrip.antt =====
-- Memory/Strings: the value that `PutRegStr` or `PutRegStr32` has stored, as `GetRegStr` and
-- `GetRegStr32` print it.
use epsolar_tracer_client.Base.{
  ℕ, ◌-◌, ◌/◌, ◌%◌, ◌^◌, ◌<◌, ◌≡◌, refl, sym, ap, ◌∙◌, ℤ, pos, negsuc, Bool, true, false, List, [],
  ltb, lt→ltb, append-nil, get_elem?, some, arith,
}
use epsolar_tracer_client.Text.{to_string, int_to_string, stoi, wrapped, as_signed}
use epsolar_tracer_client.Text.Decimal.{stoi-int_to_string, InRange}
use epsolar_tracer_client.Memory.State.{Memory, Register}
use epsolar_tracer_client.Memory.Lookup.{get_reg_start_index}
use epsolar_tracer_client.Memory.Cells.{◌>>=◌, put_alternate}
use epsolar_tracer_client.Memory.Strings.{
  is_user_register, value_text, line_of, index_of, shown_value, get_reg_str, put_reg_str, put_at,
}
use epsolar_tracer_client.Memory.Strings.Updated.{update?-some, start_index-update?}

-- the numbers that a register of `w` bits shows
abbrev pub Shows : ℕ → Bool → ℤ → Type 0
Shows w true (pos n) = n < 2 ^ w / 2
Shows w true (negsuc n) = n < 2 ^ w / 2
Shows w false (pos n) = n < 2 ^ w
Shows w false (negsuc n) = ⊥

wrapped-shown16 :
    (issigned : Bool) (z : ℤ)
    → Shows 16 issigned z
    → value_text 16 issigned (wrapped 16 z) ≡ int_to_string z
unfolding int_to_string
wrapped-shown16 true (pos n) h =
    let e : n % 2 ^ 16 ≡ n = omega arith in
    let low : ltb n (2 ^ 16 / 2) ≡ true = lt→ltb n (2 ^ 16 / 2) h in
    let shown : as_signed 16 (n % 2 ^ 16) ≡ pos n = ap (as_signed 16) e ∙ (rw low refl) in
    ap int_to_string shown
wrapped-shown16 true (negsuc n) h =
    let e : 2 ^ 16 - 1 - n % 2 ^ 16 ≡ 2 ^ 16 - 1 - n = omega arith in
    let high : ltb (2 ^ 16 - 1 - n) (2 ^ 16 / 2) ≡ false = ground arith in
    let back : 2 ^ 16 - 1 - (2 ^ 16 - 1 - n) ≡ n = omega arith in
    let shown : as_signed 16 (2 ^ 16 - 1 - n % 2 ^ 16) ≡ negsuc n =
      ap (as_signed 16) e ∙ (rw high (ap negsuc back)) in
    ap int_to_string shown
wrapped-shown16 false (pos n) h = let e : n % 2 ^ 16 ≡ n = omega arith in ap to_string e
wrapped-shown16 false (negsuc n) h = absurd h

pub wrapped-shown32 :
    (issigned : Bool) (z : ℤ)
    → Shows 32 issigned z
    → value_text 32 issigned (wrapped 32 z) ≡ int_to_string z
unfolding int_to_string
wrapped-shown32 true (pos n) h =
    let e : n % 2 ^ 32 ≡ n = omega arith in
    let low : ltb n (2 ^ 32 / 2) ≡ true = lt→ltb n (2 ^ 32 / 2) h in
    let shown : as_signed 32 (n % 2 ^ 32) ≡ pos n = ap (as_signed 32) e ∙ (rw low refl) in
    ap int_to_string shown
wrapped-shown32 true (negsuc n) h =
    let e : 2 ^ 32 - 1 - n % 2 ^ 32 ≡ 2 ^ 32 - 1 - n = omega arith in
    let high : ltb (2 ^ 32 - 1 - n) (2 ^ 32 / 2) ≡ false = ground arith in
    let back : 2 ^ 32 - 1 - (2 ^ 32 - 1 - n) ≡ n = omega arith in
    let shown : as_signed 32 (2 ^ 32 - 1 - n % 2 ^ 32) ≡ negsuc n =
      ap (as_signed 32) e ∙ (rw high (ap negsuc back)) in
    ap int_to_string shown
wrapped-shown32 false (pos n) h = let e : n % 2 ^ 32 ≡ n = omega arith in ap to_string e
wrapped-shown32 false (negsuc n) h = absurd h

Shows16-InRange : (issigned : Bool) (z : ℤ) → Shows 16 issigned z → InRange z
Shows16-InRange true (pos n) h = omega arith
Shows16-InRange true (negsuc n) h = omega arith
Shows16-InRange false (pos n) h = omega arith
Shows16-InRange false (negsuc n) h = absurd h

pub read_back : (z : ℤ) → InRange z → stoi 10 (int_to_string z) ≡ some z
read_back z h = ap (stoi 10) (sym (append-nil (int_to_string z))) ∙ stoi-int_to_string z [] h tt

-- an address of a register that is not the user's, and its index
module _ (adress n : ℕ) (r : Register) (mem : Memory) (plain : is_user_register adress ≡ false)
    (some_adress : 0 < adress) (start : get_reg_start_index adress mem.registers ≡ pos n)
    (there : get_elem? mem.registers n ≡ some r) where
  index_lem : index_of adress mem ≡ pos n
  index_lem = rw (lt→ltb 0 adress some_adress) start

  get_reg_str-of :
      (orig : Bool) (r' : Register) (mem' : Memory)
      → index_of adress mem' ≡ pos n
      → get_elem? mem'.registers n ≡ some r'
      → get_reg_str adress orig mem' ≡ line_of (value_text 16 r'.issigned (shown_value orig r'))
  unfolding get_reg_str
  get_reg_str-of orig r' mem' at here = rw (plain, at, here) refl

  put_reg_str-of :
      (value : List ℕ) (z : ℤ) (mem' : Memory)
      → stoi 10 value ≡ some z
      → put_at n (wrapped 16 z) mem ≡ some mem'
      → put_reg_str value adress mem ≡ some (pos 1, mem')
  unfolding put_reg_str
  put_reg_str-of value z mem' read put = rw (plain, index_lem, read, put) refl

  -- For a register that is not the user's: where a number is one that the register can show,
  -- signed or not, `PutRegStr` of its text succeeds, `GetRegStr` then prints the same text, and
  -- with `orig` it still prints the value of the controller.
  pub get_reg_str-put_reg_str :
      (z : ℤ)
      → Shows 16 r.issigned z
      → (mem' : Memory) × (put_reg_str (int_to_string z) adress mem ≡ some (pos 1, mem'))
        × (get_reg_str adress false mem' ≡ line_of (int_to_string z))
        × (get_reg_str adress true mem' ≡ line_of (value_text 16 r.issigned r.value))
  get_reg_str-put_reg_str z fits =
      let (rs, put, here) = update?-some mem.registers n (put_alternate (wrapped 16 z)) there in
      let mem' : Memory = record mem { registers = rs } in
      let written : put_at n (wrapped 16 z) mem ≡ some mem' =
        ap (λ o. o >>= λ rs. some (record mem { registers = rs })) put in
      let at : index_of adress mem' ≡ pos n =
        rw (lt→ltb 0 adress some_adress)
          (start_index-update? adress n (wrapped 16 z) mem.registers put ∙ start) in
      (
        mem',
        put_reg_str-of (int_to_string z) z mem' (read_back z (Shows16-InRange r.issigned z fits))
            written,
        get_reg_str-of false (put_alternate (wrapped 16 z) r) mem' at here
            ∙ ap line_of (wrapped-shown16 r.issigned z fits),
        get_reg_str-of true (put_alternate (wrapped 16 z) r) mem' at here,
      )
