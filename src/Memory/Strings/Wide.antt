-- ===== src/Memory/Strings/Wide.antt =====
-- Memory/Strings: values in two registers, `PutRegStr32` and `GetRegStr32`.
use epsolar_tracer_client.Base.{
  ℕ, ◌+◌, ◌^◌, ◌<◌, ◌≡◌, ◌≢◌, refl, ap, ◌∙◌, ℤ, pos, negsuc, Bool, false, not, ◌&&◌, List, lt→ltb,
  u16, get_elem?, some, arith,
}
use epsolar_tracer_client.Text.{int_to_string, stoi, wrapped}
use epsolar_tracer_client.Text.Decimal.{InRange}
use epsolar_tracer_client.Memory.State.{Memory, Register}
use epsolar_tracer_client.Memory.Lookup.{get_reg_start_index}
use epsolar_tracer_client.Memory.Cells.{◌>>=◌, put_alternate}
use epsolar_tracer_client.Memory.Strings.{
  is_user_register, value_text, line_of, put_at, low_half, high_half, join32, get_reg_str32,
  put_reg_str32,
}
use epsolar_tracer_client.Memory.Strings.Updated.{
  update?-some, get_elem?-update?_ne, start_index-update?,
}
use epsolar_tracer_client.Memory.Strings.Roundtrip.{Shows, wrapped-shown32, read_back}

join32-halves : (w : ℕ) → w < 2 ^ 32 → join32 (high_half w) (low_half w) ≡ w
join32-halves w h = omega arith

wrapped32-lt : (z : ℤ) → wrapped 32 z < 2 ^ 32
wrapped32-lt (pos n) = omega arith
wrapped32-lt (negsuc n) = omega arith

-- whether two registers show a signed number
abbrev pub either_signed : Register → Register → Bool
either_signed hi lo = not (not hi.issigned && not lo.issigned)

module _ (adress n : ℕ) (lo hi : Register) (mem : Memory) (plain : is_user_register adress ≡ false)
    (some_adress : 0 < adress) (start : get_reg_start_index adress mem.registers ≡ pos n)
    (next : get_reg_start_index (u16 (adress + 1)) mem.registers ≡ pos (n + 1))
    (low : get_elem? mem.registers n ≡ some lo)
    (high : get_elem? mem.registers (n + 1) ≡ some hi) where
  get_reg_str32-of :
      (v w : ℕ) (mem' : Memory)
      → get_reg_start_index adress mem'.registers ≡ pos n
      → get_reg_start_index (u16 (adress + 1)) mem'.registers ≡ pos (n + 1)
      → get_elem? mem'.registers n ≡ some (put_alternate v lo)
      → get_elem? mem'.registers (n + 1) ≡ some (put_alternate w hi)
      → get_reg_str32 adress false mem'
        ≡ some (line_of (value_text 32 (either_signed hi lo) (join32 w v)))
  unfolding get_reg_str32
  get_reg_str32-of v w mem' at at' here here' =
      rw (plain, lt→ltb 0 adress some_adress, at', here', lt→ltb 0 adress some_adress, at, here)
        refl

  put_reg_str32-of :
      (value : List ℕ) (z : ℤ) (mem' mem'' : Memory)
      → stoi 10 value ≡ some z
      → put_at n (low_half (wrapped 32 z)) mem ≡ some mem'
      → put_at (n + 1) (high_half (wrapped 32 z)) mem' ≡ some mem''
      → put_reg_str32 value adress mem ≡ some (pos 1, mem'')
  unfolding put_reg_str32
  put_reg_str32-of value z mem' mem'' read put put' =
      rw (plain, lt→ltb 0 adress some_adress, start, next, read, put, put') refl

  -- For two neighbouring registers that are not the user's: where a number is an `int` that the
  -- two registers together can show, signed or not, `PutRegStr32` of its text succeeds, and
  -- `GetRegStr32` then prints the same text.
  pub get_reg_str32-put_reg_str32 :
      (z : ℤ)
      → InRange z
      → Shows 32 (either_signed hi lo) z
      → (mem'' : Memory) × (put_reg_str32 (int_to_string z) adress mem ≡ some (pos 1, mem''))
        × (get_reg_str32 adress false mem'' ≡ some (line_of (int_to_string z)))
  get_reg_str32-put_reg_str32 z range fits =
      let v = low_half (wrapped 32 z) in
      let w = high_half (wrapped 32 z) in
      let ne : n ≢ n + 1 = λ e. omega arith in
      let ne' : n + 1 ≢ n = λ e. omega arith in
      let (rs, put, here) = update?-some mem.registers n (put_alternate v) low in
      let high' : get_elem? rs (n + 1) ≡ some hi =
        get_elem?-update?_ne mem.registers n (n + 1) (put_alternate v) put ne ∙ high in
      let (rs', put', here') = update?-some rs (n + 1) (put_alternate w) high' in
      let low' : get_elem? rs' n ≡ some (put_alternate v lo) =
        get_elem?-update?_ne rs (n + 1) n (put_alternate w) put' ne' ∙ here in
      let mem' : Memory = record mem { registers = rs } in
      let mem'' : Memory = record mem { registers = rs' } in
      let moved : (a : ℕ) → get_reg_start_index a rs' ≡ get_reg_start_index a mem.registers = λ a.
        start_index-update? a (n + 1) w rs put' ∙ start_index-update? a n v mem.registers put in
      (
        mem'',
        put_reg_str32-of (int_to_string z) z mem' mem'' (read_back z range)
            (ap (λ o. o >>= λ rs. some (record mem { registers = rs })) put)
            (ap (λ o. o >>= λ rs. some (record mem { registers = rs })) put'),
        get_reg_str32-of v w mem'' (moved adress ∙ start) (moved (u16 (adress + 1)) ∙ next) low'
              here'
            ∙ ap (λ k. some (line_of (value_text 32 (either_signed hi lo) k)))
                (join32-halves (wrapped 32 z) (wrapped32-lt z))
            ∙ ap (λ t. some (line_of t)) (wrapped-shown32 (either_signed hi lo) z fits),
      )
