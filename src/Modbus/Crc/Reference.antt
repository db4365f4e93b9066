-- ===== src/Modbus/Crc/Reference.antt =====
-- The checksum of the Modbus standard, bit by bit, beside the tables of modbus.c.
use epsolar_tracer_client.Base.{
  ℕ, zero, suc, ◌+◌, ◌*◌, ◌/◌, ◌%◌, ◌^◌, ◌<◌, bit_xor, ◌≡◌, refl, ap, sym, ◌∙◌, List, [], ◌∷◌, Bool,
  true, false, ◌&&◌, ◌==◌, get_or, ltb, length, All, IsByte, arith,
}
use epsolar_tracer_client.Base.Bits.{
  zero-bit_xor, bit_xor_fields, bit_xor-lt, half-bit_xor, last-bit_xor, bit_xor_swap, bit_xor_comm,
}
use mathlib.Core.Path.{◌≡⟨◌⟩◌, ◌∎}
use native.Mathlib.Nat.{add-zero}
use epsolar_tracer_client.Modbus.Tables.{table_crc_hi, table_crc_lo}
use epsolar_tracer_client.Modbus.Crc.{Crc, crc_round, crc_loop, crc_start, crc16}

-- Shift right by one bit; a bit that falls out brings in the polynomial 0xA001.
shift : ℕ → ℕ
shift w = bit_xor (w / 2) (w % 2 * 0xA001)

shifts : ℕ → ℕ → ℕ
shifts zero w = w
shifts (suc n) w = shifts n (shift w)

pub reference_round : ℕ → ℕ → ℕ
reference_round w b = shifts 8 (bit_xor w b)

pub reference_loop : ℕ → List ℕ → ℕ
reference_loop w [] = w
reference_loop w (b ∷ bs) = reference_loop (reference_round w b) bs

-- the register of the standard after all bytes
pub reference : List ℕ → ℕ
reference bs = reference_loop 0xFFFF bs

-- choosing the polynomial by a digit
select-bit_xor :
    (p q : ℕ) → p < 2 → q < 2 → (p + q) % 2 * 0xA001 ≡ bit_xor (p * 0xA001) (q * 0xA001)
select-bit_xor zero zero h k = refl
select-bit_xor zero (suc zero) h k = refl
select-bit_xor (suc zero) zero h k = refl
select-bit_xor (suc zero) (suc zero) h k = refl
select-bit_xor zero (suc (suc q)) h k = absurd (omega arith)
select-bit_xor (suc zero) (suc (suc q)) h k = absurd (omega arith)
select-bit_xor (suc (suc p)) q h k = absurd (omega arith)

shift-bit_xor : (a b : ℕ) → shift (bit_xor a b) ≡ bit_xor (shift a) (shift b)
unfolding shift
shift-bit_xor a b =
    rw
      (
        half-bit_xor a b,
        last-bit_xor a b,
        select-bit_xor (a % 2) (b % 2) (omega arith) (omega arith),
      )
      (bit_xor_swap (a / 2) (b / 2) (a % 2 * 0xA001) (b % 2 * 0xA001))

shifts-bit_xor : (n a b : ℕ) → shifts n (bit_xor a b) ≡ bit_xor (shifts n a) (shifts n b)
unfolding shifts
shifts-bit_xor zero a b = refl
shifts-bit_xor (suc n) a b = rw (shift-bit_xor a b) (shifts-bit_xor n (shift a) (shift b))

shift_even : (q : ℕ) → shift (q * 2) ≡ q
unfolding shift
shift_even q =
    let e : q * 2 / 2 ≡ q = omega arith in
    let d : q * 2 % 2 ≡ 0 = omega arith in rw (e, d) (bit_xor_comm q 0 ∙ zero-bit_xor q)

-- The byte above the lowest comes down.
shifts_high : (q : ℕ) → shifts 8 (q * 256) ≡ q
unfolding shifts
shifts_high q =
    let e : q * 256 ≡ q * 2 * 2 * 2 * 2 * 2 * 2 * 2 * 2 = omega arith in
    rw (
      e,
      shift_even (q * 2 * 2 * 2 * 2 * 2 * 2 * 2),
      shift_even (q * 2 * 2 * 2 * 2 * 2 * 2),
      shift_even (q * 2 * 2 * 2 * 2 * 2),
      shift_even (q * 2 * 2 * 2 * 2),
      shift_even (q * 2 * 2 * 2),
      shift_even (q * 2 * 2),
      shift_even (q * 2),
      shift_even q,
    )

-- Row `i` of the tables holds the register after eight shifts of `i`, and both parts are bytes.
abbrev IsRow : ℕ → ℕ → ℕ → Type 0
IsRow i h l = (shifts 8 i ≡ l * 256 + h) × (h < 256) × (l < 256)

is_row : ℕ → ℕ → ℕ → Bool
is_row i h l = (shifts 8 i == l * 256 + h) && ltb h 256 && ltb l 256

is_row-IsRow : (i h l : ℕ) → is_row i h l ≡ true → IsRow i h l
unfolding is_row
is_row-IsRow i h l e = ground arith

rows : ℕ → List ℕ → List ℕ → Bool
rows i [] ls = true
rows i (h ∷ hs) [] = false
rows i (h ∷ hs) (l ∷ ls) = is_row i h l && rows (i + 1) hs ls

rows_checked : rows 0 table_crc_hi table_crc_lo ≡ true
unfolding rows is_row shifts shift
rows_checked = refl

rows-IsRow :
    (i j k : ℕ) (hs ls : List ℕ)
    → rows i hs ls ≡ true
    → k < length hs
    → j ≡ i + k
    → IsRow j (get_or hs k 0) (get_or ls k 0)
unfolding rows
rows-IsRow i j k [] ls r h e = absurd (omega arith)
rows-IsRow i j k (h ∷ hs) [] r b e = cc
rows-IsRow i j zero (h ∷ hs) (l ∷ ls) r b e =
    let e' : j ≡ i = omega arith in rw e' (ground (arith, is_row-IsRow i h l))
rows-IsRow i j (suc k) (h ∷ hs) (l ∷ ls) r b e = ground (arith, rows-IsRow (i + 1) j k hs ls)

table-IsRow : (i : ℕ) → i < 256 → IsRow i (get_or table_crc_hi i 0) (get_or table_crc_lo i 0)
table-IsRow i h = rows-IsRow 0 i i table_crc_hi table_crc_lo rows_checked h (omega arith)

-- the register of the standard that the loop's two variables stand for
abbrev register : Crc → ℕ
register c = c.crc_lo * 256 + c.crc_hi

abbrev IsCrc : Crc → Type 0
IsCrc c = (c.crc_hi < 256) × (c.crc_lo < 256)

regroup :
    (hi lo b : ℕ)
    → hi < 256
    → b < 256
    → bit_xor (lo * 256) (bit_xor hi b) ≡ bit_xor (lo * 256 + hi) b
regroup hi lo b hh hb =
    let i = bit_xor hi b in
    let hi' : i < 256 = bit_xor-lt 8 hi b hh hb in
    omega (
      arith,
      ap (λ t. bit_xor t i) (add-zero (lo * 256)),
      bit_xor_fields 8 lo 0 i (omega arith) hi',
      bit_xor_fields 8 lo hi b hh hb,
      zero-bit_xor i,
    )

register_round :
    (hi lo b th tl : ℕ)
    → hi < 256
    → b < 256
    → lo < 256
    → IsRow (bit_xor hi b) th tl
    → tl * 256 + bit_xor lo th ≡ shifts 8 (bit_xor (lo * 256 + hi) b)
register_round hi lo b th tl hh hb hl row =
    tl * 256 + bit_xor lo th
    ≡⟨ ap (λ t. tl * 256 + t) (bit_xor_comm lo th) ⟩ tl * 256 + bit_xor th lo
    ≡⟨ sym (bit_xor_fields 8 tl th lo row.1 hl) ⟩ bit_xor (tl * 256 + th) lo
    ≡⟨ ap (λ t. bit_xor t lo) (sym row.0) ⟩ bit_xor (shifts 8 (bit_xor hi b)) lo
    ≡⟨ bit_xor_comm (shifts 8 (bit_xor hi b)) lo ⟩ bit_xor lo (shifts 8 (bit_xor hi b))
    ≡⟨ ap (λ t. bit_xor t (shifts 8 (bit_xor hi b))) (sym (shifts_high lo)) ⟩
      bit_xor (shifts 8 (lo * 256)) (shifts 8 (bit_xor hi b))
    ≡⟨ sym (shifts-bit_xor 8 (lo * 256) (bit_xor hi b)) ⟩
      shifts 8 (bit_xor (lo * 256) (bit_xor hi b))
    ≡⟨ ap (shifts 8) (regroup hi lo b hh hb) ⟩ shifts 8 (bit_xor (lo * 256 + hi) b) ∎

-- One round of the loop is one round of the standard.
crc_round_lem :
    (c : Crc) (b : ℕ)
    → IsCrc c
    → b < 256
    → (register (crc_round c b) ≡ reference_round (register c) b) × IsCrc (crc_round c b)
unfolding crc_round reference_round
crc_round_lem c b v hb =
    let hi : bit_xor c.crc_hi b < 256 = bit_xor-lt 8 c.crc_hi b v.0 hb in
    let row = table-IsRow (bit_xor c.crc_hi b) hi in
    (
      register_round c.crc_hi c.crc_lo b (get_or table_crc_hi (bit_xor c.crc_hi b) 0)
          (get_or table_crc_lo (bit_xor c.crc_hi b) 0) v.0 hb v.1 row,
      (bit_xor-lt 8 c.crc_lo (get_or table_crc_hi (bit_xor c.crc_hi b) 0) v.1 row.1, row.2),
    )

crc_loop_lem :
    (c : Crc) (bs : List ℕ)
    → IsCrc c
    → All IsByte bs
    → (register (crc_loop c bs) ≡ reference_loop (register c) bs) × IsCrc (crc_loop c bs)
unfolding crc_loop reference_loop
crc_loop_lem c [] v h = (refl, v)
crc_loop_lem c (b ∷ bs) v h =
    let (e, v') = crc_round_lem c b v h.0 in
    let (e', v'') = crc_loop_lem (crc_round c b) bs v' h.1 in
    (e' ∙ ap (λ w. reference_loop w bs) e, v'')

-- For every message of bytes, the tables compute the checksum of the Modbus standard, with its two
-- bytes exchanged (the low byte is sent first).
pub crc16-eq-reference :
    (bs : List ℕ) → All IsByte bs → crc16 bs ≡ reference bs % 256 * 256 + reference bs / 256
unfolding crc16 reference
crc16-eq-reference bs h = omega (arith, crc_loop_lem crc_start bs (omega arith) h)

pub crc16-lt : (bs : List ℕ) → All IsByte bs → crc16 bs < 2 ^ 16
unfolding crc16
crc16-lt bs h = omega (arith, crc_loop_lem crc_start bs (omega arith) h)
