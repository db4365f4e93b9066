-- ===== src/Memory/SaveData/Roundtrip.antt =====
-- Memory/SaveData and Memory/Read: `Save` of registers, then `GetRegister`.
use epsolar_tracer_client.Memory.SaveData.{save_data, save_registers}
use epsolar_tracer_client.Base.{
  ℕ, zero, suc, ◌+◌, ◌-◌, ◌*◌, ◌≤◌, ◌<◌, ◌≡◌, refl, sym, ap, ◌∙◌, ℤ, pos, failure, Bool, true,
  false, List, [], ◌∷◌, ◌++◌, length, length-append, length-take, take, drop, leb, ltb,
  if◌then◌else◌, int16_bytes, Option, none, some, some_inj, pos_part, Bool-cases, ◌⊎◌, inl, inr,
  arith, All,
}
use epsolar_tracer_client.Common.{e_reg}
use epsolar_tracer_client.Memory.State.{Memory, Register, max_reg}
use epsolar_tracer_client.Memory.Lookup.{find_index, get_reg_start_index}
use epsolar_tracer_client.Memory.Invariant.{IsValid}
use epsolar_tracer_client.Memory.Cells.{put_register, int16_from, words_between}
use epsolar_tracer_client.Memory.Cells.Written.{
  put_all, store_cells_lem, word_bytes, IsWord, Reads-word_bytes,
}
use epsolar_tracer_client.Memory.Read.{read_cells, register_stop, shown, get_register_bytes}

-- Writing values does not change what the lookup compares.
find_index-put_all :
    (a n : ℕ) (values : List ℕ) (post : List Register)
    → find_index (λ r. r.adress) (λ r. r.empty) a (put_all put_register values post) n
      ≡ find_index (λ r. r.adress) (λ r. r.empty) a post n
unfolding find_index put_all
find_index-put_all a n [] post = refl
find_index-put_all a n (v ∷ values) [] = refl
find_index-put_all a n (v ∷ values) (r ∷ post) = rw (find_index-put_all a (n + 1) values post)

find_index-behind :
    (a n : ℕ) (values : List ℕ) (pre post : List Register)
    → find_index (λ r. r.adress) (λ r. r.empty) a (pre ++ put_all put_register values post) n
      ≡ find_index (λ r. r.adress) (λ r. r.empty) a (pre ++ post) n
unfolding find_index
find_index-behind a n values [] post = find_index-put_all a n values post
find_index-behind a n values (p ∷ pre) post = rw (find_index-behind a (n + 1) values pre post)

-- How a round of the reading loop ends with a count.
round-cases :
    (stop full : Bool) (n k : ℕ) (rest : ℤ × List ℕ) (bytes out : List ℕ)
    → ◌≡◌ {A = ℤ × List ℕ}
        (if stop then (pos n, []) else if full then (failure, []) else (rest.0, bytes ++ rest.1))
        (pos k, out)
    → ((n ≡ k) × (out ≡ [])) ⊎ ((stop ≡ false) × ((full ≡ false) × (rest.0 ≡ pos k)))
round-cases true full n k rest bytes out h = inl (ground arith, sym (ap (λ t. t.1) h))
round-cases false true n k rest bytes out h = ground arith
round-cases false false n k rest bytes out h = inr (refl, (refl, ap (λ t. t.0) h))

-- The reading loop never counts below where it starts.
read_cells-ge :
    (endadress limit n k : ℕ) (cells : List Register) (out : List ℕ)
    → read_cells (register_stop endadress) (λ r. int16_bytes (shown false r)) 2 limit cells n
      ≡ (pos k, out)
    → n ≤ k
unfolding read_cells
read_cells-ge endadress limit n k [] out h = ground arith
read_cells-ge endadress limit n k (r ∷ cells) out h =
    let rest =
      read_cells (register_stop endadress) (λ r. int16_bytes (shown false r)) 2 limit cells
        (n + 2) in
    elim (round-cases (register_stop endadress r) (leb limit n) n k rest
      (int16_bytes (shown false r)) out h) [
        | inl e ↦ omega arith
        | inr t ↦
            let e' =
              read_cells-ge endadress limit (n + 2) k cells (rest.1)
                (ap (λ z. (z, rest.1)) t.1.1) in
            omega arith
      ]

-- Where the loop reads as many registers as there are values, it reads the values once they have
-- been written.
read_cells-put_all :
    (endadress limit n k : ℕ) (values : List ℕ) (cells : List Register) (old : List ℕ)
    → k ≡ n + 2 * length values
    → read_cells (register_stop endadress) (λ r. int16_bytes (shown false r)) 2 limit cells n
      ≡ (pos k, old)
    → read_cells
        (register_stop endadress)
        (λ r. int16_bytes (shown false r))
        2
        limit
        (put_all put_register values cells)
        n
      ≡ (pos k, word_bytes values)
unfolding read_cells put_all
read_cells-put_all endadress limit n k [] [] old e h = ground arith
read_cells-put_all endadress limit n k [] (r ∷ cells) old e h =
    let rest =
      read_cells (register_stop endadress) (λ r. int16_bytes (shown false r)) 2 limit cells
        (n + 2) in
    elim (round-cases (register_stop endadress r) (leb limit n) n k rest
      (int16_bytes (shown false r)) old h) [
        | inl t ↦ h ∙ ap (λ z. (pos k, z)) t.1
        | inr t ↦
            let e' =
              read_cells-ge endadress limit (n + 2) k cells (rest.1)
                (ap (λ z. (z, rest.1)) t.1.1) in
            absurd (omega arith)
      ]
read_cells-put_all endadress limit n k (v ∷ values) [] old e h = ground arith
read_cells-put_all endadress limit n k (v ∷ values) (r ∷ cells) old e h =
    let rest =
      read_cells (register_stop endadress) (λ r. int16_bytes (shown false r)) 2 limit cells
        (n + 2) in
    elim (round-cases (register_stop endadress r) (leb limit n) n k rest
      (int16_bytes (shown false r)) old h) [
        | inl t ↦ absurd (omega (arith, t.0))
        | inr t ↦
            let same =
              read_cells-put_all endadress limit (n + 2) k values cells (rest.1) (omega arith)
                (ap (λ z. (z, rest.1)) t.1.1) in
            let full : leb limit n ≡ false = t.1.0 in
            let go : register_stop endadress (put_register v r) ≡ false = t.0 in
            rw (go, full, same) refl
      ]

-- It counts at most two for each cell.
pub read_cells-le :
    (endadress limit n k : ℕ) (cells : List Register) (out : List ℕ)
    → read_cells (register_stop endadress) (λ r. int16_bytes (shown false r)) 2 limit cells n
      ≡ (pos k, out)
    → k ≤ n + 2 * length cells
unfolding read_cells
read_cells-le endadress limit n k [] out h = ground arith
read_cells-le endadress limit n k (r ∷ cells) out h =
    let rest =
      read_cells (register_stop endadress) (λ r. int16_bytes (shown false r)) 2 limit cells
        (n + 2) in
    elim (round-cases (register_stop endadress r) (leb limit n) n k rest
      (int16_bytes (shown false r)) out h) [
        | inl e ↦ omega (arith, e.0)
        | inr t ↦
            let e' =
              read_cells-le endadress limit (n + 2) k cells (rest.1)
                (ap (λ z. (z, rest.1)) t.1.1) in
            omega arith
      ]

round-out :
    (stop full : Bool) (n k : ℕ) (rest : ℤ × List ℕ) (bytes out : List ℕ)
    → stop ≡ false
    → full ≡ false
    → ◌≡◌ {A = ℤ × List ℕ}
        (if stop then (pos n, []) else if full then (failure, []) else (rest.0, bytes ++ rest.1))
        (pos k, out)
    → bytes ++ rest.1 ≡ out
round-out true full n k rest bytes out e e' h = ground arith
round-out false true n k rest bytes out e e' h = ground arith
round-out false false n k rest bytes out e e' h = ap (λ t. t.1) h

-- It counts the bytes that it stores.
read_cells-length :
    (endadress limit n k : ℕ) (cells : List Register) (out : List ℕ)
    → read_cells (register_stop endadress) (λ r. int16_bytes (shown false r)) 2 limit cells n
      ≡ (pos k, out)
    → length out + n ≡ k
unfolding read_cells
read_cells-length endadress limit n k [] out h =
    omega (arith, sym (ap (λ t. length t.1) h), ap (λ t. pos_part t.0) h)
read_cells-length endadress limit n k (r ∷ cells) out h =
    let rest =
      read_cells (register_stop endadress) (λ r. int16_bytes (shown false r)) 2 limit cells
        (n + 2) in
    elim (round-cases (register_stop endadress r) (leb limit n) n k rest
      (int16_bytes (shown false r)) out h) [
        | inl e ↦ omega (arith, e.0, ap (λ l. length l) e.1)
        | inr t ↦
            let e' =
              read_cells-length endadress limit (n + 2) k cells (rest.1)
                (ap (λ z. (z, rest.1)) t.1.1) in
            let o =
              round-out (register_stop endadress r) (leb limit n) n k rest
                (int16_bytes (shown false r)) out t.0 t.1.0 h in
            omega (arith, e', sym (ap (λ l. length l) o))
      ]

-- what the array of `GetRegister` holds where it returns
pub in_array :
    (limit : ℕ) (r : ℤ × List ℕ) {k : ℤ} {out : List ℕ}
    → ◌≡◌ {A = Option (ℤ × List ℕ)}
        (if ltb limit (length r.1) then none else some (r.0, r.1))
        (some (k, out))
    → (length out ≤ limit) × (r ≡ (k, out))
in_array limit r {k} {out} h = elim (Bool-cases (ltb limit (length r.1))) [
  | inl long ↦
      let h' : ◌≡◌ {A = Option (ℤ × List ℕ)} none (some (k, out)) = rw long at h in ground arith
  | inr fits ↦
      let h' : ◌≡◌ {A = Option (ℤ × List ℕ)} (some (r.0, r.1)) (some (k, out)) = rw fits at h in
      let e : r ≡ (k, out) = some_inj h' in
      let inside : length r.1 ≤ limit = ground arith in
      (omega (arith, sym (ap (λ (t : ℤ × List ℕ). length t.1) e), inside), e)
]

pub split_at : {A : Type 0} (i : ℕ) (l : List A) → l ≡ take i l ++ drop i l
split_at zero l = refl
split_at (suc i) [] = refl
split_at (suc i) (x ∷ l) = ap (λ z. x ∷ z) (split_at i l)

drop-behind : {A : Type 0} (pre post : List A) → drop (length pre) (pre ++ post) ≡ post
drop-behind [] post = refl
drop-behind (p ∷ pre) post = drop-behind pre post

pub length-word_bytes_lem : (ws : List ℕ) → length (word_bytes ws) ≡ 2 * length ws
length-word_bytes_lem [] = refl
length-word_bytes_lem (w ∷ ws) = omega (arith, length-word_bytes_lem ws)

half_even : (n : ℕ) → words_between 0 (2 * n) ≡ n
half_even n = omega arith

start-put_all :
    (start i : ℕ) (values : List ℕ) (pre post : List Register)
    → get_reg_start_index start (pre ++ post) ≡ pos i
    → get_reg_start_index start (pre ++ put_all put_register values post) ≡ pos i
start-put_all start i values pre post h = rw (find_index-behind start 0 values pre post) h

-- The start address is that of the first register of `post`, and a read of it takes `ws`-many
-- registers.
module _ (start endadress limit : ℕ) (ws rest old : List ℕ) (pre post : List Register)
    (mem : Memory) (e : mem.registers ≡ pre ++ post)
    (at : get_reg_start_index start (pre ++ post) ≡ pos (length pre))
    (h : read_cells (register_stop endadress) (λ r. int16_bytes (shown false r)) 2 limit post 0
      ≡ (pos (2 * length ws), old))
    (fits : length old ≤ limit) where
  save_registers-split :
      length mem.registers ≡ max_reg
      → All IsWord ws
      → save_registers put_register start (2 * length ws) (word_bytes ws ++ rest) mem
        ≡ some (pos (length ws), record mem { registers = pre ++ put_all put_register ws post })
  unfolding save_registers
  save_registers-split len words =
      let few = read_cells-le endadress limit 0 (2 * length ws) post old h in
      let all : length (pre ++ post) ≡ max_reg = sym (ap length e) ∙ len in
      let both = length-append pre post in
      let stored =
        store_cells_lem (some max_reg) put_register (int16_from (word_bytes ws ++ rest)) 2 ws 0
          (length pre) (length pre + length ws) pre post (Reads-word_bytes ws [] rest 0 words refl)
          refl (omega arith) refl (λ i l. ground arith) in
      let count : (length pre + length ws) - length pre ≡ length ws = omega arith in
      rw (e, at, half_even (length ws), stored, count) refl

  pub read-written :
      get_register_bytes start endadress limit false
        (record mem { registers = pre ++ put_all put_register ws post })
      ≡ some (pos (2 * length ws), word_bytes ws)
  unfolding get_register_bytes
  read-written =
      let counted = read_cells-length endadress limit 0 (2 * length ws) post old h in
      let inside : ltb limit (length (word_bytes ws)) ≡ false =
        ground (arith, length-word_bytes_lem ws, fits, counted) in
      rw
        (
          start-put_all start (length pre) ws pre post at,
          drop-behind pre (put_all put_register ws post),
          read_cells-put_all endadress limit 0 (2 * length ws) ws post old (omega arith) h,
          inside,
        )
        refl

find_index-lt :
    (a n i : ℕ) (cells : List Register)
    → find_index (λ r. r.adress) (λ r. r.empty) a cells n ≡ pos i
    → i < n + length cells
unfolding find_index
find_index-lt a n i [] h = ground arith
find_index-lt a n i (c ∷ cells) h =
    let later = find_index-lt a (n + 1) i cells in ground (arith, later)

pub start-le :
    (start i : ℕ) (cells : List Register)
    → get_reg_start_index start cells ≡ pos i
    → i ≤ length cells
start-le start i cells h = let e = find_index-lt start 0 i cells in ground (arith, e)

pub start-lt :
    (start i : ℕ) (cells : List Register)
    → 1 ≤ length cells
    → get_reg_start_index start cells ≡ pos i
    → i < length cells
start-lt start i cells some_cell h = let e = find_index-lt start 0 i cells in ground (arith, e)

pub length-take_le : (i : ℕ) (l : List Register) → i ≤ length l → length (take i l) ≡ i
length-take_le i l h = omega (arith, length-take i l)

-- On a valid memory, where `GetRegister` (without alternate values) reads as many registers as
-- there are 16-bit words `ws`, from a start address that has an index: `Save` of the words' bytes
-- as `eReg` at that address returns their number, and then the same `GetRegister` returns exactly
-- the saved bytes. Bytes of the payload behind the given length make no difference.
pub get_register_bytes-save_data :
    (start endadress limit i : ℕ) (ws rest old : List ℕ) (mem : Memory)
    → IsValid mem
    → get_reg_start_index start mem.registers ≡ pos i
    → All IsWord ws
    → get_register_bytes start endadress limit false mem ≡ some (pos (2 * length ws), old)
    → (mem' : Memory) × ((save_data e_reg start (2 * length ws) (word_bytes ws ++ rest) mem
          ≡ some (pos (length ws), mem'))
        × (get_register_bytes start endadress limit false mem'
            ≡ some (pos (2 * length ws), word_bytes ws)))
unfolding save_data get_register_bytes
get_register_bytes-save_data start endadress limit i ws rest old mem valid at words h =
    let pre = take i mem.registers in
    let post = drop i mem.registers in
    let e : mem.registers ≡ pre ++ post = split_at i mem.registers in
    let n : length pre ≡ i = length-take_le i mem.registers (start-le start i mem.registers at) in
    let at' : get_reg_start_index start (pre ++ post) ≡ pos (length pre) =
      ap (get_reg_start_index start) (sym e) ∙ at ∙ ap pos (sym n) in
    let (fits, got) = in_array limit _ h in
    let h' : read_cells (register_stop endadress) (λ r. int16_bytes (shown false r)) 2 limit post 0
        ≡ (pos (2 * length ws), old) =
      (rw at at got) in
    (
      record mem { registers = pre ++ put_all put_register ws post },
      (
        save_registers-split start endadress limit ws rest old pre post mem e at' h' fits
            valid.register_count words,
        read-written start endadress limit ws rest old pre post mem e at' h' fits,
      ),
    )
