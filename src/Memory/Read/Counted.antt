-- ===== src/Memory/Read/Counted.antt =====
-- Memory/Read: the number that `GetRegister` returns.
use epsolar_tracer_client.Base.{
  ℕ, suc, ◌+◌, ◌≤◌, ◌≡◌, refl, sym, ap, ℤ, pos, negsuc, failure, Bool, true, false, List, [], ◌∷◌,
  ◌++◌, length, leb, drop, if◌then◌else◌, inl, inr, ◌⊎◌, arith,
}
use epsolar_tracer_client.Memory.State.{Memory, Register}
use epsolar_tracer_client.Memory.Lookup.{get_reg_start_index}
use epsolar_tracer_client.Memory.Read.{read_cells, read_from, register_stop, shown, get_register}

-- How a round of the loop ends with a count.
round-counted :
    (stop full : Bool) (n k v : ℕ) (rest : ℤ × List ℕ) (out : List ℕ)
    → ◌≡◌ {A = ℤ × List ℕ}
        (if stop then (pos n, []) else if full then (failure, []) else (rest.0, (v ∷ []) ++ rest.1))
        (pos k, out)
    → ((n ≡ k) × (out ≡ [])) ⊎ ((full ≡ false) × ((rest.0 ≡ pos k) × (out ≡ v ∷ rest.1)))
round-counted true full n k v rest out h = inl (ground arith, sym (ap (λ t. t.1) h))
round-counted false true n k v rest out h = ground arith
round-counted false false n k v rest out h = inr (refl, (ap (λ t. t.0) h, sym (ap (λ t. t.1) h)))

module _ (endadress limit : ℕ) (alternate : Bool) where
  abbrev loop : List Register → ℕ → ℤ × List ℕ
  loop cells n = read_cells (register_stop endadress) (λ r. shown alternate r ∷ []) 1 limit cells n

  read_cells-counted :
      (n k : ℕ) (cells : List Register) (out : List ℕ)
      → n ≤ limit
      → loop cells n ≡ (pos k, out)
      → (k ≡ n + length out) × (k ≤ limit)
  unfolding read_cells
  read_cells-counted n k [] [] h e = ground arith
  read_cells-counted n k [] (b ∷ out) h e = ground arith
  read_cells-counted n k (r ∷ cells) out h e =
      let rest = loop cells (n + 1) in
      elim (round-counted (register_stop endadress r) (leb limit n) n k (shown alternate r) rest out
        e) [
          | inl t ↦ let l : length out ≡ 0 = ap length t.1 in omega (arith, t.0)
          | inr t ↦
              let inside : n + 1 ≤ limit = ground (arith, t.0) in
              let later =
                read_cells-counted (n + 1) k cells rest.1 inside (ap (λ z. (z, rest.1)) t.1.0) in
              let l : length out ≡ suc (length rest.1) = ap length t.1.1 in omega arith
        ]

  read_from-counted :
      (k : ℕ) (start : ℤ) (cells : List Register) (out : List ℕ)
      → read_from (register_stop endadress) (λ r. shown alternate r ∷ []) 1 limit start cells
        ≡ (pos k, out)
      → (k ≡ length out) × (k ≤ limit)
  read_from-counted k (negsuc i) cells out e = ground arith
  read_from-counted k (pos i) cells out e =
      omega (arith, read_cells-counted 0 k (drop i cells) out (omega arith) e)

  -- A count that `GetRegister` returns is the number of values stored, and no more than the array
  -- holds.
  pub get_register-counted :
      (startadress k : ℕ) (mem : Memory) (out : List ℕ)
      → get_register startadress endadress limit alternate mem ≡ (pos k, out)
      → (k ≡ length out) × (k ≤ limit)
  unfolding get_register
  get_register-counted startadress k mem out e =
      read_from-counted k (get_reg_start_index startadress mem.registers) mem.registers out e
