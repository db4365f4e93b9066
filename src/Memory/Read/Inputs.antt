-- ===== src/Memory/Read/Inputs.antt =====
-- Memory/Read: the end address of `GetDiscInp`.
use epsolar_tracer_client.Base.{
  ℕ, zero, suc, ◌+◌, ◌≤◌, ◌≡◌, refl, ℤ, pos, negsuc, false, ◌||◌, List, [], ◌∷◌, IsByte, All, ltb,
  drop, arith,
}
use epsolar_tracer_client.Memory.State.{Memory, DiscreteInput}
use epsolar_tracer_client.Memory.Lookup.{get_disc_start_index}
use epsolar_tracer_client.Memory.Read.{read_cells, read_from, get_disc_inp}

-- values fit the `uint8_t` that holds them
abbrev pub HasByte : DiscreteInput → Type 0
HasByte d = IsByte d.value

abbrev read_inputs : ℕ → ℕ → List DiscreteInput → ℕ → ℤ × List ℕ
read_inputs endadress limit cells n =
    read_cells (λ d. ltb endadress d.value || d.empty) (λ d. d.value ∷ []) 1 limit cells n

read_inputs-endadress :
    (endadress endadress' limit n : ℕ) (cells : List DiscreteInput)
    → All HasByte cells
    → 255 ≤ endadress
    → 255 ≤ endadress'
    → read_inputs endadress limit cells n ≡ read_inputs endadress' limit cells n
unfolding read_cells
read_inputs-endadress e e' limit n [] bytes h h' = refl
read_inputs-endadress e e' limit n (d ∷ cells) bytes h h' =
    let below : ltb e d.value ≡ false = ground (arith, bytes.0) in
    let below' : ltb e' d.value ≡ false = ground (arith, bytes.0) in
    rw (below, below', read_inputs-endadress e e' limit (n + 1) cells bytes.1 h h')

All-drop : (i : ℕ) (cells : List DiscreteInput) → All HasByte cells → All HasByte (drop i cells)
All-drop zero cells h = h
All-drop (suc i) [] h = tt
All-drop (suc i) (c ∷ cells) h = All-drop i cells h.1

read_from-endadress :
    (e e' limit : ℕ) (start : ℤ) (cells : List DiscreteInput)
    → All HasByte cells
    → 255 ≤ e
    → 255 ≤ e'
    → read_from (λ d. ltb e d.value || d.empty) (λ d. d.value ∷ []) 1 limit start cells
      ≡ read_from (λ d. ltb e' d.value || d.empty) (λ d. d.value ∷ []) 1 limit start cells
read_from-endadress e e' limit (negsuc i) cells bytes h h' = refl
read_from-endadress e e' limit (pos i) cells bytes h h' =
    read_inputs-endadress e e' limit 0 (drop i cells) (All-drop i cells bytes) h h'

-- Where the values of the discrete inputs are bytes, `GetDiscInp` gives the same for every two
-- end addresses from 255 on, also for addresses of inputs like 0x2000 and 0x200C: the end address
-- does not end the range.
pub get_disc_inp-endadress :
    (startadress endadress endadress' discinplenght : ℕ) (mem : Memory)
    → All HasByte mem.discrete_inputs
    → 255 ≤ endadress
    → 255 ≤ endadress'
    → get_disc_inp startadress endadress discinplenght mem
      ≡ get_disc_inp startadress endadress' discinplenght mem
unfolding get_disc_inp
get_disc_inp-endadress startadress e e' discinplenght mem bytes h h' =
    read_from-endadress e e' discinplenght (get_disc_start_index startadress mem.discrete_inputs)
      mem.discrete_inputs bytes h h'
