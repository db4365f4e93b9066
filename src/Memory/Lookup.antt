-- ===== src/Memory/Lookup.antt =====
-- memory.c: the index of an address.
use epsolar_tracer_client.Base.{
  ℕ, ◌+◌, ℤ, pos, failure, Bool, List, [], ◌∷◌, ◌==◌, leb, if◌then◌else◌, get_elem?, none, some,
}
use epsolar_tracer_client.Memory.State.{Memory, Register, Coil, DiscreteInput, max_reg}

-- The loop of the three functions below, from index `n` on: the first cell with the address, given
-- up at the first empty cell.
unfoldable pub find_index {ℓ} : {A : Type ℓ} → (A → ℕ) → (A → Bool) → ℕ → List A → ℕ → ℤ
find_index adress_of is_empty adress [] n = failure
find_index adress_of is_empty adress (c ∷ cs) n =
    if adress_of c == adress
    then pos n
    else if is_empty c
    then failure
    else find_index adress_of is_empty adress cs (n + 1)

-- `GetRegStartIndex`
abbrev pub get_reg_start_index : ℕ → List Register → ℤ
get_reg_start_index registeradress registers =
    if registeradress == 0x0000
    then pos 0
    else find_index (λ r. r.adress) (λ r. r.empty) registeradress registers 0

-- `GetDiscStartIndex`
abbrev pub get_disc_start_index : ℕ → List DiscreteInput → ℤ
get_disc_start_index discadress inputs =
    if discadress == 0x0000
    then pos 0
    else find_index (λ d. d.adress) (λ d. d.empty) discadress inputs 0

-- `GetCoilStartIndex`
abbrev pub get_coil_start_index : ℕ → List Coil → ℤ
get_coil_start_index coiladress coils =
    if coiladress == 0x0000
    then pos 0
    else find_index (λ c. c.adress) (λ c. c.empty) coiladress coils 0

-- `GetRegisterAdress` at an index that is not negative
pub get_register_adress : ℕ → Memory → ℕ
get_register_adress index mem =
    if leb max_reg index
    then 0
    else elim (get_elem? mem.registers index) [ none ↦ 0 | some r ↦ r.adress ]
