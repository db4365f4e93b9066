-- ===== src/Memory/Clean/Emptied.antt =====
-- Memory/Clean: what `clean` leaves in the arrays.
use epsolar_tracer_client.Base.{
  ℕ, zero, suc, ◌≡◌, Bool, false, not, ◌&&◌, List, [], ◌∷◌, map, All, ◌==◌, some,
}
use epsolar_tracer_client.Memory.State.{
  Memory, Register, Coil, DiscreteInput, max_reg, max_coils, max_discrete_inputs,
}
use epsolar_tracer_client.Memory.Tables.{reg_list, discrete_input_list, coil_list}
use epsolar_tracer_client.Memory.Clean.{list_cells}

-- a list brought to the length `n` with 0xFFFF
abbrev pub padded : ℕ → List ℕ → List ℕ
padded zero l = []
padded (suc n) [] = 0xFFFF ∷ padded n []
padded (suc n) (a ∷ l) = a ∷ padded n l

-- The terminator 0xFFFF is the last entry of an address table, and only that.
abbrev ends : List ℕ → Bool
ends [] = false
ends (a ∷ []) = a == 0xFFFF
ends (a ∷ b ∷ l) = not (a == 0xFFFF) && ends (b ∷ l)

-- a register without a value, a header or a value of the user
abbrev pub IsBlank : Register → Type 0
IsBlank r = (r.value ≡ 0xFFFF) × ((r.have_header ≡ false) × (r.have_alternate_value ≡ false))

module _ {A : Type 0} (give : ℕ → A → A) (adress_of : A → ℕ) (P : A → Type 0)
    (given : (a : ℕ) (c : A) → adress_of (give a c) ≡ a)
    (keeps : (a : ℕ) (c : A) → P c → P (give a c)) where
  abbrev Fresh : A → Type 0
  Fresh c = (adress_of c ≡ 0xFFFF) × P c

  abbrev Listed : ℕ → List ℕ → List A → Type 0
  Listed left as' cells =
      (cs : List A) × ((list_cells give left as' cells ≡ some cs)
        × ((map adress_of cs ≡ padded left as') × All P cs))

-- The arrays after `clean`.
pub record IsEmptied (mem : Memory) : Type 0 where
  pub register_adresses : map (λ (r : Register). r.adress) mem.registers ≡ padded max_reg reg_list
  pub register_values : All IsBlank mem.registers
  pub coil_adresses : map (λ (c : Coil). c.adress) mem.coils ≡ padded max_coils coil_list
  pub coil_values : All (λ (c : Coil). c.value ≡ 0xFF) mem.coils
  pub input_adresses :
      map (λ (d : DiscreteInput). d.adress) mem.discrete_inputs
      ≡ padded max_discrete_inputs discrete_input_list
  pub input_values : All (λ (d : DiscreteInput). d.value ≡ 0xFF) mem.discrete_inputs
  pub no_user_registers : mem.user_register ≡ []
  pub no_user_coils : mem.user_coil ≡ []
  pub no_user_switches : mem.user_switch ≡ []
  pub info1_values : All (λ b. b ≡ 0xFF) mem.device_info1
  pub info2_values : All (λ b. b ≡ 0xFF) mem.device_info2
