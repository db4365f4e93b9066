-- ===== src/Memory/Clean.antt =====
-- memory.c: `clean` and `cleanalternate`.
pub mod Emptied
use epsolar_tracer_client.Base.{
  ℕ, zero, suc, ◌+◌, Option, none, some, Bool, true, false, ◌||◌, List, [], ◌∷◌, map, ◌==◌,
  if◌then◌else◌, replicate,
}
use epsolar_tracer_client.Memory.State.{
  Memory, Register, Coil, DiscreteInput, max_reg, max_coils, max_discrete_inputs,
}
use epsolar_tracer_client.Memory.Cells.{◌>>=◌}
use epsolar_tracer_client.Memory.Properties.{add_register_properties}
use epsolar_tracer_client.Memory.Tables.{reg_list, discrete_input_list, coil_list}

-- `cleanalternate`
pub clean_alternate : Memory → Memory
clean_alternate mem = record mem {
  registers =
      map {A = Register} (λ r. record r { have_alternate_value = false; alternate_value = 0xFFFF })
        mem.registers;
}

-- a register after the first loop
abbrev blank_register : Register → Register
blank_register r = record r {
  empty = true;
  have_header = false;
  have_alternate_value = false;
  adress = 0xFFFF;
  value = 0xFFFF;
  alternate_value = 0xFFFF;
  headersize = 0;
}

-- the addresses that hold signed values
abbrev is_signed : ℕ → Bool
is_signed a =
    a == 0x3110
    || a == 0x3111
    || a == 0x3112
    || a == 0x311B
    || a == 0x331B
    || a == 0x331C
    || a == 0x331D
    || a == 0x331E
    || a == 0x9018

abbrev list_register : ℕ → Register → Register
list_register a r = record r { adress = a; empty = false; issigned = is_signed a }

-- `while (list[n] != 0xFFFF) { if (n == MAX) break; ... n++; }`: the cells take the addresses in turn,
-- with `left` rounds to go up to MAX. `none` is an access outside the list or the array.
pub list_cells : {A : Type 0} → (ℕ → A → A) → ℕ → List ℕ → List A → Option (List A)
list_cells give left [] cells = none
list_cells give zero (a ∷ as') cells = some cells
list_cells give (suc left) (a ∷ as') [] = if a == 0xFFFF then some [] else none
list_cells give (suc left) (a ∷ as') (c ∷ cells) =
    let rest = list_cells give left as' cells >>= λ cs. some (give a c ∷ cs) in
    if a == 0xFFFF then some (c ∷ cells) else rest

pub clean_registers : List Register → Option (List Register)
clean_registers registers = list_cells list_register max_reg reg_list (map blank_register registers)

pub clean_discrete_inputs : List DiscreteInput → Option (List DiscreteInput)
clean_discrete_inputs inputs =
    list_cells (λ a d. record d { adress = a; empty = false }) max_discrete_inputs
      discrete_input_list
      (map {A = DiscreteInput} (λ d. record d { empty = true; adress = 0xFFFF; value = 0xFF })
        inputs)

pub clean_coils : List Coil → Option (List Coil)
clean_coils coils =
    list_cells (λ a c. record c { adress = a; empty = false }) max_coils coil_list
      (map {A = Coil} (λ c. record c { empty = true; adress = 0xFFFF; value = 0xFF }) coils)

-- `clean` up to its last statement, which reads the config file again where one is set: so this is
-- the whole function for a program that runs without a config file (`memoryfile` is empty). It
-- leaves the lengths of the device infos.
pub clean : Memory → Option Memory
clean mem = do
  registers ← clean_registers mem.registers
  coils ← clean_coils mem.coils
  inputs ← clean_discrete_inputs mem.discrete_inputs
  some (record mem {
    registers = add_register_properties registers;
    coils = coils;
    discrete_inputs = inputs;
    device_info1 = map (λ _. 0xFF) mem.device_info1;
    device_info2 = map (λ _. 0xFF) mem.device_info2;
    user_register = [];
    user_coil = [];
    user_switch = [];
  })
