-- ===== src/Memory/Invariant.antt =====
-- The representation invariant of `cMemory`: each array has the size that memory.h gives it, and a
-- stored device info fits its array.
use epsolar_tracer_client.Base.{ℕ, ◌≤◌, ◌≡◌, ℤ, pos_part, List, All, length, arith}
use epsolar_tracer_client.Memory.State.{
  Memory, Register, Coil, DiscreteInput, max_reg, max_coils, max_discrete_inputs,
  max_dev_info_lenght,
}
use epsolar_tracer_client.Memory.Cells.Sizes.{HasHeaderArray}

pub record IsValid (mem : Memory) : Type 0 where
  pub register_count : length mem.registers ≡ max_reg
  pub headers : All HasHeaderArray mem.registers
  pub coil_count : length mem.coils ≡ max_coils
  pub input_count : length mem.discrete_inputs ≡ max_discrete_inputs
  pub info1_size : length mem.device_info1 ≡ max_dev_info_lenght
  pub info2_size : length mem.device_info2 ≡ max_dev_info_lenght
  pub info1_fits : pos_part mem.device_info1_lenght ≤ max_dev_info_lenght
  pub info2_fits : pos_part mem.device_info2_lenght ≤ max_dev_info_lenght

-- The invariant after one array has been replaced.
module _ {mem : Memory} (v : IsValid mem) where
  pub with_registers-IsValid :
      (registers : List Register)
      → length registers ≡ length mem.registers
      → All HasHeaderArray registers
      → IsValid (record mem { registers = registers })
  with_registers-IsValid registers len headers = ground arith

  pub with_coils-IsValid :
      (coils : List Coil) → length coils ≡ length mem.coils → IsValid (record mem { coils = coils })
  with_coils-IsValid coils len = ground arith

  pub with_inputs-IsValid :
      (inputs : List DiscreteInput)
      → length inputs ≡ length mem.discrete_inputs
      → IsValid (record mem { discrete_inputs = inputs })
  with_inputs-IsValid inputs len = ground arith

  pub with_info1-IsValid :
      (lenght : ℤ) (info : List ℕ)
      → length info ≡ length mem.device_info1
      → pos_part lenght ≤ max_dev_info_lenght
      → IsValid (record mem { device_info1_lenght = lenght; device_info1 = info })
  with_info1-IsValid lenght info len fits = ground arith

  pub with_info2-IsValid :
      (lenght : ℤ) (info : List ℕ)
      → length info ≡ length mem.device_info2
      → pos_part lenght ≤ max_dev_info_lenght
      → IsValid (record mem { device_info2_lenght = lenght; device_info2 = info })
  with_info2-IsValid lenght info len fits = ground arith
