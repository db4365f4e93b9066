-- ===== src/Memory/SaveResponse.antt =====
-- memory.c: `Save` of a response of the charge controller.
pub mod Valid
pub mod Roundtrip
use epsolar_tracer_client.Base.{
  ℕ, zero, suc, ◌+◌, ◌-◌, ℤ, pos, negsuc, sub_ℕ, failure, ◌||◌, List, ◌==◌, if◌then◌else◌,
  get_elem?, Option, none, some,
}
use epsolar_tracer_client.Memory.State.{Memory}
use epsolar_tracer_client.Memory.Lookup.{
  get_reg_start_index, get_disc_start_index, get_coil_start_index,
}
use epsolar_tracer_client.Memory.Cells.{
  ◌>>=◌, int16_from, copy_bytes, Stored, store_cells, put_register, put_coil, put_discrete_input,
  words_between, put_header, change_register,
}

-- What the loops without a bound check return: `m + 1 - startindex`. A start index of -1 faults at
-- the first write.
abbrev pub store_unchecked :
    {A : Type 0} → (ℕ → List A → Option (Stored A)) → ℕ → ℤ → List A → Option (ℤ × List A)
store_unchecked store count (pos i) cells =
    store i cells >>= λ r. some (elim r.0 [ none ↦ failure | some m ↦ pos (m + 1 - i) ], r.1)
store_unchecked store zero (negsuc i) cells = some (pos 1, cells)
store_unchecked store (suc count) (negsuc i) cells = none

-- `case 0x2B`: the device info that `resp[3]` names, without the two bytes of the checksum.
unfoldable pub save_identification : List ℕ → ℕ → Memory → Option (ℤ × Memory)
save_identification resp lenght mem = do
  which ← get_elem? resp 3
  let kept = lenght - 2
  let ret = pos (kept + 1)
  if which == 0x01
      then (do
        info ← copy_bytes kept 0 resp mem.device_info1
        some (ret, record mem { device_info1_lenght = sub_ℕ lenght 2; device_info1 = info }))
      else if which == 0x02
      then (do
        info ← copy_bytes kept 0 resp mem.device_info2
        some (ret, record mem { device_info2_lenght = sub_ℕ lenght 2; device_info2 = info }))
      else some (ret, mem)

-- `case 0x43`: the header to the first register, then the values behind it.
unfoldable pub save_block : List ℕ → ℕ → ℕ → List ℕ → Memory → Option (ℤ × Memory)
save_block resp lenght headerlenght req mem = do
  startadress ← int16_from req 2
  let startindex = get_reg_start_index startadress mem.registers
  registers ← change_register startindex (put_header headerlenght resp) mem.registers
  let count = words_between headerlenght (lenght - 2)
  (ret, registers') ←
      store_unchecked (λ i. store_cells none put_register (int16_from resp) 2 count headerlenght i)
        count startindex registers
  some (ret, record mem { registers = registers' })

-- `case 0x02`
unfoldable pub save_input_status : List ℕ → ℕ → ℕ → List ℕ → Memory → Option (ℤ × Memory)
save_input_status resp lenght headerlenght req mem = do
  discadress ← int16_from req 2
  let count = lenght - 2 - headerlenght
  (ret, inputs) ←
      store_unchecked
        (λ i. store_cells none put_discrete_input (get_elem? resp) 1 count headerlenght i) count
        (get_disc_start_index discadress mem.discrete_inputs) mem.discrete_inputs
  some (ret, record mem { discrete_inputs = inputs })

-- `case 0x01`
unfoldable pub save_coil_status : List ℕ → ℕ → ℕ → List ℕ → Memory → Option (ℤ × Memory)
save_coil_status resp lenght headerlenght req mem = do
  coiladress ← int16_from req 2
  let count = lenght - 2 - headerlenght
  (ret, coils) ←
      store_unchecked (λ i. store_cells none put_coil (get_elem? resp) 1 count headerlenght i) count
        (get_coil_start_index coiladress mem.coils) mem.coils
  some (ret, record mem { coils = coils })

-- `case 0x04` and `case 0x03`: one register
unfoldable pub save_single : List ℕ → ℕ → List ℕ → Memory → Option (ℤ × Memory)
save_single resp headerlenght req mem = do
  registeradress ← int16_from req 2
  value ← int16_from resp headerlenght
  registers ←
      change_register (get_reg_start_index registeradress mem.registers)
        (λ r. some (put_register value r)) mem.registers
  some (pos 1, record mem { registers = registers })

-- `Save(uint8_t *resp, int lenght, int headerlenght, uint8_t *req)`: the result and the memory. The
-- loops run up to `lenght - 2`, that is, not at all where this is not positive.
unfoldable pub save_response : List ℕ → ℕ → ℕ → List ℕ → Memory → Option (ℤ × Memory)
save_response resp lenght headerlenght req mem = do
  function ← get_elem? resp 1
  if function == 0x2B
      then save_identification resp lenght mem
      else if function == 0x43
      then save_block resp lenght headerlenght req mem
      else if function == 0x02
      then save_input_status resp lenght headerlenght req mem
      else if function == 0x01
      then save_coil_status resp lenght headerlenght req mem
      else if function == 0x04 || function == 0x03
      then save_single resp headerlenght req mem
      else some (pos 0, mem)
