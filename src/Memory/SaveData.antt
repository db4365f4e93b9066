-- ===== src/Memory/SaveData.antt =====
-- memory.c: `Save` of a command received from the client.
pub mod Roundtrip
pub mod Example
pub mod Valid
pub mod Total
use epsolar_tracer_client.Base.{
  ℕ, zero, suc, ◌+◌, ◌-◌, ◌/◌, ℤ, pos, negsuc, sub_ℕ, failure, Bool, true, false, ◌&&◌, ◌||◌, List,
  [], ◌∷◌, ◌==◌, ltb, leb, if◌then◌else◌, get_elem?, update?, length, get_int16, Option, none, some,
}
use epsolar_tracer_client.Common.{
  e_dev_info1, e_dev_info2, e_reg, e_user_reg, e_coil, e_user_coil, e_disc_inp, e_header, e_user,
}
use epsolar_tracer_client.Memory.State.{
  Memory, Register, Coil, DiscreteInput, UserRegister, UserCoil, max_reg, max_coils,
  max_discrete_inputs, max_header_size, max_dev_info_lenght,
}
use epsolar_tracer_client.Memory.Lookup.{
  get_reg_start_index, get_disc_start_index, get_coil_start_index,
}
use epsolar_tracer_client.Memory.Cells.{
  ◌>>=◌, int16_from, copy_bytes, Stored, store_cells, put_register, put_alternate, put_coil,
  put_discrete_input, words_between, store_at, store_user, put_user_register, put_user_coil,
  put_header, change_register,
}

-- `case eDevInfo1` and `case eDevInfo2`: the result, the length and the array.
save_device_info : ℕ → List ℕ → ℤ → List ℕ → Option (ℤ × ℤ × List ℕ)
save_device_info payloadlenght payload lenght info =
    if ltb max_dev_info_lenght payloadlenght
    then some (failure, lenght, info)
    else (copy_bytes payloadlenght 0 payload info >>= λ info'.
        some (pos payloadlenght, pos payloadlenght, info'))

save_device_info1 : ℕ → List ℕ → Memory → Option (ℤ × Memory)
save_device_info1 payloadlenght payload mem = do
  (ret, lenght, info) ←
      save_device_info payloadlenght payload mem.device_info1_lenght mem.device_info1
  some (ret, record mem { device_info1_lenght = lenght; device_info1 = info })

save_device_info2 : ℕ → List ℕ → Memory → Option (ℤ × Memory)
save_device_info2 payloadlenght payload mem = do
  (ret, lenght, info) ←
      save_device_info payloadlenght payload mem.device_info2_lenght mem.device_info2
  some (ret, record mem { device_info2_lenght = lenght; device_info2 = info })

-- `case eReg`, and with the other write `case eUser`
pub save_registers : (ℕ → Register → Register) → ℕ → ℕ → List ℕ → Memory → Option (ℤ × Memory)
save_registers put startadress payloadlenght payload mem = do
  (ret, registers) ←
      store_at
        (λ i.
          store_cells (some max_reg) put (int16_from payload) 2 (words_between 0 payloadlenght) 0 i)
        (words_between 0 payloadlenght) (get_reg_start_index startadress mem.registers)
        mem.registers
  some (ret, record mem { registers = registers })

-- `case eUserReg`
save_user_register : ℕ → ℕ → List ℕ → Memory → Option (ℤ × Memory)
save_user_register startadress payloadlenght payload mem = do
  (stored, users) ←
      store_user (λ u. u.adress) put_user_register (int16_from payload) 2
        (λ n. leb payloadlenght (n + 1)) (λ left. ltb left (payloadlenght / 2)) startadress
        mem.user_register false 0
  some (elim stored [ none ↦ failure | some n ↦ pos (n / 2) ], record mem { user_register = users })

-- `case eCoil`
save_coils : ℕ → ℕ → List ℕ → Memory → Option (ℤ × Memory)
save_coils startadress payloadlenght payload mem = do
  (ret, coils) ←
      store_at (λ i. store_cells (some max_coils) put_coil (get_elem? payload) 1 payloadlenght 0 i)
        payloadlenght (get_coil_start_index startadress mem.coils) mem.coils
  some (ret, record mem { coils = coils })

-- `case eUserCoil`
save_user_coil : ℕ → ℕ → List ℕ → Memory → Option (ℤ × Memory)
save_user_coil startadress payloadlenght payload mem = do
  (stored, users) ←
      store_user (λ u. u.adress) put_user_coil (get_elem? payload) 1 (λ n. leb payloadlenght n)
        (λ left. ltb left payloadlenght) startadress mem.user_coil false 0
  some (elim stored [ none ↦ failure | some n ↦ pos n ], record mem { user_coil = users })

-- `case eDiscInp`
save_discrete_inputs : ℕ → ℕ → List ℕ → Memory → Option (ℤ × Memory)
save_discrete_inputs startadress payloadlenght payload mem = do
  (ret, inputs) ←
      store_at
        (λ i.
          store_cells (some max_discrete_inputs) put_discrete_input (get_elem? payload) 1
            payloadlenght 0 i)
        payloadlenght (get_disc_start_index startadress mem.discrete_inputs) mem.discrete_inputs
  some (ret, record mem { discrete_inputs = inputs })

-- `case eHeader`
save_header : ℕ → ℕ → List ℕ → Memory → Option (ℤ × Memory)
save_header startadress payloadlenght payload mem =
    if ltb max_header_size payloadlenght then some (failure, mem) else (do
      registers ←
          change_register (get_reg_start_index startadress mem.registers)
            (put_header payloadlenght payload) mem.registers
      some (pos 1, record mem { registers = registers }))

-- `Save(data datatype, uint16_t startadress, int payloadlenght, uint8_t *payload)`, with a length
-- that is not negative: the result and the memory.
pub save_data : ℕ → ℕ → ℕ → List ℕ → Memory → Option (ℤ × Memory)
save_data datatype startadress payloadlenght payload mem =
    if datatype == e_dev_info1
    then save_device_info1 payloadlenght payload mem
    else if datatype == e_dev_info2
    then save_device_info2 payloadlenght payload mem
    else if datatype == e_reg
    then save_registers put_register startadress payloadlenght payload mem
    else if datatype == e_user_reg
    then save_user_register startadress payloadlenght payload mem
    else if datatype == e_coil
    then save_coils startadress payloadlenght payload mem
    else if datatype == e_user_coil
    then save_user_coil startadress payloadlenght payload mem
    else if datatype == e_disc_inp
    then save_discrete_inputs startadress payloadlenght payload mem
    else if datatype == e_header
    then save_header startadress payloadlenght payload mem
    else if datatype == e_user
    then save_registers put_alternate startadress payloadlenght payload mem
    else some (pos 0, mem)
