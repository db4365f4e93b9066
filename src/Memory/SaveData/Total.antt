-- ===== src/Memory/SaveData/Total.antt =====
-- Memory/SaveData: `Save` of a command stays inside all arrays.
use epsolar_tracer_client.Base.{
  ℕ, ◌+◌, ◌/◌, ◌%◌, ◌≤◌, ◌≡◌, refl, ◌⊎◌, inl, inr, ℤ, pos, false, List, length, get_elem?, ltb, leb,
  ◌==◌, some, arith,
}
use epsolar_tracer_client.Common.{
  e_dev_info1, e_dev_info2, e_reg, e_user_reg, e_coil, e_user_coil, e_disc_inp, e_header, e_user,
}
use epsolar_tracer_client.Memory.State.{
  Memory, Register, max_header_size, max_reg, max_coils, max_discrete_inputs, max_dev_info_lenght,
}
use epsolar_tracer_client.Memory.Lookup.{
  get_reg_start_index, get_coil_start_index, get_disc_start_index,
}
use epsolar_tracer_client.Memory.Invariant.{IsValid}
use epsolar_tracer_client.Memory.Cells.{
  copy_bytes, put_register, put_alternate, put_coil, put_discrete_input, put_user_register,
  put_user_coil, put_header, int16_from, words_between,
}
use epsolar_tracer_client.Memory.SaveData.{
  save_device_info, save_device_info1, save_device_info2, save_registers, save_user_register,
  save_coils, save_user_coil, save_discrete_inputs, save_header, save_data,
}
use epsolar_tracer_client.Memory.SaveData.Roundtrip.{start-lt}
use epsolar_tracer_client.Memory.SaveData.Valid.{save_data-IsValid}
use epsolar_tracer_client.Memory.Cells.Total.{
  IsTotal, IsTotal->>=, IsTotal-if, get_elem?-IsTotal, copy_bytes-IsTotal, int16_from-IsTotal,
  CanRead-bytes, CanRead-words, store_cells-IsTotal, store_user-IsTotal, change_register-IsTotal,
}

module _ (payloadlenght : ℕ) (payload : List ℕ) (mem : Memory) (v : IsValid mem)
    (room : payloadlenght + payloadlenght % 2 ≤ length payload) where
  save_device_info-IsTotal :
      (lenght : ℤ) (info : List ℕ)
      → length info ≡ max_dev_info_lenght
      → IsTotal (save_device_info payloadlenght payload lenght info)
  unfolding save_device_info
  save_device_info-IsTotal lenght info size =
      IsTotal-if (ltb max_dev_info_lenght payloadlenght) (λ _. (_, refl))
        (λ short.
          IsTotal->>= (copy_bytes payloadlenght 0 payload info) _
            (copy_bytes-IsTotal payloadlenght 0 payload info (omega arith) (ground arith))
            (λ info' e. (_, refl)))

  save_device_info1-IsTotal : IsTotal (save_device_info1 payloadlenght payload mem)
  unfolding save_device_info1
  save_device_info1-IsTotal =
      IsTotal->>= _ _
        (save_device_info-IsTotal mem.device_info1_lenght mem.device_info1 v.info1_size)
        (λ s e. (_, refl))

  save_device_info2-IsTotal : IsTotal (save_device_info2 payloadlenght payload mem)
  unfolding save_device_info2
  save_device_info2-IsTotal =
      IsTotal->>= _ _
        (save_device_info-IsTotal mem.device_info2_lenght mem.device_info2 v.info2_size)
        (λ s e. (_, refl))

  save_registers-IsTotal :
      (put : ℕ → Register → Register) (startadress i : ℕ)
      → get_reg_start_index startadress mem.registers ≡ pos i
      → IsTotal (save_registers put startadress payloadlenght payload mem)
  unfolding save_registers
  save_registers-IsTotal put startadress i e =
      let count = words_between 0 payloadlenght in
      let stored =
        store_cells-IsTotal put (int16_from payload) 2 max_reg count 0 i mem.registers
          v.register_count (CanRead-words payload count 0 (omega arith)) in
      rw e (IsTotal->>= _ _ (IsTotal->>= _ _ stored (λ r k. (_, refl))) (λ r k. (_, refl)))

  save_coils-IsTotal :
      (startadress i : ℕ)
      → get_coil_start_index startadress mem.coils ≡ pos i
      → IsTotal (save_coils startadress payloadlenght payload mem)
  unfolding save_coils
  save_coils-IsTotal startadress i e =
      let stored =
        store_cells-IsTotal put_coil (get_elem? payload) 1 max_coils payloadlenght 0 i mem.coils
          v.coil_count (CanRead-bytes payload payloadlenght 0 (omega arith)) in
      rw e (IsTotal->>= _ _ (IsTotal->>= _ _ stored (λ r k. (_, refl))) (λ r k. (_, refl)))

  save_discrete_inputs-IsTotal :
      (startadress i : ℕ)
      → get_disc_start_index startadress mem.discrete_inputs ≡ pos i
      → IsTotal (save_discrete_inputs startadress payloadlenght payload mem)
  unfolding save_discrete_inputs
  save_discrete_inputs-IsTotal startadress i e =
      let stored =
        store_cells-IsTotal put_discrete_input (get_elem? payload) 1 max_discrete_inputs
          payloadlenght 0 i mem.discrete_inputs v.input_count
          (CanRead-bytes payload payloadlenght 0 (omega arith)) in
      rw e (IsTotal->>= _ _ (IsTotal->>= _ _ stored (λ r k. (_, refl))) (λ r k. (_, refl)))

  save_user_register-IsTotal :
      (startadress : ℕ) → IsTotal (save_user_register startadress payloadlenght payload mem)
  unfolding save_user_register
  save_user_register-IsTotal startadress =
      IsTotal->>= _ _
        (store_user-IsTotal (λ u. u.adress) put_user_register (int16_from payload) 2
          (λ n. leb payloadlenght (n + 1)) (λ left. ltb left (payloadlenght / 2)) startadress
          (λ n go. int16_from-IsTotal payload n (ground arith)) mem.user_register false 0)
        (λ s e. (_, refl))

  save_user_coil-IsTotal :
      (startadress : ℕ) → IsTotal (save_user_coil startadress payloadlenght payload mem)
  unfolding save_user_coil
  save_user_coil-IsTotal startadress =
      IsTotal->>= _ _
        (store_user-IsTotal (λ u. u.adress) put_user_coil (get_elem? payload) 1
          (λ n. leb payloadlenght n) (λ left. ltb left payloadlenght) startadress
          (λ n go. get_elem?-IsTotal payload n (ground arith)) mem.user_coil false 0)
        (λ s e. (_, refl))

  save_header-IsTotal :
      (startadress i : ℕ)
      → get_reg_start_index startadress mem.registers ≡ pos i
      → IsTotal (save_header startadress payloadlenght payload mem)
  unfolding save_header put_header
  save_header-IsTotal startadress i e =
      IsTotal-if (ltb max_header_size payloadlenght) (λ _. (_, refl))
        (λ short.
          let n = v.register_count in
          let inside = start-lt startadress i mem.registers (omega arith) e in
          let changed =
            change_register-IsTotal (put_header payloadlenght payload)
              (λ r h.
                IsTotal->>= (copy_bytes payloadlenght 0 payload r.header) _
                  (copy_bytes-IsTotal payloadlenght 0 payload r.header (omega arith) (ground arith))
                  (λ header e'. (_, refl)))
              i mem.registers v.headers inside in
          rw e (IsTotal->>= _ _ changed (λ rs k. (_, refl))))

  -- `Save` of a command never reads or writes outside an array, and keeps the memory valid: on a
  -- memory whose arrays have their sizes, for every type, address and length, where the payload
  -- array holds the bytes that the length says, rounded up to an even number, and where the address
  -- has an index in the array that the command is about, the registers for `eReg`, `eHeader` and
  -- `eUser`, the coils for `eCoil` and the inputs for `eDiscInp`. A payload that is too long for
  -- the array, or goes on behind its last cell, is among them.
  pub save_data-IsTotal :
      (datatype startadress : ℕ)
      → ((datatype ≡ e_reg) ⊎ ((datatype ≡ e_header) ⊎ (datatype ≡ e_user))
          → (i : ℕ) × (get_reg_start_index startadress mem.registers ≡ pos i))
      → (datatype ≡ e_coil → (i : ℕ) × (get_coil_start_index startadress mem.coils ≡ pos i))
      → (datatype ≡ e_disc_inp
          → (i : ℕ) × (get_disc_start_index startadress mem.discrete_inputs ≡ pos i))
      → (r : ℤ × Memory) × ((save_data datatype startadress payloadlenght payload mem ≡ some r)
          × IsValid r.1)
  unfolding save_data
  save_data-IsTotal datatype startadress register coil input =
      let (r, e) =
        IsTotal-if (datatype == e_dev_info1) (λ _. save_device_info1-IsTotal)
          (λ _.
            IsTotal-if (datatype == e_dev_info2) (λ _. save_device_info2-IsTotal)
              (λ _.
                IsTotal-if (datatype == e_reg)
                  (λ k.
                    let (i, at) = register (inl (ground arith)) in
                    save_registers-IsTotal put_register startadress i at)
                  (λ _.
                    IsTotal-if (datatype == e_user_reg)
                      (λ _. save_user_register-IsTotal startadress)
                      (λ _.
                        IsTotal-if (datatype == e_coil)
                          (λ k.
                            let (i, at) = coil (ground arith) in
                            save_coils-IsTotal startadress i at)
                          (λ _.
                            IsTotal-if (datatype == e_user_coil)
                              (λ _. save_user_coil-IsTotal startadress)
                              (λ _.
                                IsTotal-if (datatype == e_disc_inp)
                                  (λ k.
                                    let (i, at) = input (ground arith) in
                                    save_discrete_inputs-IsTotal startadress i at)
                                  (λ _.
                                    IsTotal-if (datatype == e_header)
                                      (λ k.
                                        let (i, at) = register (inr (inl (ground arith))) in
                                        save_header-IsTotal startadress i at)
                                      (λ _.
                                        IsTotal-if (datatype == e_user)
                                          (λ k.
                                            let (i, at) = register (inr (inr (ground arith))) in
                                            save_registers-IsTotal put_alternate startadress i at)
                                          (λ _. ((pos 0, mem), refl)))))))))) in
      (r, (e, save_data-IsValid payloadlenght payload mem v datatype startadress e))
