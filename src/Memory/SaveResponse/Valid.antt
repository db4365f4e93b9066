-- ===== src/Memory/SaveResponse/Valid.antt =====
-- Memory/SaveResponse: `Save` of a response and the invariant of the memory.
use epsolar_tracer_client.Base.{
  ℕ, zero, suc, ◌+◌, ◌-◌, ◌≡◌, sym, ap, ◌∙◌, ℤ, pos, negsuc, pos_part, sub_ℕ, failure, List, length,
  get_elem?, Option, none, some, some_inj, ◌==◌, ◌||◌, All, arith,
}
use mathlib.Core.Path.{subst}
use epsolar_tracer_client.Memory.State.{Memory}
use epsolar_tracer_client.Memory.Lookup.{
  get_reg_start_index, get_coil_start_index, get_disc_start_index,
}
use epsolar_tracer_client.Memory.Invariant.{
  IsValid, with_registers-IsValid, with_coils-IsValid, with_inputs-IsValid, with_info1-IsValid,
  with_info2-IsValid,
}
use epsolar_tracer_client.Memory.Cells.{
  Stored, put_register, put_coil, put_discrete_input, put_header, change_register, int16_from,
  words_between,
}
use epsolar_tracer_client.Memory.Cells.Sizes.{
  >>=-eq-some, length-copy_bytes, copy_bytes-fits, store_cells-keeps, All-change_register,
  HasHeaderArray, put_header-HasHeaderArray,
}
use epsolar_tracer_client.Memory.SaveData.Valid.{finish, either, All-Unit}
use epsolar_tracer_client.Memory.SaveResponse.{
  store_unchecked, save_identification, save_block, save_input_status, save_coil_status,
  save_single, save_response,
}

store_unchecked-keeps :
    {A : Type 0} (P : A → Type 0) (store : ℕ → List A → Option (Stored A)) (count : ℕ) (start : ℤ)
    (cells : List A)
    → ((i : ℕ) (r : Stored A)
        → store i cells ≡ some r
        → All P cells
        → (length r.1 ≡ length cells) × All P r.1)
    → {r : ℤ × List A} → store_unchecked store count start cells ≡ some r
    → All P cells
    → (length r.1 ≡ length cells) × All P r.1
store_unchecked-keeps P store zero (negsuc i) cells keep h all =
    let e = ap (λ (s : ℤ × List _). s.1) (some_inj h) in (ap length (sym e), subst (All P) e all)
store_unchecked-keeps P store (suc count) (negsuc i) cells keep h all = cc
store_unchecked-keeps {A} P store count (pos i) cells keep h all =
    let (s, e, e') =
      >>=-eq-some (store i cells)
        (λ (s : Stored A). some (elim s.0 [ none ↦ failure | some m ↦ pos (m + 1 - i) ], s.1)) h in
    let e'' = ap (λ (t : ℤ × List A). t.1) (some_inj e') in
    let (len, all') = keep i s e all in (ap length (sym e'') ∙ len, subst (All P) e'' all')

pos_part-sub : (n : ℕ) → pos_part (sub_ℕ n 2) ≡ n - 2
pos_part-sub n = ground arith

module _ (resp : List ℕ) (lenght : ℕ) (mem : Memory) (v : IsValid mem) where
  save_identification-IsValid :
      {r : ℤ × Memory} → save_identification resp lenght mem ≡ some r → IsValid r.1
  unfolding save_identification
  save_identification-IsValid h =
      let (which, e, h') = >>=-eq-some (get_elem? resp 3) _ h in
      either (which == 0x01)
        (finish _ (λ _. pos (lenght - 2 + 1))
          (λ info. record mem { device_info1_lenght = sub_ℕ lenght 2; device_info1 = info })
          (λ info e'.
            with_info1-IsValid v (sub_ℕ lenght 2) info
              (length-copy_bytes (lenght - 2) 0 resp mem.device_info1 e')
              (omega (
                arith,
                pos_part-sub lenght,
                v.info1_size,
                copy_bytes-fits (lenght - 2) 0 resp mem.device_info1 e' (omega arith),
              ))))
        (either (which == 0x02)
          (finish _ (λ _. pos (lenght - 2 + 1))
            (λ info. record mem { device_info2_lenght = sub_ℕ lenght 2; device_info2 = info })
            (λ info e'.
              with_info2-IsValid v (sub_ℕ lenght 2) info
                (length-copy_bytes (lenght - 2) 0 resp mem.device_info2 e')
                (omega (
                  arith,
                  pos_part-sub lenght,
                  v.info2_size,
                  copy_bytes-fits (lenght - 2) 0 resp mem.device_info2 e' (omega arith),
                ))))
          (λ h''. subst (λ (t : ℤ × Memory). IsValid t.1) (some_inj h'') v))
        h'

  module _ (headerlenght : ℕ) (req : List ℕ) where
    save_input_status-IsValid :
        {r : ℤ × Memory} → save_input_status resp lenght headerlenght req mem ≡ some r → IsValid r.1
    unfolding save_input_status
    save_input_status-IsValid h =
        let (a, ea, h') = >>=-eq-some (int16_from req 2) _ h in
        finish _ (λ s. s.0) (λ s. record mem { discrete_inputs = s.1 })
          (λ s e.
            let (len, all') =
              store_unchecked-keeps (λ _. Unit {0}) _ (lenght - 2 - headerlenght)
                (get_disc_start_index a mem.discrete_inputs) mem.discrete_inputs
                (λ i q e' all.
                  store_cells-keeps (λ _. Unit {0}) none put_discrete_input (get_elem? resp) 1
                    (λ n x _. tt) (lenght - 2 - headerlenght) headerlenght i mem.discrete_inputs e'
                    all)
                e (All-Unit mem.discrete_inputs) in
            with_inputs-IsValid v s.1 len)
          h'

    save_coil_status-IsValid :
        {r : ℤ × Memory} → save_coil_status resp lenght headerlenght req mem ≡ some r → IsValid r.1
    unfolding save_coil_status
    save_coil_status-IsValid h =
        let (a, ea, h') = >>=-eq-some (int16_from req 2) _ h in
        finish _ (λ s. s.0) (λ s. record mem { coils = s.1 })
          (λ s e.
            let (len, all') =
              store_unchecked-keeps (λ _. Unit {0}) _ (lenght - 2 - headerlenght)
                (get_coil_start_index a mem.coils) mem.coils
                (λ i q e' all.
                  store_cells-keeps (λ _. Unit {0}) none put_coil (get_elem? resp) 1 (λ n x _. tt)
                    (lenght - 2 - headerlenght) headerlenght i mem.coils e' all)
                e (All-Unit mem.coils) in
            with_coils-IsValid v s.1 len)
          h'

    save_single-IsValid :
        {r : ℤ × Memory} → save_single resp headerlenght req mem ≡ some r → IsValid r.1
    unfolding save_single
    save_single-IsValid h =
        let (a, ea, h') = >>=-eq-some (int16_from req 2) _ h in
        let (value, ev, h'') = >>=-eq-some (int16_from resp headerlenght) _ h' in
        finish _ (λ _. pos 1) (λ registers. record mem { registers = registers })
          (λ registers e.
            let (len, all') =
              All-change_register HasHeaderArray (λ r. some (put_register value r))
                (λ r r' e' k. subst HasHeaderArray (some_inj e') k)
                (get_reg_start_index a mem.registers) mem.registers e v.headers in
            with_registers-IsValid v registers len all')
          h''

    save_block-IsValid :
        {r : ℤ × Memory} → save_block resp lenght headerlenght req mem ≡ some r → IsValid r.1
    unfolding save_block
    save_block-IsValid h =
        let (a, ea, h') = >>=-eq-some (int16_from req 2) _ h in
        let (registers, er, h'') =
          >>=-eq-some
            (change_register (get_reg_start_index a mem.registers) (put_header headerlenght resp)
              mem.registers)
            _ h' in
        let (len0, all0) =
          All-change_register HasHeaderArray (put_header headerlenght resp)
            (λ r r' e' k. put_header-HasHeaderArray headerlenght resp r r' e' k)
            (get_reg_start_index a mem.registers) mem.registers er v.headers in
        finish _ (λ s. s.0) (λ s. record mem { registers = s.1 })
          (λ s e.
            let (len, all') =
              store_unchecked-keeps HasHeaderArray _ (words_between headerlenght (lenght - 2))
                (get_reg_start_index a mem.registers) registers
                (λ i q e' all.
                  store_cells-keeps HasHeaderArray none put_register (int16_from resp) 2
                    (λ n r k. k) (words_between headerlenght (lenght - 2)) headerlenght i registers
                    e' all)
                e all0 in
            with_registers-IsValid v s.1 (len ∙ len0) all')
          h''

    -- Whatever the charge controller answers to whatever request, with whatever lengths: if
    -- `Save` of the response to a valid memory returns without an access outside an array, the
    -- memory is still valid.
    pub save_response-IsValid :
        {r : ℤ × Memory} → save_response resp lenght headerlenght req mem ≡ some r → IsValid r.1
    unfolding save_response
    save_response-IsValid h =
        let (function, ef, h') = >>=-eq-some (get_elem? resp 1) _ h in
        either (function == 0x2B) save_identification-IsValid
          (either (function == 0x43) save_block-IsValid (
            either (function == 0x02) save_input_status-IsValid (
              either (function == 0x01) save_coil_status-IsValid (
                either (function == 0x04 || function == 0x03) save_single-IsValid
                  (λ h''. subst (λ (t : ℤ × Memory). IsValid t.1) (some_inj h'') v)))))
          h'
