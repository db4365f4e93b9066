-- ===== src/Memory/SaveData/Valid.antt =====
-- Memory/SaveData: `Save` of a command and the invariant of the memory.
use epsolar_tracer_client.Base.{
  ℕ, zero, suc, ◌-◌, ◌≤◌, ◌≡◌, sym, ap, ◌∙◌, ℤ, pos, negsuc, pos_part, failure, List, [], ◌∷◌,
  length, get_elem?, Option, none, some, some_inj, Bool, Bool-cases, inl, inr, ltb, ◌==◌,
  if◌then◌else◌, All, arith, ◌/◌, true, false,
}
use mathlib.Core.Path.{subst}
use epsolar_tracer_client.Common.{
  e_dev_info1, e_dev_info2, e_reg, e_user_reg, e_coil, e_user_coil, e_disc_inp, e_header, e_user,
}
use epsolar_tracer_client.Memory.State.{
  Memory, Register, max_header_size, max_reg, max_coils, max_discrete_inputs, max_dev_info_lenght,
}
use epsolar_tracer_client.Memory.Lookup.{
  get_reg_start_index, get_coil_start_index, get_disc_start_index,
}
use epsolar_tracer_client.Memory.Invariant.{
  IsValid, with_registers-IsValid, with_coils-IsValid, with_inputs-IsValid, with_info1-IsValid,
  with_info2-IsValid,
}
use epsolar_tracer_client.Memory.Cells.{
  ◌>>=◌, copy_bytes, Stored, store_at, put_register, put_alternate, put_coil, put_discrete_input,
  put_header, change_register, int16_from, words_between,
}
use epsolar_tracer_client.Memory.Cells.Sizes.{
  >>=-eq-some, length-copy_bytes, store_cells-keeps, All-change_register, HasHeaderArray,
  put_header-HasHeaderArray,
}
use epsolar_tracer_client.Memory.SaveData.{
  save_device_info, save_device_info1, save_device_info2, save_registers, save_user_register,
  save_coils, save_user_coil, save_discrete_inputs, save_header, save_data,
}

pub All-Unit : {A : Type 0} (xs : List A) → All (λ _. Unit {0}) xs
All-Unit [] = tt
All-Unit (x ∷ xs) = (tt, All-Unit xs)

store_at-keeps :
    {A : Type 0} (P : A → Type 0) (store : ℕ → List A → Option (Stored A)) (count : ℕ) (start : ℤ)
    (cells : List A)
    → ((i : ℕ) (r : Stored A)
        → store i cells ≡ some r
        → All P cells
        → (length r.1 ≡ length cells) × All P r.1)
    → {r : ℤ × List A} → store_at store count start cells ≡ some r
    → All P cells
    → (length r.1 ≡ length cells) × All P r.1
store_at-keeps P store zero (negsuc i) cells keep h all =
    let e = ap (λ (s : ℤ × List _). s.1) (some_inj h) in (ap length (sym e), subst (All P) e all)
store_at-keeps P store (suc count) (negsuc i) cells keep h all = cc
store_at-keeps {A} P store count (pos i) cells keep h all =
    let (s, e, e') =
      >>=-eq-some (store i cells)
        (λ (s : Stored A). some (elim s.0 [ none ↦ failure | some m ↦ pos (m - i) ], s.1)) h in
    let e'' = ap (λ (t : ℤ × List A). t.1) (some_inj e') in
    let (len, all') = keep i s e all in (ap length (sym e'') ∙ len, subst (All P) e'' all')

-- The end of a case: the new memory is valid where its parts are.
pub finish :
    {A : Type 0} (o : Option A) (ret : A → ℤ) (new : A → Memory)
    → ((a : A) → o ≡ some a → IsValid (new a))
    → {r : ℤ × Memory} → (o >>= λ a. some (ret a, new a)) ≡ some r
    → IsValid r.1
finish o ret new valid h =
    let (a, e, e') = >>=-eq-some o (λ a. some (ret a, new a)) h in
    subst (λ (t : ℤ × Memory). IsValid t.1) (some_inj e') (valid a e)

-- a step by a test, in whichever branch
pub either :
    {A P : Type 0} (b : Bool) {o o' : Option A} {r : A}
    → (o ≡ some r → P)
    → (o' ≡ some r → P)
    → (if b then o else o') ≡ some r
    → P
either true f g h = f h
either false f g h = g h

module _ (payloadlenght : ℕ) (payload : List ℕ) (mem : Memory) (v : IsValid mem) where
  save_registers-IsValid :
      (put : ℕ → Register → Register)
      → ((n : ℕ) (r : Register) → HasHeaderArray r → HasHeaderArray (put n r))
      → (startadress : ℕ) {r : ℤ × Memory}
      → save_registers put startadress payloadlenght payload mem ≡ some r
      → IsValid r.1
  unfolding save_registers
  save_registers-IsValid put keep startadress h =
      finish _ (λ s. s.0) (λ s. record mem { registers = s.1 })
        (λ s e.
          let (len, all') =
            store_at-keeps HasHeaderArray _ (words_between 0 payloadlenght)
              (get_reg_start_index startadress mem.registers) mem.registers
              (λ i q e' all.
                store_cells-keeps HasHeaderArray (some max_reg) put (int16_from payload) 2 keep
                  (words_between 0 payloadlenght) 0 i mem.registers e' all)
              e v.headers in
          with_registers-IsValid v s.1 len all')
        h

  save_coils-IsValid :
      (startadress : ℕ) {r : ℤ × Memory}
      → save_coils startadress payloadlenght payload mem ≡ some r
      → IsValid r.1
  unfolding save_coils
  save_coils-IsValid startadress h =
      finish _ (λ s. s.0) (λ s. record mem { coils = s.1 })
        (λ s e.
          let (len, all') =
            store_at-keeps (λ _. Unit {0}) _ payloadlenght
              (get_coil_start_index startadress mem.coils) mem.coils
              (λ i q e' all.
                store_cells-keeps (λ _. Unit {0}) (some max_coils) put_coil (get_elem? payload) 1
                  (λ n x _. tt) payloadlenght 0 i mem.coils e' all)
              e (All-Unit mem.coils) in
          with_coils-IsValid v s.1 len)
        h

  save_discrete_inputs-IsValid :
      (startadress : ℕ) {r : ℤ × Memory}
      → save_discrete_inputs startadress payloadlenght payload mem ≡ some r
      → IsValid r.1
  unfolding save_discrete_inputs
  save_discrete_inputs-IsValid startadress h =
      finish _ (λ s. s.0) (λ s. record mem { discrete_inputs = s.1 })
        (λ s e.
          let (len, all') =
            store_at-keeps (λ _. Unit {0}) _ payloadlenght
              (get_disc_start_index startadress mem.discrete_inputs) mem.discrete_inputs
              (λ i q e' all.
                store_cells-keeps (λ _. Unit {0}) (some max_discrete_inputs) put_discrete_input
                  (get_elem? payload) 1 (λ n x _. tt) payloadlenght 0 i mem.discrete_inputs e' all)
              e (All-Unit mem.discrete_inputs) in
          with_inputs-IsValid v s.1 len)
        h

  save_user_register-IsValid :
      (startadress : ℕ) {r : ℤ × Memory}
      → save_user_register startadress payloadlenght payload mem ≡ some r
      → IsValid r.1
  unfolding save_user_register
  save_user_register-IsValid startadress h =
      finish _ (λ s. elim s.0 [ none ↦ failure | some n ↦ pos (n / 2) ])
        (λ s. record mem { user_register = s.1 }) (λ s e. ground arith) h

  save_user_coil-IsValid :
      (startadress : ℕ) {r : ℤ × Memory}
      → save_user_coil startadress payloadlenght payload mem ≡ some r
      → IsValid r.1
  unfolding save_user_coil
  save_user_coil-IsValid startadress h =
      finish _ (λ s. elim s.0 [ none ↦ failure | some n ↦ pos n ])
        (λ s. record mem { user_coil = s.1 }) (λ s e. ground arith) h

  save_header-IsValid :
      (startadress : ℕ) {r : ℤ × Memory}
      → save_header startadress payloadlenght payload mem ≡ some r
      → IsValid r.1
  unfolding save_header
  save_header-IsValid startadress {r} h = elim (Bool-cases (ltb max_header_size payloadlenght)) [
    | inl long ↦
        let h' : ◌≡◌ {A = Option (ℤ × Memory)} (some (failure, mem)) (some r) = rw long at h in
        subst (λ (t : ℤ × Memory). IsValid t.1) (some_inj h') v
    | inr short ↦
        finish
          (change_register (get_reg_start_index startadress mem.registers)
            (put_header payloadlenght payload) mem.registers)
          (λ rs. pos 1) (λ rs. record mem { registers = rs })
          (λ rs e.
            let (len, all') =
              All-change_register HasHeaderArray (put_header payloadlenght payload)
                (put_header-HasHeaderArray payloadlenght payload)
                (get_reg_start_index startadress mem.registers) mem.registers e v.headers in
            with_registers-IsValid v rs len all')
          (rw short at h)
  ]

  save_device_info-fits :
      (lenght : ℤ) (info : List ℕ)
      → pos_part lenght ≤ max_dev_info_lenght
      → (s : ℤ × ℤ × List ℕ) → save_device_info payloadlenght payload lenght info ≡ some s
      → (length s.2 ≡ length info) × (pos_part s.1 ≤ max_dev_info_lenght)
  unfolding save_device_info
  save_device_info-fits lenght info fits s h =
      elim (Bool-cases (ltb max_dev_info_lenght payloadlenght)) [
        | inl long ↦
            let h' : ◌≡◌ {A = Option (ℤ × ℤ × List ℕ)} (some (failure, lenght, info)) (some s) =
              rw long at h in
            ground (arith, some_inj h')
        | inr short ↦
            let (info', e, e') =
              >>=-eq-some (copy_bytes payloadlenght 0 payload info)
                (λ (info' : List ℕ). some (pos payloadlenght, pos payloadlenght, info'))
                (rw short at h) in
            ground (arith, some_inj e', length-copy_bytes payloadlenght 0 payload info e)
      ]

  save_device_info1-IsValid :
      {r : ℤ × Memory} → save_device_info1 payloadlenght payload mem ≡ some r → IsValid r.1
  unfolding save_device_info1
  save_device_info1-IsValid h =
      finish (save_device_info payloadlenght payload mem.device_info1_lenght mem.device_info1)
        (λ s. s.0) (λ s. record mem { device_info1_lenght = s.1; device_info1 = s.2 })
        (λ s e.
          let (len, fits) =
            save_device_info-fits mem.device_info1_lenght mem.device_info1 v.info1_fits s e in
          with_info1-IsValid v s.1 s.2 len fits)
        h

  save_device_info2-IsValid :
      {r : ℤ × Memory} → save_device_info2 payloadlenght payload mem ≡ some r → IsValid r.1
  unfolding save_device_info2
  save_device_info2-IsValid h =
      finish (save_device_info payloadlenght payload mem.device_info2_lenght mem.device_info2)
        (λ s. s.0) (λ s. record mem { device_info2_lenght = s.1; device_info2 = s.2 })
        (λ s e.
          let (len, fits) =
            save_device_info-fits mem.device_info2_lenght mem.device_info2 v.info2_fits s e in
          with_info2-IsValid v s.1 s.2 len fits)
        h

  -- Whatever command comes in on a valid memory, with whatever type, address, length and payload:
  -- if `Save` returns without an access outside an array, the memory is still valid, also where
  -- the result is an error.
  pub save_data-IsValid :
      (datatype startadress : ℕ) {r : ℤ × Memory}
      → save_data datatype startadress payloadlenght payload mem ≡ some r
      → IsValid r.1
  unfolding save_data
  save_data-IsValid datatype startadress {r} h =
      either (datatype == e_dev_info1) save_device_info1-IsValid
        (either (datatype == e_dev_info2) save_device_info2-IsValid (
          either (datatype == e_reg) (save_registers-IsValid put_register (λ n r' k. k) startadress)
            (either (datatype == e_user_reg) (save_user_register-IsValid startadress) (
              either (datatype == e_coil) (save_coils-IsValid startadress) (
                either (datatype == e_user_coil) (save_user_coil-IsValid startadress) (
                  either (datatype == e_disc_inp) (save_discrete_inputs-IsValid startadress) (
                    either (datatype == e_header) (save_header-IsValid startadress) (
                      either (datatype == e_user)
                        (save_registers-IsValid put_alternate (λ n r' k. k) startadress)
                        (λ h'. subst (λ (t : ℤ × Memory). IsValid t.1) (some_inj h') v)))))))))
        h
