-- ===== src/Memory/Cells.antt =====
-- memory.c: the loops of the two `Save` functions. `none` is an access outside an array.
pub mod Sizes
pub mod Written
pub mod Total
use epsolar_tracer_client.Base.{
  ℕ, zero, suc, ◌+◌, ◌-◌, ◌/◌, ℤ, pos, negsuc, sub_ℕ, failure, Bool, true, false, ◌&&◌, ◌||◌, List,
  [], ◌∷◌, ◌==◌, ltb, leb, if◌then◌else◌, get_elem?, update?, length, get_int16, Option, none, some,
}
use epsolar_tracer_client.Common.{
  e_dev_info1, e_dev_info2, e_reg, e_user_reg, e_coil, e_user_coil, e_disc_inp, e_header, e_user,
}
use epsolar_tracer_client.Memory.State.{
  Memory, Register, Coil, DiscreteInput, UserRegister, UserCoil, max_reg, max_coils,
  max_discrete_inputs, max_header_size, max_dev_info_lenght,
}
use epsolar_tracer_client.Memory.Lookup.{
  get_reg_start_index, get_disc_start_index, get_coil_start_index,
}

infixl 5 ◌>>=◌
abbrev pub ◌>>=◌ {ℓ κ} : {A : Type ℓ} {B : Type κ} → Option A → (A → Option B) → Option B
none >>= f = none
some a >>= f = f a

-- MODBUS_GET_INT16_FROM_INT8 on an array of bytes
abbrev pub int16_from : List ℕ → ℕ → Option ℕ
int16_from bytes n = do hi ← get_elem? bytes n; lo ← get_elem? bytes (n + 1); some (get_int16 hi lo)

-- `for (; n < end; n++) target[n] = source[n]`, with `count` rounds left
unfoldable pub copy_bytes : ℕ → ℕ → List ℕ → List ℕ → Option (List ℕ)
copy_bytes zero n source target = some target
copy_bytes (suc count) n source target =
    let rest = λ (b : ℕ). update? target n (λ _. b) >>= copy_bytes count (n + 1) source in
    get_elem? source n >>= rest

-- How the loop over cells ends: the index behind the last cell written, or `return -1` at the
-- bound.
abbrev pub Stored : Type 0 → Type 0
Stored A = Option ℕ × List A

module _ {A : Type 0} (bound : Option ℕ) (put : ℕ → A → A) (read : ℕ → Option ℕ) (step : ℕ) where
  -- `m >= MAX...`, where the code checks it
  abbrev pub outside : ℕ → Bool
  outside m = elim bound [ none ↦ false | some b ↦ leb b m ]

  -- `for (...; n += step, m++)`: writes the value at `n` into the cell `m`, with `count` rounds
  -- left.
  unfoldable pub store_cells : ℕ → ℕ → ℕ → List A → Option (Stored A)
  store_cells zero n m cells = some (some m, cells)
  store_cells (suc count) n m cells =
      let rest = λ (v : ℕ). update? cells m (put v) >>= store_cells count (n + step) (m + 1) in
      if outside m then some (none, cells) else (read n >>= rest)

-- the writes to `Value` and `AlternateValue`
abbrev pub put_register : ℕ → Register → Register
put_register v r = record r { value = v }

abbrev pub put_alternate : ℕ → Register → Register
put_alternate v r = record r { alternate_value = v; have_alternate_value = true }

abbrev pub put_coil : ℕ → Coil → Coil
put_coil v c = record c { value = v }

abbrev pub put_discrete_input : ℕ → DiscreteInput → DiscreteInput
put_discrete_input v d = record d { value = v }

-- the rounds of `for (n = from; n < end; n += 2)`
abbrev pub words_between : ℕ → ℕ → ℕ
words_between from end = (end - from + 1) / 2

-- Cells written from a start index on; a start index of -1 faults at the first write.
abbrev pub store_at :
    {A : Type 0} → (ℕ → List A → Option (Stored A)) → ℕ → ℤ → List A → Option (ℤ × List A)
store_at store count (pos i) cells =
    store i cells >>= λ r. some (elim r.0 [ none ↦ failure | some m ↦ pos (m - i) ], r.1)
store_at store zero (negsuc i) cells = some (pos 0, cells)
store_at store (suc count) (negsuc i) cells = none

module _ {A : Type 0} (adress_of : A → ℕ) (put : ℕ → A → A) (read : ℕ → Option ℕ) (step : ℕ)
    (done : ℕ → Bool) (too_many : ℕ → Bool) (startadress : ℕ) where
  -- The loop over the user's registers or coils: `started` is `startidx >= 0`, and the list goes
  -- from `idx` to the end.
  unfoldable pub store_user : List A → Bool → ℕ → Option (Stored A)
  store_user [] started n = some (some n, [])
  store_user (u ∷ us) started n =
      let keep = store_user us started n >>= λ r. some (r.0, u ∷ r.1) in
      let write = λ (v : ℕ). store_user us true (n + step) >>= λ r. some (r.0, put v u ∷ r.1) in
      if done n
      then some (some n, u ∷ us)
      else if adress_of u == startadress
      then if too_many (length (u ∷ us)) then some (none, u ∷ us) else (read n >>= write)
      else if ltb startadress (adress_of u) && started
      then (read n >>= write)
      else keep

abbrev pub put_user_register : ℕ → UserRegister → UserRegister
put_user_register v u = record u { value = v }

abbrev pub put_user_coil : ℕ → UserCoil → UserCoil
put_user_coil v u = record u { value = v }

-- `Header[n] = bytes[n]` for `lenght` bytes, with `Headersize` and `HaveHeader`
unfoldable pub put_header : ℕ → List ℕ → Register → Option Register
put_header lenght bytes r = do
  header ← copy_bytes lenght 0 bytes r.header
  some (record r { headersize = lenght; have_header = true; header = header })

-- a step at the register with an index that may be -1
abbrev pub change_register :
    ℤ → (Register → Option Register) → List Register → Option (List Register)
change_register (negsuc i) f rs = none
change_register (pos i) f [] = none
change_register (pos zero) f (r ∷ rs) = f r >>= λ r'. some (r' ∷ rs)
change_register (pos (suc i)) f (r ∷ rs) = change_register (pos i) f rs >>= λ rs'. some (r ∷ rs')
