-- ===== src/Memory/Read.antt =====
-- memory.c: the functions that read registers, coils, inputs, headers and device infos. Each
-- returns its `int` and the values that it has stored in the caller's array, from the first cell
-- on.
pub mod Counted
pub mod Inputs
use epsolar_tracer_client.Base.{
  ℕ, zero, suc, ◌+◌, ℤ, pos, negsuc, pos_part, failure, Bool, true, false, not, ◌&&◌, ◌||◌, List,
  [], ◌∷◌, ◌++◌, ◌==◌, ltb, leb, if◌then◌else◌, get_elem?, drop, length, int16_bytes, Option, none,
  some,
}
use epsolar_tracer_client.Memory.State.{
  Memory, Register, Coil, DiscreteInput, UserRegister, UserCoil, max_reg,
}
use epsolar_tracer_client.Memory.Lookup.{
  get_reg_start_index, get_disc_start_index, get_coil_start_index,
}

module _ {A : Type 0} (stop : A → Bool) (emit : A → List ℕ) (step : ℕ) (limit : ℕ) where
  -- The loop over the cells from the start index on, with `n` values stored so far: it ends at a
  -- cell that `stop` tells, and fails where the array is full.
  unfoldable pub read_cells : List A → ℕ → ℤ × List ℕ
  read_cells [] n = (pos n, [])
  read_cells (c ∷ cs) n =
      let rest = read_cells cs (n + step) in
      if stop c
      then (pos n, [])
      else if leb limit n
      then (failure, [])
      else (rest.0, emit c ++ rest.1)

  -- the same, or -1 where the start address is not found
  abbrev pub read_from : ℤ → List A → ℤ × List ℕ
  read_from (negsuc i) cells = (failure, [])
  read_from (pos i) cells = read_cells (drop i cells) 0

-- the value that `GetRegister` takes of a register
abbrev pub shown : Bool → Register → ℕ
shown alternate r = if alternate && r.have_alternate_value then r.alternate_value else r.value

abbrev pub register_stop : ℕ → Register → Bool
register_stop endadress r = ltb endadress r.adress || r.empty

-- `GetRegister` into an array of uint16_t
unfoldable pub get_register : ℕ → ℕ → ℕ → Bool → Memory → ℤ × List ℕ
get_register startadress endadress reglenght alternate mem =
    read_from (register_stop endadress) (λ r. shown alternate r ∷ []) 1 reglenght
      (get_reg_start_index startadress mem.registers) mem.registers

-- `GetRegister` into an array of uint8_t. The loop compares only the first of the two bytes that it
-- writes with the length, so in an array of odd length the last byte may go outside: `none`.
unfoldable pub get_register_bytes : ℕ → ℕ → ℕ → Bool → Memory → Option (ℤ × List ℕ)
get_register_bytes startadress endadress reglenght alternate mem =
    let (ret, stored) =
      read_from (register_stop endadress) (λ r. int16_bytes (shown alternate r)) 2 reglenght
        (get_reg_start_index startadress mem.registers) mem.registers in
    if ltb reglenght (length stored) then none else some (ret, stored)

-- `GetCoil`
pub get_coil : ℕ → ℕ → ℕ → Memory → ℤ × List ℕ
get_coil startadress endadress coillenght mem =
    read_from (λ c. ltb endadress c.adress || c.empty) (λ c. c.value ∷ []) 1 coillenght
      (get_coil_start_index startadress mem.coils) mem.coils

-- `GetDiscInp`, which compares the value of an input, not its address, with the end address
pub get_disc_inp : ℕ → ℕ → ℕ → Memory → ℤ × List ℕ
get_disc_inp startadress endadress discinplenght mem =
    read_from (λ d. ltb endadress d.value || d.empty) (λ d. d.value ∷ []) 1 discinplenght
      (get_disc_start_index startadress mem.discrete_inputs) mem.discrete_inputs

-- what is left of a range of user registers or coils: `*firstadress`, where it is set, and the
-- values
pub record Found : Type 0 where
  pub ret : ℤ
  pub firstadress : Option ℕ
  pub values : List ℕ

module _ {A : Type 0} (adress_of : A → ℕ) (value_of : A → ℕ) (startadress endadress limit : ℕ) where
  -- the loop of `GetUserRegister` and `GetUserCoil`, with `n` values stored so far
  pub read_user : List A → ℕ → Found
  read_user [] n = record { ret = pos n; firstadress = none; values = [] }
  read_user (u ∷ us) n =
      let inside = leb startadress (adress_of u) && leb (adress_of u) endadress in
      let rest = read_user us (if inside then n + 1 else n) in
      if leb limit n
      then record { ret = failure; firstadress = none; values = [] }
      else if inside
      then record {
        ret = rest.ret;
        firstadress = some (adress_of u);
        values = value_of u ∷ rest.values;
      }
      else rest

-- `GetUserRegister`
pub get_user_register : ℕ → ℕ → ℕ → Memory → Found
get_user_register startadress endadress reglenght mem =
    read_user (λ u. u.adress) (λ u. u.value) startadress endadress reglenght mem.user_register 0

-- `GetUserCoil`
pub get_user_coil : ℕ → ℕ → ℕ → Memory → Found
get_user_coil startadress endadress coillenght mem =
    read_user (λ u. u.adress) (λ u. u.value) startadress endadress coillenght mem.user_coil 0

-- one more value before the others
abbrev cons_out : ℕ → Option (ℤ × List ℕ) → Option (ℤ × List ℕ)
cons_out b none = none
cons_out b (some (ret, out)) = some (ret, b ∷ out)

-- `for (n = 0; n < lenght; n++) { if (full n) return -1; target[n] = source[n]; }`, with `count`
-- rounds left and `size` bytes in the target. `none` is an access outside one of the arrays.
pub copy_out : (ℕ → Bool) → ℕ → List ℕ → ℕ → ℕ → Option (ℤ × List ℕ)
copy_out full size source zero n = some (pos n, [])
copy_out full size source (suc count) n =
    let rest = copy_out full size source count (n + 1) in
    if full n
    then some (failure, [])
    else if leb size n
    then none
    else elim (get_elem? source n) [ none ↦ none | some b ↦ cons_out b rest ]

-- `GetHeader` by address: `index` is -1
pub get_header : ℕ → ℕ → Memory → Option (ℤ × List ℕ)
get_header adress headerlenght mem =
    if ltb adress 0xFFFF
    then elim (get_reg_start_index adress mem.registers) [
      | negsuc i ↦ some (failure, [])
      | pos i ↦ elim (get_elem? mem.registers i) [
        | none ↦ none
        | some r ↦
            if not r.have_header
            then some (pos 0, [])
            else copy_out (λ n. leb headerlenght n) headerlenght r.header r.headersize 0
      ]
    ]
    else some (failure, [])

-- `GetHeader` by an index that is not negative; this loop lets `n` reach `headerlenght`,
-- and then writes behind the array.
pub get_header_at : ℕ → ℕ → Memory → Option (ℤ × List ℕ)
get_header_at index headerlenght mem =
    if leb max_reg index then some (failure, []) else elim (get_elem? mem.registers index) [
      | none ↦ none
      | some r ↦
          if r.empty || not r.have_header
          then some (pos 0, [])
          else copy_out (λ n. ltb headerlenght n) headerlenght r.header r.headersize 0
    ]

-- the copy of `GetDeviceInfo`, which returns the stored length
abbrev info_out : ℤ → List ℕ → ℕ → Option (ℤ × List ℕ)
info_out lenght info deviceinfolenght =
    elim (copy_out (λ n. leb deviceinfolenght n) deviceinfolenght info (pos_part lenght) 0) [
      | none ↦ none
      | some (pos n, out) ↦ some (lenght, out)
      | some (negsuc n, out) ↦ some (failure, out)
    ]

-- `GetDeviceInfo`
pub get_device_info : ℕ → ℕ → Memory → Option (ℤ × List ℕ)
get_device_info type deviceinfolenght mem =
    if type == 1
    then info_out mem.device_info1_lenght mem.device_info1 deviceinfolenght
    else if type == 2
    then info_out mem.device_info2_lenght mem.device_info2 deviceinfolenght
    else some (failure, [])

-- `RegisterHaveAlternateValue`
pub register_have_alternate_value : ℕ → Memory → Bool
register_have_alternate_value adress mem = elim (get_reg_start_index adress mem.registers) [
  | negsuc i ↦ false
  | pos i ↦ elim (get_elem? mem.registers i) [ none ↦ false | some r ↦ r.have_alternate_value ]
]
