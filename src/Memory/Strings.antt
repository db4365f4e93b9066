-- ===== src/Memory/Strings.antt =====
-- memory.c: the functions that read and write values as text.
pub mod Updated
pub mod Roundtrip
pub mod Wide
use epsolar_tracer_client.Base.{
  ℕ, zero, suc, ◌+◌, ◌*◌, ◌/◌, ◌%◌, ◌^◌, ℤ, pos, negsuc, failure, Bool, true, false, not, ◌&&◌,
  List, [], ◌∷◌, ◌++◌, ◌==◌, ltb, leb, if◌then◌else◌, u16, get_elem?, update?, Option, none, some,
}
use epsolar_tracer_client.Text.{text_eq, codes, to_string, int_to_string, stoi, wrapped, as_signed}
use epsolar_tracer_client.Memory.State.{Memory, Register, UserRegister, UserCoil, UserSwitch}
use epsolar_tracer_client.Memory.Lookup.{get_reg_start_index}
use epsolar_tracer_client.Memory.Cells.{◌>>=◌, put_alternate, put_user_register, put_user_coil}

-- MINUSERREG to MAXUSERREG and MINUSERCOIL to MAXUSERCOIL
abbrev pub is_user_register : ℕ → Bool
is_user_register adress = leb 0x3400 adress && leb adress 0x8FFF

abbrev pub is_user_coil : ℕ → Bool
is_user_coil adress = leb 0x0020 adress && leb adress 0x00FF

-- the first of the user's registers or coils with an address
unfoldable pub find_user : {A : Type 0} → (A → ℕ) → ℕ → List A → Option A
find_user adress_of adress [] = none
find_user adress_of adress (u ∷ us) =
    if adress_of u == adress then some u else find_user adress_of adress us

-- the same, changed in place
unfoldable pub change_user : {A : Type 0} → (A → ℕ) → (A → A) → ℕ → List A → Option (List A)
change_user adress_of change adress [] = none
change_user adress_of change adress (u ∷ us) =
    let others = change_user adress_of change adress us >>= λ us'. some (u ∷ us') in
    if adress_of u == adress then some (change u ∷ us) else others

-- `std::to_string` of a value of `w` bits, signed or not
abbrev pub value_text : ℕ → Bool → ℕ → List ℕ
value_text w issigned v = if issigned then int_to_string (as_signed w v) else to_string v

-- `value.append(1, '\n')`
abbrev pub line_of : List ℕ → List ℕ
line_of value = value ++ 10 ∷ []

-- the index of a register, none for the address 0
abbrev pub index_of : ℕ → Memory → ℤ
index_of adress mem = if ltb 0 adress then get_reg_start_index adress mem.registers else failure

-- the value that is shown of a register, the original one if `orig`
abbrev pub shown_value : Bool → Register → ℕ
shown_value orig r = if r.have_alternate_value && not orig then r.alternate_value else r.value

-- `Register[n]`, for an index that may be negative
abbrev pub register_of : ℤ → Memory → Option Register
register_of (negsuc n) mem = none
register_of (pos n) mem = get_elem? mem.registers n

-- `GetRegStr`
pub get_reg_str : ℕ → Bool → Memory → List ℕ
get_reg_str adress orig mem =
    if is_user_register adress
    then elim (find_user (λ u. u.adress) adress mem.user_register) [
      | none ↦ line_of []
      | some u ↦ line_of (value_text 16 u.issigned u.value)
    ]
    else elim (register_of (index_of adress mem) mem) [
      | none ↦ line_of []
      | some r ↦ line_of (value_text 16 r.issigned (shown_value orig r))
    ]

-- `GetCoilStr`
unfoldable pub get_coil_str : ℕ → Memory → List ℕ
get_coil_str adress mem =
    if is_user_coil adress
    then elim (find_user (λ u. u.adress) adress mem.user_coil) [
      | none ↦ line_of []
      | some u ↦ line_of (to_string u.value)
    ]
    else line_of []

-- MODBUS_GET_INT32_FROM_INT16, of the high half and the low half
abbrev pub join32 : ℕ → ℕ → ℕ
join32 hi lo = (hi * 2 ^ 16 + lo) % 2 ^ 32

-- the variables of the loop of `GetRegStr32`: `tmp[0]`, `tmp[1]`, `Signed` and `f`
pub record Halves : Type 0 where
  pub high : Option ℕ
  pub low : Option ℕ
  pub signed : Bool
  pub found : ℕ

-- The loop over the user's registers, which ends once two have been found.
unfoldable pub find_halves : ℕ → List UserRegister → Halves → Halves
find_halves adress [] h = h
find_halves adress (u ∷ us) h =
    let h' : Halves =
      if u.adress == adress
      then record h { low = some u.value; signed = u.issigned; found = h.found + 1 }
      else if u.adress == adress + 1
      then record h { high = some u.value; signed = u.issigned; found = h.found + 1 }
      else h in
    if h'.found == 2 then h' else find_halves adress us h'

-- The text of two halves. `none` is a half that was never set.
abbrev pub halves_text : Bool → Option ℕ → Option ℕ → Option (List ℕ)
halves_text issigned (some hi) (some lo) = some (line_of (value_text 32 issigned (join32 hi lo)))
halves_text issigned (some hi) none = none
halves_text issigned none lo = none

-- `GetRegStr32`
pub get_reg_str32 : ℕ → Bool → Memory → Option (List ℕ)
get_reg_str32 adress orig mem =
    if is_user_register adress
    then (let h =
          find_halves adress mem.user_register
            (record { high = none; low = none; signed = false; found = 0 }) in
        if h.found == 2 then halves_text h.signed h.high h.low else some (line_of []))
    else elim (register_of
        (if ltb 0 adress then get_reg_start_index (u16 (adress + 1)) mem.registers else failure)
        mem) [
          | none ↦ some (line_of [])
          | some hi ↦ elim (register_of (index_of adress mem) mem) [
            | none ↦ some (line_of [])
            | some lo ↦
                let alternate = hi.have_alternate_value && lo.have_alternate_value && not orig in
                let issigned = not (not hi.issigned && not lo.issigned) in
                if alternate
                then some (
                    line_of (value_text 32 issigned (join32 hi.alternate_value lo.alternate_value)))
                else some (line_of (value_text 32 issigned (join32 hi.value lo.value)))
          ]
        ]

-- `Register[n]` changed; `none` is an access outside the array.
abbrev pub put_at : ℕ → ℕ → Memory → Option Memory
put_at n v mem =
    update? mem.registers n (put_alternate v) >>= λ rs. some (record mem { registers = rs })

-- `PutRegStr`
pub put_reg_str : List ℕ → ℕ → Memory → Option (ℤ × Memory)
put_reg_str value adress mem =
    if is_user_register adress
    then elim (stoi 10 value) [
      | none ↦ some (failure, mem)
      | some z ↦
          elim (change_user (λ u. u.adress) (put_user_register (wrapped 16 z)) adress
            mem.user_register) [
              | none ↦ some (failure, mem)
              | some us ↦ some (pos 1, record mem { user_register = us })
            ]
    ]
    else elim (index_of adress mem) [
      | negsuc i ↦ some (failure, mem)
      | pos n ↦ elim (stoi 10 value) [
        | none ↦ some (failure, mem)
        | some z ↦ put_at n (wrapped 16 z) mem >>= λ mem'. some (pos 1, mem')
      ]
    ]

-- the user's register with an address and the one behind it, changed
unfoldable pub change_pair : ℕ → ℕ → ℕ → List UserRegister → Option (List UserRegister)
change_pair lo hi adress [] = none
change_pair lo hi adress (u ∷ []) = none
change_pair lo hi adress (u ∷ v ∷ us) =
    let others = change_pair lo hi adress (v ∷ us) >>= λ us'. some (u ∷ us') in
    if u.adress == adress
    then some (put_user_register lo u ∷ put_user_register hi v ∷ us)
    else others

-- the two halves of MODBUS_SET_INT32_TO_INT16
abbrev pub low_half : ℕ → ℕ
low_half w = w % 2 ^ 16

abbrev pub high_half : ℕ → ℕ
high_half w = w / 2 ^ 16 % 2 ^ 16

-- `PutRegStr32`
pub put_reg_str32 : List ℕ → ℕ → Memory → Option (ℤ × Memory)
put_reg_str32 value adress mem =
    if is_user_register adress
    then elim (stoi 10 value) [
      | none ↦ some (failure, mem)
      | some z ↦
          elim (change_pair (low_half (wrapped 32 z)) (high_half (wrapped 32 z)) adress
            mem.user_register) [
              | none ↦ some (failure, mem)
              | some us ↦ some (pos 1, record mem { user_register = us })
            ]
    ]
    else elim (index_of adress mem) [
      | negsuc i ↦ some (failure, mem)
      | pos n ↦ elim (get_reg_start_index (u16 (adress + 1)) mem.registers) [
        | negsuc j ↦ some (failure, mem)
        | pos m ↦ elim (stoi 10 value) [
          | none ↦ some (failure, mem)
          | some z ↦ put_at n (low_half (wrapped 32 z)) mem >>= λ mem'.
              put_at (n + 1) (high_half (wrapped 32 z)) mem' >>= λ mem''. some (pos 1, mem'')
        ]
      ]
    ]

-- `PutCoilStr`
pub put_coil_str : List ℕ → ℕ → Memory → ℤ × Memory
put_coil_str value adress mem =
    if is_user_coil adress
    then elim (stoi 10 value) [
      | none ↦ (failure, mem)
      | some z ↦
          elim (change_user (λ u. u.adress) (put_user_coil (wrapped 8 z)) adress mem.user_coil) [
            | none ↦ (failure, mem)
            | some us ↦ (pos 1, record mem { user_coil = us })
          ]
    ]
    else (failure, mem)

-- `Switch`: its result, and the command that it hands to `system`
unfoldable pub switch_command : List ℕ → ℤ → List UserSwitch → ℤ × Option (List ℕ)
switch_command switchname onoff [] = (failure, none)
switch_command switchname onoff (s ∷ ss) =
    if text_eq (codes s.name) switchname
    then elim onoff [
      | negsuc n ↦ (failure, none)
      | pos n ↦
          if n == 1
          then (pos 1, some (codes s.on_command))
          else if n == 0
          then (pos 1, some (codes s.off_command))
          else (failure, none)
    ]
    else switch_command switchname onoff ss
