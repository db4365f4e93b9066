-- ===== src/Mttp/Decode.antt =====
-- mttp.c: decoding a received message into the slots, and reading a slot.
pub mod Scanning
pub mod Payload
pub mod Received
pub mod Overlay
pub mod Delivery
use epsolar_tracer_client.Base.{
  ℕ, zero, suc, ◌+◌, ℤ, pos, failure, Bool, true, false, not, ◌&&◌, ◌||◌, List, [], ◌∷◌, Option,
  none, some, ◌==◌, ltb, leb, if◌then◌else◌, update?, get_elem?, length, set, take, get_int16,
}
use epsolar_tracer_client.Mttp.State.{
  Mttp, Slot, dle, stx, etx, scd, ecd, command_size, max_commands,
}

-- The local variables of `AddMessage` (`etxfound` is set only where the function returns).
pub record Scan : Type 0 where
  pub dlefound : Bool
  pub stxfound : Bool
  pub scdfound : Bool
  pub ecdfound : Bool
  pub cmdindex : ℕ
  pub cmdheaderindex : ℕ
  pub payloadlenght : ℕ
  pub headerindex : ℤ

-- How the `switch` on a byte ends: `continue`, `break` to the code below it, or `return (n+1)`.
pub data Control : Type 0 where
  skip : Scan → Control
  fall : Scan → Control
  stop : Control

abbrev equals : ℤ → ℕ → Bool
equals (pos n) k = n == k
equals z k = false

abbrev in_header : Scan → Bool
in_header s = equals s.headerindex 0 || equals s.headerindex 1 || equals s.headerindex 2

-- `case DLE`
on_dle : Scan → Control
on_dle s =
    if in_header s
    then fall s
    else if not s.dlefound
    then skip (record s { dlefound = true })
    else fall (record s { dlefound = false })

-- `case STX`
on_stx : Scan → Control
on_stx s =
    if s.dlefound
    then skip (record s { stxfound = true; dlefound = false; headerindex = pos 0 })
    else fall s

-- `case ETX`
on_etx : Scan → Control
on_etx s =
    if s.dlefound
    then if not s.stxfound then fall (record s { dlefound = false }) else stop
    else fall s

-- the second half of `case SCD`: the next slot, if a command came before
next_slot : Scan → Control
next_slot s =
    if s.ecdfound
    then if leb max_commands (s.cmdindex + 1)
      then stop
      else skip (record s { cmdindex = s.cmdindex + 1; ecdfound = false })
    else skip s

-- `case SCD`
on_scd : Scan → Control
on_scd s =
    if s.dlefound
    then if not s.scdfound then next_slot (record s { scdfound = true; dlefound = false }) else stop
    else fall s

-- `case ECD`
on_ecd : Scan → Control
on_ecd s =
    if s.dlefound
    then skip (record s {
      scdfound = false;
      ecdfound = true;
      dlefound = false;
      payloadlenght = 0;
      cmdheaderindex = 0;
    })
    else fall s

-- the `switch (message[n])`
pub control : Scan → ℕ → Control
control s b =
    if b == dle
    then on_dle s
    else if b == stx
    then on_stx s
    else if b == etx
    then on_etx s
    else if b == scd
    then on_scd s
    else if b == ecd
    then on_ecd s
    else fall s

-- a byte of the message header, counted and ignored
abbrev skip_header : Scan → Scan
skip_header s =
    if equals s.headerindex 0
    then record s { headerindex = pos 1 }
    else if equals s.headerindex 1
    then record s { headerindex = pos 2 }
    else if equals s.headerindex 2
    then record s { headerindex = pos 3 }
    else s

abbrev with_slots : Scan → Option (List Slot) → Option (Scan × List Slot)
with_slots s none = none
with_slots s (some slots) = some (s, slots)

-- `payload[k] = b` in the array of a slot; `none` is a write behind its end.
abbrev store_payload : ℕ → ℕ → Slot → Option Slot
store_payload k b slot = elim (update? slot.payload k (λ _. b)) [
  | none ↦ none
  | some p ↦ some (record slot { payload = p; payloadlenght = k + 1 })
]

-- The slot with index `i` changed by a step that may fail.
abbrev change_slot : List Slot → ℕ → (Slot → Option Slot) → Option (List Slot)
change_slot [] i f = none
change_slot (s ∷ slots) zero f = elim (f s) [ none ↦ none | some s' ↦ some (s' ∷ slots) ]
change_slot (s ∷ slots) (suc i) f = elim (change_slot slots i f) [
  | none ↦ none
  | some slots' ↦ some (s ∷ slots')
]

-- the byte behind the current one, `message[n+1]`
abbrev int16_at : ℕ → List ℕ → Option ℕ
int16_at b [] = none
int16_at b (b' ∷ bs) = some (get_int16 b b')

-- A byte of a command: its type, its address (the high byte reads the low one with it), then the
-- payload. `none` is an access outside an array.
pub store : Scan → List Slot → ℕ → List ℕ → Option (Scan × List Slot)
store s slots b rest =
    if s.cmdheaderindex == 0
    then with_slots (record s { cmdheaderindex = 1 })
        (change_slot slots s.cmdindex (λ slot. some (record slot { datatype = b })))
    else if s.cmdheaderindex == 1
    then with_slots (record s { cmdheaderindex = 2 })
        (change_slot slots s.cmdindex (λ slot. elim (int16_at b rest) [
          | none ↦ none
          | some w ↦ some (record slot { startadress = w })
        ]))
    else if s.cmdheaderindex == 2
    then with_slots (record s { cmdheaderindex = 3 })
        (change_slot slots s.cmdindex
          (λ slot. some (record slot { payloadlenght = 0; exist = true })))
    else with_slots (record s { payloadlenght = s.payloadlenght + 1 })
        (change_slot slots s.cmdindex (store_payload s.payloadlenght b))

-- the code below the `switch`
pub consume : Scan → List Slot → ℕ → List ℕ → Option (Scan × List Slot)
consume s slots b rest =
    if s.stxfound && not s.scdfound
    then some (skip_header s, slots)
    else if s.stxfound && s.scdfound
    then store s slots b rest
    else some (s, slots)

-- The `for` over the message, from index `n` on, with `left` bytes to go. The list is the memory
-- behind `message + n`; `none` is an access outside an array.
pub decode : List ℕ → ℕ → ℕ → Scan → List Slot → Option (ℕ × List Slot)
decode bytes zero n s slots = some (n + 1, slots)
decode [] (suc left) n s slots = none
decode (b ∷ rest) (suc left) n s slots = elim (control s b) [
  | stop ↦ some (n + 1, slots)
  | skip s' ↦ decode rest left (n + 1) s' slots
  | fall s' ↦ elim (consume s' slots b rest) [
    | none ↦ none
    | some (s'', slots') ↦ decode rest left (n + 1) s'' slots'
  ]
]

-- the first slot that is free
abbrev pub free_slot : List Slot → Option ℕ
free_slot [] = none
free_slot (s ∷ slots) =
    if s.exist then elim (free_slot slots) [ none ↦ none | some i ↦ some (suc i) ] else some 0

abbrev pub start_scan : ℕ → Scan
start_scan i = record {
  dlefound = false;
  stxfound = false;
  scdfound = false;
  ecdfound = false;
  cmdindex = i;
  cmdheaderindex = 0;
  payloadlenght = 0;
  headerindex = failure;
}

-- `AddMessage`: the number that it returns, and the object.
pub add_message : List ℕ → ℕ → Mttp → Option (ℕ × Mttp)
add_message message lenght m = elim (free_slot m.decoded_commands) [
  | none ↦ some (0, m)
  | some i ↦ elim (decode message lenght 0 (start_scan i) m.decoded_commands) [
    | none ↦ none
    | some (n, slots) ↦ some (n, record m { decoded_commands = slots })
  ]
]

-- What `GetCommand` leaves in the caller's variables.
pub record Taken : Type 0 where
  pub memtype : ℕ
  pub startadress : ℕ
  pub command : List ℕ

-- `GetCommand`, at an index that is not negative: the result, what it copies to the caller on
-- success, and the object.
pub get_command : ℕ → ℕ → Mttp → ℤ × Option Taken × Mttp
get_command commandsize index m =
    if leb max_commands index
    then (failure, none, m)
    else elim (get_elem? m.decoded_commands index) [
      | none ↦ (failure, none, m)
      | some slot ↦
          if not slot.exist
          then (failure, none, m)
          else if ltb commandsize slot.payloadlenght
          then (failure, none, m)
          else (
            pos slot.payloadlenght,
            some (record {
              memtype = slot.datatype;
              startadress = slot.startadress;
              command = take slot.payloadlenght slot.payload;
            }),
            record m {
              decoded_commands = set m.decoded_commands index (record slot { exist = false });
            },
          )
    ]
