-- ===== src/Mttp/Encode.antt =====
-- mttp.c: filling the send buffer.
pub mod Framing
use epsolar_tracer_client.Base.{
  ℕ, ◌+◌, ℤ, pos, failure, Bool, true, false, not, ◌&&◌, List, [], ◌∷◌, ◌++◌, ◌==◌, ltb,
  if◌then◌else◌, get_or, length, u16, high_byte, low_byte, get_int16, set_int16,
}
use epsolar_tracer_client.Common.{e_none, e_heartbeat}
use epsolar_tracer_client.Mttp.State.{Mttp, Slot, dle, stx, etx, scd, ecd}

abbrev is_empty : List ℕ → Bool
is_empty [] = true
is_empty (b ∷ bs) = false

-- `InitBuffer`
pub init_buffer : ℕ → Mttp → Mttp
init_buffer act m =
    let m' : Mttp = if act == e_none then record m { buffer = [] } else m in
    if act == e_heartbeat
    then record m' {
      buffer = dle ∷ stx ∷ 0x00 ∷ 0x07 ∷ act ∷ dle ∷ etx ∷ [];
      closed = true;
      inited = true;
    }
    else if is_empty m'.buffer && not (act == e_none)
    then record m' {
      buffer = m'.buffer ++ dle ∷ stx ∷ 0x00 ∷ 0x05 ∷ act ∷ [];
      closed = false;
      inited = true;
    }
    else if not (act == e_none)
    then record m' { buffer = dle ∷ stx ∷ 0x00 ∷ 0x05 ∷ act ∷ []; closed = false; inited = true }
    else m'

-- The constructor. `closed` and the slots hold what the memory held before, but `exist` is false
-- in every slot.
pub create : Bool → List Slot → ℕ → Mttp
unfolding init_buffer
create closed slots act =
    init_buffer act
      (record { buffer = []; closed = closed; inited = false; decoded_commands = slots })

-- what `AddCommand` changes while it writes: the buffer and `commandlenght`
record Output : Type 0 where
  buffer : List ℕ
  commandlenght : ℕ

push_byte : ℕ → Output → Output
push_byte b o = record { buffer = o.buffer ++ b ∷ []; commandlenght = o.commandlenght + 1 }

-- A DLE goes twice.
push_escaped : ℕ → Output → Output
push_escaped b o = push_byte b (if b == dle then push_byte dle o else o)

push_payload : List ℕ → Output → Output
push_payload [] o = o
push_payload (c ∷ cs) o = push_payload cs (push_escaped c o)

-- The message length, in the bytes 2 and 3, raised by `n`.
add_lenght : ℕ → List ℕ → List ℕ
add_lenght n buffer =
    let old_message_lenght = get_int16 (get_or buffer 2 0) (get_or buffer 3 0) in
    set_int16 buffer 2 (u16 (old_message_lenght + n))

push_command : ℕ → List ℕ → ℕ → Output → Output
push_command memtype command adress o =
    let start = push_byte memtype (push_byte scd (push_byte dle o)) in
    let header = push_escaped (low_byte adress) (push_escaped (high_byte adress) start) in
    push_byte ecd (push_byte dle (push_payload command header))

-- `AddCommand`; the list is `command[0..lenght)`, empty where `lenght` is not positive.
pub add_command : ℕ → List ℕ → ℕ → Mttp → ℤ × Mttp
add_command memtype command adress m =
    if m.closed
    then (failure, m)
    else let o =
        push_command memtype command adress (record { buffer = m.buffer; commandlenght = 0 }) in
      (pos o.commandlenght, record m { buffer = add_lenght o.commandlenght o.buffer })

-- `CloseBuffer`
pub close_buffer : Mttp → Mttp
close_buffer m =
    if m.inited && not m.closed
    then record m { buffer = add_lenght 2 (m.buffer ++ dle ∷ etx ∷ []); closed = true }
    else m

-- `GetBuffer`: the result, the bytes copied to `sendbuffer`, and the object.
pub get_buffer : ℕ → Mttp → ℤ × List ℕ × Mttp
get_buffer sendbufferlen m =
    if not m.inited
    then (failure, [], m)
    else let m' = if not m.closed then close_buffer m else m in
      let buffsize = length m'.buffer in
      if buffsize == 0
      then (failure, [], m')
      else if ltb sendbufferlen buffsize
      then (failure, [], m')
      else (pos buffsize, m'.buffer, m')
