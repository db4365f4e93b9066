-- ===== src/Modbus/Receive.antt =====
-- modbus.c: `Receive`, the state machine that takes a frame from the serial line. Each call of
-- `Timeout` and the `read` behind it is one event of a list; `none` is a wait that the list does
-- not answer.
pub mod Accepted
pub mod Silence
use epsolar_tracer_client.Base.{
  ℕ, zero, suc, ◌+◌, ◌-◌, ℤ, pos, negsuc, failure, Bool, true, false, not, ◌&&◌, List, [], ◌∷◌,
  ◌++◌, length, take, get_or, ltb, ◌==◌, if◌then◌else◌, get_int16, Option, none, some,
}
use epsolar_tracer_client.Modbus.Crc.{crc16}

-- T1_5: `Connect` sets it to TIMEOUT_T1_5 at every speed (microseconds).
abbrev pub t1_5 : ℕ
t1_5 = 3000

-- MODBUS_RTU_MAX_ADU_LENGTH, the size of `read_buffer`
abbrev pub read_buffer_size : ℕ
read_buffer_size = 256

-- `enum eState`; `waiting` is never entered, and a loop in that state would not end
pub data State : Type 0 where
  initial : State
  waiting : State
  processing : State
  idle : State

-- What `select` finds: an error, the timeout, or a byte ready after `elapsed` microseconds, which
-- `read` then gives or fails to give.
pub data Event : Type 0 where
  select_error : Event
  timeout : Event
  ready : (elapsed : ℕ) (byte : Option ℕ) → Event

-- How a round of the loop ends: `continue` with a state and the bytes read so far, `return`, or the
-- `break` with `Complete` set.
pub data Round : Type 0 where
  go_on : (state : State) (read_buffer : List ℕ) → Round
  done : (ret : ℤ) → Round
  complete : Round

-- `read` into the next cell of `read_buffer`
abbrev read_byte : List ℕ → Option ℕ → Round
read_byte buffer (some b) = go_on processing (buffer ++ b ∷ [])
read_byte buffer none = done failure

-- the round of the loop
pub round : State → List ℕ → Event → Round
round initial buffer select_error = done failure
round initial buffer timeout = go_on idle buffer
round initial buffer (ready elapsed (some discardbyte)) = go_on initial buffer
round initial buffer (ready elapsed none) = done failure
round waiting buffer event = go_on waiting buffer
round idle buffer select_error = done failure
round idle buffer timeout = done (pos 0)
round idle buffer (ready elapsed byte) = read_byte buffer byte
round processing buffer select_error = done failure
round processing buffer timeout = complete
round processing buffer (ready elapsed byte) =
    if ltb t1_5 elapsed then go_on initial [] else read_byte buffer byte

-- the end of `Receive`: its result, and the bytes copied to the caller's buffer
pub accept : ℕ → Bool → List ℕ → ℤ × List ℕ
accept slave is_complete buffer =
    let n = length buffer in
    let crc = crc16 (take (n - 2) buffer) in
    let crc_received = get_int16 (get_or buffer (n - 2) 0) (get_or buffer (n - 2 + 1) 0) in
    if is_complete && ltb 3 n
    then if not (get_or buffer 0 0 == slave)
      then (pos 0, [])
      else if crc_received == crc
      then (pos n, buffer)
      else (pos 0, [])
    else (pos 0, [])

-- `for (;;)`, with the bytes read so far
pub receive_loop : ℕ → State → List ℕ → List Event → Option (ℤ × List ℕ)
receive_loop slave state buffer [] =
    if length buffer == read_buffer_size then some (accept slave false buffer) else none
receive_loop slave state buffer (event ∷ events) =
    let next : Option (ℤ × List ℕ) = elim (round state buffer event) [
      | go_on state' buffer' ↦ receive_loop slave state' buffer' events
      | done ret ↦ some (ret, [])
      | complete ↦ some (accept slave true buffer)
    ] in
    if length buffer == read_buffer_size then some (accept slave false buffer) else next

-- `Receive`
abbrev pub receive : ℕ → State → List Event → Option (ℤ × List ℕ)
receive slave input_state events = receive_loop slave input_state [] events

-- `ReceiveRequest`
pub receive_request : ℕ → List Event → Option (ℤ × List ℕ)
receive_request slave events = receive slave initial events
