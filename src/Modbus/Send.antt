-- ===== src/Modbus/Send.antt =====
-- modbus.c: the frames that `SendRequest` and `SendConfirmation` write. The results of the calls of
-- `write` are a list, in their order; `none` is a call that this list does not answer.
pub mod Wire
use epsolar_tracer_client.Base.{
  ℕ, zero, suc, ◌+◌, ◌-◌, ◌<◌, ℤ, pos, negsuc, failure, List, [], ◌∷◌, ◌++◌, length, take, drop,
  ltb, if◌then◌else◌, int16_bytes, Option, none, some,
}
use epsolar_tracer_client.Modbus.Crc.{crc16}
use epsolar_tracer_client.Modbus.Receive.{Event, idle, receive}

-- MODBUS_RTU_MAX_ADU_LENGTH
abbrev pub max_adu_length : ℕ
max_adu_length = 256

-- the first `send_lenght` bytes of `send_buffer`
abbrev pub frame : List ℕ → List ℕ
frame req = req ++ int16_bytes (crc16 req)

-- what a run of the loop has returned, and the bytes that it has written
pub record Sent : Type 0 where
  pub ret : ℤ
  pub wire : List ℕ

abbrev pub wrote : List ℕ → Option Sent → Option Sent
wrote bytes none = none
wrote bytes (some s) = some (record { ret = s.ret; wire = bytes ++ s.wire })

-- `while (send < send_lenght)`; it ends with the number of bytes sent, or with -1
unfoldable pub write_loop : List ℕ → ℕ → List ℤ → Option Sent
write_loop buffer send [] =
    if ltb send (length buffer) then none else some (record { ret = pos send; wire = [] })
write_loop buffer send (negsuc rc ∷ results) =
    if ltb send (length buffer)
    then some (record { ret = failure; wire = [] })
    else some (record { ret = pos send; wire = [] })
write_loop buffer send (pos zero ∷ results) =
    if ltb send (length buffer)
    then some (record { ret = failure; wire = [] })
    else some (record { ret = pos send; wire = [] })
write_loop buffer send (pos (suc rc) ∷ results) =
    let rest = write_loop buffer (send + suc rc) results in
    if ltb send (length buffer)
    then wrote (take (suc rc) (drop send buffer)) rest
    else some (record { ret = pos send; wire = [] })

-- what the rest of `SendRequest` does with the bytes written: it waits for the response
abbrev pub await_response : ℕ → List Event → ℤ → List ℕ → Option (ℤ × (List ℕ × List ℕ))
await_response slave events (negsuc n) wire = some (failure, (wire, []))
await_response slave events (pos n) wire = elim (receive slave idle events) [
  | none ↦ none
  | some r ↦ some (r.0, (wire, r.1))
]

abbrev pub await : ℕ → List Event → Option Sent → Option (ℤ × (List ℕ × List ℕ))
await slave events none = none
await slave events (some s) = await_response slave events s.ret s.wire

-- `SendRequest`: its result, the bytes written and the bytes stored in `resp`
unfoldable pub send_request : ℕ → List ℕ → List ℤ → List Event → Option (ℤ × (List ℕ × List ℕ))
send_request slave req results events =
    if ltb (max_adu_length - 2) (length req)
    then some (pos 0, ([], []))
    else if ltb (length req) 1
    then some (pos 0, ([], []))
    else await slave events (write_loop (frame req) 0 results)

-- `SendConfirmation` returns 0 where `write` fails.
abbrev confirmed : ℤ → ℤ
confirmed (negsuc n) = pos 0
confirmed (pos n) = pos n

-- `SendConfirmation`
pub send_confirmation : List ℕ → List ℤ → Option Sent
send_confirmation conf results =
    if ltb (max_adu_length - 2) (length conf)
    then some (record { ret = pos 0; wire = [] })
    else elim (write_loop (frame conf) 0 results) [
      | none ↦ none
      | some s ↦ some (record s { ret = confirmed s.ret })
    ]
