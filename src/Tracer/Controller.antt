-- ===== src/Tracer/Controller.antt =====
-- tracerctr.c: `modbus_send_request`, the only way in which the client's threads reach the charge
-- controller.
pub mod Triggers
use epsolar_tracer_client.Base.{
  ℕ, zero, suc, ℤ, pos, negsuc, failure, Bool, true, false, not, ◌||◌, List, [], ◌∷◌, ◌==◌, leb,
  if◌then◌else◌, get_or, Option, none, some,
}
use epsolar_tracer_client.Modbus.Receive.{Event}
use epsolar_tracer_client.Modbus.Send.{send_request}
use epsolar_tracer_client.Tracer.Outcome.{Outcome, stuck, exited, returned}
use epsolar_tracer_client.Tracer.Flags.{
  Flags, trigger_tracer_statistic, trigger_tracer_realtime, trigger_server_statistic,
  trigger_server_realtime,
}

-- What the system gives to one call: the results of `write`, what `Receive` sees of the line, and
-- for each call of `Connect` in the loop that reconnects, whether it succeeds.
pub record Exchange : Type 0 where
  pub written : List ℤ
  pub events : List Event
  pub connects : List Bool

-- What a call has done: its result, the bytes written on the line, those stored in `rsp`, and the
-- flags.
pub record Answer : Type 0 where
  pub rc : ℤ
  pub wire : List ℕ
  pub stored : List ℕ
  pub flags : Flags

-- the number of the charge controller: `SetSlave(1)`
abbrev pub slave : ℕ
slave = 1

-- `for (retry = 0; retry<20; retry++)`, with `left` rounds to go, and then the rest of the call
pub reconnect : {A : Type 0} → ℕ → List Bool → A → Outcome A
reconnect zero connects a = exited
reconnect (suc left) [] a = stuck
reconnect (suc left) (true ∷ connects) a = returned a
reconnect (suc left) (false ∷ connects) a = reconnect left connects a

-- the function codes that write to the controller
abbrev pub is_write : ℕ → Bool
is_write code = (code == 0x05) || (code == 0x10) || (code == 0x0F) || (code == 0x06)

abbrev pub trigger_all : Flags → Flags
trigger_all f =
    trigger_server_realtime
      (trigger_server_statistic (trigger_tracer_realtime (trigger_tracer_statistic f)))

-- what follows `SendRequest`
abbrev pub after_request : ℤ → List ℕ → List ℕ → List Bool → Flags → Outcome Answer
after_request (pos n) wire stored connects flags =
    let flags' =
      if leb 2 n
      then if is_write (get_or stored 1 0) then trigger_all flags else flags
      else flags in
    returned (record { rc = pos n; wire = wire; stored = stored; flags = flags' })
after_request (negsuc zero) wire stored connects flags =
    reconnect 20 connects (record { rc = failure; wire = wire; stored = stored; flags = flags })
after_request (negsuc (suc n)) wire stored connects flags =
    returned (record { rc = negsuc (suc n); wire = wire; stored = stored; flags = flags })

-- `modbus_send_request`; `connected` is `TracerConnected && ctx`
unfoldable pub modbus_send_request : Bool → List ℕ → Exchange → Flags → Outcome Answer
modbus_send_request connected req x flags =
    if not connected
    then returned (record { rc = pos 0; wire = []; stored = []; flags = flags })
    else elim (send_request slave req x.written x.events) [
      | none ↦ stuck
      | some (rc, (wire, stored)) ↦ after_request rc wire stored x.connects flags
    ]
