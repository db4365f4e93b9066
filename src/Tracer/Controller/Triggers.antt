-- ===== src/Tracer/Controller/Triggers.antt =====
-- Tracer/Controller: what a call of `modbus_send_request` leaves in the flags.
use epsolar_tracer_client.Base.{
  ℕ, zero, suc, ◌-◌, ◌≡◌, refl, sym, ap, ◌∙◌, ◌⊎◌, inl, inr, ℤ, pos, negsuc, pos_part, Bool, true,
  false, List, [], ◌∷◌, length, ltb, leb, if◌then◌else◌, get_or, Bool-cases, Option, none, some,
  some_inj, arith,
}
use mathlib.Core.Path.{subst}
use epsolar_tracer_client.Modbus.Receive.{Event, idle, receive}
use epsolar_tracer_client.Modbus.Receive.Accepted.{IsFrame, receive-IsFrame}
use epsolar_tracer_client.Modbus.Send.{
  Sent, max_adu_length, frame, write_loop, await, await_response, send_request,
}
use epsolar_tracer_client.Tracer.Outcome.{Outcome, stuck, returned, returned_inj}
use epsolar_tracer_client.Tracer.Flags.{Flags, all_needed}
use epsolar_tracer_client.Tracer.Controller.{
  Exchange, Answer, slave, is_write, after_request, reconnect, modbus_send_request,
}

await_response-IsFrame :
    (s k : ℕ) (events : List Event) (ret : ℤ) (wire : List ℕ) {w stored : List ℕ}
    → await_response s events ret wire ≡ some (pos (suc k), (w, stored))
    → (length stored ≡ suc k) × IsFrame s stored
await_response-IsFrame s k events (negsuc n) wire h = ground (arith, some_inj h)
await_response-IsFrame s k events (pos n) wire {w} {stored} h =
    elim (receive s idle events)
        as (λ o.
          receive s idle events ≡ o
          → ◌≡◌ {A = Option (ℤ × (List ℕ × List ℕ))}
              (elim o [ none ↦ none | some r ↦ some (r.0, (wire, r.1)) ])
              (some (pos (suc k), (w, stored)))
          → (length stored ≡ suc k) × IsFrame s stored) [
            | none ↦ λ e q. ground arith
            | some r ↦ λ e q.
                let t = some_inj q in
                receive-IsFrame s k idle stored events
                  (e ∙ ap (λ (z : ℤ × (List ℕ × List ℕ)). some (z.0, z.1.1)) t)
          ]
      refl h

await-IsFrame :
    (s k : ℕ) (events : List Event) (sent : Option Sent) {w stored : List ℕ}
    → await s events sent ≡ some (pos (suc k), (w, stored))
    → (length stored ≡ suc k) × IsFrame s stored
await-IsFrame s k events none h = ground arith
await-IsFrame s k events (some t) h = await_response-IsFrame s k events t.ret t.wire h

send_request-IsFrame :
    (s k : ℕ) (req : List ℕ) (results : List ℤ) (events : List Event) {w stored : List ℕ}
    → send_request s req results events ≡ some (pos (suc k), (w, stored))
    → (length stored ≡ suc k) × IsFrame s stored
unfolding send_request
send_request-IsFrame s k req results events {w} {stored} h =
    elim (Bool-cases (ltb (max_adu_length - 2) (length req))) [
      | inl long ↦
          let h' : ◌≡◌ {A = Option (ℤ × (List ℕ × List ℕ))} (some (pos 0, ([], [])))
              (some (pos (suc k), (w, stored))) =
            rw long at h in
          ground (arith, some_inj h')
      | inr fits ↦ elim (Bool-cases (ltb (length req) 1)) [
        | inl short ↦
            let h' : ◌≡◌ {A = Option (ℤ × (List ℕ × List ℕ))} (some (pos 0, ([], [])))
                (some (pos (suc k), (w, stored))) =
              rw (fits, short) at h in
            ground (arith, some_inj h')
        | inr some_bytes ↦
            await-IsFrame s k events (write_loop (frame req) 0 results) (rw (fits, some_bytes) at h)
      ]
    ]

-- what a call of `modbus_send_request` on `flags` may leave: a frame of the charge controller,
-- whose function code alone decides on the flags, or no data and the flags as they were
abbrev pub HasTriggered : Flags → Answer → Type 0
HasTriggered flags a =
    ((a.rc ≡ pos (length a.stored))
      × (IsFrame slave a.stored)
      × (a.flags ≡ (if is_write (get_or a.stored 1 0) then all_needed else flags)))
    ⊎ ((pos_part a.rc ≡ 0) × (a.flags ≡ flags))

reconnect-eq :
    {a b : Answer} (left : ℕ) (connects : List Bool)
    → reconnect left connects a ≡ returned b
    → a ≡ b
unfolding reconnect
reconnect-eq zero connects h = ground arith
reconnect-eq (suc left) [] h = ground arith
reconnect-eq (suc left) (true ∷ connects) h = returned_inj h
reconnect-eq (suc left) (false ∷ connects) h = reconnect-eq left connects h

after_request-HasTriggered :
    (rc : ℤ) (wire stored : List ℕ) (connects : List Bool) (flags : Flags) (a : Answer)
    → ((k : ℕ) → rc ≡ pos (suc k) → (length stored ≡ suc k) × IsFrame slave stored)
    → after_request rc wire stored connects flags ≡ returned a
    → HasTriggered flags a
after_request-HasTriggered (pos zero) wire stored connects flags a framed h =
    inr (ground (arith, returned_inj h))
after_request-HasTriggered (pos (suc k)) wire stored connects flags a framed h =
    let (len, frame') = framed k refl in
    let long : leb 2 (suc k) ≡ true = ground (arith, frame'.long) in
    subst (HasTriggered flags) (returned_inj h) (inl (ap pos (sym len), frame', (rw long refl)))
after_request-HasTriggered (negsuc zero) wire stored connects flags a framed h =
    let e = reconnect-eq 20 connects h in
    inr (ap (λ (z : Answer). pos_part z.rc) (sym e), ap (λ (z : Answer). z.flags) (sym e))
after_request-HasTriggered (negsuc (suc n)) wire stored connects flags a framed h =
    inr (ground (arith, returned_inj h))

-- A call of `modbus_send_request` that returns has either received a frame of the charge
-- controller, with its length as the result, and then sets all four flags where the function code
-- is one that writes, and none otherwise; or its result is not positive, and the flags are as
-- before. This holds whatever the line does.
pub modbus_send_request-HasTriggered :
    (connected : Bool) (req : List ℕ) (x : Exchange) (flags : Flags) (a : Answer)
    → modbus_send_request connected req x flags ≡ returned a
    → HasTriggered flags a
unfolding modbus_send_request
modbus_send_request-HasTriggered false req x flags a h = inr (ground (arith, returned_inj h))
modbus_send_request-HasTriggered true req x flags a h =
    elim (send_request slave req x.written x.events)
        as (λ o.
          send_request slave req x.written x.events ≡ o
          → ◌≡◌ {A = Outcome Answer}
              (elim o [
                | none ↦ stuck
                | some (rc, (wire, stored)) ↦ after_request rc wire stored x.connects flags
              ])
              (returned a)
          → HasTriggered flags a) [
            | none ↦ λ e q. ground arith
            | some (rc, (wire, stored)) ↦ λ e q.
                after_request-HasTriggered rc wire stored x.connects flags a
                  (λ k r.
                    send_request-IsFrame slave k req x.written x.events
                      (e ∙ ap (λ (z : ℤ). some (z, (wire, stored))) r))
                  q
          ]
      refl h

-- the positive results are those of a frame
pub answer-IsFrame :
    (n : ℕ) (flags : Flags) (a : Answer)
    → HasTriggered flags a
    → a.rc ≡ pos (suc n)
    → (length a.stored ≡ suc n) × IsFrame slave a.stored
answer-IsFrame n flags a (inl t) e = (ap pos_part (sym t.0 ∙ e), t.1)
answer-IsFrame n flags a (inr t) e = ground (arith, sym (ap pos_part e) ∙ t.0)
