-- ===== src/Tracer/Poll/Asked.antt =====
-- Tracer/Poll: the polling part of the main loop, as a whole.
use mathlib.Core.Path.{subst}
use native.Mathlib.Nat.{suc-mul}
use epsolar_tracer_client.Base.{
  ℕ, zero, suc, ◌+◌, ◌*◌, ◌≤◌, ◌≡◌, sym, ap, ℤ, pos, negsuc, failure, Bool, true, false, List, [],
  ◌∷◌, ◌++◌, length, drop, if◌then◌else◌, arith,
}
use epsolar_tracer_client.Common.{e_reg}
use epsolar_tracer_client.Memory.Invariant.{IsValid}
use epsolar_tracer_client.Memory.SaveData.{save_data}
use epsolar_tracer_client.Memory.SaveData.Valid.{save_data-IsValid}
use epsolar_tracer_client.Memory.SaveResponse.{save_response}
use epsolar_tracer_client.Tracer.Outcome.{
  Outcome, returned, ◌>>=◌, accessed, >>=-eq-returned, returned_inj,
}
use epsolar_tracer_client.Tracer.Controller.{Exchange, modbus_send_request}
use epsolar_tracer_client.Tracer.Poll.{
  Request, Tm, Tracer, save_timestamp, timestamp_payload, save_answer, read_one, read_requests,
  retry, poll_realtime, poll_statistic, poll, real_time_data, real_time_status, statistic_data,
  tracer_info1, tracer_info2, rated_data, setting_data, discrete_input,
}
use epsolar_tracer_client.Tracer.Poll.Reads.{
  Reads-IsValid, read_requests-Reads, accessed-eq-returned,
}

-- A step from `s` to `s'` keeps the memory valid and asks the controller at most `n` times.
pub record IsWithin (n : ℕ) (s s' : Tracer) : Type 0 where
  pub valid : IsValid s.mem → IsValid s'.mem
  pub least : s.asked ≤ s'.asked
  pub most : s'.asked ≤ s.asked + n

-- the steps that do so wherever they return
abbrev AsksMost : ℕ → (Tracer → Outcome Tracer) → Type 0
AsksMost n f = (s s' : Tracer) → f s ≡ returned s' → IsWithin n s s'

returned-within : AsksMost 0 returned
returned-within s s' h =
    subst (IsWithin 0 s) (returned_inj h)
      (record { valid = λ v. v; least = omega arith; most = omega arith })

weaken : {n k : ℕ} {s s' : Tracer} → n ≤ k → IsWithin n s s' → IsWithin k s s'
weaken less a = record { valid = a.valid; least = a.least; most = omega (arith, a.most) }

trans-IsWithin : {n k : ℕ} {s t u : Tracer} → IsWithin n s t → IsWithin k t u → IsWithin (n + k) s u
trans-IsWithin a b = record {
  valid = λ v. b.valid (a.valid v);
  least = omega (arith, a.least, b.least);
  most = omega (arith, a.most, b.most);
}

>>=-within :
    {n k : ℕ} (f g : Tracer → Outcome Tracer)
    → AsksMost n f
    → AsksMost k g
    → AsksMost (n + k) (λ s. f s >>= g)
>>=-within f g hf hg s s' h =
    let (t, e, e') = >>=-eq-returned (f s) g h in trans-IsWithin (hf s t e) (hg t s' e')

choice-within :
    {n : ℕ} (b : Bool) (f : Tracer → Outcome Tracer)
    → AsksMost n f
    → AsksMost n (λ s. if b then f s else returned s)
choice-within true f hf s s' h = hf s s' h
choice-within false f hf s s' h = weaken (omega arith) (returned-within s s' h)

module _ (connected : Bool) (line : ℕ → Exchange) (time : ℕ → ℕ) (localtime : ℕ → Tm)
    (stale : ℕ → List ℕ) where
  save_timestamp-within : AsksMost 0 (save_timestamp connected line time localtime stale)
  unfolding save_timestamp
  save_timestamp-within s s' h =
      let payload = timestamp_payload (time s.ticks) (localtime (time s.ticks)) in
      let (r, e, e') = >>=-eq-returned (accessed (save_data e_reg 0x3330 16 payload s.mem)) _ h in
      let saved = accessed-eq-returned (save_data e_reg 0x3330 16 payload s.mem) e in
      subst (IsWithin 0 s) (returned_inj e') (record {
        valid = λ v. save_data-IsValid 16 payload s.mem v e_reg 0x3330 saved;
        least = omega arith;
        most = omega arith;
      })

  save_answer-asked :
      (q : Request) (rsp : List ℕ) (rc : ℤ) (s : Tracer) (r : Bool × (List ℕ × Tracer))
      → save_answer connected line time localtime stale q rsp rc s ≡ returned r
      → s.asked ≡ r.1.1.asked
  save_answer-asked q rsp (negsuc n) s r h =
      ap (λ (t : Bool × (List ℕ × Tracer)). t.1.1.asked) (returned_inj h)
  save_answer-asked q rsp (pos zero) s r h =
      ap (λ (t : Bool × (List ℕ × Tracer)). t.1.1.asked) (returned_inj h)
  save_answer-asked q rsp (pos (suc n)) s r h =
      let (a, e, e') =
        >>=-eq-returned (accessed (save_response rsp (suc n) q.headerlenght q.req s.mem)) _ h in
      ap (λ (t : Bool × (List ℕ × Tracer)). t.1.1.asked) (returned_inj e')

  read_one-asked :
      (q : Request) (rsp : List ℕ) (s : Tracer) (r : Bool × (List ℕ × Tracer))
      → read_one connected line time localtime stale q rsp s ≡ returned r
      → r.1.1.asked ≡ s.asked + 1
  unfolding read_one
  read_one-asked q rsp s r h =
      let (a, e, e') =
        >>=-eq-returned (modbus_send_request connected q.req (line s.asked) s.flags) _ h in
      sym (
        save_answer-asked q (a.stored ++ drop (length a.stored) rsp) a.rc
          (record s { flags = a.flags; asked = s.asked + 1; wire = s.wire ++ a.wire }) r e')

  read_requests-asked :
      (qs : List Request) (rsp : List ℕ) (s : Tracer) (r : ℤ) (s' : Tracer)
      → read_requests connected line time localtime stale qs rsp s ≡ returned (r, s')
      → (s.asked ≤ s'.asked) × (s'.asked ≤ s.asked + length qs)
  unfolding read_requests
  read_requests-asked [] rsp s r s' h =
      omega (arith, ap (λ (t : ℤ × Tracer). t.1.asked) (returned_inj h))
  read_requests-asked (q ∷ qs) rsp s r s' h =
      let ((b, (rsp', t)), e, e') =
        >>=-eq-returned (read_one connected line time localtime stale q rsp s) _ h in
      let one = read_one-asked q rsp s (b, (rsp', t)) e in
      elim b
          as (λ b.
            (if b
                then read_requests connected line time localtime stale qs rsp' t
                else returned (failure, t))
              ≡ returned (r, s')
            → (s.asked ≤ s'.asked) × (s'.asked ≤ s.asked + length (q ∷ qs))) [
              | true ↦ λ k. omega (arith, one, read_requests-asked qs rsp' t r s' k)
              | false ↦ λ k. omega (arith, one, ap (λ (t : ℤ × Tracer). t.1.asked) (returned_inj k))
            ]
        e'

  read_requests-IsWithin :
      (qs : List Request) (rsp : List ℕ) (s : Tracer) (r : ℤ) (s' : Tracer)
      → read_requests connected line time localtime stale qs rsp s ≡ returned (r, s')
      → IsWithin (length qs) s s'
  read_requests-IsWithin qs rsp s r s' h =
      let (least, most) = read_requests-asked qs rsp s r s' h in
      let reads = read_requests-Reads connected line time localtime stale qs rsp s r s' h in
      record { valid = λ v. Reads-IsValid reads v; least = least; most = most }

  retry-within :
      (left : ℕ) (qs : List Request) (after : Tracer → Outcome Tracer)
      → AsksMost 0 after
      → AsksMost (left * length qs) (retry connected line time localtime stale left qs after)
  unfolding retry
  retry-within zero qs after ha s s' h = weaken (omega arith) (returned-within s s' h)
  retry-within (suc left) qs after ha s s' h =
      let ((r, t), e, e') =
        >>=-eq-returned (read_requests connected line time localtime stale qs (stale s.asked) s) _
          h in
      let first = read_requests-IsWithin qs (stale s.asked) s r t e in
      elim r
          as (λ r.
            (elim r [
              | negsuc n ↦ retry connected line time localtime stale left qs after t
              | pos n ↦ after t
            ])
              ≡ returned s'
            → IsWithin (suc left * length qs) s s') [
              | negsuc n ↦ λ k. rw (suc-mul left (length qs)) (
                  weaken (omega arith)
                    (trans-IsWithin first (retry-within left qs after ha t s' k)))
              | pos n ↦ λ k.
                  rw (suc-mul left (length qs))
                    (weaken (omega arith) (trans-IsWithin first (ha t s' k)))
            ]
        e'

  poll_realtime-within : AsksMost 28 (poll_realtime connected line time localtime stale)
  unfolding poll_realtime
  poll_realtime-within =
      let again = retry connected line time localtime stale 4 in
      let start = λ (s : Tracer).
        again real_time_data (save_timestamp connected line time localtime stale) s in
      let status = again real_time_status returned in
      let statistic = again statistic_data returned in
      >>=-within (λ s. start s >>= status >>= statistic) _
        (>>=-within (λ s. start s >>= status) statistic
          (>>=-within start status
            (retry-within 4 real_time_data (save_timestamp connected line time localtime stale)
              save_timestamp-within)
            (retry-within 4 real_time_status returned returned-within))
          (retry-within 4 statistic_data returned returned-within))
        (λ s s' h.
          subst (IsWithin 0 s) (returned_inj h)
            (record { valid = λ v. v; least = omega arith; most = omega arith }))

  poll_statistic-within : AsksMost 28 (poll_statistic connected line time localtime stale)
  unfolding poll_statistic
  poll_statistic-within =
      let again = λ (qs : List Request). retry connected line time localtime stale 4 qs returned in
      let within = λ (qs : List Request). retry-within 4 qs returned returned-within in
      >>=-within
        (λ s.
          again tracer_info1 s
          >>= again tracer_info2
          >>= again rated_data
          >>= again setting_data
          >>= again discrete_input)
        _
        (>>=-within
          (λ s.
            again tracer_info1 s >>= again tracer_info2 >>= again rated_data >>= again setting_data)
          (again discrete_input)
          (>>=-within (λ s. again tracer_info1 s >>= again tracer_info2 >>= again rated_data)
            (again setting_data)
            (>>=-within (λ s. again tracer_info1 s >>= again tracer_info2) (again rated_data)
              (>>=-within (again tracer_info1) (again tracer_info2) (within tracer_info1)
                (within tracer_info2))
              (within rated_data))
            (within setting_data))
          (within discrete_input))
        (λ s s' h.
          subst (IsWithin 0 s) (returned_inj h)
            (record { valid = λ v. v; least = omega arith; most = omega arith }))

  -- The polling part of a round of the main loop, where it returns, keeps a valid memory valid, and
  -- sends at most 56 requests: each function at most four times, whatever the charge controller
  -- answers.
  pub poll-IsWithin :
      (s s' : Tracer) → poll connected line time localtime stale s ≡ returned s' → IsWithin 56 s s'
  unfolding poll
  poll-IsWithin s s' h =
      >>=-within
        (λ t.
          if s.flags.need_tracer_realtime
          then poll_realtime connected line time localtime stale t
          else returned t)
        (λ t.
          if s.flags.need_tracer_statistic
          then poll_statistic connected line time localtime stale t
          else returned t)
        (choice-within s.flags.need_tracer_realtime _ poll_realtime-within)
        (choice-within s.flags.need_tracer_statistic _ poll_statistic-within) s s' h
