-- ===== src/Tracer/Poll/Silent.antt =====
-- Tracer/Poll: the polling part of the main loop, where the charge controller gives no data.
use native.Mathlib.Nat.{add_assoc}
use epsolar_tracer_client.Base.{
  ℕ, zero, suc, ◌+◌, ◌≡◌, refl, ap, ◌∙◌, ℤ, pos, negsuc, pos_part, failure, Bool, true, false, List,
  [], ◌∷◌, ◌++◌, length, drop, if◌then◌else◌, arith,
}
use epsolar_tracer_client.Tracer.Outcome.{Outcome, returned}
use epsolar_tracer_client.Tracer.Flags.{Flags, reset_tracer_statistic, reset_tracer_realtime}
use epsolar_tracer_client.Tracer.Controller.{Exchange, Answer, modbus_send_request}
use epsolar_tracer_client.Tracer.Poll.{
  Request, Tm, Tracer, save_answer, read_one, read_requests, retry, poll_realtime, poll_statistic,
  poll, realtime_done, statistic_done, real_time_data, real_time_status, statistic_data,
  tracer_info1, tracer_info2, rated_data, setting_data, discrete_input, save_timestamp,
}

-- a call of `modbus_send_request` that returns without data, and leaves the flags
pub record IsSilent (connected : Bool) (req : List ℕ) (x : Exchange) (flags : Flags) : Type 0 where
  pub given : Answer
  pub returns : modbus_send_request connected req x flags ≡ returned given
  pub no_data : pos_part given.rc ≡ 0
  pub flags_stay : given.flags ≡ flags

-- `k` more requests have been sent, and the memory and the flags are as before
pub record IsUnread (k : ℕ) (s s' : Tracer) : Type 0 where
  mem_stays : s'.mem ≡ s.mem
  flags_stay : s'.flags ≡ s.flags
  more : s'.asked ≡ s.asked + k

-- resetting a flag that is not set
realtime-reset : (f : Flags) → f.need_tracer_realtime ≡ false → f ≡ reset_tracer_realtime f
realtime-reset f h = ap (λ b. record f { need_tracer_realtime = b }) h

statistic-reset : (f : Flags) → f.need_tracer_statistic ≡ false → f ≡ reset_tracer_statistic f
statistic-reset f h = ap (λ b. record f { need_tracer_statistic = b }) h

-- the parts of the lists of requests, none of which is empty
abbrev first : List Request → Request
first [] = record { req = []; headerlenght = 0 }
first (q ∷ qs) = q

abbrev rest : List Request → List Request
rest [] = []
rest (q ∷ qs) = qs

module _ (connected : Bool) (line : ℕ → Exchange) (time : ℕ → ℕ) (localtime : ℕ → Tm)
    (stale : ℕ → List ℕ)
    (silent : (req : List ℕ) (n : ℕ) (flags : Flags) → IsSilent connected req (line n) flags) where
  save_answer-IsUnread :
      (q : Request) (rsp : List ℕ) (rc : ℤ) (s : Tracer)
      → pos_part rc ≡ 0
      → save_answer connected line time localtime stale q rsp rc s ≡ returned (false, (rsp, s))
  save_answer-IsUnread q rsp (negsuc n) s h = refl
  save_answer-IsUnread q rsp (pos zero) s h = refl
  save_answer-IsUnread q rsp (pos (suc n)) s h = ground arith

  read_requests-IsUnread :
      (q : Request) (qs : List Request) (rsp : List ℕ) (s : Tracer)
      → (s' : Tracer) × (read_requests connected line time localtime stale (q ∷ qs) rsp s
          ≡ returned (failure, s'))
        × IsUnread 1 s s'
  unfolding read_requests read_one
  read_requests-IsUnread q qs rsp s =
      let a = silent q.req s.asked s.flags in
      let s' : Tracer = record s {
        flags = a.given.flags;
        asked = s.asked + 1;
        wire = s.wire ++ a.given.wire;
      } in
      (
        s',
        rw
            (
              a.returns,
              save_answer-IsUnread q (a.given.stored ++ drop (length a.given.stored) rsp) a.given.rc
                  s' a.no_data,
            )
            refl,
        record { mem_stays = refl; flags_stay = a.flags_stay; more = refl },
      )

  retry-IsUnread :
      (left : ℕ) (q : Request) (qs : List Request) (after : Tracer → Outcome Tracer) (s : Tracer)
      → (s' : Tracer) × (retry connected line time localtime stale left (q ∷ qs) after s
          ≡ returned s')
        × IsUnread left s s'
  unfolding retry
  retry-IsUnread zero q qs after s =
      (s, refl, record { mem_stays = refl; flags_stay = refl; more = omega arith })
  retry-IsUnread (suc left) q qs after s =
      let (t, e, u) = read_requests-IsUnread q qs (stale s.asked) s in
      let (s', e', u') = retry-IsUnread left q qs after t in
      (
        s',
        rw e e',
        record {
          mem_stays = u'.mem_stays ∙ u.mem_stays;
          flags_stay = u'.flags_stay ∙ u.flags_stay;
          more = omega (arith, u'.more, u.more);
        },
      )

  poll_realtime-IsUnread :
      (s : Tracer)
      → (s' : Tracer) × (poll_realtime connected line time localtime stale s ≡ returned s')
        × (s'.mem ≡ s.mem)
        × (s'.flags ≡ reset_tracer_realtime s.flags)
        × (s'.asked ≡ s.asked + 12)
  unfolding poll_realtime
  poll_realtime-IsUnread s =
      let after = save_timestamp connected line time localtime stale in
      let (s1, e1, u1) = retry-IsUnread 4 (first real_time_data) (rest real_time_data) after s in
      let (s2, e2, u2) =
        retry-IsUnread 4 (first real_time_status) (rest real_time_status) returned s1 in
      let (s3, e3, u3) =
        retry-IsUnread 4 (first statistic_data) (rest statistic_data) returned s2 in
      (
        realtime_done connected line time localtime stale s3,
        rw (e1, e2, e3) refl,
        u3.mem_stays ∙ u2.mem_stays ∙ u1.mem_stays,
        ap reset_tracer_realtime (u3.flags_stay ∙ u2.flags_stay ∙ u1.flags_stay),
        omega (arith, u1.more, u2.more, u3.more),
      )

  poll_statistic-IsUnread :
      (s : Tracer)
      → (s' : Tracer) × (poll_statistic connected line time localtime stale s ≡ returned s')
        × (s'.mem ≡ s.mem)
        × (s'.flags ≡ reset_tracer_statistic s.flags)
        × (s'.asked ≡ s.asked + 20)
  unfolding poll_statistic
  poll_statistic-IsUnread s =
      let (s1, e1, u1) = retry-IsUnread 4 (first tracer_info1) [] returned s in
      let (s2, e2, u2) = retry-IsUnread 4 (first tracer_info2) [] returned s1 in
      let (s3, e3, u3) = retry-IsUnread 4 (first rated_data) [] returned s2 in
      let (s4, e4, u4) = retry-IsUnread 4 (first setting_data) (rest setting_data) returned s3 in
      let (s5, e5, u5) =
        retry-IsUnread 4 (first discrete_input) (rest discrete_input) returned s4 in
      (
        statistic_done connected line time localtime stale s5,
        rw (e1, e2, e3, e4, e5) refl,
        u5.mem_stays ∙ u4.mem_stays ∙ u3.mem_stays ∙ u2.mem_stays ∙ u1.mem_stays,
        ap reset_tracer_statistic
            (u5.flags_stay ∙ u4.flags_stay ∙ u3.flags_stay ∙ u2.flags_stay ∙ u1.flags_stay),
        omega (arith, u1.more, u2.more, u3.more, u4.more, u5.more),
      )

  realtime-part :
      (b : Bool) (s : Tracer)
      → s.flags.need_tracer_realtime ≡ b
      → (s' : Tracer) × ((if b
            then poll_realtime connected line time localtime stale s
            else returned s)
          ≡ returned s')
        × (s'.mem ≡ s.mem)
        × (s'.flags ≡ reset_tracer_realtime s.flags)
        × (s'.asked ≡ s.asked + (if b then 12 else 0))
  realtime-part true s h = poll_realtime-IsUnread s
  realtime-part false s h = (s, refl, refl, realtime-reset s.flags h, omega arith)

  statistic-part :
      (b : Bool) (s : Tracer)
      → s.flags.need_tracer_statistic ≡ b
      → (s' : Tracer) × ((if b
            then poll_statistic connected line time localtime stale s
            else returned s)
          ≡ returned s')
        × (s'.mem ≡ s.mem)
        × (s'.flags ≡ reset_tracer_statistic s.flags)
        × (s'.asked ≡ s.asked + (if b then 20 else 0))
  statistic-part true s h = poll_statistic-IsUnread s
  statistic-part false s h = (s, refl, refl, statistic-reset s.flags h, omega arith)

  -- Where every call of `modbus_send_request` returns without data, also after it has reconnected,
  -- the polling part of a round returns: the memory is as before, without a new timestamp, both
  -- flags of the charge controller are reset, and the others as before. Each function that is
  -- due was tried four times, and each time up to its first request.
  pub poll-silent :
      (s : Tracer)
      → (s' : Tracer) × (poll connected line time localtime stale s ≡ returned s')
        × (s'.mem ≡ s.mem)
        × (s'.flags ≡ reset_tracer_statistic (reset_tracer_realtime s.flags))
        × (s'.asked
            ≡ s.asked
              + ((if s.flags.need_tracer_realtime then 12 else 0)
                  + (if s.flags.need_tracer_statistic then 20 else 0)))
  unfolding poll
  poll-silent s =
      let (s1, e1, m1, f1, k1) = realtime-part s.flags.need_tracer_realtime s refl in
      let (s2, e2, m2, f2, k2) =
        statistic-part s.flags.need_tracer_statistic s1
          (ap (λ (f : Flags). f.need_tracer_statistic) f1) in
      (
        s2,
        rw (e1, e2) refl,
        m2 ∙ m1,
        f2 ∙ ap reset_tracer_statistic f1,
        k2
            ∙ ap (λ n. n + (if s.flags.need_tracer_statistic then 20 else 0)) k1
            ∙ add_assoc s.asked _ _,
      )
