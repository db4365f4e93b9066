-- ===== src/Tracer/Main/Due.antt =====
-- Tracer/Main: what holds after a round of the main loop.
use mathlib.Core.Path.{subst}
use epsolar_tracer_client.Base.{
  ℕ, ◌+◌, ◌-◌, ◌≤◌, ◌≡◌, refl, sym, ◌∙◌, inl, inr, Bool, true, false, List, ◌==◌, if◌then◌else◌,
  Bool-cases, none, some, arith,
}
use epsolar_tracer_client.Common.{e_all, e_reg, e_user, e_user_reg, e_user_coil}
use epsolar_tracer_client.Memory.Invariant.{IsValid}
use epsolar_tracer_client.Client.{Client}
use epsolar_tracer_client.Tracer.Outcome.{
  Outcome, returned, ◌>>=◌, accessed, >>=-eq-returned, returned_inj,
}
use epsolar_tracer_client.Tracer.Controller.{Exchange}
use epsolar_tracer_client.Tracer.Poll.{Tm, Tracer, poll}
use epsolar_tracer_client.Tracer.Poll.Asked.{poll-IsWithin}
use epsolar_tracer_client.Tracer.Upload.{send_mem}
use epsolar_tracer_client.Tracer.Main.{
  World, set_timeout, upload, counted_upload, all_sent, statistic_sent, upload_statistic,
  upload_realtime, with_client, main_round, tracer_statistic_timeout, tracer_realtime_timeout,
  server_statistic_timeout, server_realtime_timeout,
}

-- an update that is not requested is not due at the time `now`
pub record IsDue (now : ℕ) (s : Tracer) : Type 0 where
  tracer_statistic :
      s.flags.need_tracer_statistic ≡ false
      → now - s.last_tracer_statistic_update ≤ tracer_statistic_timeout
  tracer_realtime :
      s.flags.need_tracer_realtime ≡ false
      → now - s.last_tracer_realtime_update ≤ tracer_realtime_timeout
  server_statistic :
      s.flags.need_server_statistic ≡ false
      → now - s.last_server_statistic_update ≤ server_statistic_timeout
  server_realtime :
      s.flags.need_server_realtime ≡ false
      → now - s.last_server_realtime_update ≤ server_realtime_timeout

set_timeout-IsDue : (now : ℕ) (s : Tracer) → IsDue now (set_timeout now s)
unfolding set_timeout
set_timeout-IsDue now s = record {
  tracer_statistic = λ h. ground arith;
  tracer_realtime = λ h. ground arith;
  server_statistic = λ h. ground arith;
  server_realtime = λ h. ground arith;
}

set_timeout-mem : (now : ℕ) (s : Tracer) → (set_timeout now s).mem ≡ s.mem
unfolding set_timeout
set_timeout-mem now s = refl

set_timeout-asked : (now : ℕ) (s : Tracer) → (set_timeout now s).asked ≡ s.asked
unfolding set_timeout
set_timeout-asked now s = refl

set_timeout-ticks : (now : ℕ) (s : Tracer) → (set_timeout now s).ticks - 1 ≡ s.ticks
unfolding set_timeout
set_timeout-ticks now s = omega arith

-- the sending part changes neither the memory nor the number of requests
record IsSending (w w' : World) : Type 0 where
  mem_stays : w'.tracer.mem ≡ w.tracer.mem
  asked_stays : w'.tracer.asked ≡ w.tracer.asked

same : {w : World} → IsSending w w
same = record { mem_stays = refl; asked_stays = refl }

trans : {u v w : World} → IsSending u v → IsSending v w → IsSending u w
trans a b = record {
  mem_stays = b.mem_stays ∙ a.mem_stays;
  asked_stays = b.asked_stays ∙ a.asked_stays;
}

module _ (connected : Bool) (line : ℕ → Exchange) (time : ℕ → ℕ) (localtime : ℕ → Tm)
    (stale : ℕ → List ℕ) (stale_reg : List ℕ) where
  upload-IsSending :
      (memtype from to : ℕ) (send : Bool) (client : Client) (w : World)
      (r : Bool × (Client × World))
      → upload connected line time localtime stale stale_reg memtype from to send client w
        ≡ returned r
      → IsSending w r.1.1
  upload-IsSending memtype from to send client w r h =
      let ((ret, mttp, client'), e, e') =
        >>=-eq-returned
          (accessed (send_mem memtype from to send stale_reg w.tracer.mem w.mttp client)) _ h in
      subst (λ (t : Bool × (Client × World)). IsSending w t.1.1) (returned_inj e')
        (record { mem_stays = refl; asked_stays = refl })

  counted_upload-IsSending :
      (memtype from to : ℕ) (send : Bool) (q r : ℕ × (Client × World))
      → counted_upload connected line time localtime stale stale_reg memtype from to send q
        ≡ returned r
      → IsSending q.1.1 r.1.1
  counted_upload-IsSending memtype from to send (n, (client, w)) r h =
      let ((sent, next), e, e') =
        >>=-eq-returned
          (upload connected line time localtime stale stale_reg memtype from to send client w) _
          h in
      subst (λ (t : ℕ × (Client × World)). IsSending w t.1.1) (returned_inj e')
        (upload-IsSending memtype from to send client w (sent, next) e)

  all_sent-IsSending :
      (n : ℕ) (w : World) → IsSending w (all_sent connected line time localtime stale stale_reg n w)
  all_sent-IsSending n w = elim (Bool-cases (n == 6)) [
    | inl e ↦ rw e (record { mem_stays = refl; asked_stays = refl })
    | inr e ↦ rw e same
  ]

  statistic_sent-IsSending :
      (sent : Bool) (w : World)
      → IsSending w (statistic_sent connected line time localtime stale stale_reg sent w)
  statistic_sent-IsSending true w = record { mem_stays = refl; asked_stays = refl }
  statistic_sent-IsSending false w = same

  upload_statistic-IsSending :
      (client : Client) (w w' : World)
      → upload_statistic connected line time localtime stale stale_reg client w ≡ returned w'
      → IsSending w w'
  unfolding upload_statistic
  upload_statistic-IsSending client w w' h =
      let ((sent, (client', v)), e, e') =
        >>=-eq-returned
          (upload connected line time localtime stale stale_reg e_all 0x0000 0xFFFF true client w) _
          h in
      let u = upload-IsSending e_all 0x0000 0xFFFF true client w (sent, (client', v)) e in
      subst (IsSending w) (returned_inj e') (trans u (statistic_sent-IsSending sent v))

  -- one more step
  >>=-IsSending :
      {C D : Type 0} (world : C → World) (world' : D → World) (w : World) (o : Outcome C)
      (g : C → Outcome D)
      → ((q : C) → o ≡ returned q → IsSending w (world q))
      → ((q : C) (r : D) → g q ≡ returned r → IsSending (world q) (world' r))
      → (r : D) → o >>= g ≡ returned r
      → IsSending w (world' r)
  >>=-IsSending world world' w o g first later r h =
      let (q, e, e') = >>=-eq-returned o g h in trans (first q e) (later q r e')

  upload_realtime-IsSending :
      (client : Client) (w w' : World)
      → upload_realtime connected line time localtime stale stale_reg client w ≡ returned w'
      → IsSending w w'
  unfolding upload_realtime
  upload_realtime-IsSending client w w' h =
      let one = λ (memtype from to : ℕ) (send : Bool).
        counted_upload connected line time localtime stale stale_reg memtype from to send in
      let at = λ (q : ℕ × (Client × World)). q.1.1 in
      let at' = λ (q : Bool × (Client × World)). q.1.1 in
      let o1 = one e_reg 0x3100 0x31FF false (0, (client, w)) in
      let o2 = o1 >>= one e_reg 0x3200 0x32FF false in
      let o3 = o2 >>= one e_reg 0x3302 0x33FF false in
      let o4 = o3 >>= one e_user 0x3100 0x31FF false in
      let o5 = o4 >>= one e_user 0x3200 0x32FF false in
      let o6 = o5 >>= one e_user 0x3302 0x33FF true in
      let next = counted_upload-IsSending in
      >>=-IsSending at' (λ v. v) w _ _
        (>>=-IsSending at' at' w _ _
          (>>=-IsSending at at' w o6 _
            (>>=-IsSending at at w o5 _
              (>>=-IsSending at at w o4 _
                (>>=-IsSending at at w o3 _
                  (>>=-IsSending at at w o2 _
                    (>>=-IsSending at at w o1 _
                      (λ q e. next e_reg 0x3100 0x31FF false (0, (client, w)) q e)
                      (next e_reg 0x3200 0x32FF false))
                    (next e_reg 0x3302 0x33FF false))
                  (next e_user 0x3100 0x31FF false))
                (next e_user 0x3200 0x32FF false))
              (next e_user 0x3302 0x33FF true))
            (λ q r e.
              trans (all_sent-IsSending q.0 q.1.1)
                (upload-IsSending e_user_reg 0x4000 0x6FFF true q.1.0 _ r e)))
          (λ q r e. upload-IsSending e_user_coil 0x0020 0x00FF true q.1.0 q.1.1 r e))
        (λ q r e. subst (IsSending q.1.1) (returned_inj e) same) w' h

  part-IsSending :
      (b : Bool) (f : Client → World → Outcome World)
      → ((client : Client) (w w' : World) → f client w ≡ returned w' → IsSending w w')
      → (w w' : World)
      → (if b then with_client connected line time localtime stale stale_reg f w else returned w)
        ≡ returned w'
      → IsSending w w'
  part-IsSending false f keeps w w' h = subst (IsSending w) (returned_inj h) same
  part-IsSending true f keeps w w' h =
      elim w.client
          as (λ c.
            (elim c [ none ↦ returned w | some client ↦ f client w ]) ≡ returned w'
            → IsSending w w') [
              | none ↦ λ k. subst (IsSending w) (returned_inj k) same
              | some client ↦ λ k. keeps client w w' k
            ]
        h

  -- After a round of the main loop that returns, a memory that was valid is valid, at most 56
  -- requests have been sent to the charge controller, and at the last time that the round has
  -- asked for no update is due that is not requested: where a flag is clear, the last update of
  -- its kind is not longer ago than its timeout.
  pub main_round-IsDue :
      (w w' : World)
      → main_round connected line time localtime stale stale_reg w ≡ returned w'
      → (IsValid w.tracer.mem → IsValid w'.tracer.mem)
        × (w'.tracer.asked ≤ w.tracer.asked + 56)
        × IsDue (time (w'.tracer.ticks - 1)) w'.tracer
  unfolding main_round
  main_round-IsDue w w' h =
      let (w3, e3, e4) = >>=-eq-returned _ _ h in
      let (w2, e2, e3') = >>=-eq-returned _ _ e3 in
      let (w1, e1, e2') = >>=-eq-returned _ _ e2 in
      let (s, e0, e1') = >>=-eq-returned (poll connected line time localtime stale w.tracer) _ e1 in
      let polled = poll-IsWithin connected line time localtime stale w.tracer s e0 in
      let before : IsSending (record w { tracer = s }) w1 =
        subst (IsSending (record w { tracer = s })) (returned_inj e1') same in
      let sending = trans before (
        trans
          (part-IsSending w.tracer.flags.need_server_statistic _ upload_statistic-IsSending w1 w2
            e2')
          (part-IsSending w.tracer.flags.need_server_realtime _ upload_realtime-IsSending w2 w3
            e3')) in
      subst
        (λ (v : World).
          (IsValid w.tracer.mem → IsValid v.tracer.mem)
          × (v.tracer.asked ≤ w.tracer.asked + 56)
          × IsDue (time (v.tracer.ticks - 1)) v.tracer)
        (returned_inj e4)
        (
          (λ v.
              let valid : IsValid w3.tracer.mem =
                subst IsValid (sym sending.mem_stays) (polled.valid v) in
              subst IsValid (sym (set_timeout-mem (time w3.tracer.ticks) w3.tracer)) valid),
          omega (
            arith,
            polled.most,
            sending.asked_stays,
            set_timeout-asked (time w3.tracer.ticks) w3.tracer,
          ),
          subst (λ n. IsDue (time n) (set_timeout (time w3.tracer.ticks) w3.tracer))
              (sym (set_timeout-ticks (time w3.tracer.ticks) w3.tracer))
              (set_timeout-IsDue (time w3.tracer.ticks) w3.tracer),
        )
