-- ===== src/Tracer/Main.antt =====
-- tracerclient.c: a round of the main loop.
pub mod Due
use epsolar_tracer_client.Base.{
  ℕ, suc, ◌+◌, ◌-◌, ℤ, pos, negsuc, Bool, true, false, List, ◌==◌, ltb, if◌then◌else◌, Option, none,
  some,
}
use epsolar_tracer_client.Common.{e_all, e_reg, e_user, e_user_reg, e_user_coil}
use epsolar_tracer_client.Mttp.State.{Mttp}
use epsolar_tracer_client.Client.{Client}
use epsolar_tracer_client.Tracer.Outcome.{Outcome, returned, ◌>>=◌, accessed}
use epsolar_tracer_client.Tracer.Flags.{
  Flags, trigger_tracer_statistic, trigger_tracer_realtime, trigger_server_statistic,
  trigger_server_realtime, reset_server_statistic, reset_server_realtime,
}
use epsolar_tracer_client.Tracer.Controller.{Exchange}
use epsolar_tracer_client.Tracer.Poll.{Tm, Tracer, poll}
use epsolar_tracer_client.Tracer.Upload.{send_mem}

abbrev pub tracer_statistic_timeout : ℕ
tracer_statistic_timeout = 600

abbrev pub tracer_realtime_timeout : ℕ
tracer_realtime_timeout = 0

abbrev pub server_statistic_timeout : ℕ
server_statistic_timeout = 600

abbrev pub server_realtime_timeout : ℕ
server_realtime_timeout = 60

-- The variables of the main loop and of `SendMem`; `client` is `none` for a null pointer.
pub record World : Type 0 where
  pub tracer : Tracer
  pub mttp : Mttp
  pub client : Option Client

-- `if (Now - last > limit) { trigger }`
abbrev pub overdue : ℕ → ℕ → ℕ → Bool
overdue now last limit = ltb limit (now - last)

-- `SetTimeout`, with the time `now`
unfoldable pub set_timeout : ℕ → Tracer → Tracer
set_timeout now s =
    let f0 = s.flags in
    let f1 =
      if overdue now s.last_tracer_statistic_update tracer_statistic_timeout
      then trigger_tracer_statistic f0
      else f0 in
    let f2 =
      if overdue now s.last_tracer_realtime_update tracer_realtime_timeout
      then trigger_tracer_realtime f1
      else f1 in
    let f3 =
      if overdue now s.last_server_realtime_update server_realtime_timeout
      then trigger_server_realtime f2
      else f2 in
    let f4 =
      if overdue now s.last_server_statistic_update server_statistic_timeout
      then trigger_server_statistic f3
      else f3 in
    record s { flags = f4; ticks = s.ticks + 1 }

-- the parameters of tracerclient.c's polling, and what the uninitialised array of `case eUser`
-- holds
module _ (connected : Bool) (line : ℕ → Exchange) (time : ℕ → ℕ) (localtime : ℕ → Tm)
    (stale : ℕ → List ℕ) (stale_reg : List ℕ) where
  -- a call of `SendMem` with the client that the loop has tested, and whether it succeeded
  abbrev pub upload : ℕ → ℕ → ℕ → Bool → Client → World → Outcome (Bool × (Client × World))
  upload memtype from to send client w =
      accessed (send_mem memtype from to send stale_reg w.tracer.mem w.mttp client)
      >>= (λ (ret, mttp, client'). returned (
        (elim ret [ pos n ↦ true | negsuc n ↦ false ]),
        (client', record w { mttp = mttp; client = some client' }),
      ))

  -- what follows `SendMem(eAll)`
  abbrev pub statistic_sent : Bool → World → World
  statistic_sent sent w =
      let s = w.tracer in
      if sent
      then record w {
        tracer = record s {
          last_server_statistic_update = time s.ticks;
          last_server_realtime_update = time (s.ticks + 1);
          ticks = s.ticks + 2;
          flags = reset_server_realtime (reset_server_statistic s.flags);
        };
      }
      else w

  -- `if (NeedServerStatisticupdate && client)`
  unfoldable pub upload_statistic : Client → World → Outcome World
  upload_statistic client w =
      upload e_all 0x0000 0xFFFF true client w
      >>= (λ (sent, (client', w')). returned (statistic_sent sent w'))

  -- one more of the calls whose successes `sucess` counts
  abbrev pub counted_upload :
      ℕ → ℕ → ℕ → Bool → ℕ × (Client × World) → Outcome (ℕ × (Client × World))
  counted_upload memtype from to send (sucess, (client, w)) =
      upload memtype from to send client w
      >>= (λ (sent, next). returned ((if sent then sucess + 1 else sucess), next))

  -- `if (sucess == 6)`
  abbrev pub all_sent : ℕ → World → World
  all_sent sucess w =
      let s = w.tracer in
      if sucess == 6
      then record w {
        tracer = record s {
          last_server_realtime_update = time s.ticks;
          ticks = s.ticks + 1;
          flags = reset_server_realtime s.flags;
        };
      }
      else w

  -- `if (NeedServerRealtimeupdate && client)`
  unfoldable pub upload_realtime : Client → World → Outcome World
  upload_realtime client w =
      counted_upload e_reg 0x3100 0x31FF false (0, (client, w))
      >>= counted_upload e_reg 0x3200 0x32FF false
      >>= counted_upload e_reg 0x3302 0x33FF false
      >>= counted_upload e_user 0x3100 0x31FF false
      >>= counted_upload e_user 0x3200 0x32FF false
      >>= counted_upload e_user 0x3302 0x33FF true
      >>= (λ (sucess, (client', w')).
          upload e_user_reg 0x4000 0x6FFF true client' (all_sent sucess w'))
      >>= (λ (sent, (client', w')). upload e_user_coil 0x0020 0x00FF true client' w')
      >>= (λ (sent, (client', w')). returned w')

  abbrev pub with_client : (Client → World → Outcome World) → World → Outcome World
  with_client f w = elim w.client [ none ↦ returned w | some client ↦ f client w ]

  -- A round of the main loop. Its conditions are the flags as they are at its top.
  unfoldable pub main_round : World → Outcome World
  main_round w =
      let flags = w.tracer.flags in
      poll connected line time localtime stale w.tracer
      >>= (λ s. returned (record w { tracer = s }))
      >>= (λ w'.
          if flags.need_server_statistic then with_client upload_statistic w' else returned w')
      >>= (λ w'. if flags.need_server_realtime then with_client upload_realtime w' else returned w')
      >>= (λ w'. returned (record w' { tracer = set_timeout (time w'.tracer.ticks) w'.tracer }))
