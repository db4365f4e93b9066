-- ===== src/MtcpServer/Forwarded.antt =====
-- MtcpServer: the commands that concern the charge controller.
use epsolar_tracer_client.Base.{
  ℕ, suc, ◌≤◌, ◌≡◌, refl, ◌∙◌, Bool, true, false, List, [], ◌∷◌, ◌++◌, length, All, ltb, Bool-cases,
  inl, inr, Option, none, some, arith,
}
use epsolar_tracer_client.Text.{codes}
use epsolar_tracer_client.Memory.State.{Memory}
use epsolar_tracer_client.Tracer.Outcome.{Outcome, stuck, returned}
use epsolar_tracer_client.Tracer.Flags.{Flags}
use epsolar_tracer_client.Tracer.Controller.{Exchange}
use epsolar_tracer_client.MtcpServer.Words.{IsWithoutSpace}
use epsolar_tracer_client.MtcpServer.Reply.{Reply, Peer, text_line, say, forward}
use epsolar_tracer_client.MtcpServer.Handle.{
  memory_command, controller_command, run_command, handle_command,
}
use epsolar_tracer_client.MtcpServer.Requests.{request, handle_command-request}

-- The commands that request an update, and the flags afterwards: the one of the command is set, and
-- the other three are as before.
pub data Triggers : List ℕ → (Flags → Flags) → Type 0 where
  server_realtime :
      Triggers (codes "triggerserverrealtimeupdate") (λ f. record f { need_server_realtime = true })
  server_statistic :
      Triggers
        (codes "triggerserverstatisticupdate")
        (λ f. record f { need_server_statistic = true })
  tracer_realtime :
      Triggers (codes "triggertracerrealtimeupdate") (λ f. record f { need_tracer_realtime = true })
  tracer_statistic :
      Triggers
        (codes "triggertracerstatisticupdate")
        (λ f. record f { need_tracer_statistic = true })

-- the commands that need the charge controller, and the number of their words
pub data Controls : List ℕ → ℕ → Type 0 where
  triggers : {word : List ℕ} {set : Flags → Flags} → Triggers word set → Controls word 1
  modbussend : Controls (codes "modbussend") 2
  outputon : Controls (codes "outputon") 1
  outputoff : Controls (codes "outputoff") 1
  switching : Controls (codes "switch") 3

-- what becomes of a message for another server
abbrev pub passed_on : Option Peer → List ℕ → Memory → Flags → Outcome Reply
passed_on none req mem flags = returned (say (text_line "Tracer not locally connected") mem flags)
passed_on (some p) req mem flags = elim p.connects [
  | false ↦
      returned
        (say (text_line "cMtcpClient: Error Forward Message to Client: Connection Error") mem flags)
  | true ↦ elim p.sends [
    | false ↦
        returned
          (say (text_line "cMtcpClient: Error Forward Message to Client: Send Error") mem flags)
    | true ↦ elim p.received [
      | none ↦ stuck
      | some text ↦ returned (record (say text mem flags) { forwarded = some req })
    ]
  ]
]

module _ (connected : Bool) (x : Exchange) (peer : Option Peer) (stale : ℕ) (mem : Memory)
    (flags : Flags) where
  trigger-set :
      {word : List ℕ} {set : Flags → Flags} (ws : List (List ℕ)) (req : List ℕ)
      → Triggers word set
      → run_command true connected x peer stale (word ∷ ws) req mem flags
        ≡ returned (say (text_line "OK") mem (set flags))
  unfolding run_command memory_command controller_command
  trigger-set ws req server_realtime = refl
  trigger-set ws req server_statistic = refl
  trigger-set ws req tracer_realtime = refl
  trigger-set ws req tracer_statistic = refl

  forward-eq :
      (p : Option Peer) (req : List ℕ) → forward p req mem flags ≡ passed_on p req mem flags
  unfolding forward
  forward-eq none req = refl
  forward-eq (some p) req = elim (Bool-cases p.connects) [
    | inl c ↦ elim (Bool-cases p.sends) [ inl d ↦ rw (c, d) refl | inr d ↦ rw (c, d) refl ]
    | inr c ↦ rw c refl
  ]

  trigger-forwarded :
      {word : List ℕ} {set : Flags → Flags} (ws : List (List ℕ)) (req : List ℕ)
      → Triggers word set
      → run_command false connected x peer stale (word ∷ ws) req mem flags
        ≡ forward peer req mem flags
  unfolding run_command memory_command controller_command
  trigger-forwarded ws req server_realtime = refl
  trigger-forwarded ws req server_statistic = refl
  trigger-forwarded ws req tracer_realtime = refl
  trigger-forwarded ws req tracer_statistic = refl

  control-forwarded :
      {word : List ℕ} {n : ℕ} (ws : List (List ℕ)) (req : List ℕ)
      → Controls word n
      → n ≤ length (word ∷ ws)
      → run_command false connected x peer stale (word ∷ ws) req mem flags
        ≡ forward peer req mem flags
  unfolding run_command memory_command controller_command
  control-forwarded ws req (triggers t) h = trigger-forwarded ws req t
  control-forwarded ws req modbussend h =
      let long : ltb (suc (length ws)) 2 ≡ false = ground arith in rw long refl
  control-forwarded ws req outputon h = refl
  control-forwarded ws req outputoff h = refl
  control-forwarded ws req switching h =
      let long : ltb (suc (length ws)) 3 ≡ false = ground arith in rw long refl

  without_space : {word : List ℕ} {set : Flags → Flags} → Triggers word set → IsWithoutSpace word
  without_space server_realtime = ground arith
  without_space server_statistic = ground arith
  without_space tracer_realtime = ground arith
  without_space tracer_statistic = ground arith

  -- Where a charge controller is connected locally: a line of one of the words
  -- `triggerserverrealtimeupdate`, `triggerserverstatisticupdate`, `triggertracerrealtimeupdate` and
  -- `triggertracerstatisticupdate`, with whatever words behind it, sets the flag that is named like
  -- it, leaves the other three flags and the memory, is answered with `OK`, and neither asks the
  -- controller nor another server.
  pub handle_command-trigger :
      {word : List ℕ} {set : Flags → Flags} (ws : List (List ℕ))
      → Triggers word set
      → All IsWithoutSpace ws
      → handle_command true connected x peer stale (request (word ∷ ws)) mem flags
        ≡ returned (record {
          text = codes "OK" ++ 10 ∷ [];
          mem = mem;
          flags = set flags;
          wire = [];
          system = none;
          forwarded = none;
        })
  handle_command-trigger {word} ws t h =
      handle_command-request true connected x peer stale flags word ws mem (without_space t, h)
      ∙ trigger-set ws (request (word ∷ ws)) t

  control-IsWithoutSpace : {word : List ℕ} {n : ℕ} → Controls word n → IsWithoutSpace word
  control-IsWithoutSpace (triggers t) = without_space t
  control-IsWithoutSpace modbussend = ground arith
  control-IsWithoutSpace outputon = ground arith
  control-IsWithoutSpace outputoff = ground arith
  control-IsWithoutSpace switching = ground arith

  -- Without a controller connected locally, the line of each of the eight commands that concern
  -- the controller, with as many words as it needs, is passed on as it came to the other server,
  -- and what that answers is the answer; the memory and the flags stay. Where there is no other
  -- server, or it cannot be reached, the answer says so.
  pub handle_command-forwarded :
      {word : List ℕ} {n : ℕ} (ws : List (List ℕ))
      → Controls word n
      → n ≤ length (word ∷ ws)
      → All IsWithoutSpace ws
      → let req = request (word ∷ ws) in
        handle_command false connected x peer stale req mem flags ≡ passed_on peer req mem flags
  handle_command-forwarded {word} ws t h spaceless =
      handle_command-request false connected x peer stale flags word ws mem
        (control-IsWithoutSpace t, spaceless)
      ∙ control-forwarded ws (request (word ∷ ws)) t h
      ∙ forward-eq peer (request (word ∷ ws))
