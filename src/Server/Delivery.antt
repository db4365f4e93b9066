-- ===== src/Server/Delivery.antt =====
-- cServer::action: one message in one `recv`.
use epsolar_tracer_client.Base.{
  ℕ, zero, suc, ◌-◌, ◌≤◌, ◌<◌, ◌≡◌, refl, sym, ap, ◌∙◌, List, [], ◌∷◌, append-nil, lt→ltb, length,
  Option, none, some, All, arith,
}
use epsolar_tracer_client.Mttp.State.{Mttp, Slot, max_commands}
use epsolar_tracer_client.Mttp.Message.{Command, message}
use epsolar_tracer_client.Mttp.Decode.{add_message, free_slot}
use epsolar_tracer_client.Mttp.Decode.Received.{received}
use epsolar_tracer_client.Mttp.Decode.Overlay.{overlay, Fits, HasRoom}
use epsolar_tracer_client.Mttp.Decode.Delivery.{add_message-message}
use epsolar_tracer_client.Memory.State.{Memory}
use epsolar_tracer_client.Memory.Cells.{◌>>=◌}
use epsolar_tracer_client.Server.{take_commands, decode_loop, on_received}
use mathlib.Core.Path.{subst}
use epsolar_tracer_client.Base.{pos_part, Option-cases, some_inj, inl, inr, ◌≢◌}
use epsolar_tracer_client.Common.{e_none, e_heartbeat}
use epsolar_tracer_client.Mttp.Encode.{init_buffer, get_buffer}
use epsolar_tracer_client.Mttp.Encode.Framing.{add_commands, get_buffer-message}
use epsolar_tracer_client.Server.Commands.{
  save_all, IsFree, IsIdle, emptied, take_commands_lem, >>=-some, >>=_ext, length-emptied,
  emptied-IsFree,
}

overlay-HasRoom : (slots : List Slot) → All IsFree slots → All HasRoom slots
overlay-HasRoom [] free = tt
overlay-HasRoom (s ∷ slots) free = (free.0.1, overlay-HasRoom slots free.1)

free_slot-IsFree :
    (slots : List Slot) → 0 < length slots → All IsFree slots → free_slot slots ≡ some 0
free_slot-IsFree [] h free = absurd (omega arith)
free_slot-IsFree (s ∷ slots) h free = ground arith

-- Once `processed` has reached `received` the outer loop is over.
decode_loop_done :
    (rounds received : ℕ) (recvbuffer : List ℕ) (mttp : Mttp) (mem : Memory)
    → decode_loop rounds received recvbuffer received mttp mem ≡ some (mttp, mem)
unfolding decode_loop
decode_loop_done zero received recvbuffer mttp mem = refl
decode_loop_done (suc rounds) received recvbuffer mttp mem = ground arith

-- A round of the outer loop that reads all that was received.
decode_loop_once :
    (rounds received : ℕ) (recvbuffer : List ℕ) (mttp mttp' : Mttp) (mem : Memory)
    → 0 < received
    → add_message recvbuffer received mttp ≡ some (received, mttp')
    → decode_loop (suc rounds) 0 recvbuffer received mttp mem
      ≡ take_commands max_commands 0 mttp' mem
unfolding decode_loop
decode_loop_once rounds received recvbuffer mttp mttp' mem pos' h =
    let e : received - 0 ≡ received = omega arith in
    rw (lt→ltb 0 received pos', e, h)
      (>>=_ext (take_commands max_commands 0 mttp' mem)
          (λ x. decode_loop rounds received recvbuffer received x.0 x.1) (λ x. some x)
          (λ x. decode_loop_done rounds received recvbuffer x.0 x.1)
        ∙ >>=-some (take_commands max_commands 0 mttp' mem))

-- A whole message of at most MAX_COMMANDS commands that `recv` delivers at once to an idle server
-- has the effect of saving its commands, each exactly once and in the order of the message, on
-- which no access is outside an array of the protocol object; the slots used are freed. Each
-- command has a type other than DLE, an address of 16 bits and a payload of at most COMMAND_SIZE
-- bytes.
pub on_received-message :
    (act : ℕ) (cs : List Command) (mttp : Mttp) (mem : Memory)
    → All Fits cs
    → length cs ≤ max_commands
    → IsIdle mttp
    → on_received (message act cs) (length (message act cs)) mttp mem ≡ (
        save_all cs mem >>= λ mem'.
        some (record mttp { decoded_commands = emptied cs mttp.decoded_commands }, mem'))
unfolding on_received
on_received-message act cs mttp mem fits few idle =
    let bytes = message act cs in
    let mttp' : Mttp = record mttp { decoded_commands = overlay cs mttp.decoded_commands } in
    let added : add_message bytes (length bytes) mttp ≡ some (length bytes, mttp') =
      ap (λ l. add_message l (length l) mttp) (sym (append-nil bytes))
      ∙ add_message-message act cs [] [] mttp.decoded_commands mttp fits
          (overlay-HasRoom mttp.decoded_commands idle.free) (omega (arith, idle.count))
          (omega arith) refl
          (free_slot-IsFree mttp.decoded_commands (omega (arith, idle.count)) idle.free) in
    decode_loop_once 99 (length bytes) bytes mttp mttp' mem (omega arith) added
    ∙ take_commands_lem cs max_commands 0 [] mttp.decoded_commands mttp' mem fits idle.free
        (omega (arith, idle.count)) few (omega arith) refl refl

emptied-IsIdle :
    (cs : List Command) (mttp : Mttp)
    → IsIdle mttp
    → IsIdle (record mttp { decoded_commands = emptied cs mttp.decoded_commands })
emptied-IsIdle cs mttp idle = record {
  count = length-emptied cs mttp.decoded_commands ∙ idle.count;
  free = emptied-IsFree cs mttp.decoded_commands idle.free;
}

-- Where an idle server returns from a whole message of at most MAX_COMMANDS commands that `recv`
-- delivers at once, it is idle again, whatever `Save` has made of the commands: every slot is
-- free and has its full array. Each command has a type other than DLE, an address of 16 bits and
-- a payload of at most COMMAND_SIZE bytes.
pub on_received-IsIdle :
    (act : ℕ) (cs : List Command) (mttp mttp' : Mttp) (mem mem' : Memory)
    → All Fits cs
    → length cs ≤ max_commands
    → IsIdle mttp
    → on_received (message act cs) (length (message act cs)) mttp mem ≡ some (mttp', mem')
    → IsIdle mttp'
on_received-IsIdle act cs mttp mttp' mem mem' fits few idle h =
    let result : (save_all cs mem >>= λ mem'.
    some (record mttp { decoded_commands = emptied cs mttp.decoded_commands }, mem'))
        ≡ some (mttp', mem') =
      sym (on_received-message act cs mttp mem fits few idle) ∙ h in
    elim (Option-cases (save_all cs mem)) [
      | inl e ↦
          let no_result : ◌≡◌ {A = Option (Mttp × Memory)} none (some (mttp', mem')) =
            rw e at result in
          ground arith
      | inr (m, e) ↦
          let same : some (record mttp { decoded_commands = emptied cs mttp.decoded_commands }, m)
              ≡ some (mttp', mem') =
            rw e at result in
          subst (λ o. IsIdle o) (ap (λ t. t.0) (some_inj same)) (emptied-IsIdle cs mttp idle)
    ]

-- What the client puts together with `InitBuffer`, `AddCommand` and `GetBuffer`, an idle server
-- that receives it at once takes in full: it does what saving the client's commands does, each
-- exactly once and in their order, with the types, addresses and payloads that the client gave,
-- and frees the slots used. The action is neither `eNone` nor `eHeartbeat`, the client's array
-- holds the message, and there are at most MAX_COMMANDS commands. Each command has a type other
-- than DLE, an address of 16 bits and a payload of at most COMMAND_SIZE bytes.
pub on_received-get_buffer :
    (act sendbufferlen : ℕ) (cs : List Command) (client mttp : Mttp) (mem : Memory)
    → act ≢ e_none
    → act ≢ e_heartbeat
    → length (message act cs) ≤ sendbufferlen
    → All Fits cs
    → length cs ≤ max_commands
    → IsIdle mttp
    → (let sent = get_buffer sendbufferlen (add_commands cs (init_buffer act client)) in
        on_received sent.1 (pos_part sent.0) mttp mem)
      ≡ (save_all cs mem >>= λ mem'.
          some (record mttp { decoded_commands = emptied cs mttp.decoded_commands }, mem'))
on_received-get_buffer act sendbufferlen cs client mttp mem p q room fits few idle =
    rw (get_buffer-message act cs sendbufferlen client p q room)
      (on_received-message act cs mttp mem fits few idle)
