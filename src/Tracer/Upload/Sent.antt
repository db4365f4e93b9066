-- ===== src/Tracer/Upload/Sent.antt =====
-- Tracer/Upload: the messages that calls of `SendMem` put into the send queue.
use epsolar_tracer_client.Base.{
  ℕ, ◌+◌, ◌-◌, ◌≤◌, ◌<◌, leb, ◌≡◌, refl, sym, ap, ◌∙◌, pos, failure, Bool, true, false, List, [],
  ◌∷◌, ◌++◌, append_assoc, length, take, drop, some, if◌then◌else◌, arith,
}
use epsolar_tracer_client.Common.{e_put}
use epsolar_tracer_client.Mttp.State.{Mttp, Slot, dle, etx}
use epsolar_tracer_client.Mttp.Encode.{init_buffer, get_buffer}
use epsolar_tracer_client.Mttp.Encode.Framing.{
  opened, add_commands, add_commands-opened, init_buffer-opened, get_buffer-message,
  get_buffer-too_long,
}
use epsolar_tracer_client.Mttp.Message.{Command, encode_command, encode_commands, message}
use epsolar_tracer_client.Memory.State.{Memory}
use epsolar_tracer_client.Client.{Client, Message, max_send_buffer, max_send_queue, sendmessage}
use epsolar_tracer_client.Client.Queues.{sendmessage-last}
use epsolar_tracer_client.Tracer.Upload.{upload_commands, hand_over, send_mem}

-- the object `MTTP` with the commands that have not been handed over yet
abbrev pub pending : List Command → List Slot → Mttp
pending cs slots = opened e_put (encode_commands cs) slots

-- the send queue after a message has been posted: the last MAXSENDQUEUE ones
abbrev pub posted : List ℕ → List Message → List Message
posted bytes queue =
    drop (length queue + 1 - max_send_queue)
      (queue ++ record { lenght = pos (length bytes); bytes = bytes } ∷ [])

encode_commands-append :
    (cs ds : List Command) → encode_commands (cs ++ ds) ≡ encode_commands cs ++ encode_commands ds
encode_commands-append [] ds = refl
encode_commands-append (c ∷ cs) ds =
    ap (λ l. encode_command c ++ l) (encode_commands-append cs ds)
    ∙ sym (append_assoc (encode_command c) (encode_commands cs) (encode_commands ds))

pub add_commands-pending :
    (cs ds : List Command) (slots : List Slot)
    → add_commands ds (pending cs slots) ≡ pending (cs ++ ds) slots
add_commands-pending cs ds slots =
    add_commands-opened e_put (encode_commands cs) ds slots
    ∙ ap (λ b. opened e_put b slots) (sym (encode_commands-append cs ds))

take-all : (l : List ℕ) → take (length l) l ≡ l
take-all [] = refl
take-all (b ∷ l) = ap (λ z. b ∷ z) (take-all l)

get_buffer-pending :
    (cs : List Command) (slots : List Slot)
    → length (message e_put cs) ≤ max_send_buffer
    → get_buffer max_send_buffer (pending cs slots) ≡ (
      pos (length (message e_put cs)),
      message e_put cs,
      record (opened e_put (encode_commands cs ++ dle ∷ etx ∷ []) slots) { closed = true },
    )
get_buffer-pending cs slots fits =
    let start = init_buffer-opened e_put (pending [] slots) (ground arith) (ground arith) in
    let same : add_commands cs (init_buffer e_put (pending [] slots)) ≡ pending cs slots =
      ap (add_commands cs) start ∙ add_commands-opened e_put [] cs slots in
    ap (get_buffer max_send_buffer) (sym same)
    ∙ get_buffer-message e_put cs max_send_buffer (pending [] slots) (ground arith) (ground arith)
        fits

hand_over-pending :
    (cs : List Command) (slots : List Slot) (client : Client)
    → length (message e_put cs) ≤ max_send_buffer
    → length client.send_queue ≤ max_send_queue
    → hand_over (pending cs slots) client ≡ (
      pos 1,
      pending [] slots,
      record client { send_queue = posted (message e_put cs) client.send_queue },
    )
unfolding hand_over
hand_over-pending cs slots client fits short =
    let start = λ (m : Mttp). init_buffer-opened e_put m (ground arith) (ground arith) in
    rw
      (
        get_buffer-pending cs slots fits,
        sendmessage-last (message e_put cs) (length (message e_put cs)) client fits short,
        start
            (record (opened e_put (encode_commands cs ++ dle ∷ etx ∷ []) slots) { closed = true }),
        take-all (message e_put cs),
      )
      refl

-- `SendMem` adds the commands of the part of the memory that it is asked for behind those that
-- earlier calls have left. Without `send` they stay in the object `MTTP`; with it one message of
-- all of them, in the wire format, joins the send queue, and `MTTP` is empty again. The message
-- is at most MAX_SEND_BUFFER bytes long, and the send queue not longer than MAXSENDQUEUE.
pub send_mem-pending :
    (memtype from to : ℕ) (send : Bool) (stale : List ℕ) (mem : Memory) (client : Client)
    (cs ds : List Command) (slots : List Slot)
    → upload_commands memtype from to stale mem ≡ some ds
    → length (message e_put (cs ++ ds)) ≤ max_send_buffer
    → length client.send_queue ≤ max_send_queue
    → send_mem memtype from to send stale mem (pending cs slots) client
      ≡ some (
          if send
          then (
            pos 1,
            pending [] slots,
            record client { send_queue = posted (message e_put (cs ++ ds)) client.send_queue },
          )
          else (pos 1, pending (cs ++ ds) slots, client))
unfolding send_mem
send_mem-pending memtype from to true stale mem client cs ds slots h fits short =
    rw (h, add_commands-pending cs ds slots, hand_over-pending (cs ++ ds) slots client fits short)
      refl
send_mem-pending memtype from to false stale mem client cs ds slots h fits short =
    rw (h, add_commands-pending cs ds slots) refl

-- Where the message of all the commands is longer than MAX_SEND_BUFFER, `SendMem` with `send` fails
-- and gives up the commands, but a message of the length -1, without bytes, joins the send
-- queue, which is shorter than MAXSENDQUEUE.
pub send_mem-too_long :
    (memtype from to : ℕ) (stale : List ℕ) (mem : Memory) (client : Client) (cs ds : List Command)
    (slots : List Slot)
    → upload_commands memtype from to stale mem ≡ some ds
    → max_send_buffer < length (message e_put (cs ++ ds))
    → length client.send_queue < max_send_queue
    → send_mem memtype from to true stale mem (pending cs slots) client
      ≡ some (
        failure,
        pending [] slots,
        record client {
          send_queue = client.send_queue ++ record { lenght = failure; bytes = [] } ∷ [];
        },
      )
unfolding send_mem hand_over sendmessage
send_mem-too_long memtype from to stale mem client cs ds slots h long short =
    let start = λ (m : Mttp). init_buffer-opened e_put m (ground arith) (ground arith) in
    let begun : add_commands (cs ++ ds) (init_buffer e_put (pending [] slots))
        ≡ pending (cs ++ ds) slots =
      ap (add_commands (cs ++ ds)) (start (pending [] slots))
      ∙ add_commands-opened e_put [] (cs ++ ds) slots in
    let over =
      get_buffer-too_long e_put (cs ++ ds) max_send_buffer (pending [] slots) (ground arith)
        (ground arith) long in
    let over' : get_buffer max_send_buffer (pending (cs ++ ds) slots) ≡ (
      failure,
      [],
      record (opened e_put (encode_commands (cs ++ ds) ++ dle ∷ etx ∷ []) slots) { closed = true },
    ) =
      ap (get_buffer max_send_buffer) (sym begun) ∙ over in
    let room : leb max_send_queue (length client.send_queue) ≡ false = ground arith in
    rw
      (
        h,
        add_commands-pending cs ds slots,
        over',
        room,
        start (record (opened e_put (encode_commands (cs ++ ds) ++ dle ∷ etx ∷ []) slots) {
          closed = true;
        }),
      )
      refl
