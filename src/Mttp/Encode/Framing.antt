-- ===== src/Mttp/Encode/Framing.antt =====
-- Mttp/Encode: the send buffer between InitBuffer and GetBuffer.
use epsolar_tracer_client.Base.{
  ℕ, ◌+◌, ◌≤◌, ◌<◌, failure, ◌≢◌, ◌≡◌, refl, ap, ◌∙◌, pos, ℤ, true, false, List, [], ◌∷◌, ◌++◌,
  append_assoc, append-nil, length, length-append, u16, get_int16-bytes, arith,
}
use native.Mathlib.Nat.{zero-add}
use epsolar_tracer_client.Common.{e_none, e_heartbeat}
use epsolar_tracer_client.Mttp.State.{Mttp, Slot, dle, etx}
use epsolar_tracer_client.Mttp.Message.{
  Command, escape, escape_all, encode_command, encode_commands, framed, message,
}
use epsolar_tracer_client.Mttp.Encode.{
  Output, push_byte, push_escaped, push_payload, push_command, add_lenght, init_buffer, add_command,
  close_buffer, get_buffer,
}

-- `o` after the bytes `bs` have been pushed
pushed : List ℕ → Output → Output
pushed bs o = record { buffer = o.buffer ++ bs; commandlenght = o.commandlenght + length bs }

pushed-pushed : (bs cs : List ℕ) (o : Output) → pushed cs (pushed bs o) ≡ pushed (bs ++ cs) o
unfolding pushed
pushed-pushed bs cs o = ground (arith, append_assoc o.buffer bs cs, length-append bs cs)

push_byte_lem : (b : ℕ) (o : Output) → push_byte b o ≡ pushed (b ∷ []) o
unfolding push_byte pushed
push_byte_lem b o = refl

push_escaped_lem : (b : ℕ) (o : Output) → push_escaped b o ≡ pushed (escape b) o
unfolding push_escaped push_byte pushed
push_escaped_lem b o = ground (arith, append_assoc o.buffer (dle ∷ []) (dle ∷ []))

push_payload_lem : (cs : List ℕ) (o : Output) → push_payload cs o ≡ pushed (escape_all cs) o
unfolding push_payload pushed
push_payload_lem [] o = ground (arith, append-nil o.buffer)
push_payload_lem (c ∷ cs) o =
    push_payload_lem cs (push_escaped c o)
    ∙ ap (pushed (escape_all cs)) (push_escaped_lem c o)
    ∙ pushed-pushed (escape c) (escape_all cs) o

push_command_lem :
    (c : Command) (o : Output)
    → push_command c.memtype c.payload c.adress o ≡ pushed (encode_command c) o
unfolding push_command
push_command_lem c o =
    simp (push_byte_lem, push_escaped_lem, push_payload_lem, pushed-pushed, append_assoc)

-- A framed buffer with more bytes behind it, after its length field has been raised by their
-- number.
add_lenght-framed :
    (act : ℕ) (body bs : List ℕ)
    → add_lenght (length bs) (framed act body ++ bs) ≡ framed act (body ++ bs)
unfolding add_lenght
add_lenght-framed act body bs =
    let e : u16 (u16 (5 + length body) + length bs) ≡ u16 (5 + length (body ++ bs)) =
      omega (arith, length-append body bs) in
    rw (get_int16-bytes (u16 (5 + length body)) (omega arith), e)

-- an object whose buffer is open and holds a message's frame and `body`
abbrev pub opened : ℕ → List ℕ → List Slot → Mttp
opened act body slots = record {
  buffer = framed act body;
  closed = false;
  inited = true;
  decoded_commands = slots;
}

-- the end of `AddCommand`, when the bytes `bs` have been pushed
add_command_tail :
    (act : ℕ) (body bs : List ℕ) (slots : List Slot) (o : Output)
    → o ≡ pushed bs (record { buffer = framed act body; commandlenght = 0 })
    → ◌≡◌ {A = ℤ × Mttp}
        (
          pos o.commandlenght,
          record (opened act body slots) { buffer = add_lenght o.commandlenght o.buffer },
        )
        (pos (length bs), opened act (body ++ bs) slots)
unfolding pushed
add_command_tail act body bs slots o e =
    ground (arith, zero-add (length bs), add_lenght-framed act body bs)

-- On an open buffer `AddCommand` appends the wire form of the command, keeps the frame with its
-- length field, and returns the number of bytes.
pub add_command-opened :
    (act : ℕ) (body : List ℕ) (c : Command) (slots : List Slot)
    → add_command c.memtype c.payload c.adress (opened act body slots)
      ≡ (pos (length (encode_command c)), opened act (body ++ encode_command c) slots)
unfolding add_command
add_command-opened act body c slots =
    let o : Output = record { buffer = framed act body; commandlenght = 0 } in
    add_command_tail act body (encode_command c) slots (push_command c.memtype c.payload c.adress o)
      (push_command_lem c o)

-- The commands of a list, added one after the other.
pub add_commands : List Command → Mttp → Mttp
add_commands [] m = m
add_commands (c ∷ cs) m = add_commands cs (add_command c.memtype c.payload c.adress m).1

pub add_commands-opened :
    (act : ℕ) (body : List ℕ) (cs : List Command) (slots : List Slot)
    → add_commands cs (opened act body slots) ≡ opened act (body ++ encode_commands cs) slots
unfolding add_commands
add_commands-opened act body [] slots = rw append-nil
add_commands-opened act body (c ∷ cs) slots = rw (add_command-opened act body c slots) (
    add_commands-opened act (body ++ encode_command c) cs slots
    ∙ ap (λ b. opened act b slots) (append_assoc body (encode_command c) (encode_commands cs)))

-- For an action other than `eNone` and `eHeartbeat`, `InitBuffer` starts an empty open message.
pub init_buffer-opened :
    (act : ℕ) (m : Mttp)
    → act ≢ e_none
    → act ≢ e_heartbeat
    → init_buffer act m ≡ opened act [] m.decoded_commands
unfolding init_buffer
init_buffer-opened act m p q = ground arith

close_buffer-opened :
    (act : ℕ) (body : List ℕ) (slots : List Slot)
    → close_buffer (opened act body slots)
      ≡ record (opened act (body ++ dle ∷ etx ∷ []) slots) { closed = true }
unfolding close_buffer
close_buffer-opened act body slots =
    ap (λ b. record (opened act body slots) { buffer = b; closed = true })
      (add_lenght-framed act body (dle ∷ etx ∷ []))

-- After `InitBuffer` with an action other than `eNone` and `eHeartbeat`, and any number of
-- `AddCommand`, `GetBuffer` into an array that is large enough copies exactly the message of
-- those commands in the wire format, returns its length, and leaves the buffer closed.
pub get_buffer-message :
    (act : ℕ) (cs : List Command) (sendbufferlen : ℕ) (m : Mttp)
    → act ≢ e_none
    → act ≢ e_heartbeat
    → length (message act cs) ≤ sendbufferlen
    → get_buffer sendbufferlen (add_commands cs (init_buffer act m)) ≡ (
      pos (length (message act cs)),
      message act cs,
      record (opened act (encode_commands cs ++ dle ∷ etx ∷ []) m.decoded_commands) {
        closed = true;
      },
    )
unfolding get_buffer
get_buffer-message act cs sendbufferlen m p q fits =
    rw
      (
        init_buffer-opened act m p q,
        add_commands-opened act [] cs m.decoded_commands,
        close_buffer-opened act (encode_commands cs) m.decoded_commands,
      )
      (ground arith)

-- the same where the array is too small
pub get_buffer-too_long :
    (act : ℕ) (cs : List Command) (sendbufferlen : ℕ) (m : Mttp)
    → act ≢ e_none
    → act ≢ e_heartbeat
    → sendbufferlen < length (message act cs)
    → get_buffer sendbufferlen (add_commands cs (init_buffer act m)) ≡ (
      failure,
      [],
      record (opened act (encode_commands cs ++ dle ∷ etx ∷ []) m.decoded_commands) {
        closed = true;
      },
    )
unfolding get_buffer
get_buffer-too_long act cs sendbufferlen m p q long =
    rw
      (
        init_buffer-opened act m p q,
        add_commands-opened act [] cs m.decoded_commands,
        close_buffer-opened act (encode_commands cs) m.decoded_commands,
      )
      (ground arith)
