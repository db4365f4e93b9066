-- ===== src/Display/Forwarded.antt =====
-- Display: a request that the display's thread passes on to the text server of another program.
use epsolar_tracer_client.Base.{
  ℕ, zero, suc, ◌/◌, ◌%◌, ◌<◌, ◌≤◌, ◌≡◌, ◌≢◌, refl, ap, ◌∙◌, inl, inr, pos, Bool, true, false, List,
  [], ◌∷◌, ◌++◌, ◌==◌, ◌||◌, ltb, length, length-append, take, All, IsByte, Bool-cases, Option,
  arith,
}
use epsolar_tracer_client.Text.{codes}
use epsolar_tracer_client.Memory.State.{Memory}
use epsolar_tracer_client.Memory.Listing.{hex_digit, hex2}
use epsolar_tracer_client.Modbus.Send.{max_adu_length}
use epsolar_tracer_client.Tracer.Outcome.{returned}
use epsolar_tracer_client.Tracer.Flags.{Flags}
use epsolar_tracer_client.Tracer.Controller.{Exchange, Answer, modbus_send_request}
use epsolar_tracer_client.MtcpServer.Words.{split, strip, IsWithoutSpace, split-join}
use epsolar_tracer_client.MtcpServer.Reply.{
  Reply, Peer, say, modbus_send, modbus_text, response_text,
}
use epsolar_tracer_client.MtcpServer.Handle.{
  memory_command, controller_command, run_command, handle_command,
}
use epsolar_tracer_client.Display.{
  hex_text, forward_text, without_brackets, read_pairs, parse_reply,
}
use epsolar_tracer_client.Display.Hex.{
  hex_bytes-hex_text, response-without_brackets, read_pairs-hex_text,
}

-- no space and no line end
abbrev IsPlain : ℕ → Type 0
IsPlain c = (c ≢ b' ') × (c ≢ 10) × (c ≢ 13)

digit-IsPlain : (d : ℕ) → d < 16 → IsPlain (hex_digit d)
digit-IsPlain d h = elim (Bool-cases (ltb d 10)) [
  | inl e ↦ rw e (ground arith)
  | inr e ↦ rw e (ground arith)
]

hex_text-IsPlain : (bytes : List ℕ) → All IsPlain (hex_text bytes)
unfolding hex_text hex2
hex_text-IsPlain [] = tt
hex_text-IsPlain (b ∷ bytes) = (
  digit-IsPlain (b / 16 % 16) (omega arith),
  (digit-IsPlain (b % 16) (omega arith), hex_text-IsPlain bytes),
)

IsPlain-IsWithoutSpace : (text : List ℕ) → All IsPlain text → IsWithoutSpace text
IsPlain-IsWithoutSpace [] h = tt
IsPlain-IsWithoutSpace (c ∷ text) h = (h.0.0, IsPlain-IsWithoutSpace text h.1)

-- a text without a line end stays
strip-plain : (text : List ℕ) → All (λ c. (c ≢ 10) × (c ≢ 13)) text → strip text ≡ text
unfolding strip
strip-plain [] h = refl
strip-plain (c ∷ []) h =
    let no_end : ((c == 10) || (c == 13)) ≡ false = ground (arith, h.0.0, h.0.1) in rw no_end refl
strip-plain (c ∷ d ∷ text) h = ap (λ l. c ∷ l) (strip-plain (d ∷ text) h.1)

text-IsPlain : (text : List ℕ) → All IsPlain text → All (λ c. (c ≢ 10) × (c ≢ 13)) text
text-IsPlain [] h = tt
text-IsPlain (c ∷ text) h = ((h.0.1, h.0.2), text-IsPlain text h.1)

All-append : (P : ℕ → Type 0) (pre post : List ℕ) → All P pre → All P post → All P (pre ++ post)
All-append P [] post h k = k
All-append P (c ∷ pre) post h k = (h.0, All-append P pre post h.1 k)

forward_text-words :
    (req : List ℕ) → split (strip (forward_text req)) ≡ codes "modbussend" ∷ hex_text req ∷ []
forward_text-words req =
    let plain = hex_text-IsPlain req in
    let ends : All (λ c. (c ≢ 10) × (c ≢ 13)) (codes "modbussend ") = ground arith in
    let word : IsWithoutSpace (codes "modbussend") = ground arith in
    ap split (
      strip-plain (forward_text req) (
        All-append (λ c. (c ≢ 10) × (c ≢ 13)) (codes "modbussend ") (hex_text req) ends
          (text-IsPlain (hex_text req) plain)))
    ∙ split-join (codes "modbussend") (hex_text req ∷ [])
        (word, (IsPlain-IsWithoutSpace (hex_text req) plain, tt))

parse_reply-of :
    (stale : ℕ) (recvmessage text : List ℕ)
    → without_brackets recvmessage ≡ text
    → 1 ≤ length text
    → length (read_pairs stale text) ≤ max_adu_length
    → parse_reply stale recvmessage ≡ returned (read_pairs stale text)
unfolding parse_reply
parse_reply-of stale recvmessage [] e some_text fits = ground arith
parse_reply-of stale recvmessage (c ∷ cs) e some_text fits =
    let short : ltb max_adu_length (length (read_pairs stale (c ∷ cs))) ≡ false = ground arith in
    rw (parse_reply, e, short) refl

parse_reply-response :
    (stale : ℕ) (bytes : List ℕ)
    → All IsByte bytes
    → length bytes ≤ max_adu_length
    → parse_reply stale (response_text bytes) ≡ returned bytes
parse_reply-response stale bytes h fits =
    let read = read_pairs-hex_text stale bytes h in
    parse_reply-of stale (response_text bytes) (hex_text bytes ++ 10 ∷ [])
      (response-without_brackets bytes) (omega (arith, length-append (hex_text bytes) (10 ∷ [])))
      (rw read fits)
    ∙ ap returned read

take-length_eq : (n : ℕ) (l : List ℕ) → n ≡ length l → take n l ≡ l
take-length_eq zero [] h = refl
take-length_eq (suc n) [] h = absurd (omega arith)
take-length_eq zero (x ∷ l) h = absurd (omega arith)
take-length_eq (suc n) (x ∷ l) h = ap (λ z. x ∷ z) (take-length_eq n l (omega arith))

module _ (connected : Bool) (x : Exchange) (peer : Option Peer) (stale : ℕ) (mem : Memory)
    (flags : Flags) where
  modbus_send-hex :
      (req : List ℕ) (a : Answer)
      → All IsByte req
      → modbus_send_request connected req x flags ≡ returned a
      → modbus_send connected (hex_text req) x mem flags
        ≡ returned (record (say (modbus_text a.rc a.stored) mem a.flags) { wire = a.wire })
  unfolding modbus_send
  modbus_send-hex req a bytes asked = rw (modbus_send, hex_bytes-hex_text req bytes, asked) refl

  handled :
      (req : List ℕ) (a : Answer)
      → All IsByte req
      → modbus_send_request connected req x flags ≡ returned a
      → handle_command true connected x peer stale (forward_text req) mem flags
        ≡ returned (record (say (modbus_text a.rc a.stored) mem a.flags) { wire = a.wire })
  unfolding handle_command run_command memory_command controller_command
  handled req a bytes asked =
      ap (λ command. run_command true connected x peer stale command (forward_text req) mem flags)
        (forward_text-words req)
      ∙ modbus_send-hex req a bytes asked

  -- A request that is not for the display itself reaches the charge controller through the text
  -- server of the program that it is connected to, and its answer comes back, both unchanged: for
  -- the text that the display's thread sends for the bytes `req`, the server calls
  -- `modbus_send_request` with exactly these, and where that returns 1 to 256 bytes, the
  -- display's thread reads exactly these from the server's answer. The server's memory stays, and
  -- its flags are those of the call.
  pub parse_reply-handle_command :
      (req : List ℕ) (a : Answer) (n stale_byte : ℕ)
      → All IsByte req
      → modbus_send_request connected req x flags ≡ returned a
      → a.rc ≡ pos n
      → n ≡ length a.stored
      → n ≤ max_adu_length
      → All IsByte a.stored
      → (r : Reply) × (handle_command true connected x peer stale (forward_text req) mem flags
          ≡ returned r)
        × (parse_reply stale_byte r.text ≡ returned a.stored)
        × (r.flags ≡ a.flags)
        × (r.mem ≡ mem)
  parse_reply-handle_command req a n stale_byte bytes asked got count fits stored =
      let text : modbus_text a.rc a.stored ≡ response_text a.stored =
        ap (λ rc. modbus_text rc a.stored) got
        ∙ ap response_text (take-length_eq n a.stored count) in
      (
        record (say (modbus_text a.rc a.stored) mem a.flags) { wire = a.wire },
        handled req a bytes asked,
        ap (parse_reply stale_byte) text
            ∙ parse_reply-response stale_byte a.stored stored (omega (arith, count)),
        refl,
        refl,
      )
