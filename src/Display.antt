-- ===== src/Display.antt =====
-- display.c: the requests of the MT50 display.
pub mod Hex
pub mod Forwarded
pub mod PassedOn
use epsolar_tracer_client.Base.{
  ℕ, zero, suc, ◌+◌, ◌-◌, ℤ, pos, negsuc, pos_part, failure, Bool, true, false, not, ◌&&◌, List, [],
  ◌∷◌, ◌++◌, ◌==◌, ltb, leb, length, take, drop, if◌then◌else◌, Option, none, some,
}
use epsolar_tracer_client.Text.{codes, stoi, wrapped}
use epsolar_tracer_client.Memory.State.{Memory}
use epsolar_tracer_client.Memory.Response.{generate_response}
use epsolar_tracer_client.Memory.Listing.{hex2}
use epsolar_tracer_client.Modbus.Receive.{Event, receive_request}
use epsolar_tracer_client.Modbus.Send.{Sent, max_adu_length, send_confirmation}
use epsolar_tracer_client.Tracer.Outcome.{Outcome, stuck, exited, returned, ◌>>=◌, accessed}
use epsolar_tracer_client.Tracer.Flags.{Flags}
use epsolar_tracer_client.Tracer.Controller.{Exchange, Answer, reconnect, modbus_send_request}

-- `"%02X"` for each byte of the request
unfoldable pub hex_text : List ℕ → List ℕ
hex_text [] = []
hex_text (b ∷ bytes) = hex2 b ++ hex_text bytes

-- `sendbuffer`
abbrev pub forward_text : List ℕ → List ℕ
forward_text query = codes "modbussend " ++ hex_text query

-- `if (recvmessage[n] != '<' && recvmessage[n] != '>')`
unfoldable pub without_brackets : List ℕ → List ℕ
without_brackets [] = []
without_brackets (c ∷ cs) =
    let rest = without_brackets cs in if not (c == b'<') && not (c == b'>') then c ∷ rest else rest

-- The loop over the characters: two of them for each byte, as long as two are left. `byte` is the
-- variable of that name, which keeps its value where `stoi` throws.
unfoldable pub read_pairs : ℕ → List ℕ → List ℕ
read_pairs byte [] = []
read_pairs byte (a ∷ []) = []
read_pairs byte (a ∷ b ∷ text) =
    let byte' : ℕ = elim (stoi 16 (a ∷ b ∷ [])) [ none ↦ byte | some z ↦ wrapped 8 z ] in
    byte' ∷ read_pairs byte' text

-- The answer of the other server, as bytes. Where the message is empty, its size less one is the
-- greatest number, and `substr` throws an exception that nothing catches; and more bytes than
-- `reply` holds are written outside of it.
unfoldable pub parse_reply : ℕ → List ℕ → Outcome (List ℕ)
parse_reply stale recvmessage = elim (without_brackets recvmessage) [
  | [] ↦ stuck
  | c ∷ cs ↦
      if ltb max_adu_length (length (read_pairs stale (c ∷ cs)))
      then stuck
      else returned (read_pairs stale (c ∷ cs))
]

-- What the system gives to a round of `Body`: what `Receive` sees, the results of `write` in each
-- call of `SendConfirmation`, the results of `Connect`, what the line of the controller does, and
-- what the other server answers to a message, nothing where `connect`, `send` or `recv` fail. The
-- last is none for a null pointer.
pub record Turn : Type 0 where
  pub events : List Event
  pub written : List ℤ
  pub connects : List Bool
  pub exchange : Exchange
  pub other : Option (List ℕ → List ℕ)

-- What a round leaves: the bytes on the line of the display and on that of the controller, the
-- message to the other server, the flags and the array `query`.
pub record Served : Type 0 where
  pub display_wire : List ℕ
  pub tracer_wire : List ℕ
  pub forwarded : Option (List ℕ)
  pub flags : Flags
  pub query : List ℕ

-- the number of the display
abbrev pub display_slave : ℕ
display_slave = 1

abbrev pub quiet : Flags → List ℕ → Served
quiet flags query = record {
  display_wire = [];
  tracer_wire = [];
  forwarded = none;
  flags = flags;
  query = query;
}

-- `SendConfirmation`, whose result is not looked at
abbrev pub confirm : List ℕ → Turn → Served → Outcome Served
confirm reply t r =
    accessed (send_confirmation reply t.written)
    >>= (λ s. returned (record r { display_wire = s.wire }))

-- `if (replylenght > 2)`: the reply without the two bytes of its checksum
abbrev pub confirm_reply : ℤ → List ℕ → Turn → Served → Outcome Served
confirm_reply (negsuc n) reply t r = returned r
confirm_reply (pos n) reply t r = if ltb 2 n then confirm (take (n - 2) reply) t r else returned r

-- The environment: `TracerConnected`, `TracerConnected && ctx`, and what an uninitialised `byte`
-- holds.
module _ (tracer_connected connected : Bool) (stale : ℕ) where
  -- `replylenght == -2`: the request goes to the controller, or as text to the other server
  unfoldable pub pass_on : List ℕ → ℕ → Turn → Served → Outcome Served
  pass_on query rc t r =
      if tracer_connected
      then (if ltb 2 rc
          then modbus_send_request connected (take (rc - 2) query) t.exchange r.flags >>= (λ a.
            confirm_reply a.rc a.stored t (record r { flags = a.flags; tracer_wire = a.wire }))
          else returned r)
      else elim t.other [
        | none ↦ returned r
        | some other ↦
            let text = forward_text (take (rc - 2) query) in
            parse_reply stale (other text) >>= (λ reply.
              confirm_reply (pos (length reply)) reply t (record r { forwarded = some text }))
      ]

  -- what `Body` does with the result of `GenerateResponse`
  abbrev pub answer_request : ℤ → List ℕ → List ℕ → ℕ → Turn → Served → Outcome Served
  answer_request (pos zero) reply query rc t r = returned r
  answer_request (pos (suc n)) reply query rc t r = confirm (take (suc n) reply) t r
  answer_request (negsuc zero) reply query rc t r = returned r
  answer_request (negsuc (suc zero)) reply query rc t r = pass_on query rc t r
  answer_request (negsuc (suc (suc n))) reply query rc t r = returned r

  -- A round of `Body`. `query` keeps what it held behind the request.
  unfoldable pub display_body : Turn → List ℕ → Memory → Flags → Outcome Served
  display_body t query mem flags =
      accessed (receive_request display_slave t.events) >>= (λ received. elim received.0 [
        | negsuc n ↦ reconnect 20 t.connects (quiet flags query)
        | pos n ↦
            if n == 0
            then returned (quiet flags query)
            else (let query' = received.1 ++ drop (length received.1) query in
                accessed (generate_response query' max_adu_length mem)
                >>= (λ got. answer_request got.0 got.1 query' n t (quiet flags query')))
      ])
