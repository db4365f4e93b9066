-- ===== src/MtcpServer/Reply.antt =====
-- mtcpserver.c: what a text command gives back, and the ways in which it reaches the charge
-- controller.
use Prim.Native.String.{String}
use epsolar_tracer_client.Base.{
  ℕ, ℤ, pos, negsuc, Bool, not, List, [], ◌∷◌, ◌++◌, ◌==◌, ltb, take, pos_part, get_or,
  if◌then◌else◌, Option, none, some,
}
use epsolar_tracer_client.Text.{codes, stoi, wrapped}
use epsolar_tracer_client.Memory.State.{Memory}
use epsolar_tracer_client.Memory.Listing.{hex2}
use epsolar_tracer_client.Tracer.Outcome.{Outcome, stuck, returned, ◌>>=◌}
use epsolar_tracer_client.Tracer.Flags.{Flags}
use epsolar_tracer_client.Tracer.Controller.{Exchange, modbus_send_request}

-- What a command leaves: the text for the client, the memory, the flags of the charge controller,
-- the bytes on its line, the command for `system`, and the message that was forwarded.
pub record Reply : Type 0 where
  pub text : List ℕ
  pub mem : Memory
  pub flags : Flags
  pub wire : List ℕ
  pub system : Option (List ℕ)
  pub forwarded : Option (List ℕ)

-- What the system gives to the forwarding of a message: whether `connect` and `send` succeed, and
-- the bytes of `recv`, none where it fails.
pub record Peer : Type 0 where
  pub connects : Bool
  pub sends : Bool
  pub received : Option (List ℕ)

-- a text and a line end
abbrev pub text_line : String → List ℕ
text_line s = codes s ++ 10 ∷ []

abbrev pub say : List ℕ → Memory → Flags → Reply
say text mem flags = record {
  text = text;
  mem = mem;
  flags = flags;
  wire = [];
  system = none;
  forwarded = none;
}

-- The branch for a controller that is not connected locally, the same for each of the commands that
-- have one. `assign` with the result -1 of `recv` throws an exception that nothing catches.
unfoldable pub forward : Option Peer → List ℕ → Memory → Flags → Outcome Reply
forward none req mem flags = returned (say (text_line "Tracer not locally connected") mem flags)
forward (some p) req mem flags =
    if not p.connects
    then returned
        (say (text_line "cMtcpClient: Error Forward Message to Client: Connection Error") mem flags)
    else if not p.sends
    then returned
        (say (text_line "cMtcpClient: Error Forward Message to Client: Send Error") mem flags)
    else elim p.received [
      | none ↦ stuck
      | some text ↦ returned (record (say text mem flags) { forwarded = some req })
    ]

-- the loop that reads the bytes of `modbussend`, two characters each; `none` is an exception
unfoldable pub hex_bytes : List ℕ → Option (List ℕ)
hex_bytes [] = some []
hex_bytes (a ∷ []) = elim (stoi 16 (a ∷ [])) [ none ↦ none | some z ↦ some (wrapped 8 z ∷ []) ]
hex_bytes (a ∷ b ∷ text) = elim (stoi 16 (a ∷ b ∷ [])) [
  | none ↦ none
  | some z ↦ elim (hex_bytes text) [ none ↦ none | some bytes ↦ some (wrapped 8 z ∷ bytes) ]
]

-- `"<%02X>"` for each byte of the response
unfoldable pub response_text : List ℕ → List ℕ
response_text [] = 10 ∷ []
response_text (b ∷ bytes) = b'<' ∷ (hex2 b ++ b'>' ∷ response_text bytes)

abbrev pub modbus_text : ℤ → List ℕ → List ℕ
modbus_text (negsuc n) stored = text_line "Error wrong Modbus Request"
modbus_text (pos n) stored = response_text (take n stored)

-- `modbussend` with the controller connected
unfoldable pub modbus_send : Bool → List ℕ → Exchange → Memory → Flags → Outcome Reply
modbus_send connected text x mem flags = elim (hex_bytes text) [
  | none ↦ returned (say (text_line "Error can not convert Input to HEX") mem flags)
  | some req ↦
      modbus_send_request connected req x flags
      >>= (λ a. returned (record (say (modbus_text a.rc a.stored) mem a.flags) { wire = a.wire }))
]

-- `outputon` and `outputoff` with the controller connected: the coil is written as `value`
unfoldable pub output : Bool → ℕ → Exchange → Memory → Flags → Outcome Reply
output connected value x mem flags =
    modbus_send_request connected (0x01 ∷ 0x0F ∷ 0x00 ∷ 0x02 ∷ 0x00 ∷ 0x01 ∷ 0x01 ∷ value ∷ []) x
      flags
    >>= (λ a.
        returned
          (record (say
            (if ltb (pos_part a.rc) 2
              then text_line "Error wrong Modbus Request"
              else if get_or a.stored 1 0 == 0x0F
              then text_line "OK"
              else text_line "Error")
            mem a.flags) { wire = a.wire }))
