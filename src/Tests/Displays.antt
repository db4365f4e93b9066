-- ===== src/Tests/Displays.antt =====
-- Example of a request that the display's thread passes on.
use epsolar_tracer_client.Base.{
  ◌≡◌, refl, negsuc, true, List, ℕ, [], ◌∷◌, ◌++◌, some, none, length, drop, arith,
}
use epsolar_tracer_client.Memory.Response.{generate_response}
use epsolar_tracer_client.Modbus.Receive.{timeout, ready}
use epsolar_tracer_client.Modbus.Receive.Silence.{arrivals}
use epsolar_tracer_client.Modbus.Send.{max_adu_length, frame}
use epsolar_tracer_client.Modbus.Send.Wire.{counted}
use epsolar_tracer_client.Tracer.Outcome.{returned}
use epsolar_tracer_client.Tracer.Controller.{Answer}
use epsolar_tracer_client.Display.{Turn, Served, display_body}
use epsolar_tracer_client.Display.PassedOn.{display_body-passed_on}
use epsolar_tracer_client.Tests.Data.{some_memory}
use epsolar_tracer_client.Tests.Polling.{
  no_flags, quick, exchange, read_request, read_msg, answer_of, read_request-answered,
}

-- the request for a register, without the address and the checksum
abbrev asked_msg : List ℕ
asked_msg = 0x04 ∷ 0x31 ∷ 0x00 ∷ 0x00 ∷ 0x01 ∷ []

abbrev a_query : List ℕ
a_query = frame read_request.req ++ drop (length (frame read_request.req)) []

abbrev controller_answer : Answer
controller_answer = answer_of read_request.req read_msg no_flags

query-unknown : generate_response a_query max_adu_length some_memory ≡ some (negsuc 1, [])
unfolding generate_response
query-unknown = refl

abbrev a_turn : Turn
a_turn = record {
  events =
      arrivals ((10, 0xAA) ∷ [])
      ++ timeout ∷ ready 70000 (some 1) ∷ (arrivals (quick asked_msg) ++ timeout ∷ []);
  written = counted (3 ∷ 4 ∷ []) ++ [];
  connects = [];
  exchange = exchange read_msg;
  other = none;
}

abbrev answered : Served
answered = record {
  display_wire = controller_answer.stored;
  tracer_wire = controller_answer.wire;
  forwarded = none;
  flags = no_flags;
  query = a_query;
}

display_body-passed_on_example :
    display_body true true 0 a_turn [] some_memory no_flags ≡ returned answered
display_body-passed_on_example =
    display_body-passed_on true 0 70000 6 asked_msg (3 ∷ 4 ∷ []) [] [] ((10, 0xAA) ∷ [])
      (quick asked_msg) [] [] [] (exchange read_msg) none some_memory no_flags controller_answer
      (omega arith) (omega arith) (omega arith) (omega arith) refl query-unknown
      read_request-answered refl (omega arith) (omega arith) refl
