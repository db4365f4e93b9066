-- ===== src/Tests/Line.antt =====
-- Examples of the serial line.
use epsolar_tracer_client.Base.{
  ℕ, ◌+◌, ◌*◌, ◌/◌, ◌%◌, ◌≡◌, refl, pos, negsuc, failure, List, [], ◌∷◌, ◌++◌, length, take,
  replicate, int16_bytes, some, arith,
}
use epsolar_tracer_client.Modbus.Crc.{crc16}
use epsolar_tracer_client.Modbus.Crc.Reference.{reference, crc16-eq-reference}
use epsolar_tracer_client.Modbus.Receive.{timeout, ready, idle, receive, receive_request}
use epsolar_tracer_client.Modbus.Receive.Accepted.{IsFrame, receive-IsFrame}
use epsolar_tracer_client.Modbus.Receive.Silence.{
  arrivals, receive-frame, receive_request-frame, receive_request-longest,
}
use epsolar_tracer_client.Modbus.Send.{send_request, send_confirmation}
use epsolar_tracer_client.Modbus.Send.Wire.{
  counted, send_confirmation-whole, send_request-answered, send_request-write_error,
}
use epsolar_tracer_client.Tests.Data.{short_arrivals, IsQuick-replicate}

abbrev a_request : List ℕ
a_request = 0x01 ∷ 0x04 ∷ 0x31 ∷ 0x00 ∷ 0x00 ∷ 0x02 ∷ []

crc16-eq-reference_example :
    crc16 a_request ≡ reference a_request % 256 * 256 + reference a_request / 256
crc16-eq-reference_example = crc16-eq-reference a_request (omega arith)

abbrev short_frame : List ℕ
short_frame = (1 ∷ 7 ∷ []) ++ int16_bytes (crc16 (1 ∷ 7 ∷ []))

short_frame-received :
    receive 1 idle (ready 70000 (some 1) ∷ (arrivals short_arrivals ++ timeout ∷ []))
    ≡ some (pos 4, short_frame)
short_frame-received =
    receive-frame 1 70000 (7 ∷ []) short_arrivals [] (omega arith) (omega arith) (omega arith)
      (omega arith) (omega arith) refl

receive-IsFrame_example : (length short_frame ≡ 4) × IsFrame 1 short_frame
receive-IsFrame_example =
    receive-IsFrame 1 3 idle short_frame
      (ready 70000 (some 1) ∷ (arrivals short_arrivals ++ timeout ∷ [])) short_frame-received

receive_request-frame_example :
    receive_request 1 (
      arrivals ((10, 0xAA) ∷ [])
      ++ timeout ∷ ready 70000 (some 1) ∷ (arrivals short_arrivals ++ timeout ∷ []))
    ≡ some (pos 4, short_frame)
receive_request-frame_example =
    receive_request-frame 1 70000 (7 ∷ []) ((10, 0xAA) ∷ []) short_arrivals [] (omega arith)
      (omega arith) (omega arith) (omega arith) (omega arith) refl

receive_request-longest_example :
    receive_request 1 (
      arrivals []
      ++ timeout ∷ ready 500 (some 1) ∷ (arrivals (replicate 255 (90, 0)) ++ timeout ∷ []))
    ≡ some (pos 0, [])
receive_request-longest_example =
    receive_request-longest 1 500 1 [] (replicate 255 (90, 0)) (timeout ∷ []) refl
      (IsQuick-replicate 90 0 255 (omega arith))

send_confirmation-whole_example :
    send_confirmation a_request (counted (3 ∷ 5 ∷ []) ++ [])
    ≡ some (record { ret = pos 8; wire = a_request ++ int16_bytes (crc16 a_request) })
send_confirmation-whole_example =
    send_confirmation-whole a_request (3 ∷ 5 ∷ []) [] (omega arith) (omega arith) refl

send_request-answered_example :
    send_request 1 a_request
      (counted (8 ∷ []) ++ [])
      (ready 70000 (some 1) ∷ (arrivals short_arrivals ++ timeout ∷ []))
    ≡ some (pos 4, (a_request ++ int16_bytes (crc16 a_request), short_frame))
send_request-answered_example =
    send_request-answered 1 70000 a_request (8 ∷ []) (7 ∷ []) [] short_arrivals [] (omega arith)
      (omega arith) (omega arith) refl (omega arith) (omega arith) (omega arith) (omega arith)
      (omega arith) refl

send_request-write_error_example :
    send_request 1 a_request (counted (3 ∷ []) ++ negsuc 0 ∷ []) []
    ≡ some (failure, (take 3 (a_request ++ int16_bytes (crc16 a_request)), []))
send_request-write_error_example =
    send_request-write_error 1 0 a_request (3 ∷ []) [] [] (omega arith) (omega arith) (omega arith)
      (omega arith)
