-- ===== src/Tests/Polling.antt =====
-- Examples of the polling of the charge controller.
use epsolar_tracer_client.Base.{
  ℕ, ◌+◌, ◌≤◌, ◌≡◌, refl, pos, true, false, List, [], ◌∷◌, ◌++◌, map, length, int16_bytes, some,
  none, arith, replicate,
}
use epsolar_tracer_client.Common.{e_put}
use epsolar_tracer_client.Mttp.Encode.{init_buffer}
use epsolar_tracer_client.Modbus.Crc.{crc16}
use epsolar_tracer_client.Modbus.Receive.{timeout, ready}
use epsolar_tracer_client.Modbus.Receive.Silence.{arrivals}
use epsolar_tracer_client.Modbus.Send.Wire.{counted, send_request-answered}
use epsolar_tracer_client.Memory.State.{Memory}
use epsolar_tracer_client.Memory.Lookup.{find_index}
use epsolar_tracer_client.Memory.SaveResponse.{save_response, save_single}
use epsolar_tracer_client.Memory.Invariant.{IsValid}
use epsolar_tracer_client.Tracer.Outcome.{returned}
use epsolar_tracer_client.Tracer.Flags.{
  Flags, all_needed, reset_tracer_statistic, reset_tracer_realtime,
}
use epsolar_tracer_client.Tracer.Controller.{Exchange, Answer, modbus_send_request}
use epsolar_tracer_client.Tracer.Controller.Triggers.{
  HasTriggered, modbus_send_request-HasTriggered,
}
use epsolar_tracer_client.Tracer.Poll.{
  Request, Tm, Tracer, poll, poll_realtime, poll_statistic, retry, read_requests, read_one,
}
use epsolar_tracer_client.Tracer.Poll.Reads.{Reads, read_requests-Reads}
use epsolar_tracer_client.Tracer.Poll.Silent.{IsSilent, poll-silent}
use epsolar_tracer_client.Tracer.Main.{World, main_round, set_timeout}
use epsolar_tracer_client.Tracer.Main.Due.{IsDue, main_round-IsDue}
use epsolar_tracer_client.Tests.Data.{some_memory, a_register, register_at}

-- the arrivals of the slave's bytes after its address, with the checksum
abbrev pub quick : List ℕ → List (ℕ × ℕ)
quick msg = map {A = ℕ} (λ b. (100, b)) (msg ++ int16_bytes (crc16 (1 ∷ msg)))

abbrev pub exchange : List ℕ → Exchange
exchange msg = record {
  written = counted (8 ∷ []) ++ [];
  events = ready 70000 (some 1) ∷ (arrivals (quick msg) ++ timeout ∷ []);
  connects = [];
}

abbrev pub no_flags : Flags
no_flags = record {
  need_tracer_statistic = false;
  need_tracer_realtime = false;
  need_server_statistic = false;
  need_server_realtime = false;
}

-- a register is written
abbrev write_request : List ℕ
write_request = 0x01 ∷ 0x06 ∷ 0x31 ∷ 0x00 ∷ 0x12 ∷ 0x34 ∷ []

abbrev write_msg : List ℕ
write_msg = 0x06 ∷ 0x31 ∷ 0x00 ∷ 0x12 ∷ 0x34 ∷ []

abbrev pub answer_of : List ℕ → List ℕ → Flags → Answer
answer_of req msg flags = record {
  rc = pos (length msg + 3);
  wire = req ++ int16_bytes (crc16 req);
  stored = (1 ∷ msg) ++ int16_bytes (crc16 (1 ∷ msg));
  flags = flags;
}

write_request-answered :
    modbus_send_request true write_request (exchange write_msg) no_flags
    ≡ returned (answer_of write_request write_msg all_needed)
unfolding modbus_send_request
write_request-answered =
    rw
      (send_request-answered 1 70000 write_request (8 ∷ []) write_msg [] (quick write_msg) []
        (omega arith) (omega arith) (omega arith) refl (omega arith) (omega arith) (omega arith)
        (omega arith) (omega arith) refl)
      refl

modbus_send_request-HasTriggered_example :
    HasTriggered no_flags (answer_of write_request write_msg all_needed)
modbus_send_request-HasTriggered_example =
    modbus_send_request-HasTriggered true write_request (exchange write_msg) no_flags
      (answer_of write_request write_msg all_needed) write_request-answered

-- a register is read
abbrev pub read_request : Request
read_request = record { req = 0x01 ∷ 0x04 ∷ 0x31 ∷ 0x00 ∷ 0x00 ∷ 0x01 ∷ []; headerlenght = 3 }

abbrev pub read_msg : List ℕ
read_msg = 0x04 ∷ 0x02 ∷ 0x12 ∷ 0x34 ∷ []

pub read_request-answered :
    modbus_send_request true read_request.req (exchange read_msg) no_flags
    ≡ returned (answer_of read_request.req read_msg no_flags)
unfolding modbus_send_request
read_request-answered =
    rw
      (send_request-answered 1 70000 read_request.req (8 ∷ []) read_msg [] (quick read_msg) []
        (omega arith) (omega arith) (omega arith) refl (omega arith) (omega arith) (omega arith)
        (omega arith) (omega arith) refl)
      refl

abbrev some_tm : ℕ → Tm
some_tm timestamp = record {
  tm_mday = 1;
  tm_mon = 0;
  tm_year = 120;
  tm_hour = 12;
  tm_min = 30;
  tm_sec = 15;
}

abbrev start : Flags → Tracer
start flags = record {
  flags = flags;
  mem = some_memory;
  asked = 0;
  wire = [];
  ticks = 0;
  last_tracer_statistic_update = 0;
  last_tracer_realtime_update = 0;
  last_server_statistic_update = 0;
  last_server_realtime_update = 0;
}

abbrev read_memory : Memory
read_memory = record some_memory {
  registers =
      record a_register { empty = false; adress = 0x3100; value = 0x1234 }
      ∷ register_at 0x3101
      ∷ replicate 178 a_register;
}

abbrev after_read : Tracer
after_read = record (start no_flags) {
  mem = read_memory;
  asked = 1;
  wire = read_request.req ++ int16_bytes (crc16 read_request.req);
}

read_request-read :
    read_requests true
      (λ n. exchange read_msg)
      (λ n. n)
      some_tm
      (λ n. [])
      (read_request ∷ [])
      []
      (start no_flags)
    ≡ returned (pos 1, after_read)
unfolding read_requests read_one save_response save_single find_index
read_request-read = rw read_request-answered refl

read_requests-Reads_example :
    Reads true
      (λ n. exchange read_msg)
      0
      no_flags
      some_memory
      (read_request ∷ [])
      (pos 1)
      1
      no_flags
      read_memory
read_requests-Reads_example =
    read_requests-Reads true (λ n. exchange read_msg) (λ n. n) some_tm (λ n. []) (read_request ∷ [])
      [] (start no_flags) (pos 1) after_read read_request-read

-- a client without a charge controller
abbrev pub no_exchange : ℕ → Exchange
no_exchange n = record { written = []; events = []; connects = [] }

disconnected-IsSilent :
    (req : List ℕ) (n : ℕ) (flags : Flags) → IsSilent false req (no_exchange n) flags
unfolding modbus_send_request
disconnected-IsSilent req n flags = record {
  given = record { rc = pos 0; wire = []; stored = []; flags = flags };
  returns = refl;
  no_data = refl;
  flags_stay = refl;
}

poll-silent_example :
    (s' : Tracer) × (poll false no_exchange (λ n. n) some_tm (λ n. []) (start all_needed)
      ≡ returned s')
    × (s'.mem ≡ some_memory)
    × (s'.flags ≡ reset_tracer_statistic (reset_tracer_realtime all_needed))
    × (s'.asked ≡ 32)
poll-silent_example =
    poll-silent false no_exchange (λ n. n) some_tm (λ n. []) disconnected-IsSilent
      (start all_needed)

abbrev world : World
world = record {
  tracer = start all_needed;
  mttp =
      init_buffer e_put
        (record { buffer = []; closed = false; inited = false; decoded_commands = [] });
  client = none;
}

abbrev after_round : World
after_round = record world {
  tracer = record (start all_needed) {
    flags = record all_needed { need_tracer_statistic = false };
    asked = 32;
    ticks = 3;
    last_tracer_realtime_update = 0;
    last_tracer_statistic_update = 1;
  };
}

round-returned :
    main_round false no_exchange (λ n. n) some_tm (λ n. []) [] world ≡ returned after_round
unfolding main_round poll poll_realtime poll_statistic retry read_requests read_one
    modbus_send_request set_timeout
round-returned = refl

main_round-IsDue_example :
    (IsValid some_memory → IsValid some_memory) × (32 ≤ 0 + 56) × IsDue 2 after_round.tracer
main_round-IsDue_example =
    main_round-IsDue false no_exchange (λ n. n) some_tm (λ n. []) [] world after_round
      round-returned
