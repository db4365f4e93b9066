-- ===== src/Tracer/Poll.antt =====
-- tracerclient.c: the requests to the charge controller, and the part of the main loop that polls
-- it.
pub mod Reads
pub mod Asked
pub mod Silent
use epsolar_tracer_client.Base.{
  ℕ, zero, suc, ◌+◌, ◌/◌, ◌%◌, ◌^◌, ℤ, pos, negsuc, failure, Bool, true, false, List, [], ◌∷◌, ◌++◌,
  length, drop, leb, if◌then◌else◌, u16, int16_bytes, Option, none, some,
}
use epsolar_tracer_client.Common.{e_reg}
use epsolar_tracer_client.Memory.State.{Memory}
use epsolar_tracer_client.Memory.SaveData.{save_data}
use epsolar_tracer_client.Memory.SaveResponse.{save_response}
use epsolar_tracer_client.Tracer.Outcome.{Outcome, stuck, returned, ◌>>=◌, accessed}
use epsolar_tracer_client.Tracer.Flags.{Flags, reset_tracer_statistic, reset_tracer_realtime}
use epsolar_tracer_client.Tracer.Controller.{Exchange, Answer, modbus_send_request}

-- a request of the list at the top of tracerclient.c, and the number of header bytes of its
-- response that the call of `Save` states
pub record Request : Type 0 where
  pub req : List ℕ
  pub headerlenght : ℕ

abbrev get_device_info1 : Request
get_device_info1 = record { req = 0x01 ∷ 0x2B ∷ 0x0E ∷ 0x01 ∷ 0x00 ∷ []; headerlenght = 0 }

abbrev get_device_info2 : Request
get_device_info2 = record { req = 0x01 ∷ 0x2B ∷ 0x0E ∷ 0x02 ∷ 0x00 ∷ []; headerlenght = 0 }

-- six bytes: the function code, the start address and the number
abbrev six : ℕ → ℕ → ℕ → ℕ → Request
six function adress number headerlenght = record {
  req = 0x01 ∷ function ∷ (int16_bytes adress ++ int16_bytes number);
  headerlenght = headerlenght;
}

-- `GetDeviceInfo1` in `ReadTracerInfo1`, and so on for each of the functions below
abbrev pub tracer_info1 : List Request
tracer_info1 = get_device_info1 ∷ []

abbrev pub tracer_info2 : List Request
tracer_info2 = get_device_info2 ∷ []

abbrev pub rated_data : List Request
rated_data = six 0x43 0x3000 0x0F 5 ∷ []

abbrev pub real_time_data : List Request
real_time_data = six 0x43 0x3100 0x76 18 ∷ []

abbrev pub real_time_status : List Request
real_time_status = six 0x43 0x3200 0x04 4 ∷ []

abbrev pub statistic_data : List Request
statistic_data =
    six 0x43 0x3302 0x1B 7
    ∷ six 0x04 0x3300 0x01 3
    ∷ six 0x04 0x3301 0x01 3
    ∷ six 0x04 0x331D 0x01 3
    ∷ six 0x04 0x331E 0x01 3
    ∷ []

abbrev pub setting_data : List Request
setting_data = six 0x43 0x9000 0x76 18 ∷ six 0x43 0x9013 0x03 4 ∷ []

abbrev pub coil_status : List Request
coil_status =
    six 0x01 0x0000 0x01 3
    ∷ six 0x01 0x0001 0x01 3
    ∷ six 0x01 0x0002 0x01 3
    ∷ six 0x01 0x0003 0x01 3
    ∷ six 0x01 0x0005 0x01 3
    ∷ six 0x01 0x0006 0x01 3
    ∷ six 0x01 0x0013 0x01 3
    ∷ six 0x01 0x0014 0x01 3
    ∷ []

abbrev pub discrete_input : List Request
discrete_input = six 0x02 0x2000 0x01 3 ∷ six 0x02 0x200C 0x01 3 ∷ []

-- the fields of `struct tm` that `SaveTimestamp` reads
pub record Tm : Type 0 where
  pub tm_mday : ℕ
  pub tm_mon : ℕ
  pub tm_year : ℕ
  pub tm_hour : ℕ
  pub tm_min : ℕ
  pub tm_sec : ℕ

-- What the main loop works on. `asked` counts the calls of `modbus_send_request` and `ticks`
-- those of `time`; `wire` is all that was written on the line.
pub record Tracer : Type 0 where
  pub flags : Flags
  pub mem : Memory
  pub asked : ℕ
  pub wire : List ℕ
  pub ticks : ℕ
  pub last_tracer_statistic_update : ℕ
  pub last_tracer_realtime_update : ℕ
  pub last_server_statistic_update : ℕ
  pub last_server_realtime_update : ℕ

-- `payload` in `SaveTimestamp`, from the time and its fields
unfoldable pub timestamp_payload : ℕ → Tm → List ℕ
timestamp_payload timestamp now =
    let unix_timestamp = timestamp % 2 ^ 32 in
    int16_bytes (u16 now.tm_mday)
    ++ (int16_bytes (u16 (now.tm_mon + 1))
        ++ (int16_bytes (u16 (now.tm_year + 1900))
            ++ (int16_bytes (u16 now.tm_hour)
                ++ (int16_bytes (u16 now.tm_min)
                    ++ (int16_bytes (u16 now.tm_sec)
                        ++ (int16_bytes (unix_timestamp % 2 ^ 16)
                            ++ int16_bytes (unix_timestamp / 2 ^ 16)))))))

-- the test of the result of `Save`
abbrev pub is_saved : ℤ → Bool
is_saved (pos n) = true
is_saved (negsuc n) = false

-- The environment: `TracerConnected && ctx`, what the line does in each call of
-- `modbus_send_request`, what `time` returns in each of its calls, the library function
-- `localtime`, and what the uninitialised array `rsp` holds at its use.
module _ (connected : Bool) (line : ℕ → Exchange) (time : ℕ → ℕ) (localtime : ℕ → Tm)
    (stale : ℕ → List ℕ) where
  -- `SaveTimestamp`, which does not look at the result of `Save`
  unfoldable pub save_timestamp : Tracer → Outcome Tracer
  save_timestamp s =
      let timestamp = time s.ticks in
      accessed (save_data e_reg 0x3330 16 (timestamp_payload timestamp (localtime timestamp)) s.mem)
      >>= (λ r. returned (record s { mem = r.1; ticks = s.ticks + 1 }))

  -- what a `Read...` function does with the result of `modbus_send_request`; `rsp` is the array
  -- with the response in it. The first part of the result tells whether it goes on.
  abbrev pub save_answer : Request → List ℕ → ℤ → Tracer → Outcome (Bool × (List ℕ × Tracer))
  save_answer q rsp (negsuc n) s = returned (false, (rsp, s))
  save_answer q rsp (pos zero) s = returned (false, (rsp, s))
  save_answer q rsp (pos (suc n)) s =
      accessed (save_response rsp (suc n) q.headerlenght q.req s.mem)
      >>= (λ r. returned (is_saved r.0, (rsp, record s { mem = r.1 })))

  -- a request of a `Read...` function, and what becomes of its response
  unfoldable pub read_one : Request → List ℕ → Tracer → Outcome (Bool × (List ℕ × Tracer))
  read_one q rsp s = modbus_send_request connected q.req (line s.asked) s.flags >>= (λ a.
      save_answer q (a.stored ++ drop (length a.stored) rsp) a.rc
        (record s { flags = a.flags; asked = s.asked + 1; wire = s.wire ++ a.wire }))

  -- the body of a `Read...` function: one request after the other up to the first that fails
  unfoldable pub read_requests : List Request → List ℕ → Tracer → Outcome (ℤ × Tracer)
  read_requests [] rsp s = returned (pos 1, s)
  read_requests (q ∷ qs) rsp s =
      read_one q rsp s
      >>= (λ r. if r.0 then read_requests qs r.1.0 r.1.1 else returned (failure, r.1.1))

  -- `for (n = 0; n<4; n++)` around a `Read...` function, with `left` rounds to go
  unfoldable pub retry : ℕ → List Request → (Tracer → Outcome Tracer) → Tracer → Outcome Tracer
  retry zero qs after s = returned s
  retry (suc left) qs after s =
      read_requests qs (stale s.asked) s
      >>= (λ r. elim r.0 [ negsuc n ↦ retry left qs after r.1 | pos n ↦ after r.1 ])

  abbrev pub realtime_done : Tracer → Tracer
  realtime_done s = record s {
    flags = reset_tracer_realtime s.flags;
    last_tracer_realtime_update = time s.ticks;
    ticks = s.ticks + 1;
  }

  -- `if (NeedTracerRealtimeupdate)`
  unfoldable pub poll_realtime : Tracer → Outcome Tracer
  poll_realtime s =
      retry 4 real_time_data save_timestamp s
      >>= retry 4 real_time_status returned
      >>= retry 4 statistic_data returned
      >>= (λ s'. returned (realtime_done s'))

  abbrev pub statistic_done : Tracer → Tracer
  statistic_done s = record s {
    flags = reset_tracer_statistic s.flags;
    last_tracer_statistic_update = time s.ticks;
    ticks = s.ticks + 1;
  }

  -- `if (NeedTracerStatisticupdate)`
  unfoldable pub poll_statistic : Tracer → Outcome Tracer
  poll_statistic s =
      retry 4 tracer_info1 returned s
      >>= retry 4 tracer_info2 returned
      >>= retry 4 rated_data returned
      >>= retry 4 setting_data returned
      >>= retry 4 discrete_input returned
      >>= (λ s'. returned (statistic_done s'))

  -- The main loop up to `Send Data to Server`. The conditions are read at its top.
  unfoldable pub poll : Tracer → Outcome Tracer
  poll s =
      (if s.flags.need_tracer_realtime then poll_realtime s else returned s)
      >>= (λ s'. if s.flags.need_tracer_statistic then poll_statistic s' else returned s')
