-- ===== src/Display/PassedOn.antt =====
-- Display: a request that the display's thread passes on to the charge controller of its own
-- program.
use epsolar_tracer_client.Base.{
  ℕ, zero, suc, ◌+◌, ◌-◌, ◌≤◌, ◌≡◌, refl, sym, ap, ◌∙◌, ℤ, pos, negsuc, Bool, true, false, List, [],
  ◌∷◌, ◌++◌, ltb, ◌==◌, length, append_assoc, length-take, take, drop, get_or, All, IsByte,
  int16_bytes, get_int16, int16_bytes-get_int16, Option, none, some, arith,
}
use epsolar_tracer_client.Memory.State.{Memory}
use epsolar_tracer_client.Memory.Response.{generate_response}
use epsolar_tracer_client.Modbus.Crc.{crc16}
use epsolar_tracer_client.Modbus.Receive.{Event, timeout, ready}
use epsolar_tracer_client.Modbus.Receive.Accepted.{IsFrame}
use epsolar_tracer_client.Modbus.Receive.Silence.{
  arrivals, bytes_of, IsQuick, receive_request-frame,
}
use epsolar_tracer_client.Modbus.Send.{max_adu_length, frame}
use epsolar_tracer_client.Modbus.Send.Wire.{counted, sum, IsProgress, send_confirmation-whole}
use epsolar_tracer_client.Tracer.Outcome.{returned}
use epsolar_tracer_client.Tracer.Flags.{Flags}
use epsolar_tracer_client.Tracer.Controller.{Exchange, Answer, slave, modbus_send_request}
use epsolar_tracer_client.Tracer.Controller.Triggers.{
  answer-IsFrame, modbus_send_request-HasTriggered,
}
use epsolar_tracer_client.Display.{
  Turn, Served, display_slave, confirm_reply, pass_on, display_body,
}

take-front : (xs ys : List ℕ) → take (length xs) (xs ++ ys) ≡ xs
take-front [] ys = refl
take-front (x ∷ xs) ys = ap (λ l. x ∷ l) (take-front xs ys)

-- the last two bytes
split-last :
    (l : List ℕ) (k : ℕ) → length l ≡ k + 2 → l ≡ take k l ++ get_or l k 0 ∷ get_or l (suc k) 0 ∷ []
split-last [] k h = absurd (omega arith)
split-last (a ∷ []) k h = absurd (omega arith)
split-last (a ∷ b ∷ []) zero h = refl
split-last (a ∷ b ∷ c ∷ l) zero h = absurd (omega arith)
split-last (a ∷ b ∷ l) (suc k) h = ap (λ r. a ∷ r) (split-last (b ∷ l) k (omega arith))

get_or-IsByte : (l : List ℕ) (n : ℕ) → All IsByte l → IsByte (get_or l n 0)
get_or-IsByte [] n h = omega arith
get_or-IsByte (b ∷ l) zero h = h.0
get_or-IsByte (b ∷ l) (suc n) h = get_or-IsByte l n h.1

-- a frame without its checksum, framed again
frame-take :
    (s : ℕ) (adu : List ℕ)
    → IsFrame s adu
    → All IsByte adu
    → frame (take (length adu - 2) adu) ≡ adu
frame-take s adu f bytes =
    let k = length adu - 2 in
    let last : length adu - 1 ≡ suc k = omega (arith, f.long) in
    let checked : get_int16 (get_or adu k 0) (get_or adu (suc k) 0) ≡ crc16 (take k adu) =
      ap (λ n. get_int16 (get_or adu k 0) (get_or adu n 0)) (sym last) ∙ f.checked in
    ap (λ c. take k adu ++ int16_bytes c) (sym checked)
    ∙ ap (λ l. take k adu ++ l)
        (int16_bytes-get_int16 (get_or adu k 0) (get_or adu (suc k) 0) (get_or-IsByte adu k bytes)
          (get_or-IsByte adu (suc k) bytes))
    ∙ sym (split-last adu k (omega (arith, f.long)))

-- A frame of the controller, of which the display's thread cuts the checksum off, goes to the
-- display as it is.
confirm_reply-frame :
    (n : ℕ) (reply counts : List ℕ) (results : List ℤ) (t : Turn) (r : Served)
    → (length reply ≡ suc n) × IsFrame slave reply
    → All IsByte reply
    → t.written ≡ counted counts ++ results
    → IsProgress counts
    → sum counts ≡ suc n
    → confirm_reply (pos (suc n)) reply t r ≡ returned (record r { display_wire = reply })
confirm_reply-frame n reply counts results t r (len, f) bytes written progress whole =
    let more : ltb 2 (suc n) ≡ true = ground (arith, f.long) in
    let cut : suc n - 2 ≡ length reply - 2 = omega arith in
    let conf = take (length reply - 2) reply in
    let short : length conf + 2 ≡ suc n =
      omega (arith, length-take (length reply - 2) reply, f.long) in
    let sent =
      send_confirmation-whole conf counts results (omega (arith, f.short)) progress (omega arith) in
    rw (more, cut, written, sent, frame-take slave reply f bytes) refl

-- A request that the memory cannot answer reaches the charge controller, and its answer the
-- display, both unchanged: where a request for the slave 1 comes between two silences,
-- `GenerateResponse` returns -2 for it, and `modbus_send_request` of the request without its
-- checksum receives a frame, the display's thread writes exactly this frame, whatever `write`
-- takes at a time, and the flags are those of the call. Nothing goes to another program.
pub display_body-passed_on :
    (connected : Bool) (stale t n : ℕ) (msg counts query out : List ℕ) (noise xs : List (ℕ × ℕ))
    (events : List Event) (results : List ℤ) (connects : List Bool) (x : Exchange)
    (other : Option (List ℕ → List ℕ)) (mem : Memory) (flags : Flags) (a : Answer)
    → 1 ≤ length msg
    → length msg ≤ 252
    → All IsByte msg
    → IsQuick xs
    → bytes_of xs ≡ msg ++ int16_bytes (crc16 (display_slave ∷ msg))
    → let query' =
        frame (display_slave ∷ msg) ++ drop (length (frame (display_slave ∷ msg))) query in
      generate_response query' max_adu_length mem ≡ some (negsuc 1, out)
      → modbus_send_request connected (display_slave ∷ msg) x flags ≡ returned a
      → a.rc ≡ pos (suc n)
      → All IsByte a.stored
      → IsProgress counts
      → sum counts ≡ suc n
      → display_body true connected stale
          (record {
            events =
                arrivals noise
                ++ timeout ∷ ready t (some display_slave) ∷ (arrivals xs ++ timeout ∷ events);
            written = counted counts ++ results;
            connects = connects;
            exchange = x;
            other = other;
          })
          query
          mem
          flags
        ≡ returned (record {
          display_wire = a.stored;
          tracer_wire = a.wire;
          forwarded = none;
          flags = a.flags;
          query = frame (display_slave ∷ msg) ++ drop (length (frame (display_slave ∷ msg))) query;
        })
unfolding display_body pass_on
display_body-passed_on connected stale t n msg counts query out noise xs events results connects x
      other mem flags a h long bytes quick e unknown asked rc stored progress whole =
    let some_bytes : (length msg + 3 == 0) ≡ false = ground arith in
    let two_more : ltb 2 (length msg + 3) ≡ true = ground arith in
    let without : length msg + 3 - 2 ≡ length (display_slave ∷ msg) = omega arith in
    let crc = int16_bytes (crc16 (display_slave ∷ msg)) in
    let behind = drop (length (frame (display_slave ∷ msg))) query in
    let front : take (length msg) ((msg ++ crc) ++ behind) ≡ msg =
      ap (λ l. take (length msg) l) (append_assoc msg crc behind)
      ∙ take-front msg (crc ++ behind) in
    let turn : Turn = record {
      events =
          arrivals noise
          ++ timeout ∷ ready t (some display_slave) ∷ (arrivals xs ++ timeout ∷ events);
      written = counted counts ++ results;
      connects = connects;
      exchange = x;
      other = other;
    } in
    let framed =
      answer-IsFrame n flags a
        (modbus_send_request-HasTriggered connected (display_slave ∷ msg) x flags a asked) rc in
    rw
      (
        receive_request-frame display_slave t msg noise xs events (omega arith) h long bytes quick
            e,
        some_bytes,
        unknown,
        two_more,
        without,
        front,
        asked,
        rc,
      )
      (confirm_reply-frame n a.stored counts results turn _ framed stored refl progress whole)
