-- ===== src/Modbus/Receive/Silence.antt =====
-- Modbus/Receive: how the state machine takes the bytes that come between two silences.
use epsolar_tracer_client.Base.{
  ℕ, zero, suc, ◌+◌, ◌-◌, ◌≤◌, ◌<◌, ◌≡◌, refl, sym, ap, ◌∙◌, pos, true, false, List, [], ◌∷◌, ◌++◌,
  append_assoc, append-nil, All, IsByte, length, take, length-append, get_or, ltb, ◌==◌,
  int16_bytes, high_byte, low_byte, get_int16, get_int16-bytes, some, arith,
}
use epsolar_tracer_client.Modbus.Crc.{crc16}
use epsolar_tracer_client.Modbus.Crc.Reference.{crc16-lt}
use epsolar_tracer_client.Modbus.Receive.{
  State, Event, initial, processing, idle, timeout, ready, round, accept, receive_loop, receive,
  receive_request, read_buffer_size, t1_5,
}

-- bytes that come in this order, each after a time
abbrev pub arrivals : List (ℕ × ℕ) → List Event
arrivals [] = []
arrivals ((elapsed, b) ∷ xs) = ready elapsed (some b) ∷ arrivals xs

abbrev pub bytes_of : List (ℕ × ℕ) → List ℕ
bytes_of [] = []
bytes_of ((elapsed, b) ∷ xs) = b ∷ bytes_of xs

-- none comes later than the inter-character timeout
abbrev pub IsQuick : List (ℕ × ℕ) → Type 0
IsQuick [] = Unit
IsQuick ((elapsed, b) ∷ xs) = (elapsed ≤ t1_5) × IsQuick xs

-- the first `xs` are taken one after another
processing-arrivals :
    (slave : ℕ) (buffer : List ℕ) (xs : List (ℕ × ℕ)) (events : List Event)
    → IsQuick xs
    → length buffer + length xs ≤ read_buffer_size
    → receive_loop slave processing buffer (arrivals xs ++ events)
      ≡ receive_loop slave processing (buffer ++ bytes_of xs) events
unfolding receive_loop round
processing-arrivals slave buffer [] events quick room =
    ap (λ l. receive_loop slave processing l events) (sym (append-nil buffer))
processing-arrivals slave buffer ((t, b) ∷ xs) events quick room =
    let open_ : (length buffer == read_buffer_size) ≡ false = ground arith in
    let soon : ltb t1_5 t ≡ false = ground (arith, quick.0) in
    rw (open_, soon)
      (processing-arrivals slave (buffer ++ b ∷ []) xs events quick.1
          (omega (arith, length-append buffer (b ∷ [])))
        ∙ ap (λ l. receive_loop slave processing l events)
            (append_assoc buffer (b ∷ []) (bytes_of xs)))

-- bytes before the first silence are thrown away
noise-discarded :
    (slave : ℕ) (noise : List (ℕ × ℕ)) (events : List Event)
    → receive_loop slave initial [] (arrivals noise ++ timeout ∷ events)
      ≡ receive_loop slave idle [] events
unfolding receive_loop round
noise-discarded slave [] events = refl
noise-discarded slave ((t, b) ∷ noise) events = noise-discarded slave noise events

get_or-behind : (pre post : List ℕ) (b i : ℕ) → i ≡ length pre → get_or (pre ++ b ∷ post) i 0 ≡ b
get_or-behind [] post b zero e = refl
get_or-behind [] post b (suc i) e = absurd (omega arith)
get_or-behind (p ∷ pre) post b zero e = absurd (omega arith)
get_or-behind (p ∷ pre) post b (suc i) e = get_or-behind pre post b i (omega arith)

take-front : (pre post : List ℕ) (n : ℕ) → n ≡ length pre → take n (pre ++ post) ≡ pre
take-front [] post zero e = refl
take-front [] post (suc n) e = absurd (omega arith)
take-front (p ∷ pre) post zero e = absurd (omega arith)
take-front (p ∷ pre) post (suc n) e = ap (λ l. p ∷ l) (take-front pre post n (omega arith))

length-bytes_of : (xs : List (ℕ × ℕ)) → length (bytes_of xs) ≡ length xs
length-bytes_of [] = refl
length-bytes_of (x ∷ xs) = ap suc (length-bytes_of xs)

first-byte :
    (slave t b : ℕ) (events : List Event)
    → receive_loop slave idle [] (ready t (some b) ∷ events)
      ≡ receive_loop slave processing (b ∷ []) events
unfolding receive_loop round
first-byte slave t b events = refl

silence_complete :
    (slave : ℕ) (buffer : List ℕ) (events : List Event)
    → length buffer < read_buffer_size
    → receive_loop slave processing buffer (timeout ∷ events) ≡ some (accept slave true buffer)
unfolding receive_loop round
silence_complete slave buffer events h = ground arith

-- A full buffer is given up.
full :
    (slave : ℕ) (state : State) (buffer : List ℕ) (events : List Event)
    → length buffer ≡ read_buffer_size
    → receive_loop slave state buffer events ≡ some (pos 0, [])
unfolding receive_loop accept
full slave state buffer [] h = ground arith
full slave state buffer (e ∷ events) h =
    let whole : (length buffer == read_buffer_size) ≡ true = ground arith in rw whole

accept-checked :
    (slave : ℕ) (buffer : List ℕ)
    → 4 ≤ length buffer
    → get_or buffer 0 0 ≡ slave
    → get_int16 (get_or buffer (length buffer - 2) 0) (get_or buffer (length buffer - 2 + 1) 0)
      ≡ crc16 (take (length buffer - 2) buffer)
    → accept slave true buffer ≡ (pos (length buffer), buffer)
unfolding accept
accept-checked slave buffer h first checked = ground arith

-- a whole frame passes the test at the end of `Receive`
accept-frame :
    (slave : ℕ) (msg : List ℕ)
    → slave < 256
    → 1 ≤ length msg
    → All IsByte msg
    → accept slave true ((slave ∷ msg) ++ int16_bytes (crc16 (slave ∷ msg)))
      ≡ (pos (length msg + 3), (slave ∷ msg) ++ int16_bytes (crc16 (slave ∷ msg)))
unfolding accept
accept-frame slave msg h long bytes =
    let crc = crc16 (slave ∷ msg) in
    let n : length (msg ++ int16_bytes crc) ≡ length msg + 2 =
      length-append msg (int16_bytes crc) in
    let front : take (suc (length (msg ++ int16_bytes crc)) - 2) (slave ∷ (msg ++ int16_bytes crc))
        ≡ slave ∷ msg =
      take-front (slave ∷ msg) (int16_bytes crc) (suc (length (msg ++ int16_bytes crc)) - 2)
        (omega arith) in
    let hi : get_or (slave ∷ (msg ++ int16_bytes crc)) (suc (length (msg ++ int16_bytes crc)) - 2) 0
        ≡ high_byte crc =
      get_or-behind (slave ∷ msg) (low_byte crc ∷ []) (high_byte crc)
        (suc (length (msg ++ int16_bytes crc)) - 2) (omega arith) in
    let lo : get_or (slave ∷ (msg ++ int16_bytes crc))
          (suc (length (msg ++ int16_bytes crc)) - 2 + 1) 0
        ≡ low_byte crc =
      ap (λ l. get_or (slave ∷ l) (suc (length (msg ++ int16_bytes crc)) - 2 + 1) 0)
        (sym (append_assoc msg (high_byte crc ∷ []) (low_byte crc ∷ [])))
      ∙ get_or-behind (slave ∷ (msg ++ high_byte crc ∷ [])) [] (low_byte crc)
          (suc (length (msg ++ int16_bytes crc)) - 2 + 1)
          (omega (arith, length-append msg (high_byte crc ∷ []))) in
    let whole : get_int16 (high_byte crc) (low_byte crc) ≡ crc =
      get_int16-bytes crc (crc16-lt (slave ∷ msg) (h, bytes)) in
    let total : suc (length (msg ++ int16_bytes crc)) ≡ length msg + 3 = omega arith in
    accept-checked slave (slave ∷ (msg ++ int16_bytes crc)) (omega arith) refl (
      ap
        (λ a. get_int16 a (
          get_or (slave ∷ (msg ++ int16_bytes crc)) (suc (length (msg ++ int16_bytes crc)) - 2 + 1)
            0))
        hi
      ∙ ap (get_int16 (high_byte crc)) lo
      ∙ whole
      ∙ ap crc16 (sym front))
    ∙ ap (λ k. (pos k, slave ∷ (msg ++ int16_bytes crc))) total

-- In the idle state, a frame is taken from its first byte on.
pub receive-frame :
    (slave t : ℕ) (msg : List ℕ) (xs : List (ℕ × ℕ)) (events : List Event)
    → slave < 256
    → 1 ≤ length msg
    → length msg ≤ 252
    → All IsByte msg
    → IsQuick xs
    → bytes_of xs ≡ msg ++ int16_bytes (crc16 (slave ∷ msg))
    → receive slave idle (ready t (some slave) ∷ (arrivals xs ++ timeout ∷ events))
      ≡ some (pos (length msg + 3), (slave ∷ msg) ++ int16_bytes (crc16 (slave ∷ msg)))
receive-frame slave t msg xs events h long short bytes quick e =
    let crc = crc16 (slave ∷ msg) in
    let count : length xs ≡ length msg + 2 =
      sym (length-bytes_of xs) ∙ ap length e ∙ length-append msg (int16_bytes crc) in
    first-byte slave t slave (arrivals xs ++ timeout ∷ events)
    ∙ processing-arrivals slave (slave ∷ []) xs (timeout ∷ events) quick (omega arith)
    ∙ ap (λ l. receive_loop slave processing (slave ∷ l) (timeout ∷ events)) e
    ∙ silence_complete slave (slave ∷ (msg ++ int16_bytes crc)) events
        (omega (arith, length-append msg (int16_bytes crc)))
    ∙ ap some (accept-frame slave msg h long bytes)

-- The bytes of a frame for the slave that follow a silence, each within the inter-character
-- timeout after the one before, and are followed by a silence again are what `ReceiveRequest`
-- returns, with their number, whatever bytes came before the first silence and whatever comes
-- after the second. The frame has the slave's address, which is a byte, at least 1 and at most
-- 252 further bytes, and the checksum.
pub receive_request-frame :
    (slave t : ℕ) (msg : List ℕ) (noise xs : List (ℕ × ℕ)) (events : List Event)
    → slave < 256
    → 1 ≤ length msg
    → length msg ≤ 252
    → All IsByte msg
    → IsQuick xs
    → bytes_of xs ≡ msg ++ int16_bytes (crc16 (slave ∷ msg))
    → receive_request slave
        (arrivals noise ++ timeout ∷ ready t (some slave) ∷ (arrivals xs ++ timeout ∷ events))
      ≡ some (pos (length msg + 3), (slave ∷ msg) ++ int16_bytes (crc16 (slave ∷ msg)))
unfolding receive_request
receive_request-frame slave t msg noise xs events h long short bytes quick e =
    noise-discarded slave noise (ready t (some slave) ∷ (arrivals xs ++ timeout ∷ events))
    ∙ receive-frame slave t msg xs events h long short bytes quick e

-- After a silence, 256 bytes that come within the inter-character timeout fill the buffer, and
-- `ReceiveRequest` returns 0 for them, whatever they are and whatever follows, although they are
-- no more than MODBUS_RTU_MAX_ADU_LENGTH.
pub receive_request-longest :
    (slave t b : ℕ) (noise xs : List (ℕ × ℕ)) (events : List Event)
    → length xs ≡ 255
    → IsQuick xs
    → receive_request slave (arrivals noise ++ timeout ∷ ready t (some b) ∷ (arrivals xs ++ events))
      ≡ some (pos 0, [])
unfolding receive_request
receive_request-longest slave t b noise xs events count quick =
    noise-discarded slave noise (ready t (some b) ∷ (arrivals xs ++ events))
    ∙ first-byte slave t b (arrivals xs ++ events)
    ∙ processing-arrivals slave (b ∷ []) xs events quick (omega arith)
    ∙ full slave processing (b ∷ bytes_of xs) events (omega (arith, length-bytes_of xs))
