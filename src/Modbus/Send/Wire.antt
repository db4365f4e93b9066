-- ===== src/Modbus/Send/Wire.antt =====
-- Modbus/Send: the bytes on the line for every way in which `write` may divide them.
use epsolar_tracer_client.Base.{
  ℕ, zero, suc, ◌+◌, ◌≤◌, ◌<◌, ◌≡◌, refl, sym, ap, ◌∙◌, ℤ, pos, negsuc, failure, true, false, List,
  [], ◌∷◌, ◌++◌, All, IsByte, length, take, drop, append_assoc, append-nil, length-append,
  take-length, ltb, int16_bytes, Option, none, some, arith,
}
use epsolar_tracer_client.Modbus.Crc.{crc16}
use epsolar_tracer_client.Modbus.Receive.{Event, timeout, ready, idle, receive}
use epsolar_tracer_client.Modbus.Receive.Silence.{arrivals, bytes_of, IsQuick, receive-frame}
use epsolar_tracer_client.Modbus.Send.{
  await, frame, Sent, wrote, write_loop, send_request, send_confirmation,
}

-- `write` takes each time one of these numbers of bytes
abbrev pub counted : List ℕ → List ℤ
counted [] = []
counted (c ∷ counts) = pos c ∷ counted counts

abbrev pub sum : List ℕ → ℕ
sum [] = 0
sum (c ∷ counts) = c + sum counts

-- each call takes a byte at least
abbrev pub IsProgress : List ℕ → Type 0
IsProgress counts = All (λ c. 1 ≤ c) counts

pub take_nil : (n : ℕ) → take {A = ℕ} n [] ≡ []
take_nil zero = refl
take_nil (suc n) = refl

wrote_nil : (s : Option Sent) → wrote [] s ≡ s
wrote_nil none = refl
wrote_nil (some s) = refl

wrote_twice : (a b : List ℕ) (s : Option Sent) → wrote a (wrote b s) ≡ wrote (a ++ b) s
wrote_twice a b none = refl
wrote_twice a b (some s) =
    ap (λ l. some (record { ret = s.ret; wire = l })) (sym (append_assoc a b s.wire))

pub drop_nil : (n : ℕ) → drop {A = ℕ} n [] ≡ []
drop_nil zero = refl
drop_nil (suc n) = refl

pub take-drop_more :
    (n m k j s : ℕ) (l : List ℕ)
    → j ≡ k + n
    → s ≡ n + m
    → take n (drop k l) ++ take m (drop j l) ≡ take s (drop k l)
take-drop_more n m k j s [] e e' =
    rw (drop_nil k, drop_nil j, take_nil n, take_nil m, take_nil s) refl
take-drop_more n m (suc k) zero s (x ∷ l) e e' = absurd (omega arith)
take-drop_more n m (suc k) (suc j) s (x ∷ l) e e' = take-drop_more n m k j s l (omega arith) e'
take-drop_more (suc n) m zero zero s (x ∷ l) e e' = absurd (omega arith)
take-drop_more (suc n) m zero (suc j) zero (x ∷ l) e e' = absurd (omega arith)
take-drop_more (suc n) m zero (suc j) (suc s) (x ∷ l) e e' =
    ap (λ z. x ∷ z) (take-drop_more n m zero j s l (omega arith) (omega arith))
take-drop_more zero m zero j s l e e' =
    let first : j ≡ 0 = omega arith in let same : s ≡ m = omega arith in rw (first, same) refl

-- The loop after calls that leave bytes to be sent: it is where they have brought it.
write_loop-counted :
    (buffer : List ℕ) (send : ℕ) (counts : List ℕ) (results : List ℤ)
    → IsProgress counts
    → send + sum counts ≤ length buffer
    → write_loop buffer send (counted counts ++ results)
      ≡ wrote (take (sum counts) (drop send buffer)) (write_loop buffer (send + sum counts) results)
unfolding write_loop
write_loop-counted buffer send [] results progress fits =
    let same : send + 0 ≡ send = omega arith in
    rw same (sym (wrote_nil (write_loop buffer send results)))
write_loop-counted buffer send (zero ∷ counts) results progress fits =
    absurd (omega (arith, progress.0))
write_loop-counted buffer send (suc c ∷ counts) results progress fits =
    let more : ltb send (length buffer) ≡ true = ground arith in
    let there : send + suc c + sum counts ≡ send + (suc c + sum counts) = omega arith in
    rw (more, write_loop-counted buffer (send + suc c) counts results progress.1 (omega arith))
      (wrote_twice (take (suc c) (drop send buffer))
          (take (sum counts) (drop (send + suc c) buffer))
          (write_loop buffer (send + suc c + sum counts) results)
        ∙ ap (λ l. wrote l (write_loop buffer (send + suc c + sum counts) results))
            (take-drop_more (suc c) (sum counts) send (send + suc c) (suc c + sum counts) buffer
              refl refl)
        ∙ ap
            (λ k.
              wrote (take (suc c + sum counts) (drop send buffer)) (write_loop buffer k results))
            there)

write_loop-end :
    (buffer : List ℕ) (results : List ℤ)
    → write_loop buffer (length buffer) results
      ≡ some (record { ret = pos (length buffer); wire = [] })
unfolding write_loop
write_loop-end buffer [] = ground arith
write_loop-end buffer (negsuc rc ∷ results) = ground arith
write_loop-end buffer (pos zero ∷ results) = ground arith
write_loop-end buffer (pos (suc rc) ∷ results) =
    let over : ltb (length buffer) (length buffer) ≡ false = ground arith in rw over

there : (k : ℕ) → 0 + k ≡ k
there k = omega arith

-- a division of the whole buffer
write_loop-whole :
    (buffer : List ℕ) (counts : List ℕ) (results : List ℤ)
    → IsProgress counts
    → sum counts ≡ length buffer
    → write_loop buffer 0 (counted counts ++ results)
      ≡ some (record { ret = pos (length buffer); wire = buffer })
write_loop-whole buffer counts results progress whole =
    write_loop-counted buffer 0 counts results progress (omega arith)
    ∙ ap (λ k. wrote (take k buffer) (write_loop buffer (0 + k) results)) whole
    ∙ ap (λ k. wrote (take (length buffer) buffer) (write_loop buffer k results))
        (there (length buffer))
    ∙ ap (wrote (take (length buffer) buffer)) (write_loop-end buffer results)
    ∙ ap (λ l. some (record { ret = pos (length buffer); wire = l }))
        (append-nil (take (length buffer) buffer) ∙ take-length buffer)

write_loop-error :
    (buffer : List ℕ) (send n : ℕ) (results : List ℤ)
    → send < length buffer
    → write_loop buffer send (negsuc n ∷ results) ≡ some (record { ret = failure; wire = [] })
unfolding write_loop
write_loop-error buffer send n results h = ground arith

answered :
    (slave n : ℕ) (wire : List ℕ) (events : List Event) (r : ℤ × List ℕ)
    → receive slave idle events ≡ some r
    → await slave events (some (record { ret = pos n; wire = wire })) ≡ some (r.0, (wire, r.1))
answered slave n wire events r h =
    ap
      (λ o. elim o as (λ x. Option (ℤ × (List ℕ × List ℕ))) [
        | none ↦ none
        | some r' ↦ some (r'.0, (wire, r'.1))
      ])
      h

-- `SendConfirmation` of at most 254 bytes, however `write` divides the frame, returns the number
-- of the bytes and their checksum, and has written exactly these, in order.
pub send_confirmation-whole :
    (conf counts : List ℕ) (results : List ℤ)
    → length conf ≤ 254
    → IsProgress counts
    → sum counts ≡ length conf + 2
    → send_confirmation conf (counted counts ++ results)
      ≡ some (record { ret = pos (length conf + 2); wire = conf ++ int16_bytes (crc16 conf) })
unfolding send_confirmation
send_confirmation-whole conf counts results short progress whole =
    let n : length (frame conf) ≡ length conf + 2 = length-append conf (int16_bytes (crc16 conf)) in
    let fits : ltb 254 (length conf) ≡ false = ground arith in
    rw (fits, write_loop-whole (frame conf) counts results progress (omega arith), n)

-- `SendRequest` of 1 to 254 bytes, however `write` divides the frame, writes the request with its
-- checksum, and returns with its length the slave's frame that comes before the waiting time is
-- over and whose bytes follow within the inter-character timeout up to a silence. That frame has
-- the slave's address, 1 to 252 further bytes and the checksum.
pub send_request-answered :
    (slave t : ℕ) (req counts msg : List ℕ) (results : List ℤ) (xs : List (ℕ × ℕ))
    (events : List Event)
    → 1 ≤ length req
    → length req ≤ 254
    → IsProgress counts
    → sum counts ≡ length req + 2
    → slave < 256
    → 1 ≤ length msg
    → length msg ≤ 252
    → All IsByte msg
    → IsQuick xs
    → bytes_of xs ≡ msg ++ int16_bytes (crc16 (slave ∷ msg))
    → send_request slave req
        (counted counts ++ results)
        (ready t (some slave) ∷ (arrivals xs ++ timeout ∷ events))
      ≡ some (
        pos (length msg + 3),
        (req ++ int16_bytes (crc16 req), (slave ∷ msg) ++ int16_bytes (crc16 (slave ∷ msg))),
      )
unfolding send_request
send_request-answered slave t req counts msg results xs events some_bytes short progress whole h
      long msg_short bytes quick e =
    let n : length (frame req) ≡ length req + 2 = length-append req (int16_bytes (crc16 req)) in
    let fits : ltb 254 (length req) ≡ false = ground arith in
    let one : ltb (length req) 1 ≡ false = ground arith in
    rw (fits, one, write_loop-whole (frame req) counts results progress (omega arith))
      (answered slave (length (frame req)) (frame req)
        (ready t (some slave) ∷ (arrivals xs ++ timeout ∷ events))
        (pos (length msg + 3), (slave ∷ msg) ++ int16_bytes (crc16 (slave ∷ msg)))
        (receive-frame slave t msg xs events h long msg_short bytes quick e))

-- Where a call of `write` returns a negative number before the frame is complete, `SendRequest`
-- of 1 to 254 bytes returns -1 and does not wait for a response, and the bytes written before are
-- the first bytes of the frame, as many as the calls have taken.
pub send_request-write_error :
    (slave n : ℕ) (req counts : List ℕ) (results : List ℤ) (events : List Event)
    → 1 ≤ length req
    → length req ≤ 254
    → IsProgress counts
    → sum counts < length req + 2
    → send_request slave req (counted counts ++ negsuc n ∷ results) events
      ≡ some (failure, (take (sum counts) (req ++ int16_bytes (crc16 req)), []))
unfolding send_request
send_request-write_error slave n req counts results events some_bytes short progress part =
    let len : length (frame req) ≡ length req + 2 = length-append req (int16_bytes (crc16 req)) in
    let fits : ltb 254 (length req) ≡ false = ground arith in
    let one : ltb (length req) 1 ≡ false = ground arith in
    rw (
      fits,
      one,
      write_loop-counted (frame req) 0 counts (negsuc n ∷ results) progress (omega arith),
      write_loop-error (frame req) (0 + sum counts) n results (omega arith),
      append-nil (take (sum counts) (frame req)),
    )
