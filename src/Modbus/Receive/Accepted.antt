-- ===== src/Modbus/Receive/Accepted.antt =====
-- Modbus/Receive: a positive result of `Receive`, and what a frame for the slave is.
use epsolar_tracer_client.Base.{
  ℕ, suc, ◌-◌, ◌≤◌, ◌<◌, ◌≡◌, refl, ap, ℤ, pos, Bool, true, false, List, [], ◌∷◌, length, take,
  length-append, get_or, ltb, ◌==◌, get_int16, Option, none, some, Bool-cases, some_inj, inl, inr,
  arith,
}
use epsolar_tracer_client.Modbus.Crc.{crc16}
use epsolar_tracer_client.Modbus.Receive.{
  State, Event, initial, waiting, processing, idle, select_error, timeout, ready, Round, go_on,
  done, complete, round, accept, receive_loop, receive, read_buffer_size, t1_5, read_byte,
}

-- A frame for the slave: the bytes of a whole ADU shorter than `read_buffer`, with the slave's
-- address first and the checksum of the others last.
pub record IsFrame (slave : ℕ) (adu : List ℕ) : Type 0 where
  pub long : 4 ≤ length adu
  pub short : length adu < read_buffer_size
  pub addressed : get_or adu 0 0 ≡ slave
  pub checked :
      get_int16 (get_or adu (length adu - 2) 0) (get_or adu (length adu - 1) 0)
      ≡ crc16 (take (length adu - 2) adu)

accept-IsFrame :
    (slave k : ℕ) (buffer out : List ℕ) (b : Bool)
    → length buffer < read_buffer_size
    → accept slave b buffer ≡ (pos (suc k), out)
    → (length out ≡ suc k) × IsFrame slave out
unfolding accept
accept-IsFrame slave k buffer out b short h = ground arith

read_byte-short :
    (s' : State) (byte : Option ℕ) (buffer buffer' : List ℕ)
    → length buffer < read_buffer_size
    → read_byte buffer byte ≡ go_on s' buffer'
    → length buffer' ≤ read_buffer_size
read_byte-short s' none buffer buffer' short h = ground arith
read_byte-short s' (some b) buffer buffer' short h =
    let e = length-append buffer (b ∷ []) in ground (arith, e)

round-short :
    (s s' : State) (e : Event) (buffer buffer' : List ℕ)
    → length buffer < read_buffer_size
    → round s buffer e ≡ go_on s' buffer'
    → length buffer' ≤ read_buffer_size
unfolding round
round-short initial s' select_error buffer buffer' short h = ground arith
round-short initial s' timeout buffer buffer' short h = ground arith
round-short initial s' (ready t (some b)) buffer buffer' short h = ground arith
round-short initial s' (ready t none) buffer buffer' short h = ground arith
round-short waiting s' e buffer buffer' short h = ground arith
round-short idle s' select_error buffer buffer' short h = ground arith
round-short idle s' timeout buffer buffer' short h = ground arith
round-short idle s' (ready t (some b)) buffer buffer' short h =
    let e = length-append buffer (b ∷ []) in ground (arith, e)
round-short idle s' (ready t none) buffer buffer' short h = ground arith
round-short processing s' select_error buffer buffer' short h = ground arith
round-short processing s' timeout buffer buffer' short h = ground arith
round-short processing s' (ready t byte) buffer buffer' short h = elim (Bool-cases (ltb t1_5 t)) [
  | inl e ↦ let h' : go_on initial [] ≡ go_on s' buffer' = rw e at h in ground (arith, h')
  | inr e ↦
      let h' : read_byte buffer byte ≡ go_on s' buffer' = rw e at h in
      read_byte-short s' byte buffer buffer' short h'
]

incomplete :
    (slave k : ℕ) (buffer out : List ℕ) → ¬ (accept slave false buffer ≡ (pos (suc k), out))
unfolding accept
incomplete slave k buffer out h = ground arith

-- No round ends with a number of bytes.
round-done :
    (s : State) (e : Event) (buffer : List ℕ) (k : ℕ) → ¬ (round s buffer e ≡ done (pos (suc k)))
unfolding round
round-done initial select_error buffer k h = ground arith
round-done initial timeout buffer k h = ground arith
round-done initial (ready t (some b)) buffer k h = ground arith
round-done initial (ready t none) buffer k h = ground arith
round-done waiting e buffer k h = ground arith
round-done idle select_error buffer k h = ground arith
round-done idle timeout buffer k h = ground arith
round-done idle (ready t (some b)) buffer k h = ground arith
round-done idle (ready t none) buffer k h = ground arith
round-done processing select_error buffer k h = ground arith
round-done processing timeout buffer k h = ground arith
round-done processing (ready t (some b)) buffer k h = ground arith
round-done processing (ready t none) buffer k h = ground arith

round-IsFrame :
    (slave k : ℕ) (buffer out : List ℕ) (events : List Event) (r : Round)
    → length buffer < read_buffer_size
    → ¬ (r ≡ done (pos (suc k)))
    → ((s' : State) (b' : List ℕ)
        → r ≡ go_on s' b'
        → receive_loop slave s' b' events ≡ some (pos (suc k), out)
        → (length out ≡ suc k) × IsFrame slave out)
    → elim r as (λ x. Option (ℤ × List ℕ)) [
      | go_on s' b' ↦ receive_loop slave s' b' events
      | done ret ↦ some (ret, [])
      | complete ↦ some (accept slave true buffer)
    ]
      ≡ some (pos (suc k), out)
    → (length out ≡ suc k) × IsFrame slave out
round-IsFrame slave k buffer out events (go_on s' b') short never further h = further s' b' refl h
round-IsFrame slave k buffer out events (done ret) short never further h =
    absurd (never (ap done (ap (λ t. t.0) (some_inj h))))
round-IsFrame slave k buffer out events complete short never further h =
    accept-IsFrame slave k buffer out true short (some_inj h)

receive_loop-IsFrame :
    (slave k : ℕ) (state : State) (buffer out : List ℕ) (events : List Event)
    → length buffer ≤ read_buffer_size
    → receive_loop slave state buffer events ≡ some (pos (suc k), out)
    → (length out ≡ suc k) × IsFrame slave out
unfolding receive_loop
receive_loop-IsFrame slave k state buffer out [] len h =
    elim (Bool-cases (length buffer == read_buffer_size)) [
      | inl e ↦
          let h' : some (accept slave false buffer) ≡ some (pos (suc k), out) = rw e at h in
          absurd (incomplete slave k buffer out (some_inj h'))
      | inr e ↦
          let h' : ◌≡◌ {A = Option (ℤ × List ℕ)} none (some (pos (suc k), out)) = rw e at h in
          ground arith
    ]
receive_loop-IsFrame slave k state buffer out (e ∷ events) len h =
    elim (Bool-cases (length buffer == read_buffer_size)) [
      | inl e' ↦
          let h' : some (accept slave false buffer) ≡ some (pos (suc k), out) = rw e' at h in
          absurd (incomplete slave k buffer out (some_inj h'))
      | inr e' ↦
          let short : length buffer < read_buffer_size = ground arith in
          round-IsFrame slave k buffer out events (round state buffer e) short
            (round-done state e buffer k)
            (λ s' b' eq.
              receive_loop-IsFrame slave k s' b' out events
                (round-short state s' e buffer b' short eq))
            (rw e' at h)
    ]

-- A positive result of `Receive` is the number of bytes copied to the caller's buffer, and these
-- are a whole frame for the slave: more than 3 and fewer than 256 bytes, the first of which is
-- the slave's address and the last two of which are the checksum of the others. This holds for
-- every course of events on the line and every state to start from.
pub receive-IsFrame :
    (slave k : ℕ) (input_state : State) (out : List ℕ) (events : List Event)
    → receive slave input_state events ≡ some (pos (suc k), out)
    → (length out ≡ suc k) × IsFrame slave out
receive-IsFrame slave k input_state out events h =
    receive_loop-IsFrame slave k input_state [] out events (omega arith) h
