-- ===== src/Client/Round.antt =====
-- Client: the object in the course of the rounds of `Body` and the calls from other threads.
use mathlib.Core.Path.{subst}
use epsolar_tracer_client.Base.{
  ℕ, ◌+◌, ◌-◌, ◌≤◌, ◌≡◌, refl, ap, ◌∙◌, inl, inr, ℤ, pos, pos_part, failure, Bool, true, false, not,
  ◌&&◌, List, [], ◌∷◌, length, length-append, take, ltb, if◌then◌else◌, Bool-cases, some, some_inj,
  arith,
}
use epsolar_tracer_client.Memory.Cells.{◌>>=◌}
use epsolar_tracer_client.Memory.Cells.Sizes.{>>=-eq-some}
use epsolar_tracer_client.Client.{
  Client, Turn, Arrival, select_error, timed_out, closed, arrived, max_send_buffer, max_send_queue,
  max_recv_queue, connect_timeout, sendmessage, recvmessage, check_timeout, closeconnection,
  connect, try_connect, talk, drain, take_arrival, body,
}
use epsolar_tracer_client.Client.Queues.{drain-IsDrained, length-push_limited}

-- neither queue is longer than its limit
pub record IsBounded (c : Client) : Type 0 where
  pub send_bound : length c.send_queue ≤ max_send_queue
  pub recv_bound : length c.recv_queue ≤ max_recv_queue

-- What may happen to the object: a message is posted, one is fetched, or `Body` makes a round. The
-- other threads may post and fetch between any two rounds.
pub data Step (time : ℕ → ℕ) : Client → Client → Type 0 where
  posts : (bytes : List ℕ) (len : ℤ) (c : Client) → Step time c (sendmessage bytes len c).1
  fetches : (len : ℕ) (c : Client) → Step time c (recvmessage len c).2
  turns : (t : Turn) (c c' : Client) → body time t c ≡ some c' → Step time c c'

pub data Reach (time : ℕ → ℕ) (c : Client) : Client → Type 0 where
  here : Reach time c c
  next : {d e : Client} → Reach time c d → Step time d e → Reach time c e

-- the same queues in another object
same_queues-IsBounded :
    {c d : Client}
    → IsBounded c
    → d.send_queue ≡ c.send_queue
    → d.recv_queue ≡ c.recv_queue
    → IsBounded d
same_queues-IsBounded b e e' = record {
  send_bound = rw e b.send_bound;
  recv_bound = rw e' b.recv_bound;
}

if-IsBounded :
    (x : Bool) (c d : Client) → IsBounded c → IsBounded d → IsBounded (if x then c else d)
if-IsBounded true c d b b' = b
if-IsBounded false c d b b' = b'

sendmessage-IsBounded :
    (bytes : List ℕ) (len : ℤ) (c : Client) → IsBounded c → IsBounded (sendmessage bytes len c).1
unfolding sendmessage
sendmessage-IsBounded bytes len c b = elim (Bool-cases (ltb max_send_buffer (pos_part len))) [
  | inl long ↦ rw long b
  | inr fits ↦ rw fits (record {
    send_bound =
        length-push_limited 49 (record { lenght = len; bytes = take (pos_part len) bytes })
          c.send_queue b.send_bound;
    recv_bound = b.recv_bound;
  })
]

recvmessage-IsBounded : (len : ℕ) (c : Client) → IsBounded c → IsBounded (recvmessage len c).2
unfolding recvmessage
recvmessage-IsBounded len c b =
    elim c.recv_queue
        as (λ q.
          length q ≤ max_recv_queue
          → IsBounded
              (elim q as (λ _. ℤ × List ℕ × Client) [
                | [] ↦ (pos 0, [], c)
                | m ∷ ms ↦
                    if ltb len (pos_part m.lenght)
                    then (failure, [], c)
                    else (m.lenght, take (pos_part m.lenght) m.bytes, record c { recv_queue = ms })
              ]).2) [
                | [] ↦ λ h. b
                | m ∷ ms ↦ λ h. elim (Bool-cases (ltb len (pos_part m.lenght))) [
                  | inl long ↦ rw long b
                  | inr fits ↦
                      rw fits (record { send_bound = b.send_bound; recv_bound = omega arith })
                ]
              ]
      b.recv_bound

module _ (time : ℕ → ℕ) where
  check_timeout-IsBounded :
      (heartbeat : Bool) (c : Client) → IsBounded c → IsBounded (check_timeout time heartbeat c)
  unfolding check_timeout
  check_timeout-IsBounded heartbeat c b =
      if-IsBounded (ltb connect_timeout (time c.ticks - c.last_server_message)) _ _
        (if-IsBounded (c.connected && heartbeat) _ _ (same_queues-IsBounded b refl refl)
          (same_queues-IsBounded b refl refl))
        (same_queues-IsBounded b refl refl)

  take_arrival-IsBounded :
      (a : Arrival) (c : Client) → IsBounded c → IsBounded (take_arrival time a c)
  unfolding take_arrival
  take_arrival-IsBounded select_error c b = b
  take_arrival-IsBounded timed_out c b = b
  take_arrival-IsBounded closed c b = record {
    send_bound = b.send_bound;
    recv_bound = b.recv_bound;
  }
  take_arrival-IsBounded (arrived bytes) c b = record {
    send_bound = b.send_bound;
    recv_bound =
        length-push_limited 49 (record { lenght = pos (length bytes); bytes = bytes }) c.recv_queue
          b.recv_bound;
  }

  talk-IsBounded : (t : Turn) (c c' : Client) → talk time t c ≡ some c' → IsBounded c → IsBounded c'
  unfolding talk
  talk-IsBounded t c c' h b =
      elim c.connected
          as (λ x.
            (if x
                then drain time c.send_queue t.sends c
                  >>= (λ c''. some (take_arrival time t.arrival c''))
                else some c)
              ≡ some c'
            → IsBounded c') [
              | true ↦ λ k.
                  let (d, e, e') = >>=-eq-some (drain time c.send_queue t.sends c) _ k in
                  let drained = drain-IsDrained time c.send_queue t.sends c d e in
                  let shorter = ap length drained.taken ∙ length-append drained.sent d.send_queue in
                  let bd : IsBounded d = record {
                    send_bound = omega (arith, shorter, b.send_bound);
                    recv_bound = rw drained.recv_stays b.recv_bound;
                  } in
                  subst IsBounded (some_inj e') (take_arrival-IsBounded t.arrival d bd)
              | false ↦ λ k. subst IsBounded (some_inj k) b
            ]
        h

  reconnect-IsBounded :
      (t : Turn) (c c' : Client) → try_connect time t c ≡ some c' → IsBounded c → IsBounded c'
  unfolding try_connect
  reconnect-IsBounded t c c' h b =
      let c1 : Client = record c { ticks = c.ticks + 1 } in
      let c2 = connect time t.connects c1 in
      let c3 : Client = record c2 { last_connecting = time c2.ticks; ticks = c2.ticks + 1 } in
      elim (ltb (time c.ticks - c.last_connecting) 30)
          as (λ x. (if x then some c1 else talk time t c3) ≡ some c' → IsBounded c') [
            | true ↦ λ k. subst IsBounded (some_inj k) (same_queues-IsBounded b refl refl)
            | false ↦ λ k.
                let b2 : IsBounded c2 =
                  if-IsBounded t.connects _ _ (same_queues-IsBounded b refl refl)
                    (same_queues-IsBounded b refl refl) in
                talk-IsBounded t c3 c' k (same_queues-IsBounded b2 refl refl)
          ]
        h

  body-IsBounded : (t : Turn) (c c' : Client) → body time t c ≡ some c' → IsBounded c → IsBounded c'
  unfolding body
  body-IsBounded t c c' h b =
      let c1 = check_timeout time t.heartbeat c in
      let c2 = if c1.needreconnect && c1.connected then closeconnection c1 else c1 in
      let b1 = check_timeout-IsBounded t.heartbeat c b in
      let b2 : IsBounded c2 =
        if-IsBounded (c1.needreconnect && c1.connected) _ _ (same_queues-IsBounded b1 refl refl)
          b1 in
      elim c2.connected
          as (λ x.
            (if not x then try_connect time t c2 else talk time t c2) ≡ some c' → IsBounded c') [
              | true ↦ λ k. talk-IsBounded t c2 c' k b2
              | false ↦ λ k. reconnect-IsBounded t c2 c' k b2
            ]
        h

  Step-IsBounded : {c c' : Client} → Step time c c' → IsBounded c → IsBounded c'
  Step-IsBounded (posts bytes len c) b = sendmessage-IsBounded bytes len c b
  Step-IsBounded (fetches len c) b = recvmessage-IsBounded len c b
  Step-IsBounded (turns t c c' h) b = body-IsBounded t c c' h b

  -- However the rounds of `Body` and the calls of `sendmessage` and `recvmessage` from other
  -- threads follow each other, and whatever the connection does: from an object whose queues hold
  -- at most MAXSENDQUEUE and MAXRECVQUEUE messages only such objects are reached.
  pub Reach-IsBounded : {c c' : Client} → Reach time c c' → IsBounded c → IsBounded c'
  Reach-IsBounded here b = b
  Reach-IsBounded (next r s) b = Step-IsBounded s (Reach-IsBounded r b)
