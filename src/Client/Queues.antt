-- ===== src/Client/Queues.antt =====
-- Client: the order in which messages go through the queues.
use mathlib.Core.Path.{subst}
use epsolar_tracer_client.Base.{
  ℕ, zero, suc, ◌+◌, ◌-◌, ◌≤◌, ◌≡◌, refl, sym, ap, ◌∙◌, inl, inr, ℤ, pos, negsuc, pos_part, failure,
  false, List, [], ◌∷◌, ◌++◌, append_assoc, append-nil, length-append, length, take, drop, ltb, leb,
  if◌then◌else◌, Bool-cases, Option, none, some, some_inj, arith,
}
use epsolar_tracer_client.Modbus.Send.{Sent, wrote, write_loop}
use epsolar_tracer_client.Modbus.Send.Wire.{take_nil, drop_nil, take-drop_more}
use epsolar_tracer_client.Memory.Cells.Sizes.{>>=-eq-some}
use epsolar_tracer_client.Client.{
  Client, Message, max_send_buffer, max_send_queue, pop, push_limited, sendmessage, send, drain,
  reset_timeout,
}

-- What a run of the sending loop has sent of the bytes from `k` on: the first ones, and all of them
-- where it returns a positive number.
record IsSending (buffer : List ℕ) (k : ℕ) (s : Sent) : Type 0 where
  count : ℕ
  first : s.wire ≡ take count (drop k buffer)
  whole : 1 ≤ pos_part s.ret → s.wire ≡ drop k buffer

wrote-eq-some :
    (bytes : List ℕ) (o : Option Sent) (s : Sent)
    → wrote bytes o ≡ some s
    → (t : Sent) × (o ≡ some t) × (record { ret = t.ret; wire = bytes ++ t.wire } ≡ s)
wrote-eq-some bytes none s h = ground arith
wrote-eq-some bytes (some t) s h = (t, refl, some_inj h)

drop-all : (k : ℕ) (buffer : List ℕ) → length buffer ≤ k → drop k buffer ≡ []
drop-all zero [] h = refl
drop-all (suc k) [] h = refl
drop-all zero (b ∷ buffer) h = ground arith
drop-all (suc k) (b ∷ buffer) h = drop-all k buffer (omega arith)

take-drop-all : (n j k : ℕ) (l : List ℕ) → j ≡ k + n → take n (drop k l) ++ drop j l ≡ drop k l
take-drop-all n j k [] e = rw (drop_nil k, drop_nil j, take_nil n) refl
take-drop-all n zero (suc k) (x ∷ l) e = absurd (omega arith)
take-drop-all n (suc j) (suc k) (x ∷ l) e = take-drop-all n j k l (omega arith)
take-drop-all zero zero zero (x ∷ l) e = refl
take-drop-all (suc n) zero zero (x ∷ l) e = absurd (omega arith)
take-drop-all zero (suc j) zero (x ∷ l) e = absurd (omega arith)
take-drop-all (suc n) (suc j) zero (x ∷ l) e = ap (λ z. x ∷ z) (take-drop-all n j 0 l (omega arith))

-- all is sent
over-IsSending :
    (buffer : List ℕ) (k : ℕ) (s : Sent)
    → ltb k (length buffer) ≡ false
    → ◌≡◌ {A = Option Sent} (some (record { ret = pos k; wire = [] })) (some s)
    → IsSending buffer k s
over-IsSending buffer k s over h =
    subst (IsSending buffer k) (some_inj h)
      (record { count = 0; first = refl; whole = λ p. sym (drop-all k buffer (ground arith)) })

-- the loop ends without another byte
ended-IsSending :
    (buffer : List ℕ) (k : ℕ) (ret : ℤ) (s : Sent)
    → pos_part ret ≡ 0
    → (if ltb k (length buffer)
        then some (record { ret = ret; wire = [] })
        else some (record { ret = pos k; wire = [] }))
      ≡ some s
    → IsSending buffer k s
ended-IsSending buffer k ret s none_sent h = elim (Bool-cases (ltb k (length buffer))) [
  | inl more ↦
      let e : record { ret = ret; wire = [] } ≡ s = some_inj (rw more at h) in
      subst (IsSending buffer k) e
        (record { count = 0; first = refl; whole = λ p. absurd (omega arith) })
  | inr over ↦ over-IsSending buffer k s over (rw over at h)
]

write_loop-IsSending :
    (buffer : List ℕ) (k : ℕ) (results : List ℤ) (s : Sent)
    → write_loop buffer k results ≡ some s
    → IsSending buffer k s
unfolding write_loop
write_loop-IsSending buffer k [] s h = elim (Bool-cases (ltb k (length buffer))) [
  | inl more ↦ let h' : none ≡ some s = rw more at h in ground arith
  | inr over ↦ over-IsSending buffer k s over (rw over at h)
]
write_loop-IsSending buffer k (negsuc r ∷ rs) s h = ended-IsSending buffer k failure s refl h
write_loop-IsSending buffer k (pos zero ∷ rs) s h = ended-IsSending buffer k failure s refl h
write_loop-IsSending buffer k (pos (suc r) ∷ rs) s h = elim (Bool-cases (ltb k (length buffer))) [
  | inl more ↦
      let (t, e, e') =
        wrote-eq-some (take (suc r) (drop k buffer)) (write_loop buffer (k + suc r) rs) s
          (rw more at h) in
      let later = write_loop-IsSending buffer (k + suc r) rs t e in
      subst (IsSending buffer k) e' (record {
        count = suc r + later.count;
        first = rw later.first (
            take-drop_more (suc r) later.count k (k + suc r) (suc r + later.count) buffer refl
              refl);
        whole = λ p. rw (later.whole p) (take-drop-all (suc r) (k + suc r) k buffer refl);
      })
  | inr over ↦ over-IsSending buffer k s over (rw over at h)
]

-- the bytes of a message, and of several, that the server is to receive
abbrev pub payload : Message → List ℕ
payload m = take (pos_part m.lenght) m.bytes

abbrev pub payloads : List Message → List ℕ
payloads [] = []
payloads (m ∷ ms) = payload m ++ payloads ms

abbrev pub front_payload : List Message → List ℕ
front_payload [] = []
front_payload (m ∷ ms) = payload m

-- Messages have gone in full from the front of a queue, and of the one that is then at its front
-- only the first bytes.
pub record IsDrained (queue : List Message) (c c' : Client) : Type 0 where
  pub sent : List Message
  part : ℕ
  pub taken : queue ≡ sent ++ c'.send_queue
  pub recv_stays : c'.recv_queue ≡ c.recv_queue
  written : c'.wire ≡ c.wire ++ (payloads sent ++ take part (front_payload c'.send_queue))

module _ (time : ℕ → ℕ) where
  -- The loop over the send queue sends the messages in the order of the queue: those that have left
  -- the queue have been sent in full, each once and with nothing between them, and of the message
  -- that is then at the front only the first bytes, if any. Those behind it stay. This holds for
  -- every course of results of `::send`.
  pub drain-IsDrained :
      (queue : List Message) (sends : List (List ℤ)) (c c' : Client)
      → drain time queue sends c ≡ some c'
      → IsDrained queue c c'
  unfolding drain send
  drain-IsDrained [] sends c c' h = subst (IsDrained [] c) (some_inj h) (record {
    sent = [];
    part = 0;
    taken = refl;
    recv_stays = refl;
    written = sym (append-nil c.wire);
  })
  drain-IsDrained (m ∷ ms) [] c c' h = ground arith
  drain-IsDrained (m ∷ ms) (results ∷ sends) c c' h =
      let (s, e, e') = >>=-eq-some (write_loop (payload m) 0 results) _ h in
      let sending = write_loop-IsSending (payload m) 0 results s e in
      let c1 : Client = record c { wire = c.wire ++ s.wire } in
      elim (Bool-cases (leb (pos_part s.ret) 0)) [
        | inl failed ↦
            let r : some (record c1 { send_queue = m ∷ ms }) ≡ some c' = rw failed at e' in
            subst (IsDrained (m ∷ ms) c) (some_inj r) (record {
              sent = [];
              part = sending.count;
              taken = refl;
              recv_stays = refl;
              written = ap (λ w. c.wire ++ w) sending.first;
            })
        | inr more ↦
            let r : drain time ms sends (reset_timeout time c1) ≡ some c' = rw more at e' in
            let d = drain-IsDrained ms sends (reset_timeout time c1) c' r in
            record {
              sent = m ∷ d.sent;
              part = d.part;
              taken = ap (λ q. m ∷ q) d.taken;
              recv_stays = d.recv_stays;
              written =
                  d.written
                  ∙ ap
                      (λ w.
                        (c.wire ++ w)
                        ++ (payloads d.sent ++ take d.part (front_payload c'.send_queue)))
                      (sending.whole (ground arith))
                  ∙ append_assoc c.wire (payload m) _
                  ∙ ap (λ w. c.wire ++ w) (sym (append_assoc (payload m) (payloads d.sent) _));
            }
      ]

pub length-push_limited :
    (limit : ℕ) (m : Message) (queue : List Message)
    → length queue ≤ suc limit
    → length (push_limited (suc limit) m queue) ≤ suc limit
length-push_limited limit m [] h = ground arith
length-push_limited limit m (q ∷ queue) h =
    ground (arith, length-append queue (m ∷ []), length-append (q ∷ queue) (m ∷ []))

drop-pop : (k : ℕ) (queue : List Message) → k ≡ 1 → drop k queue ≡ pop queue
drop-pop zero queue h = absurd (omega arith)
drop-pop (suc zero) [] h = refl
drop-pop (suc zero) (m ∷ queue) h = refl
drop-pop (suc (suc k)) queue h = absurd (omega arith)

drop-none : (k : ℕ) (queue : List Message) → k ≡ 0 → drop k queue ≡ queue
drop-none zero queue h = refl
drop-none (suc k) queue h = absurd (omega arith)

pop-append :
    (m : Message) (queue : List Message)
    → 1 ≤ length queue
    → pop queue ++ m ∷ [] ≡ pop (queue ++ m ∷ [])
pop-append m [] h = ground arith
pop-append m (q ∷ queue) h = refl

-- a queue that is not longer than its limit keeps the last ones
push_limited_lem :
    (limit : ℕ) (m : Message) (queue : List Message)
    → length queue ≤ suc limit
    → push_limited (suc limit) m queue ≡ drop (length queue + 1 - suc limit) (queue ++ m ∷ [])
push_limited_lem limit m queue h = elim (Bool-cases (leb (suc limit) (length queue))) [
  | inl full ↦
      let one : length queue + 1 - suc limit ≡ 1 = ground arith in
      rw (full, drop-pop (length queue + 1 - suc limit) (queue ++ m ∷ []) one)
        (pop-append m queue (ground arith))
  | inr room ↦
      let none_left : length queue + 1 - suc limit ≡ 0 = ground arith in
      rw (room) (sym (drop-none _ (queue ++ m ∷ []) none_left))
]

-- Where the send queue holds at most MAXSENDQUEUE messages, `sendmessage` of at most
-- MAX_SEND_BUFFER bytes returns their number and leaves in the queue the last MAXSENDQUEUE ones
-- of its messages followed by the new one, in their order. The receive queue, the connection and
-- what was sent do not change.
pub sendmessage-last :
    (bytes : List ℕ) (len : ℕ) (c : Client)
    → len ≤ max_send_buffer
    → length c.send_queue ≤ max_send_queue
    → sendmessage bytes (pos len) c ≡ (
      pos len,
      record c {
        send_queue =
            drop
              (length c.send_queue + 1 - max_send_queue)
              (c.send_queue ++ record { lenght = pos len; bytes = take len bytes } ∷ []);
      },
    )
unfolding sendmessage
sendmessage-last bytes len c fits short =
    let small : ltb max_send_buffer len ≡ false = ground arith in
    rw
      (
        small,
        push_limited_lem 49 (record { lenght = pos len; bytes = take len bytes }) c.send_queue
            short,
      )
      refl

take-zero : (n : ℕ) (l : List ℕ) → n ≡ 0 → take n l ≡ []
take-zero zero l h = refl
take-zero (suc n) l h = absurd (omega arith)

write_loop-empty :
    (results : List ℤ) → write_loop [] 0 results ≡ some (record { ret = pos 0; wire = [] })
unfolding write_loop
write_loop-empty [] = refl
write_loop-empty (negsuc n ∷ results) = refl
write_loop-empty (pos zero ∷ results) = refl
write_loop-empty (pos (suc n) ∷ results) = refl

-- A message whose length is not positive is never sent: where it is at the front, the loop over the
-- send queue leaves it there, sends nothing of it or of the messages behind it, and ends, whatever
-- `::send` would return.
pub drain-blocked :
    (time : ℕ → ℕ) (m : Message) (queue : List Message) (results : List ℤ) (sends : List (List ℤ))
    (c : Client)
    → pos_part m.lenght ≡ 0
    → drain time (m ∷ queue) (results ∷ sends) c ≡ some (record c { send_queue = m ∷ queue })
unfolding drain send
drain-blocked time m queue results sends c h =
    let sent : send m results ≡ some (record { ret = pos 0; wire = [] }) =
      rw (take-zero (pos_part m.lenght) m.bytes h) (write_loop-empty results) in
    rw (sent, append-nil) refl
