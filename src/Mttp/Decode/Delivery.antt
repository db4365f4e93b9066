-- ===== src/Mttp/Decode/Delivery.antt =====
-- `AddMessage` and `GetCommand` on a well-formed message.
use epsolar_tracer_client.Base.{
  ℕ, suc, ◌+◌, ◌≤◌, ◌<◌, ◌≡◌, refl, sym, ap, ◌∙◌, pos, failure, true, false, List, [], ◌∷◌, ◌++◌,
  append_assoc, append-nil, length, length-append, length-set, set, get_elem?, take, take-set-suc,
  Option-cases, inl, inr, none, some, arith, All, high_byte, low_byte, u16,
}
use epsolar_tracer_client.Mttp.State.{Mttp, Slot, dle, etx, stx, max_commands, command_size}
use epsolar_tracer_client.Mttp.Message.{Command, encode_commands, message}
use epsolar_tracer_client.Mttp.Decode.{
  Taken, decode, free_slot, start_scan, add_message, get_command,
}
use epsolar_tracer_client.Mttp.Decode.Scanning.{scan_all_lem, scan_header}
use epsolar_tracer_client.Mttp.Decode.Payload.{filled}
use epsolar_tracer_client.Mttp.Decode.Received.{received}
use epsolar_tracer_client.Mttp.Decode.Overlay.{overlay, Fits, HasRoom, scan_commands}

add_message_of :
    (bytes : List ℕ) (lenght : ℕ) (m : Mttp) {i n : ℕ} {slots : List Slot}
    → free_slot m.decoded_commands ≡ some i
    → decode bytes lenght 0 (start_scan i) m.decoded_commands ≡ some (n, slots)
    → add_message bytes lenght m ≡ some (n, record m { decoded_commands = slots })
unfolding add_message
add_message_of bytes lenght m free scanned = ground arith

-- A message of at most as many commands as there are slots from the first free one on, all of
-- which have their full array, goes, command by command, into these slots. Nothing is written
-- outside an array, the slots before and behind stay, and the number returned is the length of
-- the message, whatever bytes follow it. Each command has a type other than DLE, an address of 16
-- bits and a payload of at most COMMAND_SIZE bytes.
pub add_message-message :
    (act : ℕ) (cs : List Command) (rest : List ℕ) (pre post : List Slot) (m : Mttp)
    → All Fits cs
    → All HasRoom post
    → length cs ≤ length post
    → length pre + length cs ≤ max_commands
    → m.decoded_commands ≡ pre ++ post
    → free_slot m.decoded_commands ≡ some (length pre)
    → add_message (message act cs ++ rest) (length (message act cs ++ rest)) m
      ≡ some (length (message act cs), record m { decoded_commands = pre ++ overlay cs post })
add_message-message act cs rest pre post m fits room enough few e free =
    let body = encode_commands cs ++ dle ∷ etx ∷ [] in
    let lenght = u16 (5 + length body) in
    let bytes = message act cs ++ rest in
    let scanned : decode bytes (length bytes) 0 (start_scan (length pre)) m.decoded_commands
        ≡ some (length (message act cs), pre ++ overlay cs post) =
      rw (e, append_assoc (encode_commands cs) (dle ∷ etx ∷ []) rest)
        (scan_all_lem
            (dle
              ∷ stx
              ∷ high_byte lenght
              ∷ low_byte lenght
              ∷ act
              ∷ (encode_commands cs ++ dle ∷ etx ∷ rest))
            0 (start_scan (length pre)) (pre ++ post)
          ∙ scan_header (high_byte lenght) (low_byte lenght) act (length pre)
              (encode_commands cs ++ dle ∷ etx ∷ rest) (pre ++ post)
          ∙ scan_commands cs false (length pre) 5 (length (message act cs)) (length pre) rest pre
              post fits room enough refl few refl
              (omega (arith, length-append (encode_commands cs) (dle ∷ etx ∷ [])))) in
    add_message_of bytes (length bytes) m free scanned

-- the fields of a slot that has received a command
exist-filled : (bs : List ℕ) (slot : Slot) (k : ℕ) → (filled slot k bs).exist ≡ slot.exist
unfolding filled
exist-filled [] slot k = refl
exist-filled (b ∷ bs) slot k = exist-filled bs _ (k + 1)

datatype-filled : (bs : List ℕ) (slot : Slot) (k : ℕ) → (filled slot k bs).datatype ≡ slot.datatype
unfolding filled
datatype-filled [] slot k = refl
datatype-filled (b ∷ bs) slot k = datatype-filled bs _ (k + 1)

startadress-filled :
    (bs : List ℕ) (slot : Slot) (k : ℕ) → (filled slot k bs).startadress ≡ slot.startadress
unfolding filled
startadress-filled [] slot k = refl
startadress-filled (b ∷ bs) slot k = startadress-filled bs _ (k + 1)

payloadlenght-filled :
    (bs : List ℕ) (slot : Slot) (k : ℕ)
    → slot.payloadlenght ≡ k
    → (filled slot k bs).payloadlenght ≡ k + length bs
unfolding filled
payloadlenght-filled [] slot k e = omega arith
payloadlenght-filled (b ∷ bs) slot k e = omega (
  arith,
  payloadlenght-filled bs (record slot { payload = set slot.payload k b; payloadlenght = k + 1 })
      (k + 1) refl,
)

payload-filled :
    (bs : List ℕ) (slot : Slot) (k : ℕ)
    → k + length bs ≤ length slot.payload
    → take (k + length bs) (filled slot k bs).payload ≡ take k slot.payload ++ bs
unfolding filled
payload-filled [] slot k h =
    let e : k + 0 ≡ k = omega arith in rw e (sym (append-nil (take k slot.payload)))
payload-filled (b ∷ bs) slot k h =
    let slot' : Slot = record slot { payload = set slot.payload k b; payloadlenght = k + 1 } in
    let e : k + suc (length bs) ≡ k + 1 + length bs = omega arith in
    let e1 : k + 1 ≡ suc k = omega arith in
    rw e (
      payload-filled bs slot' (k + 1) (omega (arith, length-set slot.payload k b))
      ∙ ap (λ p. p ++ bs)
          (ap (λ j. take j (set slot.payload k b)) e1 ∙ take-set-suc slot.payload k b (omega arith))
      ∙ append_assoc (take k slot.payload) (b ∷ []) bs)

-- The slot between `pre` and `post`, read by `GetCommand`.
get_elem?-middle :
    (pre post : List Slot) (slot : Slot) → get_elem? (pre ++ slot ∷ post) (length pre) ≡ some slot
get_elem?-middle [] post slot = refl
get_elem?-middle (p ∷ pre) post slot = get_elem?-middle pre post slot

set-middle :
    (pre post : List Slot) (slot slot' : Slot)
    → set (pre ++ slot ∷ post) (length pre) slot' ≡ pre ++ slot' ∷ post
set-middle [] post slot slot' = refl
set-middle (p ∷ pre) post slot slot' = ap (λ l. p ∷ l) (set-middle pre post slot slot')

abbrev pub taken : Command → Taken
taken c = record { memtype = c.memtype; startadress = c.adress; command = c.payload }

-- the fields of a slot that has received a command
record IsReceived (c : Command) (slot : Slot) : Type 0 where
  there : slot.exist ≡ true
  typed : slot.datatype ≡ c.memtype
  addressed : slot.startadress ≡ c.adress
  counted : slot.payloadlenght ≡ length c.payload
  filled_in : take (length c.payload) slot.payload ≡ c.payload

received-IsReceived :
    (c : Command) (slot : Slot)
    → length c.payload ≤ length slot.payload
    → IsReceived c (received c slot)
unfolding received
received-IsReceived c slot room =
    let ready : Slot = record slot {
      datatype = c.memtype;
      startadress = c.adress;
      payloadlenght = 0;
      exist = true;
    } in
    let zero_add : 0 + length c.payload ≡ length c.payload = omega arith in
    record {
      there = exist-filled c.payload ready 0;
      typed = datatype-filled c.payload ready 0;
      addressed = startadress-filled c.payload ready 0;
      counted = payloadlenght-filled c.payload ready 0 refl ∙ zero_add;
      filled_in =
          ap (λ k. take k (filled ready 0 c.payload).payload) (sym zero_add)
          ∙ payload-filled c.payload ready 0 (omega arith);
    }

get_command_of :
    (c : Command) (slot : Slot) (i : ℕ) (m : Mttp)
    → IsReceived c slot
    → length c.payload ≤ command_size
    → i < max_commands
    → get_elem? m.decoded_commands i ≡ some slot
    → get_command command_size i m ≡ (
      pos (length c.payload),
      some (taken c),
      record m { decoded_commands = set m.decoded_commands i (record slot { exist = false }) },
    )
unfolding get_command
get_command_of c slot i m r fits few e = ground (arith, ap (λ k. take k slot.payload) r.counted)

-- A slot that has received a command gives exactly that command back, once: afterwards the slot
-- is free and all other slots are as before. The slot's index is below MAX_COMMANDS, and the
-- payload fits its array and COMMAND_SIZE.
pub get_command-received :
    (c : Command) (slot : Slot) (pre post : List Slot) (m : Mttp)
    → length c.payload ≤ length slot.payload
    → length c.payload ≤ command_size
    → length pre < max_commands
    → m.decoded_commands ≡ pre ++ received c slot ∷ post
    → get_command command_size (length pre) m ≡ (
      pos (length c.payload),
      some (taken c),
      record m { decoded_commands = pre ++ record (received c slot) { exist = false } ∷ post },
    )
get_command-received c slot pre post m room fits few e =
    get_command_of c (received c slot) (length pre) m (received-IsReceived c slot room) fits few
      (ap (λ l. get_elem? l (length pre)) e ∙ get_elem?-middle pre post (received c slot))
    ∙ ap (λ l. (pos (length c.payload), some (taken c), record m { decoded_commands = l }))
        (ap (λ l. set l (length pre) (record (received c slot) { exist = false })) e
          ∙ set-middle pre post (received c slot) (record (received c slot) { exist = false }))

-- `GetCommand` at a slot that is free, or behind the last slot, fails and changes nothing.
pub get_command-free :
    (commandsize i : ℕ) (m : Mttp)
    → ((slot : Slot) → get_elem? m.decoded_commands i ≡ some slot → slot.exist ≡ false)
    → get_command commandsize i m ≡ (failure, none, m)
unfolding get_command
get_command-free commandsize i m free = elim (Option-cases (get_elem? m.decoded_commands i)) [
  | inl e ↦ ground arith
  | inr (slot, e) ↦ ground (arith, free slot e)
]
