-- ===== src/Mttp/Decode/Received.antt =====
-- How `AddMessage` reads one whole command.
use epsolar_tracer_client.Base.{
  ℕ, ◌+◌, ◌^◌, ◌≤◌, ◌<◌, ◌≢◌, ◌≡◌, refl, ap, ◌∙◌, Bool, true, List, [], ◌∷◌, ◌++◌, append_assoc,
  length, length-append, get_int16-bytes, high_byte, low_byte, if◌then◌else◌, some, arith,
}
use epsolar_tracer_client.Mttp.State.{Slot, dle, ecd, max_commands}
use epsolar_tracer_client.Mttp.Message.{Command, escape, escape_all, encode_command}
use epsolar_tracer_client.Mttp.Decode.{int16_at, store, consume}
use epsolar_tracer_client.Mttp.Decode.Scanning.{
  scan_all, between, in_command, scan_byte, scan_escape, scan_start, scan_end,
}
use epsolar_tracer_client.Mttp.Decode.Payload.{filled, length-filled, change_slot_at, scan_payload}

-- What a slot holds after a command has been read into it.
unfoldable pub received : Command → Slot → Slot
unfolding filled
received c slot =
    filled
      (record slot {
        datatype = c.memtype;
        startadress = c.adress;
        payloadlenght = 0;
        exist = true;
      })
      0 c.payload

-- The high byte of the address reads the low one with it, escaped or not.
int16_at-escape :
    (w : ℕ) (rest : List ℕ)
    → w < 2 ^ 16
    → int16_at (high_byte w) (escape (low_byte w) ++ rest) ≡ some w
int16_at-escape w rest h = ground (arith, get_int16-bytes w h)

-- The three header bytes of a command, as the code stores them.
consume_type :
    (t i : ℕ) (rest : List ℕ) (pre post : List Slot) (slot : Slot)
    → i ≡ length pre
    → consume (in_command i 0 0) (pre ++ slot ∷ post) t rest
      ≡ some (in_command i 1 0, pre ++ record slot { datatype = t } ∷ post)
unfolding consume store
consume_type t i rest pre post slot e =
    rw (change_slot_at pre post slot i (λ s. some (record s { datatype = t })) e refl)

consume_adress :
    (b w i : ℕ) (rest : List ℕ) (pre post : List Slot) (slot : Slot)
    → i ≡ length pre
    → int16_at b rest ≡ some w
    → consume (in_command i 1 0) (pre ++ slot ∷ post) b rest
      ≡ some (in_command i 2 0, pre ++ record slot { startadress = w } ∷ post)
unfolding consume store
consume_adress b w i rest pre post slot e h =
    rw h (rw (change_slot_at pre post slot i (λ s. some (record s { startadress = w })) e refl))

consume_low :
    (b i : ℕ) (rest : List ℕ) (pre post : List Slot) (slot : Slot)
    → i ≡ length pre
    → consume (in_command i 2 0) (pre ++ slot ∷ post) b rest
      ≡ some (in_command i 3 0, pre ++ record slot { payloadlenght = 0; exist = true } ∷ post)
unfolding consume store
consume_low b i rest pre post slot e = rw (
    change_slot_at pre post slot i (λ s. some (record s { payloadlenght = 0; exist = true })) e
      refl)

-- A whole command goes into the slot with the next index.
pub scan_command :
    (c : Command) (e : Bool) (j n m i : ℕ) (rest : List ℕ) (pre post : List Slot) (slot : Slot)
    → c.memtype ≢ dle
    → c.adress < 2 ^ 16
    → length c.payload ≤ length slot.payload
    → i ≡ (if e then j + 1 else j)
    → i < max_commands
    → i ≡ length pre
    → m ≡ n + length (encode_command c)
    → scan_all (encode_command c ++ rest) n (between e j) (pre ++ slot ∷ post)
      ≡ scan_all rest m (between true i) (pre ++ received c slot ∷ post)
unfolding received
scan_command c e j n m i rest pre post slot ht ha hp p q at f =
    let hi = escape (high_byte c.adress) in
    let lo = escape (low_byte c.adress) in
    let data' = escape_all c.payload in
    let tail = dle ∷ ecd ∷ rest in
    let typed = record slot { datatype = c.memtype } in
    let addressed = record typed { startadress = c.adress } in
    let ready = record addressed { payloadlenght = 0; exist = true } in
    let n3 = n + 2 + 1 + length hi + length lo in
    let n4 = n3 + length data' in
    let count : n4 + 2 ≡ m = omega (
      arith,
      length-append hi (lo ++ (data' ++ dle ∷ ecd ∷ [])),
      length-append lo (data' ++ dle ∷ ecd ∷ []),
      length-append data' (dle ∷ ecd ∷ []),
    ) in
    rw
      (
        append_assoc hi (lo ++ (data' ++ dle ∷ ecd ∷ [])) rest,
        append_assoc lo (data' ++ dle ∷ ecd ∷ []) rest,
        append_assoc data' (dle ∷ ecd ∷ []) rest,
        scan_start e j n i (c.memtype ∷ (hi ++ (lo ++ (data' ++ tail)))) (pre ++ slot ∷ post) p q,
        scan_byte c.memtype (n + 2) i 0 0 (hi ++ (lo ++ (data' ++ tail))) (pre ++ slot ∷ post) ht,
        consume_type c.memtype i (hi ++ (lo ++ (data' ++ tail))) pre post slot at,
        scan_escape (high_byte c.adress) (n + 2 + 1) (n + 2 + 1 + length hi) i 1 0
            (lo ++ (data' ++ tail)) (pre ++ typed ∷ post) refl,
        consume_adress (high_byte c.adress) c.adress i (lo ++ (data' ++ tail)) pre post typed at
            (int16_at-escape c.adress (data' ++ tail) ha),
        scan_escape (low_byte c.adress) (n + 2 + 1 + length hi) (n + 2 + 1 + length hi + length lo)
            i 2 0 (data' ++ tail) (pre ++ addressed ∷ post) refl,
        consume_low (low_byte c.adress) i (data' ++ tail) pre post addressed at,
      )
      (scan_payload c.payload n3 n4 i 0 tail pre post ready at (omega arith) refl
        ∙ scan_end n4 i 3 (0 + length c.payload) rest (pre ++ received c slot ∷ post)
        ∙ ap (λ k. scan_all rest k (between true i) (pre ++ received c slot ∷ post)) count)

pub length-received :
    (c : Command) (slot : Slot) → length (received c slot).payload ≡ length slot.payload
unfolding received
length-received c slot = length-filled c.payload _ 0
