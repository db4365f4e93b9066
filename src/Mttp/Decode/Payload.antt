-- ===== src/Mttp/Decode/Payload.antt =====
-- How `AddMessage` reads the payload of a command into a slot.
use epsolar_tracer_client.Base.{
  ℕ, zero, suc, ◌+◌, ◌≤◌, ◌<◌, ◌≡◌, refl, ◌∙◌, List, [], ◌∷◌, ◌++◌, append_assoc, length,
  length-append, length-set, set, update?, Option, some, arith,
}
use epsolar_tracer_client.Mttp.State.{Slot}
use epsolar_tracer_client.Mttp.Message.{escape, escape_all}
use epsolar_tracer_client.Mttp.Decode.{change_slot, store, consume, store_payload}
use epsolar_tracer_client.Mttp.Decode.Scanning.{scan_all, in_command, scan_escape}

-- the slot with `bs` written into its payload from index `k` on
unfoldable pub filled : Slot → ℕ → List ℕ → Slot
filled slot k [] = slot
filled slot k (b ∷ bs) =
    filled (record slot { payload = set slot.payload k b; payloadlenght = k + 1 }) (k + 1) bs

-- A step at the slot between `pre` and `post`.
pub change_slot_at :
    (pre post : List Slot) (slot : Slot) (i : ℕ) (f : Slot → Option Slot)
    → i ≡ length pre
    → {slot' : Slot} → f slot ≡ some slot'
    → change_slot (pre ++ slot ∷ post) i f ≡ some (pre ++ slot' ∷ post)
change_slot_at [] post slot zero f e h = rw h
change_slot_at [] post slot (suc i) f e h = absurd (omega arith)
change_slot_at (p ∷ pre) post slot zero f e h = absurd (omega arith)
change_slot_at (p ∷ pre) post slot (suc i) f e h =
    rw (change_slot_at pre post slot i f (omega arith) h)

update?-set : (xs : List ℕ) (i v : ℕ) → i < length xs → update? xs i (λ _. v) ≡ some (set xs i v)
update?-set [] i v h = elim h [ ]
update?-set (x ∷ xs) zero v h = refl
update?-set (x ∷ xs) (suc i) v h = ground (arith, update?-set xs i v)

-- One payload byte, as the code stores it.
consume_payload :
    (b i k : ℕ) (rest : List ℕ) (pre post : List Slot) (slot : Slot)
    → i ≡ length pre
    → k < length slot.payload
    → consume (in_command i 3 k) (pre ++ slot ∷ post) b rest
      ≡ some (
        in_command i 3 (k + 1),
        pre ++ record slot { payload = set slot.payload k b; payloadlenght = k + 1 } ∷ post,
      )
unfolding consume store
consume_payload b i k rest pre post slot e fits =
    let slot' = record slot { payload = set slot.payload k b; payloadlenght = k + 1 } in
    let stored : store_payload k b slot ≡ some slot' =
      rw (store_payload, update?-set slot.payload k b fits) in
    rw (change_slot_at pre post slot i (store_payload k b) e stored)

pub scan_payload :
    (bs : List ℕ) (n m i k : ℕ) (rest : List ℕ) (pre post : List Slot) (slot : Slot)
    → i ≡ length pre
    → k + length bs ≤ length slot.payload
    → m ≡ n + length (escape_all bs)
    → scan_all (escape_all bs ++ rest) n (in_command i 3 k) (pre ++ slot ∷ post)
      ≡ scan_all rest m (in_command i 3 (k + length bs)) (pre ++ filled slot k bs ∷ post)
unfolding filled
scan_payload [] n m i k rest pre post slot e fits f =
    let em : m ≡ n = omega arith in let ek : k + 0 ≡ k = omega arith in rw (em, ek)
scan_payload (b ∷ bs) n m i k rest pre post slot e fits f =
    let slot' = record slot { payload = set slot.payload k b; payloadlenght = k + 1 } in
    let n' = n + length (escape b) in
    let ek : k + suc (length bs) ≡ k + 1 + length bs = omega arith in
    rw
      (
        append_assoc (escape b) (escape_all bs) rest,
        scan_escape b n n' i 3 k (escape_all bs ++ rest) (pre ++ slot ∷ post) refl,
        consume_payload b i k (escape_all bs ++ rest) pre post slot e (omega arith),
        ek,
      )
      (scan_payload bs n' m i (k + 1) rest pre post slot' e
        (omega (arith, length-set slot.payload k b))
        (omega (arith, length-append (escape b) (escape_all bs))))

pub length-filled :
    (bs : List ℕ) (slot : Slot) (k : ℕ) → length (filled slot k bs).payload ≡ length slot.payload
unfolding filled
length-filled [] slot k = refl
length-filled (b ∷ bs) slot k =
    length-filled bs (record slot { payload = set slot.payload k b; payloadlenght = k + 1 }) (k + 1)
    ∙ length-set slot.payload k b
