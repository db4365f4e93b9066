-- ===== src/Mttp/Decode/Overlay.antt =====
-- How `AddMessage` reads all commands of a message.
use epsolar_tracer_client.Base.{
  ℕ, ◌+◌, ◌^◌, ◌≤◌, ◌<◌, ◌≢◌, ◌≡◌, refl, sym, ap, ◌∙◌, Bool, true, List, [], ◌∷◌, ◌++◌,
  append_assoc, length, length-append, if◌then◌else◌, some, arith, All,
}
use epsolar_tracer_client.Mttp.State.{Slot, dle, etx, max_commands, command_size}
use epsolar_tracer_client.Mttp.Message.{Command, encode_command, encode_commands}
use epsolar_tracer_client.Mttp.Decode.Scanning.{scan_all, between, scan_etx}
use epsolar_tracer_client.Mttp.Decode.Received.{received, scan_command}

-- The commands of a list, each in its slot; the slots behind them stay.
unfoldable pub overlay : List Command → List Slot → List Slot
overlay [] slots = slots
overlay (c ∷ cs) [] = []
overlay (c ∷ cs) (slot ∷ slots) = received c slot ∷ overlay cs slots

-- What the wire format can carry in a slot: a type that is not DLE, an address of 16 bits, and a
-- payload of at most COMMAND_SIZE bytes.
abbrev pub Fits : Command → Type 0
Fits c = (c.memtype ≢ dle) × (c.adress < 2 ^ 16) × (length c.payload ≤ command_size)

abbrev pub HasRoom : Slot → Type 0
HasRoom slot = length slot.payload ≡ command_size

pub scan_commands :
    (cs : List Command) (e : Bool) (j n m i : ℕ) (rest : List ℕ) (pre post : List Slot)
    → All Fits cs
    → All HasRoom post
    → length cs ≤ length post
    → i ≡ (if e then j + 1 else j)
    → i + length cs ≤ max_commands
    → i ≡ length pre
    → m ≡ n + length (encode_commands cs) + 2
    → scan_all (encode_commands cs ++ dle ∷ etx ∷ rest) n (between e j) (pre ++ post)
      ≡ some (m, pre ++ overlay cs post)
unfolding overlay
scan_commands [] e j n m i rest pre post fits room enough p q at f =
    let em : m ≡ n + 2 = omega arith in rw em (scan_etx e n j rest (pre ++ post))
scan_commands (c ∷ cs) e j n m i rest pre [] fits room enough p q at f = absurd (omega arith)
scan_commands (c ∷ cs) e j n m i rest pre (slot ∷ post) fits room enough p q at f =
    let n' = n + length (encode_command c) in
    let received_slot = received c slot in
    rw (append_assoc (encode_command c) (encode_commands cs) (dle ∷ etx ∷ rest)) (
      scan_command c e j n n' i (encode_commands cs ++ dle ∷ etx ∷ rest) pre post slot fits.0.0
        fits.0.1 (omega arith) p (omega arith) at refl
      ∙ ap (scan_all (encode_commands cs ++ dle ∷ etx ∷ rest) n' (between true i))
          (sym (append_assoc pre (received_slot ∷ []) post))
      ∙ scan_commands cs true i n' m (i + 1) rest (pre ++ received_slot ∷ []) post fits.1 room.1
          (omega arith) refl (omega arith) (omega (arith, length-append pre (received_slot ∷ [])))
          (omega (arith, length-append (encode_command c) (encode_commands cs)))
      ∙ ap (λ slots. some (m, slots)) (append_assoc pre (received_slot ∷ []) (overlay cs post)))
