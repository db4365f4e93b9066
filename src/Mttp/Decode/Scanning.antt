-- ===== src/Mttp/Decode/Scanning.antt =====
-- How `AddMessage` walks through the parts of a well-formed message.
use epsolar_tracer_client.Base.{
  ℕ, ◌+◌, ◌<◌, ◌≢◌, ◌≡◌, refl, pos, Bool, true, false, List, ◌∷◌, ◌++◌, length, if◌then◌else◌,
  Option, none, some, arith,
}
use epsolar_tracer_client.Mttp.State.{Slot, dle, stx, etx, scd, ecd, max_commands}
use epsolar_tracer_client.Mttp.Message.{escape}
use epsolar_tracer_client.Mttp.Decode.{
  Scan, control, on_dle, on_stx, on_etx, on_scd, on_ecd, next_slot, consume, decode, start_scan,
}

-- the loop over all bytes of a list
pub scan_all : List ℕ → ℕ → Scan → List Slot → Option (ℕ × List Slot)
scan_all bytes n s slots = decode bytes (length bytes) n s slots

pub scan_all_lem :
    (bytes : List ℕ) (n : ℕ) (s : Scan) (slots : List Slot)
    → decode bytes (length bytes) n s slots ≡ scan_all bytes n s slots
unfolding scan_all
scan_all_lem bytes n s slots = refl

-- within the message, before a command; `e` tells whether a command came before
abbrev pub between : Bool → ℕ → Scan
between e i = record {
  dlefound = false;
  stxfound = true;
  scdfound = false;
  ecdfound = e;
  cmdindex = i;
  cmdheaderindex = 0;
  payloadlenght = 0;
  headerindex = pos 3;
}

-- within a command, with `h` header bytes and `k` payload bytes read
abbrev pub in_command : ℕ → ℕ → ℕ → Scan
in_command i h k = record {
  dlefound = false;
  stxfound = true;
  scdfound = true;
  ecdfound = false;
  cmdindex = i;
  cmdheaderindex = h;
  payloadlenght = k;
  headerindex = pos 3;
}

abbrev pub continue : Option (Scan × List Slot) → List ℕ → ℕ → Option (ℕ × List Slot)
continue none rest n = none
continue (some (s, slots)) rest n = scan_all rest n s slots

-- A byte other than DLE goes into the command.
pub scan_byte :
    (b n i h k : ℕ) (rest : List ℕ) (slots : List Slot)
    → b ≢ dle
    → scan_all (b ∷ rest) n (in_command i h k) slots
      ≡ continue (consume (in_command i h k) slots b rest) rest (n + 1)
unfolding scan_all decode control on_dle on_stx on_etx on_scd on_ecd
scan_byte b n i h k rest slots ne = ground arith

-- An escaped byte goes into the command as the byte that it stands for.
pub scan_escape :
    (b n m i h k : ℕ) (rest : List ℕ) (slots : List Slot)
    → m ≡ n + length (escape b)
    → scan_all (escape b ++ rest) n (in_command i h k) slots
      ≡ continue (consume (in_command i h k) slots b rest) rest m
unfolding scan_all decode control on_dle on_stx on_etx on_scd on_ecd
scan_escape b n m i h k rest slots e = ground arith

pub scan_start :
    (e : Bool) (j n i : ℕ) (rest : List ℕ) (slots : List Slot)
    → i ≡ (if e then j + 1 else j)
    → i < max_commands
    → scan_all (dle ∷ scd ∷ rest) n (between e j) slots
      ≡ scan_all rest (n + 2) (in_command i 0 0) slots
unfolding scan_all decode control on_dle on_stx on_etx on_scd on_ecd next_slot
scan_start e j n i rest slots p q = ground arith

pub scan_end :
    (n i h k : ℕ) (rest : List ℕ) (slots : List Slot)
    → scan_all (dle ∷ ecd ∷ rest) n (in_command i h k) slots
      ≡ scan_all rest (n + 2) (between true i) slots
unfolding scan_all decode control on_dle on_stx on_etx on_scd on_ecd
scan_end n i h k rest slots = ground arith

-- <DLE><ETX> ends the message.
pub scan_etx :
    (e : Bool) (n i : ℕ) (rest : List ℕ) (slots : List Slot)
    → scan_all (dle ∷ etx ∷ rest) n (between e i) slots ≡ some (n + 2, slots)
unfolding scan_all decode control on_dle on_stx on_etx on_scd on_ecd
scan_etx e n i rest slots = ground arith

-- The header's five bytes are passed over, whatever its length and action are.
pub scan_header :
    (hi lo act i : ℕ) (rest : List ℕ) (slots : List Slot)
    → scan_all (dle ∷ stx ∷ hi ∷ lo ∷ act ∷ rest) 0 (start_scan i) slots
      ≡ scan_all rest 5 (between false i) slots
unfolding scan_all decode control consume on_dle on_stx on_etx on_scd on_ecd
scan_header hi lo act i rest slots = ground arith
