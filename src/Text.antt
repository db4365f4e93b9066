-- ===== src/Text.antt =====
-- What the program uses of std::string: byte strings, std::to_string and std::stoi.
pub mod Decimal
use Prim.Native.Char.{code}
use Prim.Native.String.{String}
use epsolar_tracer_client.Base.{
  ℕ, zero, suc, ◌+◌, ◌-◌, ◌*◌, ◌/◌, ◌%◌, ◌^◌, ℤ, pos, negsuc, Bool, true, false, ◌&&◌, ◌||◌, List,
  [], ◌∷◌, ◌++◌, ◌==◌, ltb, leb, if◌then◌else◌, Option, none, some,
}

-- the bytes of a literal
abbrev pub codes : String → List ℕ
codes String.[] = []
codes (String.◌∷◌ c s) = code c ∷ codes s

-- `compare(...) == 0`
abbrev pub text_eq : List ℕ → List ℕ → Bool
text_eq [] [] = true
text_eq [] (b ∷ bs) = false
text_eq (a ∷ as') [] = false
text_eq (a ∷ as') (b ∷ bs) = a == b && text_eq as' bs

-- The decimal digits of a number, before `rest`. A number has at most as many digits as its
-- value, so `suc n` rounds are enough.
unfoldable pub digits : ℕ → ℕ → List ℕ → List ℕ
digits zero n rest = rest
digits (suc rounds) n rest =
    let more = digits rounds (n / 10) ((b'0' + n % 10) ∷ rest) in
    if ltb n 10 then (b'0' + n) ∷ rest else more

-- std::to_string of an unsigned number
unfoldable pub to_string : ℕ → List ℕ
to_string n = digits (suc n) n []

-- std::to_string of an int
unfoldable pub int_to_string : ℤ → List ℕ
int_to_string (pos n) = to_string n
int_to_string (negsuc n) = b'-' ∷ to_string (suc n)

-- isspace
abbrev pub is_space : ℕ → Bool
is_space c = c == 32 || leb 9 c && leb c 13

unfoldable pub skip_spaces : List ℕ → List ℕ
skip_spaces [] = []
skip_spaces (c ∷ cs) = if is_space c then skip_spaces cs else c ∷ cs

-- the value of a digit, in a base up to 16
abbrev pub digit_value : ℕ → ℕ → Option ℕ
digit_value base c =
    let value =
      if leb b'0' c && leb c b'9'
      then c - b'0'
      else if leb b'a' c && leb c b'f'
      then c - b'a' + 10
      else if leb b'A' c && leb c b'F'
      then c - b'A' + 10
      else 36 in
    if ltb value base then some value else none

-- the longest number at the front, with `acc` read so far
unfoldable pub read_digits : ℕ → List ℕ → ℕ → ℕ
read_digits base [] acc = acc
read_digits base (c ∷ cs) acc = elim (digit_value base c) [
  | none ↦ acc
  | some d ↦ read_digits base cs (acc * base + d)
]

-- "0x" before a hexadecimal number
abbrev pub skip_prefix : ℕ → List ℕ → List ℕ
skip_prefix base (z ∷ x ∷ c ∷ cs) =
    if base == 16 && z == b'0' && (x == b'x' || x == b'X')
    then elim (digit_value base c) [ none ↦ z ∷ x ∷ c ∷ cs | some d ↦ c ∷ cs ]
    else z ∷ x ∷ c ∷ cs
skip_prefix base text = text

-- a number, where at least one digit stands
abbrev pub read_number : ℕ → List ℕ → Option ℕ
read_number base [] = none
read_number base (c ∷ cs) = elim (digit_value base c) [
  | none ↦ none
  | some d ↦ some (read_digits base cs d)
]

-- the sign, where there is one: whether the number is negative, and the rest
abbrev pub read_sign : List ℕ → Bool × List ℕ
read_sign [] = (false, [])
read_sign (c ∷ cs) =
    if c == b'-' then (true, cs) else if c == b'+' then (false, cs) else (false, c ∷ cs)

-- the `int` of a sign and a number, where it is in range
abbrev pub to_int : Bool → Option ℕ → Option ℤ
to_int negative none = none
to_int false (some n) = if ltb n (2 ^ 31) then some (pos n) else none
to_int true (some zero) = some (pos 0)
to_int true (some (suc n)) = if ltb n (2 ^ 31) then some (negsuc n) else none

-- std::stoi(text, NULL, base). `none` is an exception.
unfoldable pub stoi : ℕ → List ℕ → Option ℤ
stoi base text =
    let signed = read_sign (skip_spaces text) in
    to_int signed.0 (read_number base (skip_prefix base signed.1))

-- the conversion of an int to an unsigned type of `w` bits
abbrev pub wrapped : ℕ → ℤ → ℕ
wrapped w (pos n) = n % 2 ^ w
wrapped w (negsuc n) = 2 ^ w - 1 - n % 2 ^ w

-- memcpy of an unsigned value of `w` bits into the signed type
abbrev pub as_signed : ℕ → ℕ → ℤ
as_signed w n = if ltb n (2 ^ w / 2) then pos n else negsuc (2 ^ w - 1 - n)
