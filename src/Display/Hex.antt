-- ===== src/Display/Hex.antt =====
-- Display: bytes as hexadecimal text, between the display's thread and the text server.
use epsolar_tracer_client.Base.{
  ℕ, ◌+◌, ◌*◌, ◌/◌, ◌%◌, ◌^◌, ◌<◌, ◌≡◌, refl, ap, ◌∙◌, inl, inr, ℤ, pos, Bool, true, false, List,
  [], ◌∷◌, ◌++◌, ◌==◌, ltb, All, IsByte, Bool-cases, Option, none, some, arith,
}
use epsolar_tracer_client.Text.{
  is_space, digit_value, skip_spaces, skip_prefix, read_number, read_digits, read_sign, to_int,
  stoi, wrapped,
}
use epsolar_tracer_client.Memory.Listing.{hex_digit, hex2}
use epsolar_tracer_client.MtcpServer.Reply.{hex_bytes, response_text}
use epsolar_tracer_client.Display.{hex_text, without_brackets, read_pairs}

-- what `stoi` finds out about a digit of `%X`
record IsHexDigit (d c : ℕ) : Type 0 where
  value : digit_value 16 c ≡ some d
  no_space : is_space c ≡ false
  no_minus : (c == b'-') ≡ false
  no_plus : (c == b'+') ≡ false

hex_digit-IsHexDigit : (d : ℕ) → d < 16 → IsHexDigit d (hex_digit d)
hex_digit-IsHexDigit d h = elim (Bool-cases (ltb d 10)) [
  | inl e ↦ rw e (record {
    value = ground arith;
    no_space = ground arith;
    no_minus = ground arith;
    no_plus = ground arith;
  })
  | inr e ↦ rw e (record {
    value = ground arith;
    no_space = ground arith;
    no_minus = ground arith;
    no_plus = ground arith;
  })
]

-- the number that two digits stand for
stoi-pair :
    (d e a b : ℕ)
    → IsHexDigit d a
    → IsHexDigit e b
    → d < 16
    → e < 16
    → stoi 16 (a ∷ b ∷ []) ≡ some (pos (d * 16 + e))
unfolding stoi skip_spaces read_digits
stoi-pair d e a b h k small small' =
    let fits : ltb (d * 16 + e) (2 ^ 31) ≡ true = ground arith in
    let front : skip_spaces (a ∷ b ∷ []) ≡ a ∷ b ∷ [] = rw h.no_space refl in
    let sign : read_sign (a ∷ b ∷ []) ≡ (false, a ∷ b ∷ []) = rw (h.no_minus, h.no_plus) refl in
    let second : read_digits 16 (b ∷ []) d ≡ d * 16 + e =
      ap (λ (o : Option ℕ). elim o as (λ _. ℕ) [ none ↦ d | some x ↦ d * 16 + x ]) k.value in
    let number : read_number 16 (a ∷ b ∷ []) ≡ some (d * 16 + e) =
      ap
        (λ (o : Option ℕ). elim o as (λ _. Option ℕ) [
          | none ↦ none
          | some x ↦ some (read_digits 16 (b ∷ []) x)
        ])
        h.value
      ∙ ap some second in
    ap (λ t. to_int (read_sign t).0 (read_number 16 (skip_prefix 16 (read_sign t).1))) front
    ∙ ap (λ (t : Bool × List ℕ). to_int t.0 (read_number 16 (skip_prefix 16 t.1))) sign
    ∙ ap (to_int false) number
    ∙ rw fits refl

stoi-hex2 : (b : ℕ) → IsByte b → stoi 16 (hex2 b) ≡ some (pos b)
unfolding hex2
stoi-hex2 b h =
    let whole : b / 16 % 16 * 16 + b % 16 ≡ b = omega arith in
    stoi-pair (b / 16 % 16) (b % 16) _ _ (hex_digit-IsHexDigit (b / 16 % 16) (omega arith))
      (hex_digit-IsHexDigit (b % 16) (omega arith)) (omega arith) (omega arith)
    ∙ ap (λ n. some (pos n)) whole

byte-wrapped : (b : ℕ) → IsByte b → wrapped 8 (pos b) ≡ b
byte-wrapped b h = omega arith

hex_bytes-pair :
    (a b : ℕ) (n : ℕ) (text bytes : List ℕ)
    → stoi 16 (a ∷ b ∷ []) ≡ some (pos n)
    → hex_bytes text ≡ some bytes
    → hex_bytes (a ∷ b ∷ text) ≡ some (wrapped 8 (pos n) ∷ bytes)
unfolding hex_bytes
hex_bytes-pair a b n text bytes h k =
    ap
      (λ (o : Option ℤ). elim o as (λ _. Option (List ℕ)) [
        | none ↦ none
        | some z ↦ elim (hex_bytes text) as (λ _. Option (List ℕ)) [
          | none ↦ none
          | some bytes ↦ some (wrapped 8 z ∷ bytes)
        ]
      ])
      h
    ∙ ap
        (λ (o : Option (List ℕ)). elim o as (λ _. Option (List ℕ)) [
          | none ↦ none
          | some bytes ↦ some (wrapped 8 (pos n) ∷ bytes)
        ])
        k

-- `modbussend` reads exactly the bytes that the display's thread has written as text.
pub hex_bytes-hex_text :
    (bytes : List ℕ) → All IsByte bytes → hex_bytes (hex_text bytes) ≡ some bytes
unfolding hex_bytes hex_text hex2
hex_bytes-hex_text [] h = refl
hex_bytes-hex_text (b ∷ bytes) h =
    hex_bytes-pair _ _ b (hex_text bytes) bytes (stoi-hex2 b h.0) (hex_bytes-hex_text bytes h.1)
    ∙ ap (λ n. some (n ∷ bytes)) (byte-wrapped b h.0)

digit-no_bracket :
    (d : ℕ) → d < 16 → ((hex_digit d == b'<') ≡ false) × ((hex_digit d == b'>') ≡ false)
digit-no_bracket d h = elim (Bool-cases (ltb d 10)) [
  | inl e ↦ rw e (ground arith)
  | inr e ↦ rw e (ground arith)
]

-- the answer of `modbussend`, without its brackets
pub response-without_brackets :
    (bytes : List ℕ) → without_brackets (response_text bytes) ≡ hex_text bytes ++ 10 ∷ []
unfolding without_brackets response_text hex_text hex2
response-without_brackets [] = refl
response-without_brackets (b ∷ bytes) =
    let (h1, h2) = digit-no_bracket (b / 16 % 16) (omega arith) in
    let (l1, l2) = digit-no_bracket (b % 16) (omega arith) in
    rw (h1, h2, l1, l2, response-without_brackets bytes) refl

read_pairs-pair :
    (stale a b n : ℕ) (text : List ℕ)
    → stoi 16 (a ∷ b ∷ []) ≡ some (pos n)
    → read_pairs stale (a ∷ b ∷ text) ≡ wrapped 8 (pos n) ∷ read_pairs (wrapped 8 (pos n)) text
unfolding read_pairs
read_pairs-pair stale a b n text h = rw h refl

pub read_pairs-hex_text :
    (stale : ℕ) (bytes : List ℕ)
    → All IsByte bytes
    → read_pairs stale (hex_text bytes ++ 10 ∷ []) ≡ bytes
unfolding read_pairs hex_text hex2
read_pairs-hex_text stale [] h = refl
read_pairs-hex_text stale (b ∷ bytes) h =
    read_pairs-pair stale _ _ b (hex_text bytes ++ 10 ∷ []) (stoi-hex2 b h.0)
    ∙ ap (λ n. n ∷ read_pairs n (hex_text bytes ++ 10 ∷ [])) (byte-wrapped b h.0)
    ∙ ap (λ l. b ∷ l) (read_pairs-hex_text b bytes h.1)
