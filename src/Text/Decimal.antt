-- ===== src/Text/Decimal.antt =====
-- Text: std::stoi of what std::to_string has written.
use epsolar_tracer_client.Base.{
  ℕ, zero, suc, ◌+◌, ◌*◌, ◌/◌, ◌%◌, ◌^◌, ◌<◌, ◌≡◌, refl, sym, ap, ◌∙◌, ℤ, pos, negsuc, Bool, true,
  false, List, [], ◌∷◌, ◌++◌, ltb, Option, none, some, arith, Bool-cases, inl, inr,
}
use epsolar_tracer_client.Text.{
  digits, to_string, int_to_string, skip_spaces, digit_value, read_digits, skip_prefix, read_number,
  read_sign, to_int, stoi,
}

digit_lem : (d : ℕ) → d < 10 → digit_value 10 (b'0' + d) ≡ some d
digit_lem d h = ground arith

read_digits-digit :
    (base c d acc : ℕ) (cs : List ℕ)
    → digit_value base c ≡ some d
    → read_digits base (c ∷ cs) acc ≡ read_digits base cs (acc * base + d)
unfolding read_digits
read_digits-digit base c d acc cs h =
    ap (λ o. elim o as (λ x. ℕ) [ none ↦ acc | some d ↦ read_digits base cs (acc * base + d) ]) h

-- The digits of a number begin with a digit; reading all of them gives the number, and goes on with
-- what stands behind.
record ReadsBack (n : ℕ) (rest text : List ℕ) : Type 0 where
  first : ℕ
  others : List ℕ
  value : ℕ
  starts : text ≡ first ∷ others
  is_digit : first ≡ b'0' + value
  below_ten : value < 10
  reads : read_digits 10 others value ≡ read_digits 10 rest n

digits-ReadsBack :
    (rounds n : ℕ) (rest : List ℕ) → n < rounds → ReadsBack n rest (digits rounds n rest)
unfolding digits
digits-ReadsBack zero n rest h = absurd (omega arith)
digits-ReadsBack (suc rounds) n rest h = elim (Bool-cases (ltb n 10)) [
  | inl e ↦ record {
    first = b'0' + n;
    others = rest;
    value = n;
    starts = rw e refl;
    is_digit = refl;
    below_ten = ground arith;
    reads = refl;
  }
  | inr e ↦
      let r = digits-ReadsBack rounds (n / 10) ((b'0' + n % 10) ∷ rest) (ground arith) in
      let whole : n / 10 * 10 + n % 10 ≡ n = omega arith in
      record {
        first = r.first;
        others = r.others;
        value = r.value;
        starts = rw e r.starts;
        is_digit = r.is_digit;
        below_ten = r.below_ten;
        reads =
            r.reads
            ∙ read_digits-digit 10 (b'0' + n % 10) (n % 10) (n / 10) rest
                (digit_lem (n % 10) (omega arith))
            ∙ ap (read_digits 10 rest) whole;
      }
]

-- what may follow a number: anything but a digit
abbrev pub EndsNumber : List ℕ → Type 0
EndsNumber [] = Unit
EndsNumber (c ∷ cs) = digit_value 10 c ≡ none

read_digits-end : (rest : List ℕ) (acc : ℕ) → EndsNumber rest → read_digits 10 rest acc ≡ acc
unfolding read_digits
read_digits-end [] acc h = refl
read_digits-end (c ∷ cs) acc h =
    ap (λ o. elim o as (λ x. ℕ) [ none ↦ acc | some d ↦ read_digits 10 cs (acc * 10 + d) ]) h

skip_prefix-decimal : (text : List ℕ) → skip_prefix 10 text ≡ text
skip_prefix-decimal [] = refl
skip_prefix-decimal (a ∷ []) = refl
skip_prefix-decimal (a ∷ b ∷ []) = refl
skip_prefix-decimal (a ∷ b ∷ c ∷ cs) = refl

digits-append :
    (rounds n : ℕ) (front rest : List ℕ)
    → digits rounds n front ++ rest ≡ digits rounds n (front ++ rest)
unfolding digits
digits-append zero n front rest = refl
digits-append (suc rounds) n front rest = elim (Bool-cases (ltb n 10)) [
  | inl e ↦ rw e refl
  | inr e ↦ rw e (digits-append rounds (n / 10) ((b'0' + n % 10) ∷ front) rest)
]

-- the number at the front of a text that starts with its digits
read_number-to_string :
    (n : ℕ) (rest : List ℕ) → EndsNumber rest → read_number 10 (to_string n ++ rest) ≡ some n
unfolding to_string
read_number-to_string n rest h =
    let r = digits-ReadsBack (suc n) n rest (omega arith) in
    ap (read_number 10) (digits-append (suc n) n [] rest ∙ r.starts)
    ∙ ap
        (λ o. elim o as (λ x. Option ℕ) [ none ↦ none | some d ↦ some (read_digits 10 r.others d) ])
        (ap (digit_value 10) r.is_digit ∙ digit_lem r.value r.below_ten)
    ∙ ap some (r.reads ∙ read_digits-end rest n h)

starts_number :
    (d : ℕ) (cs : List ℕ)
    → d < 10
    → (skip_spaces ((b'0' + d) ∷ cs) ≡ (b'0' + d) ∷ cs)
      × (read_sign ((b'0' + d) ∷ cs) ≡ (false, (b'0' + d) ∷ cs))
unfolding skip_spaces
starts_number d cs h = (ground arith, ground arith)

stoi-unsigned :
    (d : ℕ) (cs : List ℕ)
    → d < 10
    → stoi 10 ((b'0' + d) ∷ cs) ≡ to_int false (read_number 10 ((b'0' + d) ∷ cs))
unfolding stoi
stoi-unsigned d cs h =
    let front = starts_number d cs h in
    ap (λ t. let signed = read_sign t in to_int signed.0 (read_number 10 (skip_prefix 10 signed.1)))
      front.0
    ∙ ap (λ (signed : Bool × List ℕ). to_int signed.0 (read_number 10 (skip_prefix 10 signed.1)))
        front.1
    ∙ ap (λ t. to_int false (read_number 10 t)) (skip_prefix-decimal ((b'0' + d) ∷ cs))

stoi-minus : (text : List ℕ) → stoi 10 (b'-' ∷ text) ≡ to_int true (read_number 10 text)
unfolding stoi skip_spaces
stoi-minus text = ap (λ t. to_int true (read_number 10 t)) (skip_prefix-decimal text)

-- what an `int` can hold
abbrev pub InRange : ℤ → Type 0
InRange (pos n) = n < 2 ^ 31
InRange (negsuc n) = n < 2 ^ 31

to_string-stoi :
    (n : ℕ) (rest : List ℕ)
    → EndsNumber rest
    → stoi 10 (to_string n ++ rest) ≡ to_int false (some n)
to_string-stoi n rest h =
    let r = digits-ReadsBack (suc n) n rest (omega arith) in
    let text : to_string n ++ rest ≡ (b'0' + r.value) ∷ r.others =
      unfold to_string in
      digits-append (suc n) n [] rest ∙ r.starts ∙ ap (λ c. c ∷ r.others) r.is_digit in
    ap (stoi 10) text
    ∙ stoi-unsigned r.value r.others r.below_ten
    ∙ ap (to_int false) (ap (read_number 10) (sym text) ∙ read_number-to_string n rest h)

-- std::stoi in base 10 reads every `int` back that std::to_string has written, whatever stands
-- behind it but a digit.
pub stoi-int_to_string :
    (z : ℤ) (rest : List ℕ)
    → InRange z
    → EndsNumber rest
    → stoi 10 (int_to_string z ++ rest) ≡ some z
unfolding int_to_string
stoi-int_to_string (pos n) rest h e = to_string-stoi n rest e ∙ (ground arith)
stoi-int_to_string (negsuc n) rest h e =
    stoi-minus (to_string (suc n) ++ rest)
    ∙ ap (to_int true) (read_number-to_string (suc n) rest e)
    ∙ (ground arith)
