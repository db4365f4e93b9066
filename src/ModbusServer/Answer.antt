-- ===== src/ModbusServer/Answer.antt =====
-- ModbusServer: the bytes that `process` sends.
use epsolar_tracer_client.Base.{
  ℕ, zero, suc, ◌+◌, ◌*◌, ◌%◌, ◌^◌, ◌≤◌, ◌<◌, ◌≡◌, refl, sym, ap, ◌∙◌, ℤ, pos, negsuc, failure,
  Bool, true, false, ◌&&◌, List, [], ◌∷◌, ◌++◌, append_assoc, length, length-append, ◌==◌, leb, ltb,
  if◌then◌else◌, take, drop, set, get_or, u8, u16, set_int16, get_int16, int16_bytes,
  int16_bytes-get_int16, IsByte, All, high_byte, low_byte, arith, ◌⊎◌, ◌≢◌, inl, inr,
}
use epsolar_tracer_client.Memory.State.{Memory}
use epsolar_tracer_client.Memory.Read.{get_register}
use epsolar_tracer_client.Memory.Read.Counted.{get_register-counted}
use epsolar_tracer_client.Memory.Cells.Written.{word_bytes}
use epsolar_tracer_client.ModbusServer.{
  max_reg, max_buffer_size, buffer_int16, error_response, put_values, fill_response, process,
}

set-behind :
    (pre post : List ℕ) (x v i : ℕ) → i ≡ length pre → set (pre ++ x ∷ post) i v ≡ pre ++ v ∷ post
set-behind [] post x v zero e = refl
set-behind [] post x v (suc i) e = absurd (omega arith)
set-behind (p ∷ pre) post x v zero e = absurd (omega arith)
set-behind (p ∷ pre) post x v (suc i) e = ap (λ l. p ∷ l) (set-behind pre post x v i (omega arith))

set_int16-behind :
    (pre post : List ℕ) (x y v i : ℕ)
    → i ≡ length pre
    → set_int16 (pre ++ x ∷ y ∷ post) i v ≡ pre ++ high_byte v ∷ low_byte v ∷ post
set_int16-behind pre post x y v i e =
    ap (λ l. set l (i + 1) (low_byte v)) (set-behind pre (y ∷ post) x (high_byte v) i e)
    ∙ ap (λ l. set l (i + 1) (low_byte v)) (sym (append_assoc pre (high_byte v ∷ []) (y ∷ post)))
    ∙ set-behind (pre ++ high_byte v ∷ []) post y (low_byte v) (i + 1)
        (omega (arith, length-append pre (high_byte v ∷ [])))
    ∙ append_assoc pre (high_byte v ∷ []) (low_byte v ∷ post)

-- The values go behind `pre`, over the bytes that are there.
put_values-behind :
    (values pre post : List ℕ) (index : ℕ)
    → index ≡ length pre
    → 2 * length values ≤ length post
    → put_values values index (pre ++ post)
      ≡ pre ++ (word_bytes values ++ drop (2 * length values) post)
unfolding put_values
put_values-behind [] pre post index e room = refl
put_values-behind (v ∷ values) pre [] index e room = absurd (omega arith)
put_values-behind (v ∷ values) pre (x ∷ []) index e room = absurd (omega arith)
put_values-behind (v ∷ values) pre (x ∷ y ∷ post) index e room =
    let n : 2 * suc (length values) ≡ suc (suc (2 * length values)) = omega arith in
    rw (set_int16-behind pre post x y v index e, n)
      (ap (put_values values (index + 2))
          (sym (append_assoc pre (high_byte v ∷ low_byte v ∷ []) post))
        ∙ put_values-behind values (pre ++ high_byte v ∷ low_byte v ∷ []) post (index + 2)
            (omega (arith, length-append pre (high_byte v ∷ low_byte v ∷ []))) (omega arith)
        ∙ append_assoc pre (high_byte v ∷ low_byte v ∷ [])
            (word_bytes values ++ drop (2 * length values) post))

take-front_of : (pre post : List ℕ) (n : ℕ) → n ≡ length pre → take n (pre ++ post) ≡ pre
take-front_of [] post zero e = refl
take-front_of [] post (suc n) e = absurd (omega arith)
take-front_of (p ∷ pre) post zero e = absurd (omega arith)
take-front_of (p ∷ pre) post (suc n) e = ap (λ l. p ∷ l) (take-front_of pre post n (omega arith))

pub length-word_bytes : (values : List ℕ) → length (word_bytes values) ≡ 2 * length values
length-word_bytes [] = refl
length-word_bytes (v ∷ values) = omega (arith, length-word_bytes values)

-- a response with these values in the layout of the Modbus TCP standard
abbrev pub response_bytes : ℕ → ℕ → ℕ → List ℕ → List ℕ
response_bytes id proto unitid values =
    int16_bytes id
    ++ (int16_bytes proto
        ++ (int16_bytes (3 + 2 * length values)
            ++ unitid ∷ 0x04 ∷ u8 (2 * length values) ∷ word_bytes values))

-- the nine bytes before the values, as they are when the loop starts
module _ (buffer values rest : List ℕ) (r0 r1 r2 r3 r4 r5 r6 r7 r8 : ℕ) where
  abbrev uninitialised : List ℕ
  uninitialised = r0 ∷ r1 ∷ r2 ∷ r3 ∷ r4 ∷ r5 ∷ r6 ∷ r7 ∷ r8 ∷ rest

  fill_response-bytes :
      get_or buffer 7 0 ≡ 0x04
      → 2 * length values ≤ length rest
      → length values ≤ max_reg
      → fill_response buffer (length values) values uninitialised
        ≡ response_bytes (buffer_int16 buffer 0) (buffer_int16 buffer 2) (get_or buffer 6 0) values
  unfolding fill_response
  fill_response-bytes function room few =
      let id = buffer_int16 buffer 0 in
      let proto = buffer_int16 buffer 2 in
      let n = length values in
      let header =
        high_byte id
        ∷ low_byte id
        ∷ high_byte proto
        ∷ low_byte proto
        ∷ r4
        ∷ r5
        ∷ get_or buffer 6 0
        ∷ get_or buffer 7 0
        ∷ u8 (n * 2)
        ∷ [] in
      let put : put_values values 9 (header ++ rest)
          ≡ header ++ (word_bytes values ++ drop (2 * n) rest) =
        put_values-behind values header rest 9 refl room in
      let whole = response_bytes id proto (get_or buffer 6 0) values in
      let count : u8 (n * 2) ≡ u8 (2 * n) = ap u8 (omega arith) in
      let lenght : u16 (3 + 2 * n) ≡ 3 + 2 * n = omega arith in
      ap (λ l. take (u16 (3 + 2 * n) + 6) (set_int16 l 4 (u16 (3 + 2 * n)))) put
      ∙ ap (λ k. take (k + 6) (set_int16 (header ++ (word_bytes values ++ drop (2 * n) rest)) 4 k))
          lenght
      ∙ (rw (function, count)
          (take-front_of whole (drop (2 * n) rest) (3 + 2 * n + 6)
            (omega (arith, length-word_bytes values))))

fill_response-whole :
    (buffer values response : List ℕ)
    → get_or buffer 7 0 ≡ 0x04
    → length values ≤ max_reg
    → length response ≡ max_buffer_size
    → fill_response buffer (length values) values response
      ≡ response_bytes (buffer_int16 buffer 0) (buffer_int16 buffer 2) (get_or buffer 6 0) values
fill_response-whole buffer values [] function few size = absurd (omega arith)
fill_response-whole buffer values (r0 ∷ []) function few size = absurd (omega arith)
fill_response-whole buffer values (r0 ∷ r1 ∷ []) function few size = absurd (omega arith)
fill_response-whole buffer values (r0 ∷ r1 ∷ r2 ∷ []) function few size = absurd (omega arith)
fill_response-whole buffer values (r0 ∷ r1 ∷ r2 ∷ r3 ∷ []) function few size = absurd (omega arith)
fill_response-whole buffer values (r0 ∷ r1 ∷ r2 ∷ r3 ∷ r4 ∷ []) function few size =
    absurd (omega arith)
fill_response-whole buffer values (r0 ∷ r1 ∷ r2 ∷ r3 ∷ r4 ∷ r5 ∷ []) function few size =
    absurd (omega arith)
fill_response-whole buffer values (r0 ∷ r1 ∷ r2 ∷ r3 ∷ r4 ∷ r5 ∷ r6 ∷ []) function few size =
    absurd (omega arith)
fill_response-whole buffer values (r0 ∷ r1 ∷ r2 ∷ r3 ∷ r4 ∷ r5 ∷ r6 ∷ r7 ∷ []) function few size =
    absurd (omega arith)
fill_response-whole buffer values (r0 ∷ r1 ∷ r2 ∷ r3 ∷ r4 ∷ r5 ∷ r6 ∷ r7 ∷ r8 ∷ rest) function few
      size =
    fill_response-bytes buffer values rest r0 r1 r2 r3 r4 r5 r6 r7 r8 function (omega arith) few

-- the values that `GetRegister` gives
process-found :
    (buffer values response : List ℕ) (valread result : ℕ) (mem : Memory)
    → 12 ≤ valread
    → get_or buffer 7 0 ≡ 0x04
    → buffer_int16 buffer 10 ≤ max_reg
    → length response ≡ max_buffer_size
    → get_register
        (buffer_int16 buffer 8)
        (u16 (buffer_int16 buffer 8 + buffer_int16 buffer 10 + 0xFFFF))
        max_reg
        true
        mem
      ≡ (pos result, values)
    → process buffer valread response mem ≡ (
      pos 1,
      response_bytes (buffer_int16 buffer 0) (buffer_int16 buffer 2) (get_or buffer 6 0) values
          ∷ [],
    )
unfolding process
process-found buffer values response valread result mem long function few size got =
    let counted =
      get_register-counted (u16 (buffer_int16 buffer 8 + buffer_int16 buffer 10 + 0xFFFF)) max_reg
        true (buffer_int16 buffer 8) result mem values got in
    let enough : ltb valread 12 ≡ false = ground arith in
    let asked : (get_or buffer 7 0 == 0x04) ≡ true = ap (λ f. f == 0x04) function in
    let small : leb (buffer_int16 buffer 10) max_reg ≡ true = ground arith in
    rw (enough, asked, small, got)
      (ap (λ l. (pos 1, l ∷ []))
        (ap (λ k. fill_response buffer k values response) counted.0
          ∙ fill_response-whole buffer values response function (omega arith) size))

if_same : (b : Bool) (x : ℤ × List (List ℕ)) → (if b then x else x) ≡ x
if_same true x = refl
if_same false x = refl

and_false : (b : Bool) → (b && false) ≡ false
and_false true = refl
and_false false = refl

-- the three ways to an error
process-not_found :
    (buffer response values : List ℕ) (valread n : ℕ) (mem : Memory)
    → 12 ≤ valread
    → (get_or buffer 7 0 ≢ 0x04)
      ⊎ ((max_reg < buffer_int16 buffer 10)
          ⊎ (get_register
                (buffer_int16 buffer 8)
                (u16 (buffer_int16 buffer 8 + buffer_int16 buffer 10 + 0xFFFF))
                max_reg
                true
                mem
              ≡ (negsuc n, values)))
    → process buffer valread response mem ≡ (failure, error_response buffer ∷ [])
unfolding process
process-not_found buffer response values valread n mem long (inl other) =
    let enough : ltb valread 12 ≡ false = ground arith in
    let other_function : (get_or buffer 7 0 == 0x04) ≡ false = ground arith in
    rw (enough, other_function) refl
process-not_found buffer response values valread n mem long (inr (inl many)) =
    let enough : ltb valread 12 ≡ false = ground arith in
    let too_many : leb (buffer_int16 buffer 10) max_reg ≡ false = ground arith in
    rw (enough, too_many, and_false (get_or buffer 7 0 == 0x04)) refl
process-not_found buffer response values valread n mem long (inr (inr failed)) =
    let enough : ltb valread 12 ≡ false = ground arith in
    rw (enough, failed)
      (if_same ((get_or buffer 7 0 == 0x04) && leb (buffer_int16 buffer 10) max_reg)
        (failure, error_response buffer ∷ []))

-- the 16 bits of two bytes, the high one first
abbrev pub word : ℕ → ℕ → ℕ
word hi lo = hi * 256 + lo

get_int16-word : (hi lo : ℕ) → IsByte hi → IsByte lo → get_int16 hi lo ≡ word hi lo
get_int16-word hi lo h h' = omega arith

-- two words that are taken from the request and put into the answer again
echoed :
    (t0 t1 p0 p1 : ℕ) (rest : List ℕ)
    → IsByte t0
    → IsByte t1
    → IsByte p0
    → IsByte p1
    → int16_bytes (get_int16 t0 t1) ++ (int16_bytes (get_int16 p0 p1) ++ rest)
      ≡ t0 ∷ t1 ∷ p0 ∷ p1 ∷ rest
echoed t0 t1 p0 p1 rest t t' p p' =
    ap (λ l. l ++ (int16_bytes (get_int16 p0 p1) ++ rest)) (int16_bytes-get_int16 t0 t1 t t')
    ∙ ap (λ l. t0 ∷ t1 ∷ (l ++ rest)) (int16_bytes-get_int16 p0 p1 p p')

-- A request of at least 12 bytes for the function 4, in bytes: the transaction `t0 t1`, the
-- protocol `p0 p1`, the length `l0 l1`, the unit, the start address `a0 a1` and the number `n0
-- n1` of registers, at most MAX_REG. Where `GetRegister` of the addresses from the start to the
-- start plus the number less 1, in 16 bits, gives values, `process` returns 1 and one array is
-- sent, whatever its MAX_BUFFER_SIZE bytes held before: the transaction and the protocol of the
-- request, the length, the unit, 4, the number of the bytes that follow, and all the values that
-- `GetRegister` gave, high byte first, which are not always as many as asked for.
pub process-response :
    (t0 t1 p0 p1 l0 l1 unitid a0 a1 n0 n1 : ℕ) (more values response : List ℕ) (valread result : ℕ)
    (mem : Memory)
    → All IsByte (t0 ∷ t1 ∷ p0 ∷ p1 ∷ a0 ∷ a1 ∷ n0 ∷ n1 ∷ [])
    → 12 ≤ valread
    → word n0 n1 ≤ max_reg
    → length response ≡ max_buffer_size
    → get_register (word a0 a1) ((word a0 a1 + word n0 n1 + 0xFFFF) % 2 ^ 16) max_reg true mem
      ≡ (pos result, values)
    → process
        (t0 ∷ t1 ∷ p0 ∷ p1 ∷ l0 ∷ l1 ∷ unitid ∷ 0x04 ∷ a0 ∷ a1 ∷ n0 ∷ n1 ∷ more)
        valread
        response
        mem
      ≡ (
        pos 1,
        (t0
              ∷ t1
              ∷ p0
              ∷ p1
              ∷ (int16_bytes (3 + 2 * length values)
                  ++ (unitid ∷ 0x04 ∷ 2 * length values ∷ word_bytes values)))
            ∷ [],
      )
process-response t0 t1 p0 p1 l0 l1 unitid a0 a1 n0 n1 more values response valread result mem
      (t, (t', (p, (p', (a, (a', (n, (n', end)))))))) long few size got =
    let counted =
      get_register-counted ((word a0 a1 + word n0 n1 + 0xFFFF) % 2 ^ 16) max_reg true (word a0 a1)
        result mem values got in
    let start = get_int16-word a0 a1 a a' in
    let number = get_int16-word n0 n1 n n' in
    let count : u8 (2 * length values) ≡ 2 * length values = omega arith in
    process-found (t0 ∷ t1 ∷ p0 ∷ p1 ∷ l0 ∷ l1 ∷ unitid ∷ 0x04 ∷ a0 ∷ a1 ∷ n0 ∷ n1 ∷ more) values
      response valread result mem long refl (rw number few) size (rw (start, number) got)
    ∙ ap
        (λ c. (
          pos 1,
          (int16_bytes (get_int16 t0 t1)
                ++ (int16_bytes (get_int16 p0 p1)
                    ++ (int16_bytes (3 + 2 * length values)
                        ++ (unitid ∷ 0x04 ∷ c ∷ word_bytes values))))
              ∷ [],
        ))
        count
    ∙ ap (λ l. (pos 1, l ∷ [])) (echoed t0 t1 p0 p1 _ t t' p p')

-- A request of at least 12 bytes, with the transaction `t0 t1`, the protocol `p0 p1`, the start
-- address `a0 a1` and the number `n0 n1` of registers, that has another function than 4, asks for
-- more than MAX_REG registers, or whose registers `GetRegister` cannot give gets exactly the nine
-- bytes of the exception: its transaction and protocol, the length 3, its unit, its function with
-- 0x80 added, in 8 bits, and the code 2; and `process` returns -1.
pub process-refused :
    (t0 t1 p0 p1 l0 l1 unitid function a0 a1 n0 n1 : ℕ) (more response values : List ℕ)
    (valread n : ℕ) (mem : Memory)
    → All IsByte (t0 ∷ t1 ∷ p0 ∷ p1 ∷ a0 ∷ a1 ∷ n0 ∷ n1 ∷ [])
    → 12 ≤ valread
    → (function ≢ 0x04)
      ⊎ ((max_reg < word n0 n1)
          ⊎ (get_register
                (word a0 a1)
                ((word a0 a1 + word n0 n1 + 0xFFFF) % 2 ^ 16)
                max_reg
                true
                mem
              ≡ (negsuc n, values)))
    → process
        (t0 ∷ t1 ∷ p0 ∷ p1 ∷ l0 ∷ l1 ∷ unitid ∷ function ∷ a0 ∷ a1 ∷ n0 ∷ n1 ∷ more)
        valread
        response
        mem
      ≡ (failure, (t0 ∷ t1 ∷ p0 ∷ p1 ∷ 0 ∷ 3 ∷ unitid ∷ (function + 0x80) % 256 ∷ 0x02 ∷ []) ∷ [])
process-refused t0 t1 p0 p1 l0 l1 unitid function a0 a1 n0 n1 more response values valread n mem
      (t, (t', (p, (p', (a, (a', (m, (m', end)))))))) long why =
    let start = get_int16-word a0 a1 a a' in
    let number = get_int16-word n0 n1 m m' in
    process-not_found (t0 ∷ t1 ∷ p0 ∷ p1 ∷ l0 ∷ l1 ∷ unitid ∷ function ∷ a0 ∷ a1 ∷ n0 ∷ n1 ∷ more)
      response values valread n mem long (rw (start, number) why)
    ∙ ap (λ l. (failure, l ∷ [])) (echoed t0 t1 p0 p1 _ t t' p p')
