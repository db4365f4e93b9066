-- ===== src/Memory/Cells/Written.antt =====
-- What the loop over cells writes, where it meets neither a bound nor the end of its source.
use epsolar_tracer_client.Base.{
  ℕ, zero, suc, ◌+◌, ◌^◌, ◌≤◌, ◌<◌, ◌≡◌, refl, sym, ap, ◌∙◌, false, List, [], ◌∷◌, ◌++◌,
  append_assoc, length, length-append, update?, get_elem?, Option, some, arith, int16_bytes,
  high_byte, low_byte, get_int16-bytes, All,
}
use mathlib.Core.Path.{subst}
use epsolar_tracer_client.Memory.Cells.{store_cells, int16_from, outside}

-- `values` written into the first cells
unfoldable pub put_all : {A : Type 0} → (ℕ → A → A) → List ℕ → List A → List A
put_all put [] cells = cells
put_all put (v ∷ values) [] = []
put_all put (v ∷ values) (c ∷ cells) = put v c ∷ put_all put values cells

-- Reading at `n`, `n + step`, ... gives `values`.
abbrev pub Reads : (ℕ → Option ℕ) → ℕ → ℕ → List ℕ → Type 0
Reads read step n [] = Unit
Reads read step n (v ∷ values) = (read n ≡ some v) × Reads read step (n + step) values

update?-middle :
    {A : Type 0} (pre post : List A) (c : A) (i : ℕ) (f : A → A)
    → i ≡ length pre
    → update? (pre ++ c ∷ post) i f ≡ some (pre ++ f c ∷ post)
update?-middle [] post c zero f e = refl
update?-middle [] post c (suc i) f e = absurd (omega arith)
update?-middle (p ∷ pre) post c zero f e = absurd (omega arith)
update?-middle (p ∷ pre) post c (suc i) f e =
    ground (arith, update?-middle pre post c i f (omega arith))

module _ {A : Type 0} (bound : Option ℕ) (put : ℕ → A → A) (read : ℕ → Option ℕ) (step : ℕ) where
  -- With `bound` free or above the last index, the loop fills the cells from `m` on.
  pub store_cells_lem :
      (values : List ℕ) (n m last : ℕ) (pre post : List A)
      → Reads read step n values
      → m ≡ length pre
      → length values ≤ length post
      → last ≡ m + length values
      → ((i : ℕ) → i < last → outside bound put read step i ≡ false)
      → store_cells bound put read step (length values) n m (pre ++ post)
        ≡ some (some last, pre ++ put_all put values post)
  unfolding store_cells put_all
  store_cells_lem [] n m last pre post reads at fits e inside =
      let e' : m ≡ last = omega arith in rw e'
  store_cells_lem (v ∷ values) n m last pre [] reads at fits e inside = absurd (omega arith)
  store_cells_lem (v ∷ values) n m last pre (c ∷ post) reads at fits e inside =
      rw (inside m (omega arith), reads.0, update?-middle pre post c m (put v) at)
        (ap (store_cells bound put read step (length values) (n + step) (m + 1))
            (sym (append_assoc pre (put v c ∷ []) post))
          ∙ store_cells_lem values (n + step) (m + 1) last (pre ++ put v c ∷ []) post reads.1
              (omega (arith, length-append pre (put v c ∷ []))) (omega arith) (omega arith) inside
          ∙ ap (λ l. some (some last, l))
              (append_assoc pre (put v c ∷ []) (put_all put values post)))

-- The bytes of 16-bit words, the high byte first.
abbrev pub word_bytes : List ℕ → List ℕ
word_bytes [] = []
word_bytes (w ∷ ws) = int16_bytes w ++ word_bytes ws

abbrev pub IsWord : ℕ → Type 0
IsWord w = w < 2 ^ 16

get_elem?-behind :
    (pre post : List ℕ) (b i : ℕ) → i ≡ length pre → get_elem? (pre ++ b ∷ post) i ≡ some b
get_elem?-behind [] post b zero e = refl
get_elem?-behind [] post b (suc i) e = absurd (omega arith)
get_elem?-behind (p ∷ pre) post b zero e = absurd (omega arith)
get_elem?-behind (p ∷ pre) post b (suc i) e = get_elem?-behind pre post b i (omega arith)

int16_from-middle :
    (pre post : List ℕ) (w n : ℕ)
    → w < 2 ^ 16
    → n ≡ length pre
    → int16_from (pre ++ high_byte w ∷ low_byte w ∷ post) n ≡ some w
int16_from-middle pre post w n h e =
    let second : get_elem? (pre ++ high_byte w ∷ low_byte w ∷ post) (n + 1) ≡ some (low_byte w) =
      ap (λ l. get_elem? l (n + 1)) (sym (append_assoc pre (high_byte w ∷ []) (low_byte w ∷ post)))
      ∙ get_elem?-behind (pre ++ high_byte w ∷ []) post (low_byte w) (n + 1)
          (omega (arith, length-append pre (high_byte w ∷ []))) in
    rw (get_elem?-behind pre (low_byte w ∷ post) (high_byte w) n e, second, get_int16-bytes w h)

-- Words are read back from their bytes.
pub Reads-word_bytes :
    (ws pre post : List ℕ) (n : ℕ)
    → All IsWord ws
    → n ≡ length pre
    → Reads (int16_from (pre ++ (word_bytes ws ++ post))) 2 n ws
Reads-word_bytes [] pre post n words e = tt
Reads-word_bytes (w ∷ ws) pre post n words e =
    let bytes = high_byte w ∷ low_byte w ∷ [] in
    (
      int16_from-middle pre (word_bytes ws ++ post) w n words.0 e,
      subst (λ l. Reads (int16_from l) 2 (n + 2) ws)
          (append_assoc pre bytes (word_bytes ws ++ post))
          (Reads-word_bytes ws (pre ++ bytes) post (n + 2) words.1
            (omega (arith, length-append pre bytes))),
    )
