-- ===== src/Memory/Cells/Sizes.antt =====
-- Memory/Cells: sizes of arrays under the loops of `Save`.
use epsolar_tracer_client.Base.{
  ◌<◌, ◌≤◌, ℕ, zero, suc, ◌+◌, ◌≡◌, refl, sym, ap, ◌∙◌, ℤ, pos, negsuc, true, List, [], ◌∷◌, length,
  update?, get_elem?, Option, none, some, some_inj, Option-cases, Bool-cases, inl, inr, All, arith,
}
use mathlib.Core.Path.{subst}
use epsolar_tracer_client.Memory.State.{Register, max_header_size}
use epsolar_tracer_client.Memory.Cells.{
  ◌>>=◌, copy_bytes, Stored, store_cells, put_header, change_register, outside,
}

-- Inversion of a successful step.
pub >>=-eq-some :
    {A B : Type 0} (o : Option A) (f : A → Option B) {b : B}
    → (o >>= f) ≡ some b
    → (a : A) × (o ≡ some a) × (f a ≡ some b)
>>=-eq-some none f h = cc
>>=-eq-some (some a) f h = (a, refl, h)

pub length-update? :
    {A : Type 0} (xs : List A) (i : ℕ) (f : A → A) {ys : List A}
    → update? xs i f ≡ some ys
    → length ys ≡ length xs
length-update? [] i f h = cc
length-update? (x ∷ xs) zero f h = ground arith
length-update? (x ∷ xs) (suc i) f h = elim (Option-cases (update? xs i f)) [
  | inl e ↦ ground arith
  | inr (zs, e) ↦ ground (arith, length-update? xs i f e)
]

pub length-copy_bytes :
    (count n : ℕ) (source target : List ℕ) {result : List ℕ}
    → copy_bytes count n source target ≡ some result
    → length result ≡ length target
unfolding copy_bytes
length-copy_bytes zero n source target h = ground arith
length-copy_bytes (suc count) n source target h =
    let (b, e, h') =
      >>=-eq-some (get_elem? source n)
        (λ b. update? target n (λ _. b) >>= copy_bytes count (n + 1) source) h in
    let (target', e', h'') =
      >>=-eq-some (update? target n (λ _. b)) (copy_bytes count (n + 1) source) h' in
    length-copy_bytes count (n + 1) source target' h'' ∙ length-update? target n (λ _. b) e'

-- A property that an update of a cell keeps holds of all cells afterwards.
pub All-update? :
    {A : Type 0} (P : A → Type 0) (xs : List A) (i : ℕ) (f : A → A)
    → ((x : A) → P x → P (f x))
    → {ys : List A} → update? xs i f ≡ some ys
    → All P xs
    → All P ys
All-update? P [] i f keep h all = cc
All-update? P (x ∷ xs) zero f keep {ys} h all =
    let e : f x ∷ xs ≡ ys = cc in subst (All P) e (keep x all.0, all.1)
All-update? P (x ∷ xs) (suc i) f keep {ys} h all = elim (Option-cases (update? xs i f)) [
  | inl e ↦ let e' : ◌≡◌ {A = Option (List _)} none (some ys) = ground arith in cc
  | inr (zs, e) ↦
      let e' : x ∷ zs ≡ ys = ground arith in
      subst (All P) e' (all.0, All-update? P xs i f keep e all.1)
]

module _ {A : Type 0} (P : A → Type 0) (bound : Option ℕ) (put : ℕ → A → A) (read : ℕ → Option ℕ)
    (step : ℕ) (keep : (v : ℕ) (x : A) → P x → P (put v x)) where
  -- The same for the loop over the cells.
  pub store_cells-keeps :
      (count n m : ℕ) (cells : List A) {r : Stored A}
      → store_cells bound put read step count n m cells ≡ some r
      → All P cells
      → (length r.1 ≡ length cells) × All P r.1
  unfolding store_cells
  store_cells-keeps zero n m cells {r} h all =
      let e : cells ≡ r.1 = ap (λ (s : Stored A). s.1) (some_inj h) in
      (ap length (sym e), subst (All P) e all)
  store_cells-keeps (suc count) n m cells {r} h all =
      elim (Bool-cases (outside bound put read step m)) [
        | inl o ↦
            let h' : ◌≡◌ {A = Option (Stored A)} (some (none, cells)) (some r) = rw o at h in
            let e : cells ≡ r.1 = ap (λ (s : Stored A). s.1) (some_inj h') in
            (ap length (sym e), subst (All P) e all)
        | inr o ↦
            let (v, ev, h') =
              >>=-eq-some (read n)
                (λ v.
                  update? cells m (put v)
                  >>= store_cells bound put read step count (n + step) (m + 1))
                (rw o at h) in
            let (cells', eu, h'') =
              >>=-eq-some (update? cells m (put v))
                (store_cells bound put read step count (n + step) (m + 1)) h' in
            let (len, all') =
              store_cells-keeps count (n + step) (m + 1) cells' h''
                (All-update? P cells m (put v) (keep v) eu all) in
            (len ∙ length-update? cells m (put v) eu, all')
      ]

pub All-change_register :
    (P : Register → Type 0) (f : Register → Option Register)
    → ((r r' : Register) → f r ≡ some r' → P r → P r')
    → (i : ℤ) (rs : List Register) {rs' : List Register} → change_register i f rs ≡ some rs'
    → All P rs
    → (length rs' ≡ length rs) × All P rs'
All-change_register P f keep (negsuc i) rs h all = cc
All-change_register P f keep (pos i) [] h all = cc
All-change_register P f keep (pos zero) (r ∷ rs) h all =
    let (r', e, e') = >>=-eq-some (f r) (λ r'. some (r' ∷ rs)) h in
    let e'' = some_inj e' in (ap length (sym e''), subst (All P) e'' (keep r r' e all.0, all.1))
All-change_register P f keep (pos (suc i)) (r ∷ rs) h all =
    let (rs', e, e') = >>=-eq-some (change_register (pos i) f rs) (λ rs'. some (r ∷ rs')) h in
    let (len, all') = All-change_register P f keep (pos i) rs e all.1 in
    let e'' = some_inj e' in (ap length (sym e'') ∙ ap suc len, subst (All P) e'' (all.0, all'))

-- the header array of a register has its size
abbrev pub HasHeaderArray : Register → Type 0
HasHeaderArray r = length r.header ≡ max_header_size

pub put_header-HasHeaderArray :
    (lenght : ℕ) (bytes : List ℕ) (r r' : Register)
    → put_header lenght bytes r ≡ some r'
    → HasHeaderArray r
    → HasHeaderArray r'
unfolding put_header
put_header-HasHeaderArray lenght bytes r r' h v =
    let (header, e, e') =
      >>=-eq-some (copy_bytes lenght 0 bytes r.header)
        (λ header. some (record r { headersize = lenght; have_header = true; header = header }))
        h in
    ap (λ (q : Register). length q.header) (sym (some_inj e'))
    ∙ length-copy_bytes lenght 0 bytes r.header e
    ∙ v

pub update?-lt :
    (xs : List ℕ) (i : ℕ) (f : ℕ → ℕ) {ys : List ℕ} → update? xs i f ≡ some ys → i < length xs
update?-lt [] i f h = cc
update?-lt (x ∷ xs) zero f h = omega arith
update?-lt (x ∷ xs) (suc i) f h = elim (Option-cases (update? xs i f)) [
  | inl e ↦ ground arith
  | inr (zs, e) ↦ omega (arith, update?-lt xs i f e)
]

-- Bytes that have been copied lay within the array.
pub copy_bytes-fits :
    (count n : ℕ) (source target : List ℕ) {result : List ℕ}
    → copy_bytes count n source target ≡ some result
    → n ≤ length target
    → n + count ≤ length target
unfolding copy_bytes
copy_bytes-fits zero n source target h inside = omega arith
copy_bytes-fits (suc count) n source target h inside =
    let (b, e, h') = >>=-eq-some (get_elem? source n) _ h in
    let (target', e', h'') = >>=-eq-some (update? target n (λ _. b)) _ h' in
    let lt = update?-lt target n (λ _. b) e' in
    let len = length-update? target n (λ _. b) e' in
    omega (arith, copy_bytes-fits count (n + 1) source target' h'' (omega arith))
