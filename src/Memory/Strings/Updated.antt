-- ===== src/Memory/Strings/Updated.antt =====
-- Memory/Strings: lookups in an array of registers after one of them has been changed.
use epsolar_tracer_client.Base.{
  ℕ, zero, suc, ◌+◌, ◌≡◌, ◌≢◌, refl, sym, ap, ◌∙◌, List, [], ◌∷◌, get_elem?, update?, some,
  Option-cases, some_inj, inl, inr, arith,
}
use epsolar_tracer_client.Memory.State.{Register}
use epsolar_tracer_client.Memory.Lookup.{find_index, get_reg_start_index}
use epsolar_tracer_client.Memory.Cells.{put_alternate}

-- An index in the array can be written, and then holds the new value.
pub update?-some :
    {A : Type 0} (xs : List A) (i : ℕ) (f : A → A) {x : A}
    → get_elem? xs i ≡ some x
    → (ys : List A) × (update? xs i f ≡ some ys) × (get_elem? ys i ≡ some (f x))
update?-some [] i f h = cc
update?-some (y ∷ xs) zero f h = (f y ∷ xs, refl, ap some (ap f (some_inj h)))
update?-some (y ∷ xs) (suc i) f h =
    let (ys, e, e') = update?-some xs i f h in (y ∷ ys, ground (arith, e), e')

pub get_elem?-update?_ne :
    {A : Type 0} (xs : List A) (i j : ℕ) (f : A → A) {ys : List A}
    → update? xs i f ≡ some ys
    → i ≢ j
    → get_elem? ys j ≡ get_elem? xs j
get_elem?-update?_ne [] i j f h ne = cc
get_elem?-update?_ne (x ∷ xs) zero zero f h ne = absurd (ne refl)
get_elem?-update?_ne (x ∷ xs) zero (suc j) f h ne = ap (λ l. get_elem? l (suc j)) (sym (some_inj h))
get_elem?-update?_ne (x ∷ xs) (suc i) zero f h ne = elim (Option-cases (update? xs i f)) [
  | inl e ↦ ground arith
  | inr (zs, e) ↦
      let h' : some (x ∷ zs) ≡ some _ = rw e at h in ap (λ l. get_elem? l 0) (sym (some_inj h'))
]
get_elem?-update?_ne (x ∷ xs) (suc i) (suc j) f {ys} h ne = elim (Option-cases (update? xs i f)) [
  | inl e ↦ ground arith
  | inr (zs, e) ↦
      let h' : some (x ∷ zs) ≡ some ys = rw e at h in
      ap (λ l. get_elem? l (suc j)) (sym (some_inj h'))
      ∙ get_elem?-update?_ne xs i j f e (λ same. ne (ap suc same))
]

find_index-update? :
    (a n i v : ℕ) (rs : List Register) {rs' : List Register}
    → update? rs i (put_alternate v) ≡ some rs'
    → find_index (λ r. r.adress) (λ r. r.empty) a rs' n
      ≡ find_index (λ r. r.adress) (λ r. r.empty) a rs n
unfolding find_index
find_index-update? a n i v [] h = cc
find_index-update? a n zero v (r ∷ rs) h = rw (sym (some_inj h)) refl
find_index-update? a n (suc i) v (r ∷ rs) {rs'} h =
    elim (Option-cases (update? rs i (put_alternate v))) [
      | inl e ↦ ground arith
      | inr (zs, e) ↦
          let h' : some (r ∷ zs) ≡ some rs' = rw e at h in
          rw (sym (some_inj h'), find_index-update? a (n + 1) i v rs e) refl
    ]

-- An alternate value does not move any register.
pub start_index-update? :
    (a i v : ℕ) (rs : List Register) {rs' : List Register}
    → update? rs i (put_alternate v) ≡ some rs'
    → get_reg_start_index a rs' ≡ get_reg_start_index a rs
start_index-update? a i v rs h = rw (find_index-update? a 0 i v rs h) refl
