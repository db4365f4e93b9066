-- ===== src/Memory/Cells/Total.antt =====
-- Memory/Cells: the loops of `Save` where they stay inside their arrays.
use epsolar_tracer_client.Base.{
  ℕ, zero, suc, ◌+◌, ◌*◌, ◌≤◌, ◌<◌, ◌≡◌, refl, ◌∙◌, pos, Bool, true, false, List, [], ◌∷◌, All,
  length, get_elem?, update?, get_int16, leb, ◌==◌, if◌then◌else◌, Option, none, some, arith,
}
use epsolar_tracer_client.Memory.State.{Register}
use epsolar_tracer_client.Memory.Cells.{
  ◌>>=◌, copy_bytes, store_cells, store_user, change_register, int16_from,
}
use epsolar_tracer_client.Memory.Cells.Sizes.{length-update?, HasHeaderArray}

-- a step without an access outside an array
abbrev pub IsTotal : {A : Type 0} → Option A → Type 0
IsTotal {A} o = (a : A) × (o ≡ some a)

pub IsTotal->>= :
    {A B : Type 0} (o : Option A) (f : A → Option B)
    → IsTotal o
    → ((a : A) → o ≡ some a → IsTotal (f a))
    → IsTotal (o >>= f)
IsTotal->>= none f t h = ground (arith, t.1)
IsTotal->>= (some a) f t h = h a refl

pub IsTotal-if :
    {A : Type 0} (b : Bool) {o o' : Option A}
    → (b ≡ true → IsTotal o)
    → (b ≡ false → IsTotal o')
    → IsTotal (if b then o else o')
IsTotal-if true h h' = h refl
IsTotal-if false h h' = h' refl

pub get_elem?-IsTotal :
    {A : Type 0} (xs : List A) (i : ℕ) → i < length xs → IsTotal (get_elem? xs i)
get_elem?-IsTotal [] i h = absurd (omega arith)
get_elem?-IsTotal (x ∷ xs) zero h = (x, refl)
get_elem?-IsTotal (x ∷ xs) (suc i) h = get_elem?-IsTotal xs i (omega arith)

update?-IsTotal :
    {A : Type 0} (xs : List A) (i : ℕ) (f : A → A) → i < length xs → IsTotal (update? xs i f)
update?-IsTotal [] i f h = absurd (omega arith)
update?-IsTotal (x ∷ xs) zero f h = (f x ∷ xs, refl)
update?-IsTotal (x ∷ xs) (suc i) f h =
    let (ys, e) = update?-IsTotal xs i f (omega arith) in (x ∷ ys, rw e refl)

pub copy_bytes-IsTotal :
    (count n : ℕ) (source target : List ℕ)
    → n + count ≤ length source
    → n + count ≤ length target
    → IsTotal (copy_bytes count n source target)
unfolding copy_bytes
copy_bytes-IsTotal zero n source target h h' = (target, refl)
copy_bytes-IsTotal (suc count) n source target h h' =
    IsTotal->>= (get_elem? source n) _ (get_elem?-IsTotal source n (omega arith)) (λ b e.
      IsTotal->>= (update? target n (λ _. b)) _ (update?-IsTotal target n (λ _. b) (omega arith))
        (λ target' e'.
          let len = length-update? target n (λ _. b) e' in
          copy_bytes-IsTotal count (n + 1) source target' (omega arith) (omega arith)))

-- each of the reads of a loop of `count` rounds finds a value
abbrev pub CanRead : (ℕ → Option ℕ) → ℕ → ℕ → ℕ → Type 0
CanRead read step zero n = Unit
CanRead read step (suc count) n = IsTotal (read n) × CanRead read step count (n + step)

pub CanRead-bytes :
    (payload : List ℕ) (count n : ℕ)
    → n + count ≤ length payload
    → CanRead (get_elem? payload) 1 count n
CanRead-bytes payload zero n h = tt
CanRead-bytes payload (suc count) n h =
    (get_elem?-IsTotal payload n (omega arith), CanRead-bytes payload count (n + 1) (omega arith))

pub int16_from-IsTotal :
    (payload : List ℕ) (n : ℕ) → n + 1 < length payload → IsTotal (int16_from payload n)
int16_from-IsTotal payload n h =
    IsTotal->>= (get_elem? payload n) _ (get_elem?-IsTotal payload n (omega arith)) (λ hi e.
      IsTotal->>= (get_elem? payload (n + 1)) (λ lo. some (get_int16 hi lo))
        (get_elem?-IsTotal payload (n + 1) (omega arith)) (λ lo e'. (get_int16 hi lo, refl)))

pub CanRead-words :
    (payload : List ℕ) (count n : ℕ)
    → n + 2 * count ≤ length payload
    → CanRead (int16_from payload) 2 count n
CanRead-words payload zero n h = tt
CanRead-words payload (suc count) n h =
    (int16_from-IsTotal payload n (omega arith), CanRead-words payload count (n + 2) (omega arith))

-- The loop over the cells, whose guard is the size of the array.
module _ {A : Type 0} (put : ℕ → A → A) (read : ℕ → Option ℕ) (step bound : ℕ) where
  pub store_cells-IsTotal :
      (count n m : ℕ) (cells : List A)
      → length cells ≡ bound
      → CanRead read step count n
      → IsTotal (store_cells (some bound) put read step count n m cells)
  unfolding store_cells
  store_cells-IsTotal zero n m cells len can = ((some m, cells), refl)
  store_cells-IsTotal (suc count) n m cells len can =
      IsTotal-if (leb bound m) (λ _. ((none, cells), refl))
        (λ inside. IsTotal->>= (read n) _ can.0 (λ v e.
          IsTotal->>= (update? cells m (put v)) _ (update?-IsTotal cells m (put v) (ground arith))
            (λ cells' e'.
              store_cells-IsTotal count (n + step) (m + 1) cells'
                (length-update? cells m (put v) e' ∙ len) can.1)))

-- The loop over the user's registers or coils.
module _ {A : Type 0} (adress_of : A → ℕ) (put : ℕ → A → A) (read : ℕ → Option ℕ) (step : ℕ)
    (done : ℕ → Bool) (too_many : ℕ → Bool) (startadress : ℕ)
    (can : (n : ℕ) → done n ≡ false → IsTotal (read n)) where
  pub store_user-IsTotal :
      (us : List A) (started : Bool) (n : ℕ)
      → IsTotal (store_user adress_of put read step done too_many startadress us started n)
  unfolding store_user
  store_user-IsTotal [] started n = ((some n, []), refl)
  store_user-IsTotal (u ∷ us) started n =
      let write = λ (go : done n ≡ false).
        IsTotal->>= (read n)
          (λ v.
            store_user adress_of put read step done too_many startadress us true (n + step) >>= λ r.
            some (r.0, put v u ∷ r.1))
          (can n go)
          (λ v e.
            IsTotal->>= _ (λ r. some (r.0, put v u ∷ r.1)) (store_user-IsTotal us true (n + step))
              (λ r e'. (_, refl))) in
      IsTotal-if (done n) (λ _. (_, refl))
        (λ go.
          IsTotal-if (adress_of u == startadress)
            (λ _. IsTotal-if (too_many (length (u ∷ us))) (λ _. (_, refl)) (λ _. write go))
            (λ _.
              IsTotal-if _ (λ _. write go)
                (λ _.
                  IsTotal->>= _ (λ r. some (r.0, u ∷ r.1)) (store_user-IsTotal us started n)
                    (λ r e. (_, refl)))))

pub change_register-IsTotal :
    (f : Register → Option Register)
    → ((r : Register) → HasHeaderArray r → IsTotal (f r))
    → (i : ℕ) (rs : List Register) → All HasHeaderArray rs
    → i < length rs
    → IsTotal (change_register (pos i) f rs)
change_register-IsTotal f total i [] all h = absurd (omega arith)
change_register-IsTotal f total zero (r ∷ rs) all h =
    IsTotal->>= (f r) (λ r'. some (r' ∷ rs)) (total r all.0) (λ r' e. (_, refl))
change_register-IsTotal f total (suc i) (r ∷ rs) all h =
    IsTotal->>= (change_register (pos i) f rs) (λ rs'. some (r ∷ rs'))
      (change_register-IsTotal f total i rs all.1 (omega arith)) (λ rs' e. (_, refl))
