-- ===== src/Tracer/Outcome.antt =====
-- tracerctr.c, tracerclient.c: how a run of the code ends. `stuck` is a call that the inputs do not
-- answer, or an access outside an array; `exited` is `exit(0)`.
use epsolar_tracer_client.Base.{Option, none, some, ◌≡◌, refl, ap, arith}

pub data Outcome (A : Type 0) : Type 0 where
  stuck : Outcome A
  exited : Outcome A
  returned : (result : A) → Outcome A

infixl 5 ◌>>=◌
abbrev pub ◌>>=◌ : {A B : Type 0} → Outcome A → (A → Outcome B) → Outcome B
stuck >>= f = stuck
exited >>= f = exited
returned a >>= f = f a

-- an access to an array
abbrev pub accessed : {A : Type 0} → Option A → Outcome A
accessed none = stuck
accessed (some a) = returned a

-- a step that has returned has gone through its first part
pub >>=-eq-returned :
    {A B : Type 0} (o : Outcome A) (f : A → Outcome B) {b : B}
    → o >>= f ≡ returned b
    → (a : A) × (o ≡ returned a) × (f a ≡ returned b)
>>=-eq-returned stuck f h = ground arith
>>=-eq-returned exited f h = ground arith
>>=-eq-returned (returned a) f h = (a, refl, h)

pub returned_inj : {A : Type 0} {a b : A} → returned a ≡ returned b → a ≡ b
returned_inj {A} {a} h =
    ap (λ (o : Outcome A). elim o [ stuck ↦ a | exited ↦ a | returned x ↦ x ]) h
