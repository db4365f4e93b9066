-- ===== src/Tracer/Poll/Reads.antt =====
-- Tracer/Poll: what a `Read...` function does to the memory.
use mathlib.Core.Path.{subst}
use epsolar_tracer_client.Base.{
  ℕ, zero, suc, ◌+◌, ◌≡◌, refl, sym, ap, ◌∙◌, ℤ, pos, negsuc, pos_part, failure, Bool, true, false,
  List, [], ◌∷◌, ◌++◌, length, drop, if◌then◌else◌, Option, none, some, arith,
}
use epsolar_tracer_client.Modbus.Receive.Accepted.{IsFrame}
use epsolar_tracer_client.Memory.State.{Memory}
use epsolar_tracer_client.Memory.Invariant.{IsValid}
use epsolar_tracer_client.Memory.SaveResponse.{save_response}
use epsolar_tracer_client.Memory.SaveResponse.Valid.{save_response-IsValid}
use epsolar_tracer_client.Tracer.Outcome.{returned, accessed, >>=-eq-returned, returned_inj}
use epsolar_tracer_client.Tracer.Flags.{Flags}
use epsolar_tracer_client.Tracer.Controller.{Exchange, Answer, slave, modbus_send_request}
use epsolar_tracer_client.Tracer.Controller.Triggers.{
  modbus_send_request-HasTriggered, answer-IsFrame,
}
use epsolar_tracer_client.Tracer.Poll.{
  Request, Tm, Tracer, is_saved, save_answer, read_one, read_requests,
}

-- A request as an abstract step of the memory and the flags, where the line behaves as `x` says.
-- Without an answer the memory stays; the answer is a whole frame of the charge controller, all of
-- which `Save` is given, and which counts where `Save` takes it. The array may hold anything behind
-- the frame.
pub data Asks (connected : Bool) (x : Exchange) (q : Request) (f : Flags) (m : Memory)
    : Bool → Flags → Memory → Type 0 where
  unanswered :
      (a : Answer)
      → modbus_send_request connected q.req x f ≡ returned a
      → pos_part a.rc ≡ 0
      → Asks connected x q f m false a.flags m
  taken :
      (a : Answer) (behind : List ℕ) (n : ℕ) (m' : Memory)
      → modbus_send_request connected q.req x f ≡ returned a
      → a.rc ≡ pos (length a.stored)
      → IsFrame slave a.stored
      → save_response (a.stored ++ behind) (length a.stored) q.headerlenght q.req m
        ≡ some (pos n, m')
      → Asks connected x q f m true a.flags m'
  refused :
      (a : Answer) (behind : List ℕ) (n : ℕ) (m' : Memory)
      → modbus_send_request connected q.req x f ≡ returned a
      → a.rc ≡ pos (length a.stored)
      → IsFrame slave a.stored
      → save_response (a.stored ++ behind) (length a.stored) q.headerlenght q.req m
        ≡ some (negsuc n, m')
      → Asks connected x q f m false a.flags m'

-- A `Read...` function: its requests in their order, up to the first that fails. The call of
-- `modbus_send_request` with the number `k` finds the line as `line k`.
pub data Reads (connected : Bool) (line : ℕ → Exchange)
    : ℕ → Flags → Memory → List Request → ℤ → ℕ → Flags → Memory → Type 0 where
  all_read : (k : ℕ) (f : Flags) (m : Memory) → Reads connected line k f m [] (pos 1) k f m
  failed :
      (k : ℕ) (f f' : Flags) (m m' : Memory) (q : Request) (qs : List Request)
      → Asks connected (line k) q f m false f' m'
      → Reads connected line k f m (q ∷ qs) failure (k + 1) f' m'
  next :
      (k k' : ℕ) (f f' f'' : Flags) (m m' m'' : Memory) (q : Request) (qs : List Request) (ret : ℤ)
      → Asks connected (line k) q f m true f' m'
      → Reads connected line (k + 1) f' m' qs ret k' f'' m''
      → Reads connected line k f m (q ∷ qs) ret k' f'' m''

pub accessed-eq-returned :
    {A : Type 0} (o : Option A) {a : A} → accessed o ≡ returned a → o ≡ some a
accessed-eq-returned none h = ground arith
accessed-eq-returned (some b) h = ap some (returned_inj h)

pub Asks-IsValid :
    {connected : Bool} {x : Exchange} {q : Request} {f f' : Flags} {m m' : Memory} {b : Bool}
    → Asks connected x q f m b f' m'
    → IsValid m
    → IsValid m'
Asks-IsValid (unanswered a e r) v = v
Asks-IsValid {connected} {x} {q} {f} {f'} {m} (taken a behind n m' e r framed saved) v =
    save_response-IsValid (a.stored ++ behind) (length a.stored) m v q.headerlenght q.req saved
Asks-IsValid {connected} {x} {q} {f} {f'} {m} (refused a behind n m' e r framed saved) v =
    save_response-IsValid (a.stored ++ behind) (length a.stored) m v q.headerlenght q.req saved

pub Reads-IsValid :
    {connected : Bool} {line : ℕ → Exchange} {k k' : ℕ} {f f' : Flags} {m m' : Memory}
    {qs : List Request} {r : ℤ}
    → Reads connected line k f m qs r k' f' m'
    → IsValid m
    → IsValid m'
Reads-IsValid (all_read k f m) v = v
Reads-IsValid (failed k f f' m m' q qs a) v = Asks-IsValid a v
Reads-IsValid (next k k' f f' f'' m m' m'' q qs r a rest) v = Reads-IsValid rest (Asks-IsValid a v)

-- the state after a call of `modbus_send_request`
abbrev after_call : Tracer → Answer → Tracer
after_call s a = record s { flags = a.flags; asked = s.asked + 1; wire = s.wire ++ a.wire }

module _ (connected : Bool) (line : ℕ → Exchange) (time : ℕ → ℕ) (localtime : ℕ → Tm)
    (stale : ℕ → List ℕ) where
  -- a call by its abstract step, and its number
  abbrev Asked : Request → Tracer → Bool → Tracer → Type 0
  Asked q s b s' =
      Asks connected (line s.asked) q s.flags s.mem b s'.flags s'.mem × (s'.asked ≡ s.asked + 1)

  saved-Asked :
      (q : Request) (s : Tracer) (a : Answer) (behind : List ℕ) (n : ℕ) (ret : ℤ) (m' : Memory)
      → modbus_send_request connected q.req (line s.asked) s.flags ≡ returned a
      → a.rc ≡ pos (suc n)
      → (length a.stored ≡ suc n) × IsFrame slave a.stored
      → save_response (a.stored ++ behind) (suc n) q.headerlenght q.req s.mem ≡ some (ret, m')
      → Asked q s (is_saved ret) (record (after_call s a) { mem = m' })
  saved-Asked q s a behind n (pos k) m' e rc (len, framed) saved =
      (taken a behind k m' e (rc ∙ ap pos (sym len)) framed (rw len saved), refl)
  saved-Asked q s a behind n (negsuc k) m' e rc (len, framed) saved =
      (refused a behind k m' e (rc ∙ ap pos (sym len)) framed (rw len saved), refl)

  save_answer-Asked :
      (q : Request) (s : Tracer) (a : Answer) (behind : List ℕ)
      → modbus_send_request connected q.req (line s.asked) s.flags ≡ returned a
      → (rc : ℤ) → a.rc ≡ rc
      → ((n : ℕ) → a.rc ≡ pos (suc n) → (length a.stored ≡ suc n) × IsFrame slave a.stored)
      → (b : Bool) (rsp : List ℕ) (s' : Tracer)
      → save_answer connected line time localtime stale q (a.stored ++ behind) rc (after_call s a)
        ≡ returned (b, (rsp, s'))
      → Asked q s b s'
  save_answer-Asked q s a behind e (negsuc n) rc framed b rsp s' h =
      subst (λ (t : Bool × (List ℕ × Tracer)). Asked q s t.0 t.1.1) (returned_inj h)
        (unanswered a e (ap pos_part rc), refl)
  save_answer-Asked q s a behind e (pos zero) rc framed b rsp s' h =
      subst (λ (t : Bool × (List ℕ × Tracer)). Asked q s t.0 t.1.1) (returned_inj h)
        (unanswered a e (ap pos_part rc), refl)
  save_answer-Asked q s a behind e (pos (suc n)) rc framed b rsp s' h =
      let saving = save_response (a.stored ++ behind) (suc n) q.headerlenght q.req s.mem in
      let ((ret, m'), e', e'') = >>=-eq-returned (accessed saving) _ h in
      subst (λ (t : Bool × (List ℕ × Tracer)). Asked q s t.0 t.1.1) (returned_inj e'')
        (saved-Asked q s a behind n ret m' e rc (framed n rc) (accessed-eq-returned saving e'))

  read_one-Asked :
      (q : Request) (rsp : List ℕ) (s : Tracer) (b : Bool) (rsp' : List ℕ) (s' : Tracer)
      → read_one connected line time localtime stale q rsp s ≡ returned (b, (rsp', s'))
      → Asked q s b s'
  unfolding read_one
  read_one-Asked q rsp s b rsp' s' h =
      let (a, e, e') =
        >>=-eq-returned (modbus_send_request connected q.req (line s.asked) s.flags) _ h in
      save_answer-Asked q s a (drop (length a.stored) rsp) e a.rc refl
        (λ n r.
          answer-IsFrame n s.flags a
            (modbus_send_request-HasTriggered connected q.req (line s.asked) s.flags a e) r)
        b rsp' s' e'

  -- A `Read...` function that returns has made its requests in their order, one call of
  -- `modbus_send_request` each, up to the first that fails. A call whose result is positive has
  -- received a whole frame of the charge controller with a correct checksum, and each such frame,
  -- whatever its length, is given to `Save` in full; a call whose result is not positive leaves the
  -- memory as it is. A request fails without an answer and where `Save` returns a negative number;
  -- then the function returns -1, with what was saved before still in the memory, and otherwise 1.
  pub read_requests-Reads :
      (qs : List Request) (rsp : List ℕ) (s : Tracer) (r : ℤ) (s' : Tracer)
      → read_requests connected line time localtime stale qs rsp s ≡ returned (r, s')
      → Reads connected line s.asked s.flags s.mem qs r s'.asked s'.flags s'.mem
  unfolding read_requests
  read_requests-Reads [] rsp s r s' h =
      subst
        (λ (t : ℤ × Tracer).
          Reads connected line s.asked s.flags s.mem [] t.0 t.1.asked t.1.flags t.1.mem)
        (returned_inj h) (all_read s.asked s.flags s.mem)
  read_requests-Reads (q ∷ qs) rsp s r s' h =
      let ((b, (rsp', t)), e, e') =
        >>=-eq-returned (read_one connected line time localtime stale q rsp s) _ h in
      elim b
          as (λ b.
            Asked q s b t
            → (if b
                then read_requests connected line time localtime stale qs rsp' t
                else returned (failure, t))
              ≡ returned (r, s')
            → Reads connected line s.asked s.flags s.mem (q ∷ qs) r s'.asked s'.flags s'.mem) [
              | true ↦ λ a k.
                  next s.asked s'.asked s.flags t.flags s'.flags s.mem t.mem s'.mem q qs r a.0 (
                    subst (λ n. Reads connected line n t.flags t.mem qs r s'.asked s'.flags s'.mem)
                      a.1 (read_requests-Reads qs rsp' t r s' k))
              | false ↦ λ a k.
                  subst
                    (λ (z : ℤ × Tracer).
                      Reads connected line s.asked s.flags s.mem (q ∷ qs) z.0 z.1.asked z.1.flags
                        z.1.mem)
                    (returned_inj k)
                    (subst
                      (λ n.
                        Reads connected line s.asked s.flags s.mem (q ∷ qs) failure n t.flags t.mem)
                      (sym a.1) (failed s.asked s.flags t.flags s.mem t.mem q qs a.0))
            ]
        (read_one-Asked q rsp s b rsp' t e) e'
