-- ===== src/Server/Commands.antt =====
-- Server: the inner loop of `action`, which saves the decoded commands.
use epsolar_tracer_client.Base.{
  ℕ, zero, suc, ◌+◌, ◌≤◌, ◌≡◌, refl, sym, ap, ◌∙◌, pos, failure, false, List, [], ◌∷◌, ◌++◌,
  append_assoc, length, length-append, get_elem?, Option, none, some, All, arith,
}
use epsolar_tracer_client.Mttp.State.{Mttp, Slot, command_size, max_commands}
use epsolar_tracer_client.Mttp.Message.{Command}
use epsolar_tracer_client.Mttp.Decode.{Taken, get_command}
use epsolar_tracer_client.Mttp.Decode.Received.{received, length-received}
use epsolar_tracer_client.Mttp.Decode.Overlay.{overlay, Fits, HasRoom}
use epsolar_tracer_client.Mttp.Decode.Delivery.{taken, get_command-received, get_command-free}
use epsolar_tracer_client.Memory.State.{Memory}
use epsolar_tracer_client.Memory.Cells.{◌>>=◌}
use epsolar_tracer_client.Server.{save_command, take_round, take_commands}

-- The commands saved one after the other.
unfoldable pub save_all : List Command → Memory → Option Memory
save_all [] mem = some mem
save_all (c ∷ cs) mem = save_command (length c.payload) (taken c) mem >>= save_all cs

-- a free slot with an array of the right size
abbrev pub IsFree : Slot → Type 0
IsFree slot = (slot.exist ≡ false) × HasRoom slot

-- Between two messages: MAX_COMMANDS slots, all of them free.
pub record IsIdle (mttp : Mttp) : Type 0 where
  pub count : length mttp.decoded_commands ≡ max_commands
  pub free : All IsFree mttp.decoded_commands

-- the slots after `cs` have been taken out of them again
pub emptied : List Command → List Slot → List Slot
emptied [] slots = slots
emptied (c ∷ cs) [] = []
emptied (c ∷ cs) (slot ∷ slots) = record (received c slot) { exist = false } ∷ emptied cs slots

-- the slot behind `pre` is free
get_elem?-free :
    (pre post : List Slot) (slot : Slot)
    → All IsFree post
    → get_elem? (pre ++ post) (length pre) ≡ some slot
    → slot.exist ≡ false
get_elem?-free [] [] slot free h = cc
get_elem?-free [] (s ∷ post) slot free h = ground arith
get_elem?-free (p ∷ pre) post slot free h = get_elem?-free pre post slot free h

-- One round of the inner loop, by what `GetCommand` gives.
take_stop :
    (left m : ℕ) (mttp : Mttp) (mem : Memory)
    → get_command command_size m mttp ≡ (failure, none, mttp)
    → take_commands (suc left) m mttp mem ≡ some (mttp, mem)
unfolding take_commands
take_stop left m mttp mem h =
    ap
      (λ g.
        take_round g (λ n t mttp'. save_command n t mem >>= take_commands left (m + 1) mttp') mem)
      h

take_step :
    (left m n : ℕ) (t : Taken) (mttp mttp' : Mttp) (mem : Memory)
    → get_command command_size m mttp ≡ (pos n, some t, mttp')
    → take_commands (suc left) m mttp mem
      ≡ (save_command n t mem >>= take_commands left (m + 1) mttp')
unfolding take_commands
take_step left m n t mttp mttp' mem h =
    ap
      (λ g.
        take_round g (λ n t mttp'. save_command n t mem >>= take_commands left (m + 1) mttp') mem)
      h

>>=-assoc :
    {A B C : Type 0} (o : Option A) (f : A → Option B) (g : B → Option C)
    → ((o >>= f) >>= g) ≡ (o >>= λ a. f a >>= g)
>>=-assoc none f g = refl
>>=-assoc (some a) f g = refl

pub >>=-some : {A : Type 0} (o : Option A) → (o >>= λ a. some a) ≡ o
>>=-some none = refl
>>=-some (some a) = refl

pub >>=_ext :
    {A B : Type 0} (o : Option A) (f g : A → Option B)
    → ((a : A) → f a ≡ g a)
    → (o >>= f) ≡ (o >>= g)
>>=_ext none f g h = refl
>>=_ext (some a) f g h = h a

-- The inner loop saves the commands in the slots from `m` on, in order, and frees those slots.
pub take_commands_lem :
    (cs : List Command) (left m : ℕ) (pre post : List Slot) (mttp : Mttp) (mem : Memory)
    → All Fits cs
    → All IsFree post
    → length cs ≤ length post
    → length cs ≤ left
    → m + left ≡ max_commands
    → m ≡ length pre
    → mttp.decoded_commands ≡ pre ++ overlay cs post
    → take_commands left m mttp mem ≡ (
        save_all cs mem >>= λ mem'.
        some (record mttp { decoded_commands = pre ++ emptied cs post }, mem'))
unfolding save_all emptied overlay
take_commands_lem [] zero m pre post mttp mem fits free enough few bound at e =
    unfold take_commands in ap (λ l. some (record mttp { decoded_commands = l }, mem)) e
take_commands_lem [] (suc left) m pre post mttp mem fits free enough few bound at e =
    take_stop left m mttp mem (
      get_command-free command_size m mttp
        (λ slot h. get_elem?-free pre post slot free (rw (← at, ← e) h)))
    ∙ ap (λ l. some (record mttp { decoded_commands = l }, mem)) e
take_commands_lem (c ∷ cs) zero m pre post mttp mem fits free enough few bound at e =
    absurd (omega arith)
take_commands_lem (c ∷ cs) (suc left) m pre [] mttp mem fits free enough few bound at e =
    absurd (omega arith)
take_commands_lem (c ∷ cs) (suc left) m pre (slot ∷ post) mttp mem fits free enough few bound at e =
    let left_slot : Slot = record (received c slot) { exist = false } in
    let mttp' : Mttp = record mttp { decoded_commands = pre ++ left_slot ∷ overlay cs post } in
    let got : get_command command_size m mttp ≡ (pos (length c.payload), some (taken c), mttp') =
      rw at (
        get_command-received c slot pre (overlay cs post) mttp (omega arith) (omega arith)
          (omega arith) e) in
    take_step left m (length c.payload) (taken c) mttp mttp' mem got
    ∙ >>=_ext (save_command (length c.payload) (taken c) mem) (take_commands left (m + 1) mttp')
        (λ mem'. save_all cs mem' >>= λ mem''.
          some (record mttp { decoded_commands = pre ++ left_slot ∷ emptied cs post }, mem''))
        (λ mem'.
          take_commands_lem cs left (m + 1) (pre ++ left_slot ∷ []) post mttp' mem' fits.1 free.1
            (omega arith) (omega arith) (omega arith)
            (omega (arith, length-append pre (left_slot ∷ [])))
            (sym (append_assoc pre (left_slot ∷ []) (overlay cs post)))
          ∙ ap
              (λ l.
                save_all cs mem' >>= λ mem''. some (record mttp { decoded_commands = l }, mem''))
              (append_assoc pre (left_slot ∷ []) (emptied cs post)))
    ∙ sym (
        >>=-assoc (save_command (length c.payload) (taken c) mem) (save_all cs) (λ mem''.
          some (record mttp { decoded_commands = pre ++ left_slot ∷ emptied cs post }, mem'')))

pub length-emptied :
    (cs : List Command) (slots : List Slot) → length (emptied cs slots) ≡ length slots
unfolding emptied
length-emptied [] slots = refl
length-emptied (c ∷ cs) [] = refl
length-emptied (c ∷ cs) (slot ∷ slots) = ap suc (length-emptied cs slots)

pub emptied-IsFree :
    (cs : List Command) (slots : List Slot) → All IsFree slots → All IsFree (emptied cs slots)
unfolding emptied
emptied-IsFree [] slots free = free
emptied-IsFree (c ∷ cs) [] free = free
emptied-IsFree (c ∷ cs) (slot ∷ slots) free =
    ((refl, length-received c slot ∙ free.0.1), emptied-IsFree cs slots free.1)
