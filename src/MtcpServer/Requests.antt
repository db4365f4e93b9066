-- ===== src/MtcpServer/Requests.antt =====
-- MtcpServer: whole requests, from the bytes of a line to the text of the answer.
use epsolar_tracer_client.Base.{
  ℕ, zero, suc, ◌+◌, ◌/◌, ◌%◌, ◌<◌, ◌≡◌, refl, ap, ◌∙◌, inl, inr, ℤ, pos, negsuc, Bool, false, List,
  [], ◌∷◌, ◌++◌, ltb, get_elem?, All, Bool-cases, Option, some, arith,
}
use epsolar_tracer_client.Text.{codes, digits, to_string, int_to_string}
use epsolar_tracer_client.Memory.State.{Memory, Register}
use epsolar_tracer_client.Memory.Lookup.{get_reg_start_index}
use epsolar_tracer_client.Memory.Strings.{is_user_register, get_reg_str, put_reg_str}
use epsolar_tracer_client.Memory.Strings.Roundtrip.{Shows, get_reg_str-put_reg_str}
use epsolar_tracer_client.Tracer.Outcome.{returned}
use epsolar_tracer_client.Tracer.Flags.{Flags}
use epsolar_tracer_client.Tracer.Controller.{Exchange}
use epsolar_tracer_client.MtcpServer.Words.{
  split, joined, IsWithoutSpace, split-join, strip-newline,
}
use epsolar_tracer_client.MtcpServer.Reply.{Peer, text_line, say}
use epsolar_tracer_client.MtcpServer.Handle.{adress_of, memory_command, run_command, handle_command}

-- a command of several words, as a line
abbrev pub request : List (List ℕ) → List ℕ
request ws = joined ws ++ 10 ∷ []

digits-IsWithoutSpace :
    (rounds n : ℕ) (rest : List ℕ) → IsWithoutSpace rest → IsWithoutSpace (digits rounds n rest)
unfolding digits
digits-IsWithoutSpace zero n rest h = h
digits-IsWithoutSpace (suc rounds) n rest h = elim (Bool-cases (ltb n 10)) [
  | inl e ↦ rw e (ground arith, h)
  | inr e ↦ rw e (digits-IsWithoutSpace rounds (n / 10) ((b'0' + n % 10) ∷ rest) (ground arith, h))
]

number-IsWithoutSpace : (z : ℤ) → IsWithoutSpace (int_to_string z)
unfolding int_to_string to_string
number-IsWithoutSpace (pos n) = digits-IsWithoutSpace (suc n) n [] tt
number-IsWithoutSpace (negsuc n) = (ground arith, digits-IsWithoutSpace (suc (suc n)) (suc n) [] tt)

module _ (tracer_connected connected : Bool) (x : Exchange) (peer : Option Peer) (stale : ℕ)
    (flags : Flags) where
  -- a line of words is run as those words
  pub handle_command-request :
      (w : List ℕ) (ws : List (List ℕ)) (mem : Memory)
      → All IsWithoutSpace (w ∷ ws)
      → handle_command tracer_connected connected x peer stale (request (w ∷ ws)) mem flags
        ≡ run_command tracer_connected connected x peer stale (w ∷ ws) (request (w ∷ ws)) mem flags
  unfolding handle_command
  handle_command-request w ws mem h =
      ap
        (λ command.
          run_command tracer_connected connected x peer stale command (request (w ∷ ws)) mem flags)
        (ap split (strip-newline (joined (w ∷ ws))) ∙ split-join w ws h)

  run-setreg :
      (a value : List ℕ) (req : List ℕ) (mem mem' : Memory)
      → put_reg_str value (adress_of a) mem ≡ some (pos 1, mem')
      → run_command tracer_connected connected x peer stale
          (codes "setreg" ∷ a ∷ value ∷ [])
          req
          mem
          flags
        ≡ returned (say (text_line "OK") mem' flags)
  unfolding run_command memory_command
  run-setreg a value req mem mem' h = rw h refl

  run-getreg :
      (a : List ℕ) (req : List ℕ) (mem : Memory)
      → run_command tracer_connected connected x peer stale (codes "getreg" ∷ a ∷ []) req mem flags
        ≡ returned (say (get_reg_str (adress_of a) false mem) mem flags)
  unfolding run_command memory_command
  run-getreg a req mem = refl

  -- A client that sends the line `setreg`, the text `a` of an address and a number that the
  -- register at that address can show, signed or not, gets `OK`, and afterwards the line `getreg`
  -- with the same text is answered with exactly that number, both without a change of the flags.
  -- The register is not one of the user's, its address is not 0 and stands in the table, and `a`
  -- has no space.
  pub getreg-setreg :
      (a : List ℕ) (adress n : ℕ) (r : Register) (mem : Memory) (z : ℤ)
      → IsWithoutSpace a
      → adress_of a ≡ adress
      → is_user_register adress ≡ false
      → 0 < adress
      → get_reg_start_index adress mem.registers ≡ pos n
      → get_elem? mem.registers n ≡ some r
      → Shows 16 r.issigned z
      → (mem' : Memory) × (handle_command tracer_connected connected x peer stale
            (request (codes "setreg" ∷ a ∷ int_to_string z ∷ []))
            mem
            flags
          ≡ returned (say (text_line "OK") mem' flags))
        × (handle_command tracer_connected connected x peer stale
              (request (codes "getreg" ∷ a ∷ []))
              mem'
              flags
            ≡ returned (say (int_to_string z ++ 10 ∷ []) mem' flags))
  getreg-setreg a adress n r mem z spaceless at plain some_adress start there fits =
      let (mem', put, shown, orig) =
        get_reg_str-put_reg_str adress n r mem plain some_adress start there z fits in
      let set : IsWithoutSpace (codes "setreg") = ground arith in
      let get : IsWithoutSpace (codes "getreg") = ground arith in
      (
        mem',
        handle_command-request (codes "setreg") (a ∷ int_to_string z ∷ []) mem
              (set, (spaceless, (number-IsWithoutSpace z, tt)))
            ∙ run-setreg a (int_to_string z) _ mem mem' (rw at put),
        handle_command-request (codes "getreg") (a ∷ []) mem' (get, (spaceless, tt))
            ∙ run-getreg a _ mem'
            ∙ ap (λ t. returned (say t mem' flags)) (ap (λ k. get_reg_str k false mem') at ∙ shown),
      )
