-- ===== src/MtcpServer/Words.antt =====
-- mtcpserver.c: how a message is cut into the words of a command.
use epsolar_tracer_client.Base.{
  ℕ, ◌≡◌, ◌≢◌, refl, ap, ◌∙◌, false, ◌||◌, List, [], ◌∷◌, ◌++◌, ◌==◌, if◌then◌else◌, All, arith,
}

-- a character before the first word
abbrev before_first : ℕ → List (List ℕ) → List (List ℕ)
before_first c [] = (c ∷ []) ∷ []
before_first c (w ∷ ws) = (c ∷ w) ∷ ws

-- `split` at single spaces, its default separator. There is always a first word.
unfoldable pub split : List ℕ → List (List ℕ)
split [] = [] ∷ []
split (c ∷ cs) = if c == b' ' then [] ∷ split cs else before_first c (split cs)

-- `if (recvstring.back() == ...) recvstring.pop_back()`: one line end, at the very end
unfoldable pub strip : List ℕ → List ℕ
strip [] = []
strip (c ∷ []) = if (c == 10) || (c == 13) then [] else c ∷ []
strip (c ∷ d ∷ cs) = c ∷ strip (d ∷ cs)

-- words with a space between them
abbrev pub joined : List (List ℕ) → List ℕ
joined [] = []
joined (w ∷ []) = w
joined (w ∷ v ∷ ws) = w ++ b' ' ∷ joined (v ∷ ws)

-- a word of a command
abbrev pub IsWithoutSpace : List ℕ → Type 0
IsWithoutSpace w = All (λ c. c ≢ b' ') w

split-word : (w rest : List ℕ) → IsWithoutSpace w → split (w ++ b' ' ∷ rest) ≡ w ∷ split rest
unfolding split
split-word [] rest h = refl
split-word (c ∷ w) rest h =
    let other : (c == b' ') ≡ false = ground (arith, h.0) in rw (other, split-word w rest h.1) refl

split-last : (w : List ℕ) → IsWithoutSpace w → split w ≡ w ∷ []
unfolding split
split-last [] h = refl
split-last (c ∷ w) h =
    let other : (c == b' ') ≡ false = ground (arith, h.0) in rw (other, split-last w h.1) refl

-- `split` gives back exactly the words that a message was put together from with single spaces;
-- none of them has a space in it. There is at least one.
pub split-join :
    (w : List ℕ) (ws : List (List ℕ))
    → All IsWithoutSpace (w ∷ ws)
    → split (joined (w ∷ ws)) ≡ w ∷ ws
split-join w [] h = split-last w h.0
split-join w (v ∷ ws) h = split-word w (joined (v ∷ ws)) h.0 ∙ ap (λ l. w ∷ l) (split-join v ws h.1)

-- one line end at the end goes
pub strip-newline : (text : List ℕ) → strip (text ++ 10 ∷ []) ≡ text
unfolding strip
strip-newline [] = refl
strip-newline (c ∷ []) = refl
strip-newline (c ∷ d ∷ text) = ap (λ l. c ∷ l) (strip-newline (d ∷ text))
