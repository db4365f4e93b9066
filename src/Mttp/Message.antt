-- ===== src/Mttp/Message.antt =====
-- The wire format of mttp.h, written down on its own: what a message with given commands looks
-- like.
use epsolar_tracer_client.Base.{
  ℕ, ◌+◌, List, [], ◌∷◌, ◌++◌, ◌==◌, if◌then◌else◌, length, u16, high_byte, low_byte,
}
use epsolar_tracer_client.Mttp.State.{dle, stx, etx, scd, ecd}

pub record Command : Type 0 where
  pub memtype : ℕ
  pub adress : ℕ
  pub payload : List ℕ

-- A DLE within data goes twice.
abbrev pub escape : ℕ → List ℕ
escape b = if b == dle then dle ∷ dle ∷ [] else b ∷ []

abbrev pub escape_all : List ℕ → List ℕ
escape_all [] = []
escape_all (b ∷ bs) = escape b ++ escape_all bs

-- <DLE><SCD><type><address><payload><DLE><ECD>
abbrev pub encode_command : Command → List ℕ
encode_command c =
    dle
    ∷ scd
    ∷ c.memtype
    ∷ (escape (high_byte c.adress)
        ++ (escape (low_byte c.adress) ++ (escape_all c.payload ++ dle ∷ ecd ∷ [])))

abbrev pub encode_commands : List Command → List ℕ
encode_commands [] = []
encode_commands (c ∷ cs) = encode_command c ++ encode_commands cs

-- <DLE><STX><length><action>, then the body. The length counts the whole of it, in 16 bits.
abbrev pub framed : ℕ → List ℕ → List ℕ
framed act body =
    let lenght = u16 (5 + length body) in
    dle ∷ stx ∷ high_byte lenght ∷ low_byte lenght ∷ act ∷ body

-- a whole message, up to <DLE><ETX>
abbrev pub message : ℕ → List Command → List ℕ
message act cs = framed act (encode_commands cs ++ dle ∷ etx ∷ [])
