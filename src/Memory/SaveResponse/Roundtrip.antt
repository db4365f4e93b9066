-- ===== src/Memory/SaveResponse/Roundtrip.antt =====
-- Memory/SaveResponse and Memory/Read: `Save` of a block of registers, then `GetRegister`.
use epsolar_tracer_client.Base.{ℕ, true, List, [], ◌∷◌, ◌++◌}
use epsolar_tracer_client.Memory.State.{Memory, Register}
use epsolar_tracer_client.Memory.Cells.Written.{word_bytes}

-- a register with another header
abbrev headed : ℕ → List ℕ → Register → Register
headed n header r = record r { headersize = n; have_header = true; header = header }

-- the answer of the controller to the request for a block of registers: the header, the values and
-- the two bytes of the checksum
abbrev pub block_frame : List ℕ → List ℕ → ℕ → ℕ → List ℕ
block_frame header ws c0 c1 = header ++ (word_bytes ws ++ c0 ∷ c1 ∷ [])
