-- ===== src/Memory/Response.antt =====
-- memory.c: `GenerateResponse`, the answer to a request of the display.
use epsolar_tracer_client.Base.{
  ℕ, ◌-◌, ℤ, pos, negsuc, ◌+ℤ◌, Bool, true, false, ◌&&◌, List, [], ◌∷◌, ◌++◌, ◌==◌, if◌then◌else◌,
  Option, none, some,
}
use epsolar_tracer_client.Memory.State.{Memory}
use epsolar_tracer_client.Memory.Read.{
  get_register_bytes, get_disc_inp, get_header, get_device_info,
}

-- `(req[0] == ..) && (req[1] == ..) && ...`; `req` is the whole array of 256 bytes.
abbrev pub is_request : List ℕ → List ℕ → Bool
is_request [] req = true
is_request (b ∷ bs) [] = false
is_request (b ∷ bs) (r ∷ req) = (r == b) && is_request bs req

-- The branches for function 0x43: the header of the first register, and if there is one, the
-- registers up to the end address behind it.
unfoldable pub block_response : ℕ → ℕ → ℕ → Memory → Option (ℤ × List ℕ)
block_response startadress endadress resultsize mem = elim (get_header startadress resultsize mem) [
  | none ↦ none
  | some (negsuc n, out) ↦ some (negsuc n, out)
  | some (pos n, out) ↦
      if n == 0
      then some (pos 0, out)
      else elim (get_register_bytes startadress endadress (resultsize - n) true mem) [
        | none ↦ none
        | some (ret, bytes) ↦ some (pos n +ℤ ret, out ++ bytes)
      ]
]

-- the branch for discrete inputs
unfoldable pub input_response : ℕ → Memory → ℤ × List ℕ
input_response resultsize mem =
    let (ret2, bytes) = get_disc_inp 0x2000 0x2000 (resultsize - 3) mem in
    (pos 3 +ℤ ret2, 0x01 ∷ 0x02 ∷ 0x01 ∷ bytes)

-- `GenerateResponse`: the result, and the bytes stored in `result` from the first on.
unfoldable pub generate_response : List ℕ → ℕ → Memory → Option (ℤ × List ℕ)
generate_response req resultsize mem =
    let is = λ (bs : List ℕ). is_request bs req in
    if is (0x01 ∷ 0x2B ∷ 0x0E ∷ 0x01 ∷ 0x00 ∷ [])
    then get_device_info 1 resultsize mem
    else if is (0x01 ∷ 0x2B ∷ 0x0E ∷ 0x02 ∷ 0x00 ∷ [])
    then get_device_info 2 resultsize mem
    else if is (0x01 ∷ 0x43 ∷ 0x30 ∷ 0x00 ∷ 0x00 ∷ 0x0F ∷ [])
    then block_response 0x3000 0x300E resultsize mem
    else if is (0x01 ∷ 0x43 ∷ 0x33 ∷ 0x02 ∷ 0x00 ∷ 0x1B ∷ [])
    then block_response 0x3302 0x331E resultsize mem
    else if is (0x01 ∷ 0x43 ∷ 0x31 ∷ 0x00 ∷ 0x00 ∷ 0x76 ∷ [])
    then block_response 0x3100 0x311D resultsize mem
    else if is (0x01 ∷ 0x43 ∷ 0x32 ∷ 0x00 ∷ 0x00 ∷ 0x04 ∷ [])
    then block_response 0x3200 0x3202 resultsize mem
    else if is (0x01 ∷ 0x43 ∷ 0x90 ∷ 0x00 ∷ 0x00 ∷ 0x76 ∷ [])
    then block_response 0x9000 0x9070 resultsize mem
    else if is (0x01 ∷ 0x43 ∷ 0x90 ∷ 0x13 ∷ 0x00 ∷ 0x03 ∷ [])
    then block_response 0x9013 0x9015 resultsize mem
    else if is (0x01 ∷ 0x02 ∷ 0x20 ∷ 0x00 ∷ 0x00 ∷ 0x01 ∷ [])
    then some (input_response resultsize mem)
    else if is (0x01 ∷ 0x0F ∷ 0x00 ∷ 0x02 ∷ 0x00 ∷ 0x01 ∷ 0x01 ∷ 0x00 ∷ [])
    then some (pos 0, [])
    else some (negsuc 1, [])
