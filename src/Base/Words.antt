-- ===== src/Base/Words.antt =====
-- The byte macros of modbus.h: sixteen bits in two bytes, the high byte first.
use Prim.Native.Nat.{ℕ, ◌+◌, ◌*◌, ◌/◌, ◌%◌, ◌^◌, ◌<◌}
use mathlib.Core.Path.{◌≡◌, refl}
use mathlib.Core.List.{List, [], ◌∷◌}
use native.Mathlib.Omega.{arith}
use epsolar_tracer_client.Base.Lists.{set}

abbrev pub u8 : ℕ → ℕ
u8 n = n % 2 ^ 8

abbrev pub u16 : ℕ → ℕ
u16 n = n % 2 ^ 16

abbrev pub IsByte : ℕ → Type 0
IsByte b = b < 256

-- MODBUS_GET_HIGH_BYTE and MODBUS_GET_LOW_BYTE
abbrev pub high_byte : ℕ → ℕ
high_byte w = w / 2 ^ 8 % 2 ^ 8

abbrev pub low_byte : ℕ → ℕ
low_byte w = w % 2 ^ 8

-- MODBUS_GET_INT16_FROM_INT8, on the two bytes that it reads, in a uint16_t
abbrev pub get_int16 : ℕ → ℕ → ℕ
get_int16 hi lo = u16 (hi * 2 ^ 8 + lo)

-- MODBUS_SET_INT16_TO_INT8 into an array of bytes
abbrev pub set_int16 : List ℕ → ℕ → ℕ → List ℕ
set_int16 buf i w = set (set buf i (high_byte w)) (i + 1) (low_byte w)

-- the two bytes that MODBUS_SET_INT16_TO_INT8 writes
abbrev pub int16_bytes : ℕ → List ℕ
int16_bytes w = high_byte w ∷ low_byte w ∷ []

pub get_int16-bytes : (w : ℕ) → w < 2 ^ 16 → get_int16 (high_byte w) (low_byte w) ≡ w
get_int16-bytes w h = omega arith

pub int16_bytes-get_int16 :
    (hi lo : ℕ) → IsByte hi → IsByte lo → int16_bytes (get_int16 hi lo) ≡ hi ∷ lo ∷ []
int16_bytes-get_int16 hi lo h h' =
    let first : (hi * 2 ^ 8 + lo) % 2 ^ 16 / 2 ^ 8 % 2 ^ 8 ≡ hi = omega arith in
    let second : (hi * 2 ^ 8 + lo) % 2 ^ 16 % 2 ^ 8 ≡ lo = omega arith in rw (first, second) refl
