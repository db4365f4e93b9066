-- ===== src/Modbus/Crc.antt =====
-- cModbus::Crc16 (modbus.c): the table-driven checksum of a serial frame.
pub mod Reference
use epsolar_tracer_client.Base.{ℕ, ◌*◌, ◌+◌, ◌^◌, bit_xor, List, [], ◌∷◌, get_or}
use epsolar_tracer_client.Modbus.Tables.{table_crc_hi, table_crc_lo}

-- the loop's two `uint8_t` variables
pub record Crc : Type 0 where
  pub crc_hi : ℕ
  pub crc_lo : ℕ

-- one round of the loop, on the byte `*buffer`
crc_round : Crc → ℕ → Crc
crc_round c b =
    let i = bit_xor c.crc_hi b in
    record { crc_hi = bit_xor c.crc_lo (get_or table_crc_hi i 0); crc_lo = get_or table_crc_lo i 0 }

crc_loop : Crc → List ℕ → Crc
unfolding crc_round
crc_loop c [] = c
crc_loop c (b ∷ bs) = crc_loop (crc_round c b) bs

abbrev crc_start : Crc
crc_start = record { crc_hi = 0xFF; crc_lo = 0xFF }

-- Both halves are bytes, so `crc_hi << 8 | crc_lo` is the sum.
abbrev join : Crc → ℕ
join c = c.crc_hi * 2 ^ 8 + c.crc_lo

-- `Crc16`, on the `buffer_length` bytes of the buffer
unfoldable pub crc16 : List ℕ → ℕ
unfolding crc_loop
crc16 buffer = join (crc_loop crc_start buffer)
