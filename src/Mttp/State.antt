-- ===== src/Mttp/State.antt =====
-- mttp.h: the object `cMTTP` and the control bytes of its protocol.
use epsolar_tracer_client.Base.{ℕ, Bool, List}

abbrev pub dle : ℕ
dle = 0x10

abbrev pub stx : ℕ
stx = 0x02

abbrev pub etx : ℕ
etx = 0x03

abbrev pub scd : ℕ
scd = 0x04

abbrev pub ecd : ℕ
ecd = 0x05

abbrev pub command_size : ℕ
command_size = 500

abbrev pub max_commands : ℕ
max_commands = 50

-- `struct commands`. `payload` is the array of COMMAND_SIZE bytes.
pub record Slot : Type 0 where
  pub exist : Bool
  pub datatype : ℕ
  pub startadress : ℕ
  pub payloadlenght : ℕ
  pub payload : List ℕ

-- `cMTTP`. `readindex` and `writeindex` are only ever set to 0, and `decoded_commands_list` is not
-- used.
pub record Mttp : Type 0 where
  pub buffer : List ℕ
  pub closed : Bool
  pub inited : Bool
  pub decoded_commands : List Slot
