-- ===== src/Tests/Data.antt =====
-- The inputs that the examples share.
use epsolar_tracer_client.Base.{
  ℕ, zero, suc, ◌≤◌, refl, pos, true, false, List, [], ◌∷◌, All, replicate, high_byte, low_byte,
  arith,
}
use epsolar_tracer_client.Common.{e_reg, e_coil}
use epsolar_tracer_client.Mttp.State.{Mttp, Slot, command_size, max_commands}
use epsolar_tracer_client.Mttp.Message.{Command}
use epsolar_tracer_client.Memory.State.{
  Memory, Register, Coil, DiscreteInput, max_coils, max_discrete_inputs, max_header_size,
  max_dev_info_lenght,
}
use epsolar_tracer_client.Memory.Cells.Sizes.{HasHeaderArray}
use epsolar_tracer_client.Memory.Invariant.{IsValid}
use epsolar_tracer_client.Modbus.Crc.{crc16}
use epsolar_tracer_client.Modbus.Receive.{t1_5}
use epsolar_tracer_client.Modbus.Receive.Silence.{IsQuick}
use epsolar_tracer_client.Server.Commands.{IsFree, IsIdle}

pub All-replicate : {A : Type 0} (P : A → Type 0) (a : A) (n : ℕ) → P a → All P (replicate n a)
All-replicate P a zero p = tt
All-replicate P a (suc n) p = (p, All-replicate P a n p)

abbrev pub blank_slot : Slot
blank_slot = record {
  exist = false;
  datatype = 0;
  startadress = 0;
  payloadlenght = 0;
  payload = replicate command_size 0;
}

abbrev pub idle_server : Mttp
idle_server = record {
  buffer = [];
  closed = false;
  inited = false;
  decoded_commands = replicate max_commands blank_slot;
}

pub idle_server-IsIdle : IsIdle idle_server
idle_server-IsIdle = record {
  count = refl;
  free = All-replicate IsFree blank_slot max_commands (refl, refl);
}

-- two registers, one of which holds a DLE
abbrev pub registers_command : Command
registers_command = record {
  memtype = e_reg;
  adress = 0x3100;
  payload = 0x10 ∷ 0x27 ∷ 0x00 ∷ 0x05 ∷ [];
}

abbrev pub coil_command : Command
coil_command = record { memtype = e_coil; adress = 0x0002; payload = 0x01 ∷ [] }

abbrev pub a_register : Register
a_register = record {
  empty = true;
  have_header = false;
  have_alternate_value = false;
  issigned = false;
  adress = 0xFFFF;
  value = 0xFFFF;
  alternate_value = 0xFFFF;
  headersize = 0;
  header = replicate max_header_size 0;
  reg_name = "";
  description = "";
  unit = "";
  multiplier = 1;
}

abbrev pub a_coil : Coil
a_coil = record { empty = true; adress = 0xFFFF; value = 0xFF; description = "" }

abbrev pub an_input : DiscreteInput
an_input = record { empty = false; adress = 0x2000; value = 1; description = "" }

abbrev pub register_at : ℕ → Register
register_at a = record a_register { empty = false; adress = a }

-- a memory with two registers in use
abbrev pub some_memory : Memory
some_memory = record {
  registers = register_at 0x3100 ∷ register_at 0x3101 ∷ replicate 178 a_register;
  coils = replicate max_coils a_coil;
  discrete_inputs = replicate max_discrete_inputs an_input;
  user_register = [];
  user_coil = [];
  user_switch = [];
  device_info1_lenght = pos 0;
  device_info1 = replicate max_dev_info_lenght 0xFF;
  device_info2_lenght = pos 0;
  device_info2 = replicate max_dev_info_lenght 0xFF;
}

pub some_memory-IsValid : IsValid some_memory
some_memory-IsValid = record {
  register_count = refl;
  headers = (refl, (refl, All-replicate HasHeaderArray a_register 178 refl));
  coil_count = refl;
  input_count = refl;
  info1_size = refl;
  info2_size = refl;
  info1_fits = omega arith;
  info2_fits = omega arith;
}

abbrev pub saved_memory : Memory
saved_memory = record some_memory {
  registers =
      record a_register { empty = false; adress = 0x3100; value = 0x1027 }
      ∷ record a_register { empty = false; adress = 0x3101; value = 5 }
      ∷ replicate 178 a_register;
}

-- the frame of the slave 1 with a function code and no data, byte by byte
abbrev pub short_crc : ℕ
short_crc = crc16 (1 ∷ 7 ∷ [])

abbrev pub short_arrivals : List (ℕ × ℕ)
short_arrivals = (100, 7) ∷ (100, high_byte short_crc) ∷ (3000, low_byte short_crc) ∷ []

pub IsQuick-replicate : (t b n : ℕ) → t ≤ t1_5 → IsQuick (replicate n (t, b))
IsQuick-replicate t b zero h = tt
IsQuick-replicate t b (suc n) h = (h, IsQuick-replicate t b n h)
