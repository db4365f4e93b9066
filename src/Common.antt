-- ===== src/Common.antt =====
-- common.h: the numbers of `enum data` and `enum action`. Both have the underlying type uint8_t,
-- and `AddMessage` casts any received byte to `data`, so a value is a byte.
use epsolar_tracer_client.Base.{ℕ}

abbrev pub e_not_set : ℕ
e_not_set = 0x00

abbrev pub e_all : ℕ
e_all = 0x30

abbrev pub e_dev_info1 : ℕ
e_dev_info1 = 0x31

abbrev pub e_dev_info2 : ℕ
e_dev_info2 = 0x32

abbrev pub e_reg : ℕ
e_reg = 0x33

abbrev pub e_coil : ℕ
e_coil = 0x34

abbrev pub e_disc_inp : ℕ
e_disc_inp = 0x35

abbrev pub e_header : ℕ
e_header = 0x36

abbrev pub e_user : ℕ
e_user = 0x37

abbrev pub e_user_reg : ℕ
e_user_reg = 0x38

abbrev pub e_user_coil : ℕ
e_user_coil = 0x39

abbrev pub e_none : ℕ
e_none = 0x20

abbrev pub e_put : ℕ
e_put = 0x21

abbrev pub e_get : ℕ
e_get = 0x22

abbrev pub e_heartbeat : ℕ
e_heartbeat = 0x29
