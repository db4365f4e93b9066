-- ===== src/Memory/State.antt =====
-- memory.h: the state of `cMemory`. All its fields are static, so every object shares this one
-- state.
use Prim.Native.String.{String}
use epsolar_tracer_client.Base.{ℕ, ℤ, Bool, List}

abbrev pub max_reg : ℕ
max_reg = 180

abbrev pub max_header_size : ℕ
max_header_size = 30

abbrev pub max_discrete_inputs : ℕ
max_discrete_inputs = 3

abbrev pub max_coils : ℕ
max_coils = 29

abbrev pub max_dev_info_lenght : ℕ
max_dev_info_lenght = 100

-- `struct REGISTER`; `header` is an array of MAXHEADERSIZE bytes
pub record Register : Type 0 where
  pub empty : Bool
  pub have_header : Bool
  pub have_alternate_value : Bool
  pub issigned : Bool
  pub adress : ℕ
  pub value : ℕ
  pub alternate_value : ℕ
  pub headersize : ℕ
  pub header : List ℕ
  pub reg_name : String
  pub description : String
  pub unit : String
  pub multiplier : ℕ

-- `struct COIL`
pub record Coil : Type 0 where
  pub empty : Bool
  pub adress : ℕ
  pub value : ℕ
  pub description : String

-- `struct DISCRETEINPUT`
pub record DiscreteInput : Type 0 where
  pub empty : Bool
  pub adress : ℕ
  pub value : ℕ
  pub description : String

-- `struct userreg`
pub record UserRegister : Type 0 where
  pub adress : ℕ
  pub value : ℕ
  pub reg_name : String
  pub description : String
  pub issigned : Bool

-- `struct usercoil`
pub record UserCoil : Type 0 where
  pub adress : ℕ
  pub value : ℕ
  pub coil_name : String
  pub description : String

-- `struct userswitch`
pub record UserSwitch : Type 0 where
  pub name : String
  pub on_command : String
  pub off_command : String

-- The static members. The arrays have MAXREG, MAXCOILS, MAXDISCRETEINPUTS and MAX_DEV_INFO_LENGHT
-- cells.
pub record Memory : Type 0 where
  pub registers : List Register
  pub coils : List Coil
  pub discrete_inputs : List DiscreteInput
  pub user_register : List UserRegister
  pub user_coil : List UserCoil
  pub user_switch : List UserSwitch
  pub device_info1_lenght : ℤ
  pub device_info1 : List ℕ
  pub device_info2_lenght : ℤ
  pub device_info2 : List ℕ
