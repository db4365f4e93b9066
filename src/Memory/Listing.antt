-- ===== src/Memory/Listing.antt =====
-- memory.c: the memory as text.
use Prim.Native.String.{String}
use epsolar_tracer_client.Base.{
  ℕ, ◌+◌, ◌-◌, ◌/◌, ◌%◌, ℤ, Bool, List, [], ◌∷◌, ◌++◌, ◌==◌, ltb, if◌then◌else◌, take, length,
}
use epsolar_tracer_client.Text.{codes, int_to_string, to_string}
use epsolar_tracer_client.Memory.State.{
  Memory, Register, Coil, DiscreteInput, UserRegister, UserCoil, max_header_size,
}

-- a digit of `%X`
abbrev pub hex_digit : ℕ → ℕ
hex_digit d = if ltb d 10 then b'0' + d else b'A' + (d - 10)

-- `%02X` of a byte and `%04X` of a word
unfoldable pub hex2 : ℕ → List ℕ
hex2 n = hex_digit (n / 16 % 16) ∷ hex_digit (n % 16) ∷ []

unfoldable pub hex4 : ℕ → List ℕ
hex4 n = hex2 (n / 256) ++ hex2 (n % 256)

-- what `snprintf` leaves in `tmp`
abbrev pub printed : List ℕ → List ℕ
printed text = take 1023 text

abbrev pub line : List ℕ → List ℕ
line text = text ++ 10 ∷ []

-- a text for each element of a list
unfoldable pub lines_of : {A : Type 0} → (A → List ℕ) → List A → List ℕ
lines_of text [] = []
lines_of text (x ∷ xs) = text x ++ lines_of text xs

-- the bytes of an array, each behind a space
abbrev pub spaced : List ℕ → List ℕ
spaced bytes = lines_of (λ b. b' ' ∷ hex2 b) bytes

abbrev pub signed_end : Bool → List ℕ
signed_end issigned = if issigned then line (codes " signed") else line []

abbrev pub register_text : Register → List ℕ
register_text r =
    codes "Register "
    ++ (hex4 r.adress
        ++ (codes " = "
            ++ (hex4 r.value
                ++ (signed_end r.issigned
                    ++ (if r.have_alternate_value
                        then codes "Register "
                          ++ (hex4 r.adress
                              ++ (codes " Alternate Value = "
                                  ++ (hex4 r.alternate_value ++ signed_end r.issigned)))
                        else [])))))

abbrev pub header_text : Register → List ℕ
header_text r =
    if r.have_header
    then codes "Register Header for Adress "
      ++ (hex4 r.adress
          ++ (codes " with lenght "
              ++ (to_string r.headersize
                  ++ (codes ":" ++ line (spaced (take max_header_size r.header))))))
    else []

abbrev pub input_text : DiscreteInput → List ℕ
input_text d = codes "Discrete Input " ++ (hex4 d.adress ++ (codes " = " ++ line (hex2 d.value)))

abbrev pub coil_text : Coil → List ℕ
coil_text c = codes "Coil " ++ (hex4 c.adress ++ (codes " = " ++ line (hex2 c.value)))

abbrev pub info_text : String → ℤ → List ℕ → List ℕ
info_text title lenght info =
    codes title
    ++ (codes ": Lenght = " ++ (int_to_string lenght ++ (codes " = " ++ line (spaced info))))

abbrev pub user_register_text : UserRegister → List ℕ
user_register_text u =
    codes "UserRegister "
    ++ (hex4 u.adress ++ (codes " = " ++ (hex4 u.value ++ signed_end u.issigned)))

abbrev pub user_coil_text : UserCoil → List ℕ
user_coil_text u = codes "UserCoil " ++ (hex4 u.adress ++ (codes " = " ++ line (hex2 u.value)))

-- `DebugLogMemory`. None of its lines reaches the size of `tmp`.
unfoldable pub debug_log_memory : Memory → List ℕ
debug_log_memory mem =
    lines_of register_text mem.registers
    ++ (lines_of header_text mem.registers
        ++ (lines_of input_text mem.discrete_inputs
            ++ (lines_of coil_text mem.coils
                ++ (info_text "Device Info1" mem.device_info1_lenght mem.device_info1
                    ++ (info_text "Device Info2" mem.device_info2_lenght mem.device_info2
                        ++ (lines_of user_register_text mem.user_register
                            ++ lines_of user_coil_text mem.user_coil))))))

-- `"%04X\t%s\n"`
abbrev pub named : ℕ → String → List ℕ
named adress name = printed (hex4 adress ++ 9 ∷ line (codes name))

-- the loop over the registers, up to the first with the address 0xFFFF
unfoldable pub register_names : List Register → List ℕ
register_names [] = []
register_names (r ∷ rs) =
    let rest = register_names rs in
    if r.adress == 0xFFFF then [] else named r.adress r.reg_name ++ rest

-- `GetRegListStr`
unfoldable pub get_reg_list_str : Memory → List ℕ
get_reg_list_str mem =
    register_names mem.registers
    ++ (if ltb 0 (length mem.user_register)
        then line (10 ∷ codes "User Registers:")
          ++ lines_of (λ u. named u.adress u.reg_name) mem.user_register
        else [])
