-- ===== src/Tests/Cells.antt =====
-- Examples of the memory.
use epsolar_tracer_client.Base.{
  ℕ, ℤ, ◌*◌, ◌≡◌, refl, pos, false, List, [], ◌∷◌, ◌++◌, length, replicate, some, arith,
}
use epsolar_tracer_client.Common.{e_reg}
use epsolar_tracer_client.Memory.State.{Memory}
use epsolar_tracer_client.Memory.Lookup.{find_index}
use epsolar_tracer_client.Memory.Cells.Written.{word_bytes}
use epsolar_tracer_client.Memory.Invariant.{IsValid}
use epsolar_tracer_client.Memory.SaveData.{save_data}
use epsolar_tracer_client.Memory.SaveData.Roundtrip.{get_register_bytes-save_data}
use epsolar_tracer_client.Memory.Read.{read_cells, get_register_bytes, get_disc_inp}
use epsolar_tracer_client.Memory.Read.Inputs.{HasByte, get_disc_inp-endadress}
use epsolar_tracer_client.Memory.SaveData.Total.{save_data-IsTotal}
use epsolar_tracer_client.Tests.Data.{some_memory, some_memory-IsValid, an_input, All-replicate}

abbrev words : List ℕ
words = 0x1234 ∷ 0x5678 ∷ []

get_register_bytes-save_data_example :
    (mem' : Memory) × ((save_data e_reg 0x3100
          (2 * length words)
          (word_bytes words ++ [])
          some_memory
        ≡ some (pos 2, mem'))
      × (get_register_bytes 0x3100 0x3101 500 false mem'
          ≡ some (pos 4, 0x12 ∷ 0x34 ∷ 0x56 ∷ 0x78 ∷ [])))
unfolding find_index read_cells get_register_bytes
get_register_bytes-save_data_example =
    get_register_bytes-save_data 0x3100 0x3101 500 0 words [] (0xFF ∷ 0xFF ∷ 0xFF ∷ 0xFF ∷ [])
      some_memory some_memory-IsValid refl (omega arith) refl

get_disc_inp-endadress_example :
    get_disc_inp 0x2000 0x2000 10 some_memory ≡ get_disc_inp 0x2000 0xFFFF 10 some_memory
get_disc_inp-endadress_example =
    get_disc_inp-endadress 0x2000 0x2000 0xFFFF 10 some_memory
      (All-replicate HasByte an_input 3 (omega arith)) (omega arith) (omega arith)

abbrev long_payload : List ℕ
long_payload = 0x10 ∷ 0x27 ∷ 0x00 ∷ 0x05 ∷ replicate 496 0

save_data-IsTotal_example :
    (r : ℤ × Memory) × ((save_data e_reg 0x3100 500 long_payload some_memory ≡ some r)
      × IsValid r.1)
unfolding find_index
save_data-IsTotal_example =
    save_data-IsTotal 500 long_payload some_memory some_memory-IsValid (omega arith) e_reg 0x3100
      (λ e. (0, refl)) (λ e. absurd (ground arith)) (λ e. absurd (ground arith))

abbrev a_header : List ℕ
a_header = 0x01 ∷ 0x43 ∷ 0x04 ∷ []

abbrev block_request : List ℕ
block_request = 0x01 ∷ 0x43 ∷ 0x31 ∷ 0x00 ∷ 0x00 ∷ 0x02 ∷ []
