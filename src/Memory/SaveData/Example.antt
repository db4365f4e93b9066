-- ===== src/Memory/SaveData/Example.antt =====
-- A command as `cServer` gives it to `Save`.
use epsolar_tracer_client.Base.{◌≡◌, refl, pos, ◌∷◌, some, replicate}
use epsolar_tracer_client.Common.{e_reg}
use epsolar_tracer_client.Memory.Lookup.{find_index}
use epsolar_tracer_client.Memory.Cells.{store_cells}
use epsolar_tracer_client.Memory.SaveData.{save_data, save_registers}
use epsolar_tracer_client.Tests.Data.{some_memory, saved_memory}

pub registers-saved :
    save_data e_reg 0x3100 4 (0x10 ∷ 0x27 ∷ 0x00 ∷ 0x05 ∷ replicate 496 0) some_memory
    ≡ some (pos 2, saved_memory)
unfolding save_data save_registers store_cells find_index
registers-saved = refl
