-- ===== src/Tests/Tcp.antt =====
-- Examples of the Modbus TCP server.
use epsolar_tracer_client.Base.{
  ℕ, ◌≡◌, ◌≤◌, length, refl, pos, failure, true, List, [], ◌∷◌, replicate, inl, arith,
}
use epsolar_tracer_client.Memory.Lookup.{find_index}
use epsolar_tracer_client.Memory.Read.{read_cells, get_register}
use epsolar_tracer_client.Memory.Read.Counted.{get_register-counted}
use epsolar_tracer_client.ModbusServer.{process}
use epsolar_tracer_client.ModbusServer.Answer.{process-response, process-refused}
use epsolar_tracer_client.Tests.Data.{saved_memory}

-- two registers from 0x3100 on, in the transaction 7
abbrev tcp_request : List ℕ
tcp_request = 0 ∷ 7 ∷ 0 ∷ 0 ∷ 0 ∷ 6 ∷ 1 ∷ 4 ∷ 0x31 ∷ 0x00 ∷ 0 ∷ 2 ∷ []

registers-found : get_register 0x3100 0x3101 100 true saved_memory ≡ (pos 2, 0x1027 ∷ 5 ∷ [])
unfolding get_register read_cells find_index
registers-found = refl

process-response_example :
    process tcp_request 12 (replicate 256 0xCC) saved_memory
    ≡ (pos 1, (0 ∷ 7 ∷ 0 ∷ 0 ∷ 0 ∷ 7 ∷ 1 ∷ 4 ∷ 4 ∷ 0x10 ∷ 0x27 ∷ 0 ∷ 5 ∷ []) ∷ [])
process-response_example =
    process-response 0 7 0 0 0 6 1 0x31 0x00 0 2 [] (0x1027 ∷ 5 ∷ []) (replicate 256 0xCC) 12 2
      saved_memory (omega arith) (omega arith) (omega arith) refl registers-found

abbrev coil_request : List ℕ
coil_request = 0 ∷ 8 ∷ 0 ∷ 0 ∷ 0 ∷ 6 ∷ 1 ∷ 1 ∷ 0 ∷ 2 ∷ 0 ∷ 1 ∷ []

process-refused_example :
    process coil_request 12 (replicate 256 0xCC) saved_memory
    ≡ (failure, (0 ∷ 8 ∷ 0 ∷ 0 ∷ 0 ∷ 3 ∷ 1 ∷ 0x81 ∷ 2 ∷ []) ∷ [])
process-refused_example =
    process-refused 0 8 0 0 0 6 1 1 0 2 0 1 [] (replicate 256 0xCC) [] 12 0 saved_memory
      (omega arith) (omega arith) (inl (λ e. ground arith))

get_register-counted_example : (2 ≡ length {A = ℕ} (0x1027 ∷ 5 ∷ [])) × (2 ≤ 100)
get_register-counted_example =
    get_register-counted 0x3101 100 true 0x3100 2 saved_memory (0x1027 ∷ 5 ∷ []) registers-found
