-- ===== src/ModbusServer.antt =====
-- modbusserver.c: cModbusServer::process, the answer to a request of a Modbus TCP client.
pub mod Answer
use epsolar_tracer_client.Base.{
  ℕ, ◌+◌, ◌*◌, ℤ, pos, negsuc, failure, true, ◌&&◌, List, [], ◌∷◌, ◌==◌, leb, ltb, if◌then◌else◌,
  take, set, get_or, u8, u16, get_int16, set_int16, int16_bytes, ◌++◌,
}
use epsolar_tracer_client.Memory.State.{Memory}
use epsolar_tracer_client.Memory.Read.{get_register}

-- MAX_REG and MAX_BUFFER_SIZE of modbusserver.h
abbrev pub max_reg : ℕ
max_reg = 100

abbrev pub max_buffer_size : ℕ
max_buffer_size = 256

-- MODBUS_GET_INT16_FROM_INT8 on the bytes read
abbrev pub buffer_int16 : List ℕ → ℕ → ℕ
buffer_int16 buffer i = get_int16 (get_or buffer i 0) (get_or buffer (i + 1) 0)

-- the array `errorresp`
abbrev pub error_response : List ℕ → List ℕ
error_response buffer =
    int16_bytes (buffer_int16 buffer 0)
    ++ (int16_bytes (buffer_int16 buffer 2)
        ++ (int16_bytes 3 ++ get_or buffer 6 0 ∷ u8 (get_or buffer 7 0 + 0x80) ∷ 0x02 ∷ []))

-- `for (i=0;i<result;i++)`, over the registers that `GetRegister` has stored
pub put_values : List ℕ → ℕ → List ℕ → List ℕ
put_values [] index response = response
put_values (v ∷ values) index response = put_values values (index + 2) (set_int16 response index v)

-- The array `response` after all writes. It held `response` before, and `resplenght` counts the
-- bytes behind the length.
pub fill_response : List ℕ → ℕ → List ℕ → List ℕ → List ℕ
fill_response buffer result registers response =
    let header =
      set_int16 (set_int16 response 0 (buffer_int16 buffer 0)) 2 (buffer_int16 buffer 2) in
    let fields =
      set (set (set header 6 (get_or buffer 6 0)) 7 (get_or buffer 7 0)) 8 (u8 (result * 2)) in
    let resplenght = u16 (3 + 2 * result) in
    take (resplenght + 6) (set_int16 (put_values registers 9 fields) 4 resplenght)

-- what `process` does with the result of `GetRegister`
abbrev pub answer : List ℕ → List ℕ → ℤ → List ℕ → ℤ × List (List ℕ)
answer buffer response (negsuc n) registers = (failure, error_response buffer ∷ [])
answer buffer response (pos result) registers =
    (pos 1, fill_response buffer result registers response ∷ [])

-- `process`: its result and the arrays sent, one for each `send`. `response` is what the
-- uninitialised array of that name holds.
pub process : List ℕ → ℕ → List ℕ → Memory → ℤ × List (List ℕ)
process buffer valread response mem =
    let address = buffer_int16 buffer 8 in
    let number = buffer_int16 buffer 10 in
    let got = get_register address (u16 (address + number + 0xFFFF)) max_reg true mem in
    if ltb valread 12
    then (failure, [])
    else if (get_or buffer 7 0 == 0x04) && leb number max_reg
    then answer buffer response got.0 got.1
    else (failure, error_response buffer ∷ [])
