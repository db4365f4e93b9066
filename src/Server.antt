-- ===== src/Server.antt =====
-- server.c: what `cServer::action` does with the bytes of one `recv`.
pub mod Commands
pub mod Delivery
use epsolar_tracer_client.Base.{
  ℕ, zero, suc, ◌+◌, ◌-◌, ℤ, pos, negsuc, List, ◌++◌, ◌==◌, ltb, if◌then◌else◌, drop, length,
  replicate, Option, none, some,
}
use epsolar_tracer_client.Mttp.State.{Mttp, command_size, max_commands}
use epsolar_tracer_client.Mttp.Decode.{Taken, add_message, get_command}
use epsolar_tracer_client.Memory.State.{Memory}
use epsolar_tracer_client.Memory.Cells.{◌>>=◌}
use epsolar_tracer_client.Memory.SaveData.{save_data}

abbrev pub max_decoding_loops : ℕ
max_decoding_loops = 100

-- the array `command`, cleared and then filled by `GetCommand`
abbrev pub command_array : List ℕ → List ℕ
command_array bytes = bytes ++ replicate (command_size - length bytes) 0

-- The body of the inner loop for a command of `n` bytes: an empty one is passed over, any other one
-- is saved. The result of `Save` is only logged.
unfoldable pub save_command : ℕ → Taken → Memory → Option Memory
save_command n t mem = if n == 0 then some mem else (do
  (ret, mem') ← save_data t.memtype t.startadress n (command_array t.command) mem
  some mem')

-- What a round of the inner loop does with the result of `GetCommand`: `break`, or the rest of the
-- round.
abbrev take_round :
    ℤ × Option Taken × Mttp
    → (ℕ → Taken → Mttp → Option (Mttp × Memory))
    → Memory
    → Option (Mttp × Memory)
take_round (negsuc n, t, mttp) go mem = some (mttp, mem)
take_round (pos n, none, mttp) go mem = some (mttp, mem)
take_round (pos n, some t, mttp) go mem = go n t mttp

-- The inner loop, from the slot `m` on with `left` rounds to go, which ends at the first slot that
-- gives no command.
pub take_commands : ℕ → ℕ → Mttp → Memory → Option (Mttp × Memory)
take_commands zero m mttp mem = some (mttp, mem)
take_commands (suc left) m mttp mem =
    take_round (get_command command_size m mttp)
      (λ n t mttp'. save_command n t mem >>= take_commands left (m + 1) mttp') mem

-- The outer loop, with `rounds` to go: `AddMessage` on the bytes from `processed` on, then the
-- commands. Its result replaces `processed`; it is not added to it.
pub decode_loop : ℕ → ℕ → List ℕ → ℕ → Mttp → Memory → Option (Mttp × Memory)
decode_loop zero processed recvbuffer received mttp mem = some (mttp, mem)
decode_loop (suc rounds) processed recvbuffer received mttp mem =
    if ltb processed received
    then (do
      (processed', mttp') ← add_message (drop processed recvbuffer) (received - processed) mttp
      (mttp'', mem') ← take_commands max_commands 0 mttp' mem
      decode_loop rounds processed' recvbuffer received mttp'' mem')
    else some (mttp, mem)

-- `cServer::action`, from a `recv` that gave `received` bytes to its end; `none` is an access
-- outside an array.
pub on_received : List ℕ → ℕ → Mttp → Memory → Option (Mttp × Memory)
on_received recvbuffer received mttp mem =
    decode_loop max_decoding_loops 0 recvbuffer received mttp mem
