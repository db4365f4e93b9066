-- ===== src/Tests/Protocol.antt =====
-- Examples of the transport protocol and of the server.
use epsolar_tracer_client.Base.{
  ◌≡◌, refl, ap, ◌∙◌, ℤ, pos, pos_part, true, false, List, [], ◌∷◌, ◌++◌, All, length, replicate,
  Option, some, arith,
}
use epsolar_tracer_client.Common.{e_put}
use epsolar_tracer_client.Mttp.State.{Mttp, dle, etx, command_size}
use epsolar_tracer_client.Mttp.Message.{Command, message, encode_commands}
use epsolar_tracer_client.Mttp.Encode.{init_buffer, get_buffer}
use epsolar_tracer_client.Mttp.Encode.Framing.{add_commands, opened, get_buffer-message}
use epsolar_tracer_client.Mttp.Decode.{add_message, get_command}
use epsolar_tracer_client.Mttp.Decode.Received.{received}
use epsolar_tracer_client.Mttp.Decode.Overlay.{overlay, Fits}
use epsolar_tracer_client.Mttp.Decode.Delivery.{taken, add_message-message, get_command-received}
use epsolar_tracer_client.Memory.State.{Memory}
use epsolar_tracer_client.Memory.Cells.{◌>>=◌}
use epsolar_tracer_client.Server.{save_command, on_received}
use epsolar_tracer_client.Server.Commands.{save_all, IsIdle, emptied}
use epsolar_tracer_client.Server.Delivery.{
  on_received-message, on_received-get_buffer, on_received-IsIdle,
}
use epsolar_tracer_client.Memory.SaveData.Example.{registers-saved}
use epsolar_tracer_client.Tests.Data.{
  blank_slot, idle_server, idle_server-IsIdle, registers_command, coil_command, some_memory,
  saved_memory, All-replicate,
}

abbrev both : List Command
both = registers_command ∷ coil_command ∷ []

both-Fits : All Fits both
both-Fits = (
  ((λ e. ground arith), omega arith, omega arith),
  (((λ e. ground arith), omega arith, omega arith), tt),
)

get_buffer-message_example : get_buffer 8192 (add_commands both (init_buffer e_put idle_server)) ≡ (
  pos (length (message e_put both)),
  message e_put both,
  record (opened e_put (encode_commands both ++ dle ∷ etx ∷ []) idle_server.decoded_commands) {
    closed = true;
  },
)
get_buffer-message_example =
    get_buffer-message e_put both 8192 idle_server (λ e. ground arith) (λ e. ground arith)
      (omega arith)

add_message-message_example :
    add_message
      (message e_put both ++ 0x10 ∷ [])
      (length (message e_put both ++ 0x10 ∷ []))
      idle_server
    ≡ some (
      length (message e_put both),
      record idle_server { decoded_commands = overlay both (replicate 50 blank_slot) },
    )
add_message-message_example =
    add_message-message e_put both (0x10 ∷ []) [] (replicate 50 blank_slot) idle_server both-Fits
      (All-replicate (λ s. length s.payload ≡ command_size) blank_slot 50 refl) (omega arith)
      (omega arith) refl refl

get_command-received_example :
    get_command command_size 1 (record idle_server {
      decoded_commands = blank_slot ∷ received registers_command blank_slot ∷ blank_slot ∷ [];
    })
    ≡ (
      pos 4,
      some (taken registers_command),
      record idle_server {
        decoded_commands =
            blank_slot
            ∷ record (received registers_command blank_slot) { exist = false }
            ∷ blank_slot
            ∷ [];
      },
    )
get_command-received_example =
    get_command-received registers_command blank_slot (blank_slot ∷ []) (blank_slot ∷ [])
      (record idle_server {
        decoded_commands = blank_slot ∷ received registers_command blank_slot ∷ blank_slot ∷ [];
      })
      (omega arith) (omega arith) (omega arith) refl

on_received-message_example :
    on_received (message e_put both) (length (message e_put both)) idle_server some_memory ≡ (
      save_all both some_memory >>= λ mem'.
      some
        (record idle_server { decoded_commands = emptied both idle_server.decoded_commands }, mem'))
on_received-message_example =
    on_received-message e_put both idle_server some_memory both-Fits (omega arith)
      idle_server-IsIdle

on_received-get_buffer_example :
    (let sent = get_buffer 8192 (add_commands both (init_buffer e_put idle_server)) in
      on_received sent.1 (pos_part sent.0) idle_server some_memory)
    ≡ (save_all both some_memory >>= λ mem'.
        some (
          record idle_server { decoded_commands = emptied both idle_server.decoded_commands },
          mem',
        ))
on_received-get_buffer_example =
    on_received-get_buffer e_put 8192 both idle_server idle_server some_memory (λ e. ground arith)
      (λ e. ground arith) (omega arith) both-Fits (omega arith) idle_server-IsIdle

abbrev one : List Command
one = registers_command ∷ []

one-Fits : All Fits one
one-Fits = (both-Fits.0, tt)

abbrev after_one : Mttp
after_one = record idle_server { decoded_commands = emptied one idle_server.decoded_commands }

one-saved :
    on_received (message e_put one) (length (message e_put one)) idle_server some_memory
    ≡ some (after_one, saved_memory)
unfolding save_all save_command
one-saved =
    on_received-message e_put one idle_server some_memory one-Fits (omega arith) idle_server-IsIdle
    ∙ ap
        (λ (o : Option (ℤ × Memory)).
          (o >>= λ r. some r.1) >>= (λ mem. some mem) >>= λ mem. some (after_one, mem))
        registers-saved

on_received-IsIdle_example : IsIdle after_one
on_received-IsIdle_example =
    on_received-IsIdle e_put one idle_server after_one some_memory saved_memory one-Fits
      (omega arith) idle_server-IsIdle one-saved
