-- ===== src/Tests/Uploads.antt =====
-- Examples of the client's messages to the server.
use epsolar_tracer_client.Base.{
  ℕ, ◌≡◌, refl, pos, failure, true, false, List, [], ◌∷◌, ◌++◌, length, replicate, some, arith,
}
use epsolar_tracer_client.Common.{e_put, e_reg}
use epsolar_tracer_client.Mttp.State.{Mttp}
use epsolar_tracer_client.Mttp.Message.{Command, message}
use epsolar_tracer_client.Memory.State.{Memory}
use epsolar_tracer_client.Memory.Lookup.{find_index}
use epsolar_tracer_client.Memory.Read.{get_register, get_register_bytes, read_cells}
use epsolar_tracer_client.Modbus.Send.{write_loop}
use epsolar_tracer_client.Server.{on_received}
use epsolar_tracer_client.Client.{
  Client, Message, Turn, arrived, sendmessage, send, drain, body, talk, check_timeout, take_arrival,
}
use epsolar_tracer_client.Client.Queues.{
  IsDrained, drain-IsDrained, drain-blocked, sendmessage-last,
}
use epsolar_tracer_client.Client.Round.{posts, turns, Reach, here, next, IsBounded, Reach-IsBounded}
use epsolar_tracer_client.Tracer.Upload.{data_command, upload_commands, register_commands, send_mem}
use epsolar_tracer_client.Tracer.Upload.Sent.{pending, posted, send_mem-pending, send_mem-too_long}
use epsolar_tracer_client.Tracer.Upload.Mirror.{send_mem-on_received}
use epsolar_tracer_client.Tests.Data.{
  some_memory, some_memory-IsValid, saved_memory, idle_server, idle_server-IsIdle, coil_command,
}

abbrev a_client : Client
a_client = record {
  connected = true;
  needreconnect = false;
  last_server_message = 0;
  last_connecting = 0;
  send_queue = [];
  recv_queue = [];
  ticks = 0;
  wire = [];
}

send_mem-on_received_example :
    (sent : List ℕ) × (send_mem e_reg 0x3100 0x3101 true [] saved_memory (pending [] []) a_client
      ≡ some (pos 1, pending [] [], record a_client { send_queue = posted sent [] }))
    × (after : Mttp × Memory) × (on_received sent (length sent) idle_server some_memory
        ≡ some after)
    × (get_register_bytes 0x3100 0x3101 500 false after.1
        ≡ some (pos 4, 0x10 ∷ 0x27 ∷ 0x00 ∷ 0x05 ∷ []))
unfolding get_register get_register_bytes read_cells find_index
send_mem-on_received_example =
    send_mem-on_received 0x3100 0x3101 1 0x3101 500 0 (0x1027 ∷ 5 ∷ [])
      (0xFF ∷ 0xFF ∷ 0xFF ∷ 0xFF ∷ []) [] saved_memory some_memory [] a_client idle_server refl
      (omega arith) (omega arith) (omega arith) idle_server-IsIdle some_memory-IsValid refl refl

abbrev the_registers : Command
the_registers = data_command e_reg 0x3100 (0x10 ∷ 0x27 ∷ 0x00 ∷ 0x05 ∷ [])

the_registers-uploaded :
    upload_commands e_reg 0x3100 0x3101 [] saved_memory ≡ some (the_registers ∷ [])
unfolding upload_commands register_commands get_register read_cells find_index
the_registers-uploaded = refl

send_mem-pending_example :
    send_mem e_reg 0x3100 0x3101 true [] saved_memory (pending (coil_command ∷ []) []) a_client
    ≡ some (
      pos 1,
      pending [] [],
      record a_client {
        send_queue = posted (message e_put (coil_command ∷ the_registers ∷ [])) [];
      },
    )
send_mem-pending_example =
    send_mem-pending e_reg 0x3100 0x3101 true [] saved_memory a_client (coil_command ∷ [])
      (the_registers ∷ []) [] the_registers-uploaded (omega arith) (omega arith)

abbrev long_command : Command
long_command = data_command e_reg 0 (replicate 8200 0)

send_mem-too_long_example :
    send_mem e_reg 0x3100 0x3101 true [] saved_memory (pending (long_command ∷ []) []) a_client
    ≡ some (
      failure,
      pending [] [],
      record a_client { send_queue = record { lenght = failure; bytes = [] } ∷ [] },
    )
send_mem-too_long_example =
    send_mem-too_long e_reg 0x3100 0x3101 [] saved_memory a_client (long_command ∷ [])
      (the_registers ∷ []) [] the_registers-uploaded (omega arith) (omega arith)

abbrev message_of : List ℕ → Message
message_of bytes = record { lenght = pos (length bytes); bytes = bytes }

abbrev two_messages : List Message
two_messages = message_of (1 ∷ 2 ∷ 3 ∷ []) ∷ message_of (4 ∷ 5 ∷ []) ∷ []

abbrev drained_client : Client
drained_client = record a_client {
  send_queue = message_of (4 ∷ 5 ∷ []) ∷ [];
  last_server_message = 0;
  ticks = 1;
  wire = 1 ∷ 2 ∷ 3 ∷ 4 ∷ [];
}

drained :
    drain (λ n. n) two_messages ((pos 2 ∷ pos 1 ∷ []) ∷ (pos 1 ∷ failure ∷ []) ∷ []) a_client
    ≡ some drained_client
unfolding drain send write_loop
drained = refl

drain-IsDrained_example : IsDrained two_messages a_client drained_client
drain-IsDrained_example =
    drain-IsDrained (λ n. n) two_messages ((pos 2 ∷ pos 1 ∷ []) ∷ (pos 1 ∷ failure ∷ []) ∷ [])
      a_client drained_client drained

abbrev no_message : Message
no_message = record { lenght = failure; bytes = [] }

drain-blocked_example :
    drain (λ n. n) (no_message ∷ two_messages) ((pos 3 ∷ []) ∷ []) a_client
    ≡ some (record a_client { send_queue = no_message ∷ two_messages })
drain-blocked_example = drain-blocked (λ n. n) no_message two_messages (pos 3 ∷ []) [] a_client refl

abbrev full_client : Client
full_client = record a_client { send_queue = no_message ∷ replicate 49 (message_of (1 ∷ [])) }

sendmessage-last_example : sendmessage (7 ∷ 8 ∷ []) (pos 2) full_client ≡ (
  pos 2,
  record full_client {
    send_queue = replicate 49 (message_of (1 ∷ [])) ++ message_of (7 ∷ 8 ∷ []) ∷ [];
  },
)
sendmessage-last_example = sendmessage-last (7 ∷ 8 ∷ []) 2 full_client (omega arith) (omega arith)

abbrev a_turn : Turn
a_turn = record {
  heartbeat = true;
  connects = true;
  sends = (pos 2 ∷ []) ∷ [];
  arrival = arrived (9 ∷ []);
}

abbrev posted_client : Client
posted_client = record a_client { send_queue = message_of (7 ∷ 8 ∷ []) ∷ [] }

abbrev served_client : Client
served_client = record a_client {
  recv_queue = message_of (9 ∷ []) ∷ [];
  last_server_message = 2;
  ticks = 3;
  wire = 7 ∷ 8 ∷ [];
}

served : body (λ n. n) a_turn posted_client ≡ some served_client
unfolding body check_timeout talk drain send write_loop take_arrival
served = refl

posted-reached : Reach (λ n. n) a_client posted_client
unfolding sendmessage
posted-reached = next here (posts (7 ∷ 8 ∷ []) (pos 2) a_client)

Reach-IsBounded_example : IsBounded served_client
Reach-IsBounded_example =
    Reach-IsBounded (λ n. n) (next posted-reached (turns a_turn posted_client served_client served))
      (record { send_bound = omega arith; recv_bound = omega arith })
