-- ===== src/Tests/Commands.antt =====
-- Examples of the text commands, and of the display's forwarding.
use epsolar_tracer_client.Base.{◌≡◌, refl, pos, true, false, [], ◌∷◌, ◌++◌, some, none, arith}
use epsolar_tracer_client.Text.{
  codes, stoi, skip_spaces, read_digits, int_to_string, to_string, digits,
}
use epsolar_tracer_client.Memory.State.{Memory}
use epsolar_tracer_client.Memory.Lookup.{find_index}
use epsolar_tracer_client.Memory.Strings.{put_reg_str, get_reg_str, put_reg_str32, get_reg_str32}
use epsolar_tracer_client.Memory.Strings.Roundtrip.{get_reg_str-put_reg_str}
use epsolar_tracer_client.Memory.Strings.Wide.{get_reg_str32-put_reg_str32}
use epsolar_tracer_client.Tracer.Outcome.{returned}
use epsolar_tracer_client.Tracer.Controller.{Answer}
use epsolar_tracer_client.MtcpServer.Reply.{Reply, Peer, text_line, say}
use epsolar_tracer_client.MtcpServer.Handle.{handle_command}
use epsolar_tracer_client.MtcpServer.Requests.{getreg-setreg}
use epsolar_tracer_client.MtcpServer.Forwarded.{
  server_statistic, switching, handle_command-trigger, handle_command-forwarded,
}
use epsolar_tracer_client.Display.{forward_text, parse_reply}
use epsolar_tracer_client.Display.Forwarded.{parse_reply-handle_command}
use epsolar_tracer_client.Tests.Data.{some_memory, register_at}
use epsolar_tracer_client.Tests.Polling.{
  no_exchange, no_flags, exchange, read_request, read_msg, answer_of, read_request-answered,
}

get_reg_str-put_reg_str_example :
    (mem' : Memory) × (put_reg_str (codes "1200") 0x3101 some_memory ≡ some (pos 1, mem'))
    × (get_reg_str 0x3101 false mem' ≡ codes "1200" ++ 10 ∷ [])
    × (get_reg_str 0x3101 true mem' ≡ codes "65535" ++ 10 ∷ [])
unfolding find_index int_to_string to_string digits
get_reg_str-put_reg_str_example =
    get_reg_str-put_reg_str 0x3101 1 (register_at 0x3101) some_memory refl (omega arith) refl refl
      (pos 1200) (omega arith)

get_reg_str32-put_reg_str32_example :
    (mem'' : Memory) × (put_reg_str32 (codes "1200000") 0x3100 some_memory ≡ some (pos 1, mem''))
    × (get_reg_str32 0x3100 false mem'' ≡ some (codes "1200000" ++ 10 ∷ []))
unfolding find_index int_to_string to_string digits
get_reg_str32-put_reg_str32_example =
    get_reg_str32-put_reg_str32 0x3100 0 (register_at 0x3100) (register_at 0x3101) some_memory refl
      (omega arith) refl refl refl refl (pos 1200000) (omega arith) (omega arith)

getreg-setreg_example :
    (mem' : Memory) × (handle_command true false
        (no_exchange 0)
        none
        0
        (codes "setreg 3100 1200" ++ 10 ∷ [])
        some_memory
        no_flags
      ≡ returned (say (text_line "OK") mem' no_flags))
    × (handle_command true false
          (no_exchange 0)
          none
          0
          (codes "getreg 3100" ++ 10 ∷ [])
          mem'
          no_flags
        ≡ returned (say (codes "1200" ++ 10 ∷ []) mem' no_flags))
unfolding find_index stoi skip_spaces read_digits int_to_string to_string digits
getreg-setreg_example =
    getreg-setreg true false (no_exchange 0) none 0 no_flags (codes "3100") 0x3100 0
      (register_at 0x3100) some_memory (pos 1200) (ground arith) refl refl (omega arith) refl refl
      (omega arith)

handle_command-trigger_example :
    handle_command true false
      (no_exchange 0)
      none
      0
      (codes "triggerserverstatisticupdate" ++ 10 ∷ [])
      some_memory
      no_flags
    ≡ returned
        (say (codes "OK" ++ 10 ∷ []) some_memory (record no_flags { need_server_statistic = true }))
handle_command-trigger_example =
    handle_command-trigger false (no_exchange 0) none 0 some_memory no_flags [] server_statistic tt

abbrev a_peer : Peer
a_peer = record { connects = true; sends = true; received = some (codes "OK") }

handle_command-forwarded_example :
    handle_command false false
      (no_exchange 0)
      (some a_peer)
      0
      (codes "switch pump on" ++ 10 ∷ [])
      some_memory
      no_flags
    ≡ returned (record (say (codes "OK") some_memory no_flags) {
      forwarded = some (codes "switch pump on" ++ 10 ∷ []);
    })
handle_command-forwarded_example =
    handle_command-forwarded false (no_exchange 0) (some a_peer) 0 some_memory no_flags
      (codes "pump" ∷ codes "on" ∷ []) switching (omega arith) (ground arith)

abbrev read_answer : Answer
read_answer = answer_of read_request.req read_msg no_flags

parse_reply-handle_command_example :
    (r : Reply) × (handle_command true true
        (exchange read_msg)
        none
        0
        (forward_text read_request.req)
        some_memory
        no_flags
      ≡ returned r)
    × (parse_reply 0 r.text ≡ returned read_answer.stored)
    × (r.flags ≡ no_flags)
    × (r.mem ≡ some_memory)
parse_reply-handle_command_example =
    parse_reply-handle_command true (exchange read_msg) none 0 some_memory no_flags read_request.req
      read_answer 7 0 (omega arith) read_request-answered refl (omega arith) (omega arith)
      (omega arith)
