-- ===== src/MtcpServer/Handle.antt =====
-- mtcpserver.c: `handlecommand`.
use Prim.Native.String.{String}
use epsolar_tracer_client.Base.{
  ℕ, ◌/◌, ◌%◌, ℤ, pos, negsuc, Bool, true, ◌&&◌, ◌||◌, List, [], ◌==◌, ltb, get_or, length,
  if◌then◌else◌, Option, none, some,
}
use epsolar_tracer_client.Text.{codes, text_eq, stoi, wrapped}
use epsolar_tracer_client.Memory.State.{Memory}
use epsolar_tracer_client.Memory.Read.{get_register}
use epsolar_tracer_client.Memory.Clean.{clean, clean_alternate}
use epsolar_tracer_client.Memory.Listing.{debug_log_memory, get_reg_list_str}
use epsolar_tracer_client.Memory.Strings.{
  get_reg_str, get_coil_str, get_reg_str32, put_reg_str, put_coil_str, put_reg_str32,
  switch_command,
}
use epsolar_tracer_client.Tracer.Outcome.{Outcome, returned, ◌>>=◌, accessed}
use epsolar_tracer_client.Tracer.Flags.{
  Flags, trigger_tracer_statistic, trigger_tracer_realtime, trigger_server_statistic,
  trigger_server_realtime,
}
use epsolar_tracer_client.Tracer.Controller.{Exchange}
use epsolar_tracer_client.MtcpServer.Words.{split, strip}
use epsolar_tracer_client.MtcpServer.Help.{print_help}
use epsolar_tracer_client.MtcpServer.Reply.{
  Reply, Peer, text_line, say, forward, modbus_send, output,
}

-- `command.at(i)`, behind a test of the number of words
abbrev pub word_at : List (List ℕ) → ℕ → List ℕ
word_at command i = get_or command i []

-- the address in a word; 0 where `std::stoi` throws
abbrev pub adress_of : List ℕ → ℕ
adress_of word = elim (stoi 16 word) [ none ↦ 0 | some z ↦ wrapped 16 z ]

-- `orig`, from the third word if there is one
abbrev pub wants_original : List (List ℕ) → Bool
wants_original command =
    ltb 2 (length command)
    && (text_eq (word_at command 2) (codes "true") || text_eq (word_at command 2) (codes "1"))

-- the answer to a command that stores a value
abbrev pub stored_text : ℤ → List ℕ
stored_text (pos n) = text_line "OK"
stored_text (negsuc n) = if n == 0 then text_line "Error" else text_line "OK"

-- the bits 2 and 3 of the register, which holds what is left uninitialised where it is not found
abbrev pub charge_mode : ℕ → Memory → List ℕ
charge_mode stale mem =
    let reg = get_or (get_register 0x3201 0x3201 1 true mem).1 0 stale in
    let result = reg / 4 % 4 in
    if result == 0
    then text_line "No Charging"
    else if result == 1
    then text_line "Float Charging"
    else if result == 2
    then text_line "Boost Charging"
    else text_line "Equlization Charging"

abbrev pub output_status : ℕ → Memory → List ℕ
output_status stale mem =
    let reg = get_or (get_register 0x3202 0x3202 1 true mem).1 0 stale in
    if reg % 2 == 0 then text_line "0" else text_line "1"

abbrev pub unless_short : ℕ → List (List ℕ) → Memory → Flags → Outcome Reply → Outcome Reply
unless_short number command mem flags answer =
    if ltb (length command) number
    then returned (say (text_line "Error wrong Parameterlist") mem flags)
    else answer

-- the switch position of the third word
abbrev pub position : List ℕ → Option ℤ
position word =
    if text_eq word (codes "on") || text_eq word (codes "1")
    then some (pos 1)
    else if text_eq word (codes "off") || text_eq word (codes "0")
    then some (pos 0)
    else none

-- `switch` with the controller connected
unfoldable pub switch : List (List ℕ) → Memory → Flags → Reply
switch command mem flags = elim (position (word_at command 2)) [
  | none ↦ say (text_line "Error wrong Parameter") mem flags
  | some onoff ↦
      let (ret, system) = switch_command (word_at command 1) onoff mem.user_switch in
      record (say
        (elim ret [
          | negsuc n ↦ text_line "Error Switching"
          | pos n ↦ if n == 1 then text_line "OK" else text_line "Error Switching"
        ])
        mem flags) { system = system }
]

-- The environment: `TracerConnected`, `TracerConnected && ctx`, what the line and the other
-- server do, and what is left in an uninitialised variable.
module _ (tracer_connected connected : Bool) (x : Exchange) (peer : Option Peer) (stale : ℕ) where
  -- one of the four `trigger...` commands
  abbrev pub trigger : (Flags → Flags) → List ℕ → Memory → Flags → Outcome Reply
  trigger set req mem flags =
      if tracer_connected
      then returned (say (text_line "OK") mem (set flags))
      else forward peer req mem flags

  -- The commands that only work on the memory; `none` where the first word is none of them. The
  -- program runs without a config file, which `cleanmem` would read again.
  unfoldable pub memory_command : List (List ℕ) → Memory → Flags → Option (Outcome Reply)
  memory_command command mem flags =
      let is = λ (s : String). text_eq (word_at command 0) (codes s) in
      let adress = adress_of (word_at command 1) in
      let text = λ (t : List ℕ). returned (say t mem flags) in
      let store = λ (o : Option (ℤ × Memory)).
        accessed o >>= (λ r. returned (say (stored_text r.0) r.1 flags)) in
      if is "getreg"
      then some (
          unless_short 2 command mem flags (text (get_reg_str adress (wants_original command) mem)))
      else if is "getcoil"
      then some (unless_short 2 command mem flags (text (get_coil_str adress mem)))
      else if is "getreg32"
      then some (
          unless_short 2 command mem flags
            (accessed (get_reg_str32 adress (wants_original command) mem) >>= text))
      else if is "setreg"
      then some
          (unless_short 3 command mem flags (store (put_reg_str (word_at command 2) adress mem)))
      else if is "setcoil"
      then some (
          unless_short 3 command mem flags
            (store (some (put_coil_str (word_at command 2) adress mem))))
      else if is "setreg32"
      then some
          (unless_short 3 command mem flags (store (put_reg_str32 (word_at command 2) adress mem)))
      else if is "getchargemode"
      then some (text (charge_mode stale mem))
      else if is "getoutputstatus"
      then some (text (output_status stale mem))
      else if is "debugmem"
      then some (text (debug_log_memory mem))
      else if is "cleanmem"
      then some (accessed (clean mem) >>= (λ mem'. returned (say (text_line "OK") mem' flags)))
      else if is "cleanalternate"
      then some (returned (say (text_line "OK") (clean_alternate mem) flags))
      else if is "getreglist"
      then some (text (get_reg_list_str mem))
      else none

  -- the commands that need the charge controller, and the other ones
  unfoldable pub controller_command : List (List ℕ) → List ℕ → Memory → Flags → Outcome Reply
  controller_command command req mem flags =
      let is = λ (s : String). text_eq (word_at command 0) (codes s) in
      let local = λ (answer : Outcome Reply).
        if tracer_connected then answer else forward peer req mem flags in
      if is "triggerserverrealtimeupdate"
      then trigger trigger_server_realtime req mem flags
      else if is "triggerserverstatisticupdate"
      then trigger trigger_server_statistic req mem flags
      else if is "triggertracerrealtimeupdate"
      then trigger trigger_tracer_realtime req mem flags
      else if is "triggertracerstatisticupdate"
      then trigger trigger_tracer_statistic req mem flags
      else if is "modbussend"
      then unless_short 2 command mem flags
          (local (modbus_send connected (word_at command 1) x mem flags))
      else if is "outputon"
      then local (output connected 0x01 x mem flags)
      else if is "outputoff"
      then local (output connected 0x00 x mem flags)
      else if is "switch"
      then unless_short 3 command mem flags (local (returned (switch command mem flags)))
      else if is "help"
      then returned (say print_help mem flags)
      else returned (say (text_line "Unknown Command use HELP for Commandlist") mem flags)

  unfoldable pub run_command : List (List ℕ) → List ℕ → Memory → Flags → Outcome Reply
  run_command command req mem flags = elim (memory_command command mem flags) [
    | some o ↦ o
    | none ↦ controller_command command req mem flags
  ]

  -- `handlecommand` on the bytes of one `recv`, at least one
  unfoldable pub handle_command : List ℕ → Memory → Flags → Outcome Reply
  handle_command req mem flags = run_command (split (strip req)) req mem flags
