-- ===== src/Client.antt =====
-- client.c: the client's connection to the server, with its two queues.
pub mod Queues
pub mod Round
use epsolar_tracer_client.Base.{
  ℕ, suc, ◌+◌, ◌-◌, ℤ, pos, negsuc, pos_part, failure, Bool, true, false, not, ◌&&◌, List, [], ◌∷◌,
  ◌++◌, length, take, ltb, leb, if◌then◌else◌, Option, none, some,
}
use epsolar_tracer_client.Modbus.Send.{Sent, write_loop}
use epsolar_tracer_client.Memory.Cells.{◌>>=◌}

abbrev pub max_send_buffer : ℕ
max_send_buffer = 8192

abbrev pub max_send_queue : ℕ
max_send_queue = 50

abbrev pub max_recv_queue : ℕ
max_recv_queue = 50

abbrev pub connect_timeout : ℕ
connect_timeout = 100

-- `SendMsgStruct` and `RecvMsgStruct`: the length, and the bytes that were copied
pub record Message : Type 0 where
  pub lenght : ℤ
  pub bytes : List ℕ

-- `cClient`. `ticks` counts the calls of `time`, and `wire` is what `::send` has taken of the
-- messages, on whatever connection.
pub record Client : Type 0 where
  pub connected : Bool
  pub needreconnect : Bool
  pub last_server_message : ℕ
  pub last_connecting : ℕ
  pub send_queue : List Message
  pub recv_queue : List Message
  pub ticks : ℕ
  pub wire : List ℕ

-- `pop`
abbrev pub pop : List Message → List Message
pop [] = []
pop (m ∷ ms) = ms

-- a message joins a queue that holds at most `limit`: the oldest leaves a queue that is full
abbrev pub push_limited : ℕ → Message → List Message → List Message
push_limited limit m queue =
    if leb limit (length queue) then pop queue ++ m ∷ [] else queue ++ m ∷ []

-- `sendmessage`; the array `data` holds at least `len` bytes.
unfoldable pub sendmessage : List ℕ → ℤ → Client → ℤ × Client
sendmessage bytes len c = if ltb max_send_buffer (pos_part len) then (failure, c) else (
  len,
  record c {
    send_queue =
        push_limited max_send_queue (record { lenght = len; bytes = take (pos_part len) bytes })
          c.send_queue;
  },
)

-- `recvmessage`: the result, the bytes copied to `data`, and the object. The loop copies none where
-- the length is not positive.
unfoldable pub recvmessage : ℕ → Client → ℤ × List ℕ × Client
recvmessage len c = elim c.recv_queue [
  | [] ↦ (pos 0, [], c)
  | m ∷ ms ↦
      if ltb len (pos_part m.lenght)
      then (failure, [], c)
      else (m.lenght, take (pos_part m.lenght) m.bytes, record c { recv_queue = ms })
]

-- `send`: what the calls of `::send` return is a list. A length that is not positive ends the
-- loop at once.
unfoldable pub send : Message → List ℤ → Option Sent
send m results = write_loop (take (pos_part m.lenght) m.bytes) 0 results

-- what `select` and `recv` give in a round
pub data Arrival : Type 0 where
  select_error : Arrival
  timed_out : Arrival
  closed : Arrival
  arrived : (bytes : List ℕ) → Arrival

-- What the system gives to one round of `Body`: whether the heartbeat can be sent, whether `socket`
-- and `::connect` succeed, the results of `::send` for each message, and what arrives.
pub record Turn : Type 0 where
  pub heartbeat : Bool
  pub connects : Bool
  pub sends : List (List ℤ)
  pub arrival : Arrival

-- `closeconnection`; a connected object has a socket.
abbrev pub closeconnection : Client → Client
closeconnection c = record c { connected = false }

-- what `time` returns in each of its calls
module _ (time : ℕ → ℕ) where
  -- `settimeout(true)`
  abbrev pub reset_timeout : Client → Client
  reset_timeout c = record c {
    last_server_message = time c.ticks;
    needreconnect = false;
    ticks = c.ticks + 1;
  }

  -- `settimeout(false)`, with `stillconnected`
  unfoldable pub check_timeout : Bool → Client → Client
  check_timeout heartbeat c =
      let now = time c.ticks in
      let c' : Client = record c { ticks = c.ticks + 1 } in
      if ltb connect_timeout (now - c.last_server_message)
      then if c.connected && heartbeat
        then record c' {
          needreconnect = false;
          last_server_message = time c'.ticks;
          ticks = c'.ticks + 1;
        }
        else record c' { needreconnect = true }
      else c'

  -- `connect`
  abbrev pub connect : Bool → Client → Client
  connect succeeds c = if succeeds then reset_timeout (record c { connected = true }) else c

  -- `while (!SendQueue.empty())`, over the queue
  unfoldable pub drain : List Message → List (List ℤ) → Client → Option Client
  drain [] sends c = some (record c { send_queue = [] })
  drain (m ∷ ms) [] c = none
  drain (m ∷ ms) (results ∷ sends) c = send m results >>= (λ (s : Sent).
      let c' : Client = record c { wire = c.wire ++ s.wire } in
      let rest = drain ms sends (reset_timeout c') in
      if leb (pos_part s.ret) 0 then some (record c' { send_queue = m ∷ ms }) else rest)

  -- the end of the round, from `select` on
  unfoldable pub take_arrival : Arrival → Client → Client
  take_arrival select_error c = c
  take_arrival timed_out c = c
  take_arrival closed c = closeconnection c
  take_arrival (arrived bytes) c = reset_timeout (record c {
    recv_queue =
        push_limited max_recv_queue (record { lenght = pos (length bytes); bytes = bytes })
          c.recv_queue;
  })

  -- `if (connected)`
  unfoldable pub talk : Turn → Client → Option Client
  talk t c =
      if c.connected
      then drain c.send_queue t.sends c >>= (λ c'. some (take_arrival t.arrival c'))
      else some c

  -- what a round does where there is no connection: it tries to connect at most every 30 seconds
  unfoldable pub try_connect : Turn → Client → Option Client
  try_connect t c =
      let now = time c.ticks in
      let c' : Client = record c { ticks = c.ticks + 1 } in
      let c'' = connect t.connects c' in
      if ltb (now - c.last_connecting) 30
      then some c'
      else talk t (record c'' { last_connecting = time c''.ticks; ticks = c''.ticks + 1 })

  -- a round of `Body`
  unfoldable pub body : Turn → Client → Option Client
  body t c =
      let c' = check_timeout t.heartbeat c in
      let c'' = if c'.needreconnect && c'.connected then closeconnection c' else c' in
      if not c''.connected then try_connect t c'' else talk t c''
