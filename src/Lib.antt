-- ===== src/Lib.antt =====
-- EpsolarTracerClient: a program that polls EPsolar Tracer charge controllers, and a server that
-- keeps what it has read.
--
-- The parts and how they interact. `tracerclient` asks the controller (tracerctr.c) over a serial
-- line (modbus.c, cModbus) for its registers, keeps the answers in a memory of registers, coils and
-- discrete inputs (memory.c, cMemory), and sends the contents to `tracerserver` in messages of a
-- transport protocol (mttp.c, cMTTP) through a queue and TCP (client.c, cClient). The server
-- (server.c, cServer) decodes the messages with cMTTP and saves their commands in its own cMemory,
-- from which a Modbus TCP server (modbusserver.c), a text server (mtcpserver.c) and a display
-- (display.c) read. A request that only the charge controller can answer reaches it directly or,
-- where another program is connected to it, as a line of text, from the display or the text server
-- of one program to the text server of the other.
--
-- Files and code:
--   Base        helpers: arrays as lists, the byte macros of modbus.h, exclusive or
--   Common      common.h, `enum data` and `enum action`
--   Mttp        mttp.c: Mttp/State has cMTTP and struct commands; Mttp/Encode has InitBuffer
--               (init_buffer), AddCommand (add_command), CloseBuffer (close_buffer) and GetBuffer
--               (get_buffer); Mttp/Decode has AddMessage (add_message) and GetCommand (get_command).
--               Mttp/Message is the wire format, written down independently of the code.
--   Server      server.c: the loop of cServer::action from a recv on (on_received)
--   Memory      memory.c: Memory/State has the static members; Memory/SaveResponse and
--               Memory/SaveData have the two Save functions; Memory/Read has GetRegister, GetCoil,
--               GetDiscInp, GetUserRegister, GetUserCoil, GetHeader and GetDeviceInfo;
--               Memory/Response has GenerateResponse; Memory/Properties has AddRegisterProperties;
--               Memory/Clean has clean and cleanalternate; Memory/Lookup the index functions;
--               Memory/Strings has GetRegStr, GetCoilStr, GetRegStr32, PutRegStr, PutRegStr32,
--               PutCoilStr and Switch; Memory/Listing has DebugLogMemory and GetRegListStr
--   Modbus      modbus.c: Modbus/Crc has Crc16, Modbus/Send has SendRequest and SendConfirmation,
--               Modbus/Receive has Receive and ReceiveRequest
--   ModbusServer  modbusserver.c: cModbusServer::process (process)
--   Text        the text that the code prints and reads: std::to_string, std::stoi, hexadecimal digits
--   Client      client.c: sendmessage, recvmessage, and a round of cClient::Body (body) with what it
--               calls; Client/Round has the steps of all threads on one object
--   Tracer      tracerclient.c and tracerctr.c: Tracer/Flags and Tracer/Controller have cTracerCtr with
--               modbus_send_request; Tracer/Poll has the Read... functions, SaveTimestamp and the
--               polling part of the main loop (poll); Tracer/Upload has SendMem (send_mem);
--               Tracer/Main has SetTimeout and a round of the main loop (main_round)
--   MtcpServer  mtcpserver.c: MtcpServer/Words has split, MtcpServer/Handle has handlecommand
--               (handle_command), MtcpServer/Reply what its commands print, MtcpServer/Help PrintHelp
--   Display     display.c: a round of cDisplay::Body (display_body)
--   Tests       the theorems at concrete inputs
--
-- How it is modelled. The state of an object is a record, an operation takes it and returns its
-- result with the new one. Numbers are natural numbers, and what the code keeps in 8 or 16 bits is
-- reduced where the code stores it. `int` results that can be negative are integers. An array is a
-- list of its size, and an operation that would access an array outside of it returns `none`; a
-- theorem whose result is `some` says therefore that no such access happens. Where the code's own
-- guards keep an index inside (`Receive`, `process`, the table lookup of `Crc16`), a total access
-- stands instead. Where the code has a buffer and a length, the model has the list of the bytes in
-- use. A text is the list of its character codes. `Tracer/Outcome` tells a call that returns from
-- one that ends the program with `exit`, and from one whose inputs end or that would access an
-- array outside of it.
--
-- The outside. What `write`, `send`, `select`, `read`, `recv` and `connect` give is a list of
-- results or events, in order; what a documented `write` may do, taking fewer bytes than offered,
-- stands as hypothesis on that list. `none` there is a call that the list does not answer. The
-- clock is a function from the number of the call of `time` to its result. What a text server
-- answers to a line is a parameter. What an uninitialised variable holds is a parameter too.
--
-- Bounds. MAXDECODINGLOOPS, 100, bounds the outer loop of the server, and MAX_COMMANDS, 50, the
-- inner one; the loop that reconnects has 20 rounds, and the main loop tries each Read... function
-- 4 times. These are the code's own bounds. All other loops recurse on the data that they walk
-- through, so no fuel is needed.
--
-- Not modelled: sockets, threads and their mutexes, terminal settings, the configuration file, with
-- which `clean` would end by reading it again, signals, options and the start as a daemon,
-- tracerserver.c, which only starts the parts, and the test tools.
-- threadwrapper is another project's library.
pub mod Base
pub mod Common
pub mod Modbus
pub mod ModbusServer
pub mod Mttp
pub mod Memory
pub mod Server
pub mod Tests
pub mod Client
pub mod MtcpServer
pub mod Display
pub mod Text
pub mod Tracer
