-- ===== src/Mttp.antt =====
-- mttp.c and mttp.h: the transport protocol between the client and the server.
pub mod State
pub mod Message
pub mod Encode
pub mod Decode
