-- ===== src/MtcpServer.antt =====
-- mtcpserver.c: the text commands of the TCP clients.
pub mod Words
pub mod Reply
pub mod Help
pub mod Handle
pub mod Requests
pub mod Forwarded
