-- ===== src/Modbus.antt =====
-- modbus.c: the serial line of the slave and of the master.
pub mod Tables
pub mod Crc
pub mod Send
pub mod Receive
