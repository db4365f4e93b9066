-- ===== src/Memory.antt =====
-- memory.c and memory.h: the registers, coils and discrete inputs that the program keeps.
pub mod State
pub mod Tables
pub mod Lookup
pub mod Cells
pub mod Invariant
pub mod SaveData
pub mod SaveResponse
pub mod Read
pub mod Response
pub mod Properties
pub mod Strings
pub mod Listing
pub mod Clean
