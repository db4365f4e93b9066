-- ===== src/Tests.antt =====
-- The theorems at concrete inputs.
pub mod Data
mod Protocol
mod Line
mod Cells
mod Tcp
mod Polling
mod Uploads
mod Displays
mod Commands
