-- ===== src/Tracer.antt =====
-- tracerctr.c and tracerclient.c: the program that polls the charge controller.
pub mod Outcome
pub mod Flags
pub mod Controller
pub mod Poll
pub mod Upload
pub mod Main
