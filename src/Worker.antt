-- ===== src/Worker.antt =====
-- src/sertop: the worker that runs a sertop process and exchanges messages with it.
pub mod Parse
pub mod Posix
pub mod Windows
