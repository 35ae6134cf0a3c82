-- ===== src/Server.antt =====
-- src/waterproof: the server that accepts clients, reads their requests and sends them responses.
pub mod Queue
pub mod Frame
pub mod State
pub mod Loops
pub mod Startup
