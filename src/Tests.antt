-- ===== src/Tests.antt =====
-- Runs of the code at concrete inputs: each applies one theorem where its hypotheses hold.
mod Messages
mod Wire
mod Workers
mod Servers
mod Conductors
mod Startup
mod WindowsWorkers
mod Systems
mod Relays
mod Issues
mod Locking
