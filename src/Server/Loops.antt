-- ===== src/Server/Loops.antt =====
-- The three threads of the server, `accept_loop`, `read_loop` and `write_loop` of
-- src/waterproof/server.cpp, one round at a time. What `poll` and `accept` give in a round is an
-- argument; reads and writes of clients go to the platform.
pub mod Accept
pub mod Read
pub mod Write
pub mod Ids
pub mod Grants
pub mod Admission
pub mod Delivery
use waterproof_wrapper.Base.{ℕ, ℤ, Bool, true, false}

-- How a round ends: with the next one, by leaving the loop, in undefined behaviour, by an exception
-- that the thread does not catch (which ends the program), or not yet, since an inner loop goes on.
pub data Next : Type 0 where
  again leave undefined aborts spins : Next

-- What `poll` says of a file descriptor: POLLHUP or POLLERR, and POLLRDNORM.
pub record Revents : Type 0 where
  pub gone : Bool
  pub readable : Bool
