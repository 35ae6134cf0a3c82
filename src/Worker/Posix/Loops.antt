-- ===== src/Worker/Posix/Loops.antt =====
-- The threads of the worker, one round at a time: `read_loop` of src/sertop/worker_posix.cpp and
-- `write_loop` of src/sertop/worker.cpp. What the locks, `poll` and `read` give is an argument.
pub mod Order
pub mod Stream
use waterproof_wrapper.Base.{
  ℕ, zero, suc, ◌-◌, ℤ, pos, Bool, true, false, List, [], ◌∷◌, ◌++◌, Option, none, some, Text,
  codes, if◌then◌else◌, ◌||◌, length, drop, replicate, map,
}
use waterproof_wrapper.Utils.Exceptions.{ApiError, coded_error}
use waterproof_wrapper.Platform.{Api, Received, received, recv_failed, Sent, sent, send_failed}
use waterproof_wrapper.Worker.Parse.{parse}
use waterproof_wrapper.Worker.Posix.{Worker, Effect, responded, fail}

-- How a round ends: with the next one, by leaving the loop, or not yet, since it waits.
pub data Next : Type 0 where
  again leave waits : Next

-- POLLIN, POLLHUP and POLLERR.
pub record Revents : Type 0 where
  pub pollin : Bool
  pub pollhup : Bool
  pub pollerr : Bool

-- What the platform gives in a round: the result of `poll`, with what it says of the interrupt and of
-- sertop's output, and the result of `read`.
pub data ReadEvent : Type 0 where
  poll_failed : ℤ → ReadEvent
  none_ready : ReadEvent
  ready : Revents → Revents → Received → ReadEvent

abbrev pub buffer_size : ℕ
buffer_size = 4096

-- The buffer that `read` filled with some bytes; the rest of it is clear.
abbrev pub filled : Text → Text
filled bytes = bytes ++ replicate (buffer_size - length bytes) 0

abbrev pub Round : Type 0
Round = Next × Text × Worker × List Effect

unfoldable pub after_round : (Text → Worker → Round) → Round → Round
after_round rest (Next.again, remainder, k, effects) =
    let (next, last, k', more) = rest remainder k in (next, last, k', effects ++ more)
after_round rest (Next.leave, remainder, k, effects) = (Next.leave, remainder, k, effects)
after_round rest (Next.waits, remainder, k, effects) = (Next.waits, remainder, k, effects)

module _ (format_code : Text → ℤ → Text) where
  abbrev pub fail_with : Text → ℤ → Text → Worker → List Effect → Round
  fail_with message e remainder k before =
      let (k', effects) = fail (coded_error format_code message e) k in
      (Next.leave, remainder, k', before ++ effects)

  -- The test for POLLERR at the end of a round.
  unfoldable pub check_errors : Bool → Text → Worker → List Effect → Round
  check_errors true remainder k effects =
      fail_with (codes "unknown error occurred in pipes") (pos 0) remainder k effects
  check_errors false remainder k effects = (Next.again, remainder, k, effects)

  unfoldable pub take_output : Bool → Received → Text → Worker → Round
  unfolding check_errors
  take_output error (recv_failed e) remainder k =
      fail_with (codes "unable to read from sertop") e remainder k []
  take_output error (received bytes) remainder k =
      let (messages, rest) = parse (filled bytes) (length bytes) remainder in
      check_errors error rest k (map (responded k.id) messages)

  unfoldable pub read_polled : ReadEvent → Text → Worker → Round
  unfolding take_output
  read_polled (poll_failed e) remainder k =
      fail_with (codes "unable to poll pipes") e remainder k []
  read_polled none_ready remainder k = (Next.again, remainder, k, [])
  read_polled (ready interrupt output result) remainder k =
      let error = interrupt.pollerr || output.pollerr in
      if interrupt.pollin || interrupt.pollhup || interrupt.pollerr
      then (Next.leave, remainder, k, [])
      else if output.pollin
      then take_output error result remainder k
      else check_errors error remainder k []

  unfoldable pub read_round : ReadEvent → Text → Worker → Round
  unfolding read_polled
  read_round event remainder k =
      if k.running then read_polled event remainder k else (Next.leave, remainder, k, [])

  -- The loop over the rounds that the platform gives; it waits for more if they are used up.
  unfoldable pub read_loop : List ReadEvent → Text → Worker → Round
  unfolding read_round after_round
  read_loop [] remainder k = (Next.waits, remainder, k, [])
  read_loop (event ∷ events) remainder k =
      after_round (read_loop events) (read_round event remainder k)

-- What a write to sertop comes to; `unfinished` says that the model ran out of fuel.
pub data Written : Type 0 where
  wrote : Written
  write_threw : ApiError → Written
  unfinished : Written

-- What the locks of the message queue give in a round of `write_loop`.
pub data LockEvent : Type 0 where
  lock_failed unlock_failed locked : LockEvent

module _ (a : Api) where
  open a use {World, format_code}

  -- The body of the loop of `worker::write`, given what the platform's `write` gave.
  unfoldable pub after_piece :
      Text → (Text → World → Written × World) → Sent → World → Written × World
  after_piece bytes rest (sent n) w = rest (drop n bytes) w
  after_piece bytes rest (send_failed e) w =
      (write_threw (coded_error format_code (codes "unable to write to sertop") e), w)

  -- `worker::write`: `data` and `to_write` are the bytes that are left.
  unfoldable pub write : ℕ → ℕ → Text → World → Written × World
  unfolding after_piece
  write fuel fd [] w = (wrote, w)
  write zero fd (b ∷ bytes) w = (unfinished, w)
  write (suc fuel) fd (b ∷ bytes) w =
      let (result, w') = a.write fd (b ∷ bytes) w in
      after_piece (b ∷ bytes) (write fuel fd) result w'

  abbrev pub failed_round : ApiError → Worker → Next × Worker × List Effect
  failed_round error k = let (k', effects) = fail error k in (Next.leave, k', effects)

  unfoldable pub after_message : Worker → Written × World → (Next × Worker × List Effect) × World
  after_message k (wrote, w) = ((Next.again, k, []), w)
  after_message k (write_threw e, w) = (failed_round e k, w)
  after_message k (unfinished, w) = ((Next.waits, k, []), w)

  -- The oldest message is taken off the queue before the lock is given back, and then written.
  unfoldable pub send_front :
      ℕ → LockEvent → List Text → Worker → World → (Next × Worker × List Effect) × World
  unfolding after_message write
  send_front fuel lock_failed queue k w =
      (failed_round (coded_error format_code (codes "failed to acquire lock") (pos 0)) k, w)
  send_front fuel unlock_failed [] k w = ((Next.waits, k, []), w)
  send_front fuel unlock_failed (message ∷ queue) k w = (
    failed_round (coded_error format_code (codes "failed to unlock lock") (pos 0))
        (record k { message_queue = queue }),
    w,
  )
  send_front fuel locked [] k w = ((Next.waits, k, []), w)
  send_front fuel locked (message ∷ queue) k w =
      after_message (record k { message_queue = queue }) (write fuel k.stdin_fd.write_end message w)

  unfoldable pub write_round :
      ℕ → LockEvent → Worker → World → (Next × Worker × List Effect) × World
  unfolding send_front
  write_round fuel event k w =
      if k.running then send_front fuel event k.message_queue k w else ((Next.leave, k, []), w)

  unfoldable pub after_write_round :
      (Worker → World → (Next × Worker × List Effect) × World)
      → (Next × Worker × List Effect) × World
      → (Next × Worker × List Effect) × World
  after_write_round rest ((Next.again, k, effects), w) =
      let ((next, k', more), w') = rest k w in ((next, k', effects ++ more), w')
  after_write_round rest ((Next.leave, k, effects), w) = ((Next.leave, k, effects), w)
  after_write_round rest ((Next.waits, k, effects), w) = ((Next.waits, k, effects), w)

  -- The loop over the rounds for which the locks give these results; it waits when they are used up.
  unfoldable pub write_loop :
      ℕ → List LockEvent → Worker → World → (Next × Worker × List Effect) × World
  unfolding write_round after_write_round
  write_loop fuel [] k w = ((Next.waits, k, []), w)
  write_loop fuel (event ∷ events) k w =
      after_write_round (write_loop fuel events) (write_round fuel event k w)
