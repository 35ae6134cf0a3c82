-- ===== src/Worker/Windows/Loops.antt =====
-- `read_loop`, one round at a time, and `write` of src/sertop/worker_win.cpp. What `ReadFile`, the wait,
-- `GetOverlappedResult` and `ResetEvent` give in a round is an argument. The buffer is not cleared between
-- reads; `parse` looks at the bytes of the last read only, and the rest of the buffer is taken as clear.
pub mod Failures
pub mod Stream
pub mod Write
use waterproof_wrapper.Base.{
  ℕ, zero, suc, ℤ, Bool, true, false, List, [], ◌∷◌, ◌++◌, Text, codes, if◌then◌else◌, int_eq,
  length, drop, map,
}
use waterproof_wrapper.Utils.Exceptions.{ApiError, coded_error}
use waterproof_wrapper.Platform.{Received, received, recv_failed, Sent, sent, send_failed}
use waterproof_wrapper.Platform.Setup.{Called, call_ok, call_failed}
use waterproof_wrapper.Worker.Parse.{parse}
use waterproof_wrapper.Worker.Posix.Loops.{Next, filled, Written, wrote, write_threw, unfinished}
use waterproof_wrapper.Worker.Windows.{WorkerApi, Worker, Effect, responded, fail}

-- What `WaitForMultipleObjects` gives: a failure, the interrupt, the end of a read, with what
-- `GetOverlappedResult` gives then and `ResetEvent` after it, or another value.
pub data Signal : Type 0 where
  wait_failed : ℤ → Signal
  interrupted : Signal
  read_ended : Received → Called → Signal
  other : Signal

-- What the platform gives in a round: the start of the read, and the wait.
pub record ReadEvent : Type 0 where
  pub begun : Called
  pub signal : Signal

abbrev pub Round : Type 0
Round = Next × Text × Worker × List Effect

unfoldable pub after_round : (Text → Worker → Round) → Round → Round
after_round rest (Next.again, remainder, k, effects) =
    let (next, last, k', more) = rest remainder k in (next, last, k', effects ++ more)
after_round rest (Next.leave, remainder, k, effects) = (Next.leave, remainder, k, effects)
after_round rest (Next.waits, remainder, k, effects) = (Next.waits, remainder, k, effects)

module _ (format_code : Text → ℤ → Text) (io_pending : ℤ) where
  abbrev pub failed_with : Text → ℤ → Worker → Worker × List Effect
  failed_with message e k = fail (coded_error format_code message e) k

  unfoldable pub unless_pending : Bool → ℤ → Worker → Worker × List Effect
  unless_pending true e k = (k, [])
  unless_pending false e k = failed_with (codes "unable to start reading from sertop") e k

  -- A read that cannot be started is a failure, but the round goes on.
  unfoldable pub begin_read : Called → Worker → Worker × List Effect
  unfolding unless_pending
  begin_read call_ok k = (k, [])
  begin_read (call_failed e) k = unless_pending (int_eq e io_pending) e k

  abbrev pub leave_failed : Text → ℤ → Text → Worker → List Effect → Round
  leave_failed message e remainder k before =
      let (k', effects) = failed_with message e k in (Next.leave, remainder, k', before ++ effects)

  unfoldable pub after_reset : Called → Text → Worker → List Effect → Round
  after_reset call_ok remainder k effects = (Next.again, remainder, k, effects)
  after_reset (call_failed e) remainder k effects =
      leave_failed (codes "unable to reset read event") e remainder k effects

  unfoldable pub take_output : Received → Called → Text → Worker → Round
  unfolding after_reset
  take_output (recv_failed e) reset remainder k =
      leave_failed (codes "unable to finish reading from sertop") e remainder k []
  take_output (received bytes) reset remainder k =
      let (messages, rest) = parse (filled bytes) (length bytes) remainder in
      after_reset reset rest k (map (responded k.id) messages)

  unfoldable pub on_signal : Signal → Text → Worker → Round
  unfolding take_output
  on_signal (wait_failed e) remainder k =
      leave_failed (codes "unable to wait on read and interrupt events") e remainder k []
  on_signal interrupted remainder k = (Next.leave, remainder, k, [])
  on_signal (read_ended result reset) remainder k = take_output result reset remainder k
  on_signal other remainder k = (Next.again, remainder, k, [])

  unfoldable pub after_begin : Signal → Text → Worker × List Effect → Round
  unfolding on_signal
  after_begin signal remainder (k, before) =
      let (next, last, k', effects) = on_signal signal remainder k in
      (next, last, k', before ++ effects)

  unfoldable pub read_round : ReadEvent → Text → Worker → Round
  unfolding begin_read after_begin
  read_round event remainder k =
      if k.running
      then after_begin event.signal remainder (begin_read event.begun k)
      else (Next.leave, remainder, k, [])

  -- The loop over the rounds that the platform gives; if they are used up, it waits for more, or leaves
  -- if the worker has been stopped.
  unfoldable pub read_loop : List ReadEvent → Text → Worker → Round
  unfolding read_round after_round
  read_loop [] remainder k = (if k.running then Next.waits else Next.leave, remainder, k, [])
  read_loop (event ∷ events) remainder k =
      after_round (read_loop events) (read_round event remainder k)

module _ (a : WorkerApi) where
  open a use {World, io_pending, format_code, write_file, write_result}

  abbrev pub not_written : Text → ℤ → World → Written × World
  not_written message e w = (write_threw (coded_error format_code message e), w)

  unfoldable pub after_write :
      Text → (Text → World → Written × World) → Sent × World → Written × World
  after_write bytes rest (sent n, w) = rest (drop n bytes) w
  after_write bytes rest (send_failed e, w) =
      not_written (codes "could not finish write to sertop") e w

  unfoldable pub after_start : (World → Written × World) → Called × World → Written × World
  after_start finish (call_ok, w) = finish w
  after_start finish (call_failed e, w) =
      if int_eq e io_pending
      then finish w
      else not_written (codes "could not start write to sertop") e w

  -- `worker::write` on this end of the pipe: the bytes are those that are left.
  unfoldable pub write : ℕ → ℕ → Text → World → Written × World
  unfolding after_write after_start
  write fuel end [] w = (wrote, w)
  write zero end (b ∷ bytes) w = (unfinished, w)
  write (suc fuel) end (b ∷ bytes) w =
      after_start (λ v. after_write (b ∷ bytes) (write fuel end) (write_result end v))
        (write_file end (b ∷ bytes) w)
