-- ===== src/Tests/WindowsWorkers.antt =====
-- Runs of src/sertop/worker_win.cpp, on a small platform that hands out the numbers in order, does not
-- open the event with the number 9, and whose pipe takes one byte at a time.
use waterproof_wrapper.Base.{
  ℕ, ◌+◌, pos, ◌≡◌, refl, arith, List, [], ◌∷◌, ◌++◌, Text, true, false, map, take, inr,
  if◌then◌else◌, ◌==◌,
}
use waterproof_wrapper.Utils.Exceptions.{ApiError}
use waterproof_wrapper.Platform.{sent}
use waterproof_wrapper.Platform.Setup.{
  handle, Act, acquired, released, call_failed, opened, open_failed,
}
use waterproof_wrapper.Platform.Setup.Balance.{total, gained, lost}
use waterproof_wrapper.Worker.Parse.{count_nul}
use waterproof_wrapper.Worker.Posix.Loops.{Next, wrote}
use waterproof_wrapper.Worker.Windows.{
  WorkerApi, created, Worker, responded, open_sertop, start, timed_out,
}
use waterproof_wrapper.Worker.Windows.Handles.{
  Holds, lived, HandlesAccounted, start-HandlesAccounted, closed_handles, life_leaks_events, events,
}
use waterproof_wrapper.Worker.Windows.Loops.{ReadEvent, wait_failed, read_loop, write}
use waterproof_wrapper.Worker.Windows.Loops.Failures.{Reported, overlapped_loop-Reported}
use waterproof_wrapper.Worker.Windows.Loops.Stream.{reads, overlapped_loop-terminated}
use waterproof_wrapper.Worker.Windows.Loops.Write.{IsPipe, write-wrote}

-- The next handle, what the pipe has taken, and the bytes of the write that was started last.
record Machine : Type 0 where
  next : ℕ
  outgoing : Text
  pending : Text

abbrev machine : WorkerApi
machine = record {
  World = Machine;
  process_id = 42;
  io_pending = pos 997;
  format_name = λ p i. [];
  format_code = λ t e. t;
  create_named_pipe = λ t w. (opened w.next, record w { next = w.next + 1 });
  create_file = λ t w. (opened w.next, record w { next = w.next + 1 });
  create_process = λ t h w. (created w.next (w.next + 1), record w { next = w.next + 2 });
  create_event = λ w.
      (if w.next == 9 then open_failed (pos 8) else opened w.next, record w { next = w.next + 1 });
  write_file = λ h t w. (call_failed (pos 997), record w { pending = t });
  write_result =
      λ h w. (sent 1, record w { outgoing = w.outgoing ++ take 1 w.pending; pending = [] });
}

abbrev booted : Machine
booted = record { next = 4; outgoing = []; pending = [] }

start-HandlesAccounted_example :
    HandlesAccounted
      (open_sertop machine 7 (115 ∷ []) ((97 ∷ []) ∷ []) booted).0.0
      (start machine 7 (115 ∷ []) ((97 ∷ []) ∷ []) booted).0
start-HandlesAccounted_example = start-HandlesAccounted machine 7 (115 ∷ []) ((97 ∷ []) ∷ []) booted

abbrev a_worker : Worker
a_worker = record {
  id = 7;
  running = true;
  message_queue = [];
  pipe_worker_end = 4;
  pipe_sertop_end = 5;
  sertop_instance = 6;
  interrupt_event = 8;
  read_event = 9;
  write_event = 10;
}

abbrev first_acts : List Act
first_acts =
    acquired (handle 4)
    ∷ acquired (handle 5)
    ∷ acquired (handle 6)
    ∷ acquired (handle 7)
    ∷ released (handle 7)
    ∷ acquired (handle 8)
    ∷ acquired (handle 9)
    ∷ acquired (handle 10)
    ∷ []

first_acts-Holds : Holds a_worker first_acts
unfolding gained lost
first_acts-Holds x = omega arith

abbrev a_failure : ApiError
a_failure = record { what = []; error_number = pos 109 }

life_leaks_events_example :
    gained (handle 9) first_acts
    ≡ lost (handle 9) first_acts
      + total (handle 9) (closed_handles (lived timed_out (a_failure ∷ []) a_worker))
      + total (handle 9) (events a_worker)
life_leaks_events_example =
    life_leaks_events a_worker first_acts timed_out (a_failure ∷ []) first_acts-Holds (handle 9)

abbrev messages : List Text
messages = (97 ∷ 98 ∷ []) ∷ (99 ∷ []) ∷ []

overlapped_loop-terminated_example :
    read_loop
      (λ t e. t)
      (pos 997)
      (reads (pos 997) ((true, 97 ∷ []) ∷ (false, 98 ∷ 0 ∷ 99 ∷ []) ∷ (true, 0 ∷ []) ∷ []))
      []
      a_worker
    ≡ (Next.waits, [], a_worker, map (responded 7) messages)
overlapped_loop-terminated_example =
    overlapped_loop-terminated (λ t e. t) (pos 997) a_worker refl messages
      ((true, 97 ∷ []) ∷ (false, 98 ∷ 0 ∷ 99 ∷ []) ∷ (true, 0 ∷ []) ∷ [])
      (unfold count_nul in (refl, (refl, tt))) refl

-- A read that cannot be started, and a wait that fails: two failures are reported.
abbrev two_failures : List ReadEvent
two_failures = record { begun = call_failed (pos 109); signal = wait_failed (pos 6) } ∷ []

overlapped_loop-Reported_example :
    Reported a_worker (read_loop (λ t e. t) (pos 997) two_failures [] a_worker)
overlapped_loop-Reported_example =
    overlapped_loop-Reported (λ t e. t) (pos 997) two_failures [] a_worker

machine-IsPipe : IsPipe machine 4
machine-IsPipe = record {
  taken = λ w. w.outgoing;
  begun = λ bytes w. inr refl;
  ended = λ bytes w h. (1, _, refl, omega arith, refl);
}

write-wrote_example :
    (v : Machine) × (write machine 3 4 (97 ∷ 98 ∷ 99 ∷ []) booted ≡ (wrote, v))
    × (machine-IsPipe.taken v ≡ machine-IsPipe.taken booted ++ (97 ∷ 98 ∷ 99 ∷ []))
write-wrote_example =
    write-wrote machine 4 machine-IsPipe 3 (97 ∷ 98 ∷ 99 ∷ []) booted (omega arith)
