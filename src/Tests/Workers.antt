-- ===== src/Tests/Workers.antt =====
-- Runs of src/sertop/worker.cpp and worker_posix.cpp.
use mathlib.Core.List.{Perm}
use waterproof_wrapper.Base.{
  ℕ, ◌+◌, ◌≡◌, refl, arith, List, [], ◌∷◌, ◌++◌, Text, true, replicate, map,
}
use waterproof_wrapper.Platform.{received}
use waterproof_wrapper.Platform.Pipe
use waterproof_wrapper.Platform.Pipe.{Connection, pipe, three_pos}
use waterproof_wrapper.Worker.Parse.{count_nul}
use waterproof_wrapper.Worker.Parse.Split.{split, parse_all, all_bytes, parse_all-split}
use waterproof_wrapper.Worker.Posix.{Worker, Ends, Effect, responded, opened, close, start, destroy}
use waterproof_wrapper.Worker.Posix.Loops.{Next, ready, read_loop, write_loop, locked}
use waterproof_wrapper.Worker.Posix.Loops.Order.{IsOpen, write_loop-joined}
use waterproof_wrapper.Worker.Posix.Loops.Stream.{
  reads, quiet, hung_up, read_loop-terminated, read_loop-hung_up,
}
use waterproof_wrapper.Worker.Posix.Resources.{
  opens, closes, Accounted, start-Accounted, life_closes,
}

abbrev pub ends : ℕ → Ends
ends n = record { read_end = n; write_end = n + 1 }

abbrev pub a_worker : Worker
a_worker = record {
  id = 7;
  running = true;
  message_queue = [];
  stdin_fd = ends 10;
  stdout_fd = ends 12;
  interrupt_fd = ends 14;
  sertop_instance = 1234;
}

abbrev cut : List (Text × Text)
cut = (98 ∷ [], 0 ∷ []) ∷ (0 ∷ 99 ∷ [], []) ∷ []

parse_all-split_example : parse_all (97 ∷ []) cut ≡ split ((97 ∷ []) ++ all_bytes cut)
parse_all-split_example = parse_all-split (97 ∷ []) cut (unfold count_nul in refl)

abbrev messages : List Text
messages = (97 ∷ 98 ∷ []) ∷ (99 ∷ []) ∷ []

read_loop-terminated_example :
    read_loop (λ t e. t) (reads ((97 ∷ []) ∷ (98 ∷ 0 ∷ 99 ∷ []) ∷ (0 ∷ []) ∷ [])) [] a_worker
    ≡ (Next.waits, [], a_worker, map (responded 7) messages)
read_loop-terminated_example =
    read_loop-terminated (λ t e. t) a_worker refl messages
      ((97 ∷ []) ∷ (98 ∷ 0 ∷ 99 ∷ []) ∷ (0 ∷ []) ∷ []) (unfold count_nul in (refl, (refl, tt))) refl

read_loop-hung_up_example :
    read_loop (λ t e. t) (replicate 3 (ready quiet hung_up (received []))) (97 ∷ []) a_worker
    ≡ (Next.waits, 97 ∷ [], a_worker, [])
read_loop-hung_up_example = read_loop-hung_up (λ t e. t) a_worker refl 3 (97 ∷ [])

abbrev fresh : Connection
fresh = record { incoming = []; outgoing = []; next_fd = 3 }

start-Accounted_example : Accounted (start pipe 7 fresh).0
start-Accounted_example = start-Accounted pipe 7 fresh

abbrev first_effects : List Effect
first_effects = opened (ends 14) ∷ opened (ends 10) ∷ opened (ends 12) ∷ close 10 ∷ close 13 ∷ []

life_closes_example :
    Perm (opens first_effects) (closes first_effects ++ closes (destroy true a_worker))
life_closes_example =
    life_closes a_worker first_effects true (unfold opens closes in (refl, refl, refl))

pub pipe-IsOpen : IsOpen Pipe.pipe 11
pipe-IsOpen = record {
  taken = λ w. w.outgoing;
  some_taken = λ bytes w h. (_, _, refl, three_pos _ h, refl);
}

write_loop-joined_example :
    (v : Connection) × (write_loop Pipe.pipe 2
        (replicate 2 locked)
        (record a_worker { message_queue = messages })
        fresh
      ≡ ((Next.waits, record a_worker { message_queue = [] }, []), v))
    × (pipe-IsOpen.taken v ≡ pipe-IsOpen.taken fresh ++ (97 ∷ 98 ∷ 99 ∷ []))
write_loop-joined_example =
    write_loop-joined Pipe.pipe 11 pipe-IsOpen 2 a_worker messages fresh refl refl
      (omega arith, (omega arith, tt))
