-- ===== src/Tests/Locking.antt =====
-- Runs of the threads over their mutexes.
use waterproof_wrapper.Base.{Holds, ◌≡◌, refl, ℕ, List, [], ◌∷◌, ◌++◌, Option, none, some}
use waterproof_wrapper.Locks.{
  Task, Thread, locks, unlocks, clients, queue, creates, forwards, destroys, takes_create,
  invalidates, sends, runs, reports, writes, start, play, step, step_in, may, after, is_held,
  has_ended, holds, task_locks, tasks_locks, works_locks, work_locks, hand_out_locks,
  invalidate_locks, each_invalidate_locks, on_invalidate_locks, destructor_locks, unmap_locks,
}
use waterproof_wrapper.Locks.Finish.{Finishes, play_start-Finishes}
use waterproof_wrapper.Locks.Deadlock.{Both, destroyer, joiner, reporter, destroy-Both}

-- The threads of the conductor, of the server and of the worker of instance 7.
abbrev all : List (Option ℕ × List Task)
all =
    (none, runs (creates ∷ forwards 7 ∷ []) 2 ∷ [])
    ∷ (none, takes_create ∷ invalidates (none ∷ []) ∷ [])
    ∷ (none, sends ∷ [])
    ∷ (some 7, reports ∷ [])
    ∷ (some 7, writes 7 ∷ [])
    ∷ []

play_start-Finishes_example : Holds Finishes (play (0 ∷ 1 ∷ 2 ∷ 4 ∷ 1 ∷ []) (start all))
play_start-Finishes_example =
    play_start-Finishes all (0 ∷ 1 ∷ 2 ∷ 4 ∷ 1 ∷ [])
      ((((tt, (tt, tt)), tt), ((tt, ((refl, tt), tt)), ((tt, tt), ((tt, tt), ((tt, tt), tt))))))

a_sender : Thread
a_sender = record { worker = none; held = []; rest = locks 2 ∷ unlocks 2 ∷ [] }

destroy-Both_example :
    (ts : List Thread) × (play
        (0 ∷ 0 ∷ 0 ∷ [])
        (destroyer 7 (forwards 8 ∷ []) 1 ∷ reporter 7 [] ∷ a_sender ∷ [])
      ≡ some ts)
    × ((turns : List ℕ)
        → Holds (Both (joiner 7 (forwards 8 ∷ []) 1) (reporter 7 [])) (play turns ts))
destroy-Both_example =
    destroy-Both 7 1 (forwards 8 ∷ []) [] (a_sender ∷ []) (unfold is_held holds a_sender in refl)
      (unfold is_held holds a_sender in refl)

-- A destroy request, and the loss of a client with another instance: `run` holds `queue_m_` and is to lock
-- `clients_mutex_`, and the read loop the other way round.
abbrev crossing : List (Option ℕ × List Task)
crossing = (none, runs (destroys 7 ∷ []) 0 ∷ []) ∷ (none, invalidates (some 8 ∷ []) ∷ []) ∷ []

all_held : Option (List Thread) → List ℕ
all_held none = []
all_held (some []) = []
all_held (some (t ∷ ts)) = t.held ++ all_held (some ts)

crossing_holds : all_held (play (0 ∷ 0 ∷ 0 ∷ 0 ∷ 1 ∷ []) (start crossing)) ≡ queue ∷ clients ∷ []
unfolding all_held play start step step_in may after is_held has_ended holds task_locks tasks_locks
    works_locks work_locks hand_out_locks invalidate_locks each_invalidate_locks on_invalidate_locks
    destructor_locks unmap_locks
crossing_holds = refl

crossing_blocks : play (0 ∷ 0 ∷ 0 ∷ 0 ∷ 1 ∷ 0 ∷ []) (start crossing) ≡ none
unfolding play start step step_in may after is_held has_ended holds task_locks tasks_locks
    works_locks work_locks hand_out_locks invalidate_locks each_invalidate_locks on_invalidate_locks
    destructor_locks unmap_locks
crossing_blocks = refl

crossing_blocks_other : play (0 ∷ 0 ∷ 0 ∷ 0 ∷ 1 ∷ 1 ∷ []) (start crossing) ≡ none
unfolding play start step step_in may after is_held has_ended holds task_locks tasks_locks
    works_locks work_locks hand_out_locks invalidate_locks each_invalidate_locks on_invalidate_locks
    destructor_locks unmap_locks
crossing_blocks_other = refl
