-- ===== src/Locks.antt =====
-- The mutexes of the program, in the order in which the threads of src/conductor.cpp,
-- src/waterproof/server.cpp, src/sertop/worker.cpp and worker_posix.cpp lock and unlock them, and the
-- joins of threads. What they do in between is left out; so are the waits on condition variables, which
-- give a mutex back and take it again before anything else is locked.
pub mod Order
pub mod Progress
pub mod Finish
pub mod Deadlock
use waterproof_wrapper.Base.{
  ℕ, zero, suc, ◌+◌, Bool, true, false, not, ◌||◌, ◌&&◌, List, [], ◌∷◌, ◌++◌, Option, none, some,
  if◌then◌else◌, ◌==◌,
}

-- `clients_mutex_`, `queue_m_`, `response_queue_mutex_`, and `message_queue_mutex_` of a worker.
abbrev pub clients : ℕ
clients = 0

abbrev pub queue : ℕ
queue = 1

abbrev pub responses : ℕ
responses = 2

abbrev pub messages : ℕ → ℕ
messages i = suc (suc (suc i))

-- A lock, an unlock, and the join of both threads of the worker of an instance.
pub data Act : Type 0 where
  locks unlocks joins : ℕ → Act

-- A mutex that is held for a scope.
abbrev guarded : ℕ → List Act → List Act
guarded m acts = locks m ∷ (acts ++ (unlocks m ∷ []))

-- `server::enqueue`, `server::unmap`, and the callbacks of the server.
unfoldable pub enqueue_locks : List Act
enqueue_locks = guarded responses []

unfoldable pub unmap_locks : List Act
unmap_locks = guarded clients []

unfoldable pub callback_locks : List Act
callback_locks = guarded queue []

-- The destructor of a worker that runs.
unfoldable pub destructor_locks : ℕ → List Act
destructor_locks i = guarded (messages i) [] ++ (joins i ∷ [])

-- `on_invalidate` for an instance; there may be no worker for it.
unfoldable pub on_invalidate_locks : Option ℕ → List Act
unfolding destructor_locks
on_invalidate_locks none = guarded queue []
on_invalidate_locks (some i) = guarded queue (destructor_locks i)

-- `server::invalidate`: the callbacks for each mapping of the client run in its scope.
unfoldable pub each_invalidate_locks : List (Option ℕ) → List Act
unfolding on_invalidate_locks
each_invalidate_locks [] = []
each_invalidate_locks (o ∷ os) = on_invalidate_locks o ++ each_invalidate_locks os

unfoldable pub invalidate_locks : List (Option ℕ) → List Act
unfolding each_invalidate_locks
invalidate_locks os = guarded clients (each_invalidate_locks os)

-- `server::fail` and `worker::fail`: the callbacks run behind the scope. A worker that fails is destroyed
-- by its own thread, whose join of itself throws; here it never goes on.
unfoldable pub server_fail_locks : List Act
unfolding callback_locks
server_fail_locks = guarded responses [] ++ callback_locks

unfoldable pub worker_fail_locks : ℕ → List Act
worker_fail_locks i = guarded (messages i) [] ++ guarded queue (joins i ∷ [])

-- What a request locks in `handle_request`; a create request that is answered locks nothing.
pub data Work : Type 0 where
  creates stops : Work
  forwards destroys : ℕ → Work

unfoldable pub work_locks : Work → List Act
unfolding destructor_locks unmap_locks
work_locks creates = []
work_locks stops = []
work_locks (forwards i) = guarded (messages i) []
work_locks (destroys i) = destructor_locks i ++ unmap_locks

unfoldable pub works_locks : List Work → List Act
unfolding work_locks
works_locks [] = []
works_locks (x ∷ xs) = work_locks x ++ works_locks xs

unfoldable pub hand_out_locks : ℕ → List Act
unfolding enqueue_locks
hand_out_locks zero = []
hand_out_locks (suc n) = enqueue_locks ++ hand_out_locks n

-- What the threads do, a round or a callback at a time: the accept loop takes a client, or fails; the
-- read loop is refreshed, takes a create request or another one, or finds a client invalid; the write
-- loop sends a response, and may find its client invalid; `run` works off requests and hands out so many
-- responses; a worker reports, takes a message to write, or fails.
pub data Task : Type 0 where
  admits refreshes takes_create takes_other server_fails : Task
  invalidates sends_to_lost : List (Option ℕ) → Task
  sends : Task
  runs : List Work → ℕ → Task
  reports : Task
  writes worker_fails : ℕ → Task

unfoldable pub task_locks : Task → List Act
unfolding callback_locks server_fail_locks invalidate_locks works_locks hand_out_locks
    worker_fail_locks
task_locks admits = guarded clients []
task_locks refreshes = guarded clients []
task_locks takes_create = guarded clients [] ++ callback_locks
task_locks takes_other = callback_locks
task_locks server_fails = server_fail_locks
task_locks (invalidates os) = invalidate_locks os
task_locks (sends_to_lost os) = guarded responses [] ++ invalidate_locks os
task_locks sends = guarded responses []
task_locks (runs works n) = guarded queue (works_locks works ++ hand_out_locks n)
task_locks reports = guarded queue []
task_locks (writes i) = guarded (messages i) []
task_locks (worker_fails i) = worker_fail_locks i

-- A thread: the instance of its worker, the mutexes that it holds, and what it has to do.
pub record Thread : Type 0 where
  pub worker : Option ℕ
  pub held : List ℕ
  pub rest : List Act

unfoldable pub tasks_locks : List Task → List Act
unfolding task_locks
tasks_locks [] = []
tasks_locks (t ∷ ts) = task_locks t ++ tasks_locks ts

unfoldable pub start : List (Option ℕ × List Task) → List Thread
unfolding tasks_locks
start [] = []
start ((worker, tasks) ∷ others) =
    record { worker = worker; held = []; rest = tasks_locks tasks } ∷ start others

unfoldable pub holds : ℕ → List ℕ → Bool
holds m [] = false
holds m (n ∷ ns) = (n == m) || holds m ns

unfoldable pub is_held : ℕ → List Thread → Bool
unfolding holds
is_held m [] = false
is_held m (t ∷ ts) = holds m t.held || is_held m ts

abbrev pub at_end : List Act → Bool
at_end [] = true
at_end (act ∷ acts) = false

abbrev pub is_of : ℕ → Option ℕ → Bool
is_of i none = false
is_of i (some j) = j == i

-- The threads of this worker have ended.
unfoldable pub has_ended : ℕ → List Thread → Bool
has_ended i [] = true
has_ended i (t ∷ ts) = (not (is_of i t.worker) || at_end t.rest) && has_ended i ts

-- Whether a thread with this to do can go on among these threads, and what it is then.
unfoldable pub may : List Thread → List Act → Bool
unfolding is_held has_ended
may ts [] = false
may ts (locks m ∷ acts) = not (is_held m ts)
may ts (unlocks m ∷ acts) = true
may ts (joins i ∷ acts) = has_ended i ts

abbrev pub release : ℕ → List ℕ → List ℕ
release m [] = []
release m (n ∷ ns) = if n == m then ns else n ∷ release m ns

unfoldable pub after : List Act → Thread → Thread
after [] t = t
after (locks m ∷ acts) t = record t { held = m ∷ t.held; rest = acts }
after (unlocks m ∷ acts) t = record t { held = release m t.held; rest = acts }
after (joins i ∷ acts) t = record t { rest = acts }

abbrev pub put : Thread → Option (List Thread) → Option (List Thread)
put t none = none
put t (some ts) = some (t ∷ ts)

-- The thread of this number goes on; `none` if it cannot.
unfoldable pub step_in : List Thread → ℕ → List Thread → Option (List Thread)
unfolding may after
step_in all n [] = none
step_in all zero (t ∷ ts) = if may all t.rest then some (after t.rest t ∷ ts) else none
step_in all (suc n) (t ∷ ts) = put t (step_in all n ts)

unfoldable pub step : ℕ → List Thread → Option (List Thread)
unfolding step_in
step n ts = step_in ts n ts

abbrev and_go : Option (List Thread) → (List Thread → Option (List Thread)) → Option (List Thread)
and_go none f = none
and_go (some ts) f = f ts

-- The threads go on in this order.
unfoldable pub play : List ℕ → List Thread → Option (List Thread)
unfolding step
play [] ts = some ts
play (n ∷ ns) ts = and_go (step n ts) (play ns)
