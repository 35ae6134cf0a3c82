-- ===== src/Locks/Order.antt =====
-- The order of the mutexes.
use waterproof_wrapper.Base.{
  ℕ, zero, suc, ◌<◌, ◌≡◌, refl, sym, subst, arith, List, [], ◌∷◌, ◌++◌, append_assoc, Option, none,
  some, All,
}
use waterproof_wrapper.Locks.{
  Act, locks, unlocks, joins, Work, Task, Thread, enqueue_locks, callback_locks,
  on_invalidate_locks, each_invalidate_locks, invalidate_locks, server_fail_locks, works_locks,
  work_locks, hand_out_locks, task_locks, tasks_locks, start, creates, stops, forwards, destroys,
  admits, refreshes, takes_create, takes_other, server_fails, invalidates, sends_to_lost, sends,
  runs, reports, writes, worker_fails,
}

-- The mutexes of the messages of workers come last, in no order among themselves.
abbrev pub rank : ℕ → ℕ
rank zero = 0
rank (suc zero) = 1
rank (suc (suc zero)) = 2
rank (suc (suc (suc n))) = 3

-- What a thread that holds these has to do: each mutex that it locks comes behind those it holds, the
-- last one locked is unlocked first, none is held at the end, and no thread is joined.
abbrev pub Ordered : List ℕ → List Act → Type 0
Ordered held [] = held ≡ []
Ordered held (locks m ∷ acts) = All (λ n. rank n < rank m) held × Ordered (m ∷ held) acts
Ordered [] (unlocks m ∷ acts) = ⊥
Ordered (n ∷ held) (unlocks m ∷ acts) = (n ≡ m) × Ordered held acts
Ordered held (joins i ∷ acts) = ⊥

-- Requests and tasks that destroy no worker.
abbrev pub KeepsWorker : Work → Type 0
KeepsWorker (destroys i) = ⊥
KeepsWorker (forwards i) = Unit
KeepsWorker creates = Unit
KeepsWorker stops = Unit

abbrev pub KeepsWorkers : Task → Type 0
KeepsWorkers (runs works n) = All KeepsWorker works
KeepsWorkers (invalidates os) = All (λ o. o ≡ none) os
KeepsWorkers (sends_to_lost os) = All (λ o. o ≡ none) os
KeepsWorkers (worker_fails i) = ⊥
KeepsWorkers admits = Unit
KeepsWorkers refreshes = Unit
KeepsWorkers takes_create = Unit
KeepsWorkers takes_other = Unit
KeepsWorkers server_fails = Unit
KeepsWorkers sends = Unit
KeepsWorkers reports = Unit
KeepsWorkers (writes i) = Unit

Ordered-append :
    (held : List ℕ) (xs ys : List Act) → Ordered held xs → Ordered [] ys → Ordered held (xs ++ ys)
Ordered-append held [] ys h g = subst (λ held. Ordered held ys) (sym h) g
Ordered-append held (locks m ∷ xs) ys h g = (h.0, Ordered-append (m ∷ held) xs ys h.1 g)
Ordered-append [] (unlocks m ∷ xs) ys h g = absurd h
Ordered-append (n ∷ held) (unlocks m ∷ xs) ys h g = (h.0, Ordered-append held xs ys h.1 g)
Ordered-append held (joins i ∷ xs) ys h g = absurd h

-- Acts that may stand before others while these are held.
abbrev Nests : List ℕ → List Act → Type 0
Nests held xs = (ys : List Act) → Ordered held ys → Ordered held (xs ++ ys)

nested : (held : List ℕ) (xs ys : List Act) → Nests held xs → Nests held ys → Nests held (xs ++ ys)
nested held xs ys h g zs k =
    subst (Ordered held) (sym (append_assoc xs ys zs)) (h (ys ++ zs) (g zs k))

work-Nests : (x : Work) → KeepsWorker x → Nests (1 ∷ []) (work_locks x)
unfolding work_locks
work-Nests creates k ys h = h
work-Nests stops k ys h = h
work-Nests (forwards i) k ys h = ((omega arith, tt), (refl, h))
work-Nests (destroys i) k ys h = absurd k

works-Nests : (xs : List Work) → All KeepsWorker xs → Nests (1 ∷ []) (works_locks xs)
unfolding works_locks
works-Nests [] k ys h = h
works-Nests (x ∷ xs) k ys h =
    nested (1 ∷ []) (work_locks x) (works_locks xs) (work-Nests x k.0) (works-Nests xs k.1) ys h

hand_out-Nests : (n : ℕ) → Nests (1 ∷ []) (hand_out_locks n)
unfolding hand_out_locks enqueue_locks
hand_out-Nests zero ys h = h
hand_out-Nests (suc n) ys h = ((omega arith, tt), (refl, hand_out-Nests n ys h))

-- A client without workers.
lost-Nests :
    (os : List (Option ℕ)) → All (λ o. o ≡ none) os → Nests (0 ∷ []) (each_invalidate_locks os)
unfolding each_invalidate_locks on_invalidate_locks
lost-Nests [] k ys h = h
lost-Nests (none ∷ os) k ys h = ((omega arith, tt), (refl, lost-Nests os k.1 ys h))
lost-Nests (some i ∷ os) k ys h = cc

invalidate-Ordered :
    (os : List (Option ℕ)) → All (λ o. o ≡ none) os → Ordered [] (invalidate_locks os)
unfolding invalidate_locks
invalidate-Ordered os k = (tt, lost-Nests os k (unlocks 0 ∷ []) (refl, refl))

task-Ordered : (t : Task) → KeepsWorkers t → Ordered [] (task_locks t)
unfolding task_locks callback_locks server_fail_locks
task-Ordered admits k = (tt, (refl, refl))
task-Ordered refreshes k = (tt, (refl, refl))
task-Ordered takes_create k = (tt, (refl, (tt, (refl, refl))))
task-Ordered takes_other k = (tt, (refl, refl))
task-Ordered server_fails k = (tt, (refl, (tt, (refl, refl))))
task-Ordered (invalidates os) k = invalidate-Ordered os k
task-Ordered (sends_to_lost os) k = (tt, (refl, invalidate-Ordered os k))
task-Ordered sends k = (tt, (refl, refl))
task-Ordered (runs works n) k = (
  tt,
  nested (1 ∷ []) (works_locks works) (hand_out_locks n) (works-Nests works k) (hand_out-Nests n)
      (unlocks 1 ∷ []) (refl, refl),
)
task-Ordered reports k = (tt, (refl, refl))
task-Ordered (writes i) k = (tt, (refl, refl))
task-Ordered (worker_fails i) k = absurd k

tasks-Ordered : (ts : List Task) → All KeepsWorkers ts → Ordered [] (tasks_locks ts)
unfolding tasks_locks
tasks-Ordered [] k = refl
tasks-Ordered (t ∷ ts) k =
    Ordered-append [] (task_locks t) (tasks_locks ts) (task-Ordered t k.0) (tasks-Ordered ts k.1)

abbrev pub IsOrdered : List Thread → Type 0
IsOrdered = All (λ t. Ordered t.held t.rest)

-- Threads that do such tasks start in order.
pub start-IsOrdered :
    (all : List (Option ℕ × List Task))
    → All (λ (t : Option ℕ × List Task). All KeepsWorkers t.1) all
    → IsOrdered (start all)
unfolding start
start-IsOrdered [] k = tt
start-IsOrdered ((worker, tasks) ∷ others) k = (tasks-Ordered tasks k.0, start-IsOrdered others k.1)
