-- ===== src/Locks/Deadlock.antt =====
-- Threads that wait for one another.
use waterproof_wrapper.Base.{
  Holds, ℕ, zero, suc, ◌<◌, ◌≡◌, refl, sym, subst, ap, ◌∙◌, arith, Bool, true, false, not, ◌||◌,
  ◌&&◌, List, [], ◌∷◌, ◌++◌, Option, none, some, inl, inr, length, ==_refl, ne→==, if◌then◌else◌,
  ◌==◌,
}
use waterproof_wrapper.Locks.{
  Act, locks, unlocks, joins, Work, Thread, queue, messages, destroys, runs, reports, task_locks,
  works_locks, work_locks, hand_out_locks, destructor_locks, unmap_locks, holds, is_held, is_of,
  at_end, has_ended, may, after, put, step_in, step, play, and_go,
}
use waterproof_wrapper.Locks.Progress.{In}

-- What a thread does next waits for this one: for a mutex that it holds, or for its end.
abbrev pub WaitsFor : Thread → List Act → Type 0
WaitsFor u [] = ⊥
WaitsFor u (locks m ∷ acts) = holds m u.held ≡ true
WaitsFor u (unlocks m ∷ acts) = ⊥
WaitsFor u (joins i ∷ acts) = (u.worker ≡ some i) × (0 < length u.rest)

or_true : (b : Bool) → (b || true) ≡ true
or_true true = refl
or_true false = refl

and_false : (b : Bool) → (b && false) ≡ false
and_false true = refl
and_false false = refl

In-is_held :
    (m : ℕ) (u : Thread) (ts : List Thread) → In u ts → holds m u.held ≡ true → is_held m ts ≡ true
unfolding is_held
In-is_held m u [] i h = absurd i
In-is_held m u (t ∷ ts) (inl e) h =
    ap (λ b. b || is_held m ts) (ap (λ (t : Thread). holds m t.held) e ∙ h)
In-is_held m u (t ∷ ts) (inr i) h =
    ap (◌||◌ (holds m t.held)) (In-is_held m u ts i h) ∙ or_true (holds m t.held)

not_at_end : (acts : List Act) → 0 < length acts → at_end acts ≡ false
not_at_end [] h = absurd (omega arith)
not_at_end (act ∷ acts) h = refl

runs_still :
    (i : ℕ) (u : Thread)
    → u.worker ≡ some i
    → 0 < length u.rest
    → (not (is_of i u.worker) || at_end u.rest) ≡ false
runs_still i u e h =
    ap (λ o. not (is_of i o) || at_end u.rest) e
    ∙ ap (λ b. not b || at_end u.rest) (==_refl i)
    ∙ not_at_end u.rest h

In-has_ended :
    (i : ℕ) (u : Thread) (ts : List Thread)
    → In u ts
    → u.worker ≡ some i
    → 0 < length u.rest
    → has_ended i ts ≡ false
unfolding has_ended
In-has_ended i u [] j e h = absurd j
In-has_ended i u (t ∷ ts) (inl p) e h =
    ap (λ b. b && has_ended i ts)
      (ap (λ (t : Thread). not (is_of i t.worker) || at_end t.rest) p ∙ runs_still i u e h)
In-has_ended i u (t ∷ ts) (inr j) e h =
    ap (◌&&◌ (not (is_of i t.worker) || at_end t.rest)) (In-has_ended i u ts j e h) ∙ and_false _

waits :
    (ts : List Thread) (u : Thread) (acts : List Act)
    → In u ts
    → WaitsFor u acts
    → may ts acts ≡ false
unfolding may
waits ts u [] i w = absurd w
waits ts u (locks m ∷ acts) i w = ap not (In-is_held m u ts i w)
waits ts u (unlocks m ∷ acts) i w = absurd w
waits ts u (joins k ∷ acts) i w = In-has_ended k u ts i w.0 w.1

-- A thread that waits is not changed by the others' steps.
put-In : (t v : Thread) (o : Option (List Thread)) → Holds (In t) o → Holds (In t) (put v o)
put-In t v none h = tt
put-In t v (some ts) h = inr h

put-there : (t v : Thread) (o : Option (List Thread)) → v ≡ t → Holds (In t) (put v o)
put-there t v none e = tt
put-there t v (some ts) e = inl e

step-In :
    (all : List Thread) (t : Thread) (n : ℕ) (ts : List Thread)
    → In t ts
    → may all t.rest ≡ false
    → Holds (In t) (step_in all n ts)
unfolding step_in
step-In all t n [] i h = absurd i
step-In all t zero (v ∷ ts) (inl e) h =
    subst (λ b. Holds (In t) (if b then some (after v.rest v ∷ ts) else none))
      (sym (ap (λ (v : Thread). may all v.rest) e ∙ h)) tt
step-In all t zero (v ∷ ts) (inr i) h = either (may all v.rest)
  where
    either : (b : Bool) → Holds (In t) (if b then some (after v.rest v ∷ ts) else none)
    either true = inr i
    either false = tt
step-In all t (suc n) (v ∷ ts) (inl e) h = put-there t v (step_in all n ts) e
step-In all t (suc n) (v ∷ ts) (inr i) h = put-In t v (step_in all n ts) (step-In all t n ts i h)

abbrev pub Both : Thread → Thread → List Thread → Type 0
Both t u ts = In t ts × In u ts

both :
    (t u : Thread) (o : Option (List Thread)) → Holds (In t) o → Holds (In u) o → Holds (Both t u) o
both t u none h g = tt
both t u (some ts) h g = (h, g)

-- Two threads that wait for one another do so for ever: whatever the other threads do, and in whatever
-- turns, both stand where they stood.
pub play-Both :
    (t u : Thread) (turns : List ℕ) (ts : List Thread)
    → WaitsFor u t.rest
    → WaitsFor t u.rest
    → In t ts
    → In u ts
    → Holds (Both t u) (play turns ts)
unfolding play step
play-Both t u [] ts w v i j = (i, j)
play-Both t u (n ∷ turns) ts w v i j =
    go (step_in ts n ts)
      (both t u (step_in ts n ts) (step-In ts t n ts i (waits ts u t.rest j w))
        (step-In ts u n ts j (waits ts t u.rest i v)))
      (λ us b. play-Both t u turns us w v b.0 b.1)
  where
    go :
        (o : Option (List Thread))
        → Holds (Both t u) o
        → ((us : List Thread) → Both t u us → Holds (Both t u) (play turns us))
        → Holds (Both t u) (and_go o (play turns))
    go none h f = tt
    go (some us) h f = f us h

-- A round of `run` that begins with a destroy request for an instance, and what is left of it when the
-- worker's threads are joined.
abbrev pub destroyer : ℕ → List Work → ℕ → Thread
unfolding task_locks
destroyer i works n = record {
  worker = none;
  held = [];
  rest = task_locks (runs (destroys i ∷ works) n);
}

abbrev later : List Work → ℕ → List Act
unfolding unmap_locks works_locks hand_out_locks
later works n = ((unmap_locks ++ works_locks works) ++ hand_out_locks n) ++ (unlocks queue ∷ [])

abbrev pub joiner : ℕ → List Work → ℕ → Thread
unfolding later
joiner i works n = record { worker = none; held = queue ∷ []; rest = joins i ∷ later works n }

-- A thread of the worker of an instance, which is about to report an answer.
abbrev pub reporter : ℕ → List Act → Thread
unfolding task_locks
reporter i more = record { worker = some i; held = []; rest = task_locks reports ++ more }

-- A destroy request for an instance whose worker is about to report can block the program. If no other
-- thread holds `queue_m_` or the mutex of the worker's messages, then after three turns of the thread
-- of `run` it waits for the end of the worker's thread, which waits for `queue_m_`: from then on both
-- stand where they stand, whatever the other threads do and in whatever turns.
pub destroy-Both :
    (i n : ℕ) (works : List Work) (more : List Act) (others : List Thread)
    → is_held queue others ≡ false
    → is_held (messages i) others ≡ false
    → (ts : List Thread) × (play (0 ∷ 0 ∷ 0 ∷ []) (destroyer i works n ∷ reporter i more ∷ others)
        ≡ some ts)
      × ((turns : List ℕ) → Holds (Both (joiner i works n) (reporter i more)) (play turns ts))
unfolding play step step_in may after is_held holds task_locks works_locks work_locks hand_out_locks
    destructor_locks unmap_locks destroyer joiner later reporter
destroy-Both i n works more others free free_messages =
    let rest = reporter i more ∷ others in
    let m = messages i in
    let first : Thread = record {
      worker = none;
      held = queue ∷ [];
      rest = locks m ∷ unlocks m ∷ joins i ∷ later works n;
    } in
    let second : Thread = record {
      worker = none;
      held = m ∷ queue ∷ [];
      rest = unlocks m ∷ joins i ∷ later works n;
    } in
    let other : (queue == m) ≡ false = ne→== queue m (λ e. absurd (omega (arith, e))) in
    let e₁ : step 0 (destroyer i works n ∷ rest) ≡ some (first ∷ rest) =
      ap (λ b. if not b then some (first ∷ rest) else none) free in
    let e₂ : step 0 (first ∷ rest) ≡ some (second ∷ rest) =
      ap (λ b. if not b then some (second ∷ rest) else none)
        (ap (λ b. (b || false) || (false || is_held m others)) other ∙ free_messages) in
    let joined : Bool → Thread = λ b. record {
      worker = none;
      held = if b then queue ∷ [] else m ∷ (if queue == m then [] else queue ∷ []);
      rest = joins i ∷ later works n;
    } in
    let e₃ : step 0 (second ∷ rest) ≡ some (joiner i works n ∷ rest) =
      ap (λ b. some (joined b ∷ rest)) (==_refl m) in
    (
      joiner i works n ∷ rest,
      ap (λ o. and_go o (play (0 ∷ 0 ∷ []))) e₁
          ∙ ap (λ o. and_go o (play (0 ∷ []))) e₂
          ∙ ap (λ o. and_go o (play [])) e₃,
      λ turns.
          play-Both (joiner i works n) (reporter i more) turns (joiner i works n ∷ rest)
            (refl, omega arith) refl (inl refl) (inr (inl refl)),
    )
