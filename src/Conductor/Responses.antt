-- ===== src/Conductor/Responses.antt =====
-- The ids of the responses in the queue of the conductor.
use waterproof_wrapper.Base.{
  ℕ, suc, ◌+◌, ◌%◌, ◌^◌, ◌<◌, ◌≤◌, ◌≡◌, refl, arith, pos, List, [], ◌∷◌, ◌++◌, Option, none, some,
  Text, All, All-append, subst, sym, ap, ◌∙◌,
}
use waterproof_wrapper.Base.Maps
use waterproof_wrapper.Utils.Exceptions.{ApiError}
use waterproof_wrapper.Utils.Config.{Configured, configured, config_threw, config}
use waterproof_wrapper.Platform.{Api}
use waterproof_wrapper.Json.{Json}
use waterproof_wrapper.Message.{Request, Verb, Response, Status}
use waterproof_wrapper.Message.Copies.{same, copies, below, below-suc, copies-append}
use waterproof_wrapper.Worker.Posix.{Worker, Started, started, start_threw, child, start}
use waterproof_wrapper.Conductor.{
  Conductor, handle_request, handle_verb, handle_worker_failure, handle_response, on_invalidate,
  handle_destroy, handle_create, create_worker, after_start, insert_worker, answer_create,
  forward_to, fail_worker, join_threads, after_join-either, erase_worker, create_empty_response,
  respond,
}

-- A create response of the conductor.
abbrev pub create_response : ℕ → ℕ → Status → Text → Response
create_response id instance_id status content = record {
  id = id;
  priority = pos 1;
  status = status;
  verb = Verb.create;
  instance_id = instance_id;
  content = content;
}

-- Every id is smaller than the ids behind it.
abbrev pub Increasing : List Response → Type 0
Increasing [] = Unit
Increasing (r ∷ rs) = All (λ s. r.id < s.id) rs × Increasing rs

-- The queued responses have increasing ids, all of them below the next one.
abbrev pub Numbered : ℕ → List Response → Type 0
Numbered n rs = All (λ r. r.id < n) rs × Increasing rs

-- Each id stands in the second queue at most once more than in the first if it was taken in between,
-- and at most as often if not.
abbrev pub Grows : ℕ → List Response → ℕ → List Response → Type 0
Grows n rs n' rs' = (i : ℕ) → copies i rs' + below i n ≤ copies i rs + below i n'

-- The next id and the queue before and after a step that keeps the ids in order and takes at most one.
abbrev pub Kept : ℕ → List Response → ℕ → List Response → Type 0
Kept n rs n' rs' = Numbered n' rs' × (n ≤ n') × (n' ≤ suc n) × Grows n rs n' rs'

abbrev pub TakesOne : Conductor → Conductor → Type 0
TakesOne c c' = Kept c.next_id c.out_queue c'.next_id c'.out_queue

All-below : (n m : ℕ) (rs : List Response) → n ≤ m → All (λ r. r.id < n) rs → All (λ r. r.id < m) rs
All-below n m [] h b = tt
All-below n m (r ∷ rs) h b = (omega (arith, h, b.0), All-below n m rs h b.1)

Increasing-append :
    (rs : List Response) (r : Response)
    → All (λ s. s.id < r.id) rs
    → Increasing rs
    → Increasing (rs ++ (r ∷ []))
Increasing-append [] r b i = (tt, tt)
Increasing-append (s ∷ rs) r b i =
    (All-append (λ t. s.id < t.id) rs (r ∷ []) i.0 (b.0, tt), Increasing-append rs r b.1 i.1)

-- A response with the next id at the end of the queue.
Numbered-append :
    (n : ℕ) (rs : List Response) (r : Response)
    → r.id ≡ n
    → Numbered n rs
    → Numbered (suc n) (rs ++ (r ∷ []))
Numbered-append n rs r e h = (
  All-append (λ s. s.id < suc n) rs (r ∷ []) (All-below n (suc n) rs (omega arith) h.0)
      (omega (arith, e), tt),
  Increasing-append rs r (subst (λ m. All (λ s. s.id < m) rs) (sym e) h.0) h.1,
)

Grows-append :
    (n : ℕ) (rs : List Response) (r : Response) → r.id ≡ n → Grows n rs (suc n) (rs ++ (r ∷ []))
Grows-append n rs r e i = omega (arith, copies-append i rs (r ∷ []), below-suc i n, ap (same i) e)

next_of : (n : ℕ) → suc n < 2 ^ 64 → (n + 1) % 2 ^ 64 ≡ suc n
next_of n h = omega (arith, h)

-- A step that queues a response with the next id.
appended :
    (n n' : ℕ) (rs rs' : List Response) (r : Response)
    → suc n < 2 ^ 64
    → n' ≡ (n + 1) % 2 ^ 64
    → rs' ≡ rs ++ (r ∷ [])
    → r.id ≡ n
    → Numbered n rs
    → Kept n rs n' rs'
appended n n' rs rs' r small en q i h =
    let e : n' ≡ suc n = en ∙ next_of n small in
    (
      subst (λ m. Numbered m rs') (sym e)
          (subst (Numbered (suc n)) (sym q) (Numbered-append n rs r i h)),
      omega (arith, e),
      omega (arith, e),
      subst (λ m. Grows n rs m rs') (sym e)
          (subst (Grows n rs (suc n)) (sym q) (Grows-append n rs r i)),
    )

-- A step that takes the next id for a response that is not queued.
skipped :
    (n n' : ℕ) (rs : List Response)
    → suc n < 2 ^ 64
    → n' ≡ (n + 1) % 2 ^ 64
    → Numbered n rs
    → Kept n rs n' rs
skipped n n' rs small en h =
    let e : n' ≡ suc n = en ∙ next_of n small in
    (
      subst (λ m. Numbered m rs) (sym e) (All-below n (suc n) rs (omega arith) h.0, h.1),
      omega (arith, e),
      omega (arith, e),
      subst (λ m. Grows n rs m rs) (sym e) (λ i. omega (arith, below-suc i n)),
    )

-- A step that takes no id.
unchanged : (n : ℕ) (rs : List Response) → Numbered n rs → Kept n rs n rs
unchanged n rs h = (h, omega arith, omega arith, λ i. omega arith)

insert_worker-keeps :
    (id : ℕ) (k : Worker) (c : Conductor) (o : Option (Option Worker))
    → ((insert_worker id k c o).0.out_queue ≡ c.out_queue)
      × ((insert_worker id k c o).0.next_id ≡ c.next_id)
unfolding insert_worker
insert_worker-keeps id k c none = (refl, refl)
insert_worker-keeps id k c (some p) = (refl, refl)

after_start-TakesOne :
    (id : ℕ) (s : Started) (c : Conductor)
    → suc c.next_id < 2 ^ 64
    → Numbered c.next_id c.out_queue
    → TakesOne c (after_start c.next_id id s (record c { next_id = (c.next_id + 1) % 2 ^ 64 })).1
unfolding after_start answer_create
after_start-TakesOne id (started k) c small h =
    let c₁ : Conductor = record c { next_id = (c.next_id + 1) % 2 ^ 64 } in
    let kept = insert_worker-keeps id k c₁ (Maps.find id c.workers) in
    appended c.next_id _ c.out_queue _ _ small kept.1
      (ap (λ q. q ++ (create_response c.next_id id Status.success [] ∷ [])) kept.0) refl h
after_start-TakesOne id (start_threw e) c small h =
    appended c.next_id _ c.out_queue _ _ small refl refl refl h
after_start-TakesOne id child c small h = skipped c.next_id _ c.out_queue small refl h

forward_to-TakesOne :
    (id : ℕ) (content : Text) (o : Option (Option Worker)) (c : Conductor)
    → Numbered c.next_id c.out_queue
    → TakesOne c (forward_to id content o c).1
unfolding forward_to
forward_to-TakesOne id content none c h = unchanged c.next_id c.out_queue h
forward_to-TakesOne id content (some none) c h = unchanged c.next_id c.out_queue h
forward_to-TakesOne id content (some (some k)) c h = unchanged c.next_id c.out_queue h

module _ (a : Api) (j : Json) where
  create_worker-TakesOne :
      (id : ℕ) (o : Configured) (c : Conductor) (w : a.World)
      → suc c.next_id < 2 ^ 64
      → Numbered c.next_id c.out_queue
      → TakesOne c
          (create_worker a j c.next_id id o (record c { next_id = (c.next_id + 1) % 2 ^ 64 }) w).0.1
  unfolding create_worker
  create_worker-TakesOne id (config_threw e) c w small h =
      skipped c.next_id _ c.out_queue small refl h
  create_worker-TakesOne id (configured conf) c w small h =
      after_join-either (λ d. TakesOne c d) _ _ _ _ _ (skipped c.next_id _ c.out_queue small refl h)
        (after_start-TakesOne id (start a id w).0.0 c small h)

  verb-TakesOne :
      (fuel : ℕ) (v : Verb) (r : Request) (c : Conductor) (w : a.World)
      → suc c.next_id < 2 ^ 64
      → Numbered c.next_id c.out_queue
      → TakesOne c (handle_verb a j fuel v r c w).0.1
  unfolding handle_verb handle_create handle_destroy erase_worker create_empty_response
  verb-TakesOne fuel Verb.create r c w small h =
      create_worker-TakesOne r.instance_id (config j r.content) c w small h
  verb-TakesOne fuel Verb.destroy r c w small h =
      after_join-either (TakesOne c) (join_threads a (Maps.find r.instance_id c.workers)) _ _ _ _
        (unchanged c.next_id c.out_queue h) (skipped c.next_id _ c.out_queue small refl h)
  verb-TakesOne fuel Verb.forward r c w small h =
      forward_to-TakesOne r.instance_id r.content (Maps.find r.instance_id c.workers) c h
  verb-TakesOne fuel Verb.stop r c w small h = unchanged c.next_id c.out_queue h

  -- While the ids do not run out, a request of any verb keeps the ids of the queued responses
  -- increasing and below the next id, and takes at most one id, also when it ends in an error.
  pub handle_request-TakesOne :
      (fuel : ℕ) (r : Request) (c : Conductor) (w : a.World)
      → suc c.next_id < 2 ^ 64
      → Numbered c.next_id c.out_queue
      → TakesOne c (handle_request a j fuel r c w).0.1
  unfolding handle_request
  handle_request-TakesOne fuel r c w small h = verb-TakesOne fuel r.verb r c w small h

failed-TakesOne :
    (o : Option (Option Worker)) (id : ℕ) (e : ApiError) (c : Conductor)
    → suc c.next_id < 2 ^ 64
    → Numbered c.next_id c.out_queue
    → TakesOne c (fail_worker o id e c).1
unfolding fail_worker respond create_empty_response
failed-TakesOne none id e c small h = appended c.next_id _ c.out_queue _ _ small refl refl refl h
failed-TakesOne (some none) id e c small h =
    appended c.next_id _ c.out_queue _ _ small refl refl refl h
failed-TakesOne (some (some k)) id e c small h = unchanged c.next_id c.out_queue h

-- While the ids do not run out, the callbacks keep the ids of the queued responses increasing and
-- below the next id: `handle_response`, `handle_worker_failure` and `on_invalidate`.
pub callbacks-TakesOne :
    (a : Api) (id : ℕ) (text : Text) (e : ApiError) (c : Conductor)
    → suc c.next_id < 2 ^ 64
    → Numbered c.next_id c.out_queue
    → TakesOne c (handle_response id text c)
      × TakesOne c (handle_worker_failure id e c).1
      × TakesOne c (on_invalidate a id c).1
unfolding handle_response handle_worker_failure on_invalidate erase_worker respond
    create_empty_response
callbacks-TakesOne a id text e c small h = (
  appended c.next_id _ c.out_queue _ _ small refl refl refl h,
  failed-TakesOne (Maps.find id c.workers) id e c small h,
  unchanged c.next_id c.out_queue h,
)
