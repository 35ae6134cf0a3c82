-- ===== src/Conductor/Workers.antt =====
-- What the requests do to the workers, to the mappings of the server and to the queue of responses.
use waterproof_wrapper.Base.{
  ℕ, ◌+◌, ◌%◌, ◌^◌, ◌≡◌, ◌⊎◌, refl, sym, ap, subst, ◌∙◌, arith, List, [], ◌∷◌, ◌++◌, Option, none,
  some, if◌then◌else◌, ◌==◌,
}
use waterproof_wrapper.Base.Maps.{find, find-erase, find-insert, find-replace, found_or}
use waterproof_wrapper.Utils.Config.{Config, configured, config}
use waterproof_wrapper.Platform.{Api}
use waterproof_wrapper.Json.{Json}
use waterproof_wrapper.Message.{Request, Verb, Status}
use waterproof_wrapper.Server.Frame.{Outcome, done, closed, threw, stuck}
use waterproof_wrapper.Server.State.Unmap.{unmap-find}
use waterproof_wrapper.Worker.Posix.{Worker, Started, started, start_threw, child, start}
use waterproof_wrapper.Worker.Posix as Posix
use waterproof_wrapper.Conductor.Responses.{create_response}
use waterproof_wrapper.Conductor.{
  join_refused-none, after_join_lem, Conductor, Flow, Effect, destruction, handle_request,
  handle_destroy, handle_create, create_worker, handle_verb, after_start, insert_worker,
  answer_create, forward_to, erase_worker, create_empty_response, unmapped, join_threads,
  after_join-returns,
}

-- What a create request comes to for an instance that has no worker: a started worker is kept under
-- the instance's id and answered with success, an error of the platform is answered with failure and
-- its text, and no other worker changes.
abbrev pub Created : Request → Conductor → Started → Conductor → Type 0
Created r c (started k) c' =
    (c'.out_queue ≡ c.out_queue ++ (create_response c.next_id r.instance_id Status.success [] ∷ []))
    × ((i : ℕ)
        → find i c'.workers ≡ (if r.instance_id == i then some (some k) else find i c.workers))
Created r c (start_threw e) c' =
    (c'.out_queue
      ≡ c.out_queue ++ (create_response c.next_id r.instance_id Status.failure e.what ∷ []))
    × (c'.workers ≡ c.workers)
Created r c child c' = c'.workers ≡ c.workers

-- A new worker among the workers.
inserted :
    (id i : ℕ) (k : Worker) (c : Conductor)
    → find id c.workers ≡ none
    → find i (insert_worker id k c (find id c.workers)).0.workers
      ≡ (if id == i then some (some k) else find i c.workers)
unfolding insert_worker
inserted id i k c h =
    ap (λ o. find i (insert_worker id k c o).0.workers) h
    ∙ find-insert id i (some k) c.workers
    ∙ ap (λ o. if id == i then some (found_or (some k) o) else find i c.workers) h

kept_queue :
    (id : ℕ) (k : Worker) (c : Conductor) (o : Option (Option Worker))
    → (insert_worker id k c o).0.out_queue ≡ c.out_queue
unfolding insert_worker
kept_queue id k c none = refl
kept_queue id k c (some p) = refl

after_start-Created :
    (r : Request) (c : Conductor) (n : ℕ) (s : Started)
    → find r.instance_id c.workers ≡ none
    → Created r c s (after_start c.next_id r.instance_id s (record c { next_id = n })).1
unfolding after_start answer_create
after_start-Created r c n (started k) h = (
  ap (λ q. q ++ (create_response c.next_id r.instance_id Status.success [] ∷ []))
      (kept_queue r.instance_id k (record c { next_id = n }) (find r.instance_id c.workers)),
  λ i. inserted r.instance_id i k (record c { next_id = n }) h,
)
after_start-Created r c n (start_threw e) h = (refl, refl)
after_start-Created r c n child h = refl

unmapped_returns : (o : Outcome (Unit {0})) → unmapped o ≡ Flow.returns → o ≡ done tt
unmapped_returns (done tt) h = refl
unmapped_returns closed h = cc
unmapped_returns (threw e) h = cc
unmapped_returns stuck h = cc

-- What a destroy request comes to for the instance `i`, where it returns: the instance of
-- the request has no worker and no client any more, other instances keep theirs, and the worker that
-- there was is destroyed.
abbrev pub Destroyed : Request → Conductor → ℕ → Flow × Conductor × List Effect → Type 0
Destroyed r c i (flow, c', effects) =
    (find i c'.workers ≡ (if r.instance_id == i then none else find i c.workers))
    × (find i c'.server.client_map
        ≡ (if r.instance_id == i then none else find i c.server.client_map))
    × (effects ≡ destruction (find r.instance_id c.workers))

-- What a forward request comes to for an instance with the worker `k`: only the queue of messages of
-- that worker changes, which has the content at its end.
abbrev pub Forwarded : Request → Conductor → Worker → Flow × Conductor × List Effect → Type 0
Forwarded r c k (flow, c', effects) =
    (flow ≡ Flow.returns)
    × ((i : ℕ)
        → find i c'.workers ≡ (
            if r.instance_id == i
            then some (some (record k { message_queue = k.message_queue ++ (r.content ∷ []) }))
            else find i c.workers))
    × (record c' { workers = [] } ≡ record c { workers = [] })

forward_to-Forwarded :
    (r : Request) (c : Conductor) (k : Worker)
    → Forwarded r c k (forward_to r.instance_id r.content (some (some k)) c)
unfolding forward_to Posix.enqueue
forward_to-Forwarded r c k = (refl, λ i. find-replace r.instance_id i _ c.workers, refl)

module _ (a : Api) (j : Json) where
  create-Created :
      (r : Request) (c : Conductor) (conf : Config) (w : a.World)
      → config j r.content ≡ configured conf
      → find r.instance_id c.workers ≡ none
      → Created r c (start a r.instance_id w).0.0 (handle_create a j r c w).0.1
  unfolding handle_create create_worker
  create-Created r c conf w e h =
      subst
        (λ o.
          Created r c (start a r.instance_id w).0.0
            (create_worker a j c.next_id r.instance_id o
              (record c { next_id = (c.next_id + 1) % 2 ^ 64 }) w).0.1)
        (sym e)
        (subst (λ o. Created r c (start a r.instance_id w).0.0 o.0.1)
          (sym (after_join_lem _ _ _ _ _ (join_refused-none a (start a r.instance_id w).0.0 _ h)))
          (after_start-Created r c ((c.next_id + 1) % 2 ^ 64) (start a r.instance_id w).0.0 h))

  -- A create request whose options can be read, for an instance that has no worker: if the
  -- constructor of the worker succeeds, the worker is kept under the id of the instance, no other
  -- worker changes, and a response of success with the next id is queued behind the others; if the
  -- constructor throws, the workers stay and a response of failure with its text is queued; in the
  -- child process the workers stay.
  pub handle_create-Created :
      (fuel : ℕ) (r : Request) (c : Conductor) (conf : Config) (w : a.World)
      → r.verb ≡ Verb.create
      → config j r.content ≡ configured conf
      → find r.instance_id c.workers ≡ none
      → Created r c (start a r.instance_id w).0.0 (handle_request a j fuel r c w).0.1
  unfolding handle_request
  handle_create-Created fuel r c conf w v e h =
      subst (λ v. Created r c (start a r.instance_id w).0.0 (handle_verb a j fuel v r c w).0.1)
        (sym v) (create-Created r c conf w e h)

  destroy-Destroyed :
      (fuel : ℕ) (r : Request) (c : Conductor) (i : ℕ) (w : a.World)
      → (handle_destroy a j fuel r c w).0.0 ≡ Flow.returns
      → Destroyed r c i (handle_destroy a j fuel r c w).0
  unfolding handle_destroy erase_worker create_empty_response
  destroy-Destroyed fuel r c i w =
      after_join-returns (λ (o : (Flow × Conductor × List Effect) × a.World). Destroyed r c i o.0)
        (join_threads a (find r.instance_id c.workers)) _ _ w _
        λ h. (
          find-erase r.instance_id i c.workers,
          unmap-find a j fuel r.instance_id i _ c.server w (unmapped_returns _ h),
          refl,
        )

  -- A destroy request that does not throw and does not wait leaves the instance without a worker and
  -- without a client, destroys its worker, and leaves all other workers and clients as they are.
  pub handle_destroy_lem :
      (fuel : ℕ) (r : Request) (c : Conductor) (i : ℕ) (w : a.World)
      → r.verb ≡ Verb.destroy
      → (handle_request a j fuel r c w).0.0 ≡ Flow.returns
      → Destroyed r c i (handle_request a j fuel r c w).0
  unfolding handle_request
  handle_destroy_lem fuel r c i w v =
      subst
        (λ v.
          (handle_verb a j fuel v r c w).0.0 ≡ Flow.returns
          → Destroyed r c i (handle_verb a j fuel v r c w).0)
        (sym v) (destroy-Destroyed fuel r c i w)

  -- A forward request to an instance that has a worker adds its content to the end of the queue of
  -- that worker, and changes no other worker and nothing else of the conductor.
  pub handle_forward :
      (fuel : ℕ) (r : Request) (c : Conductor) (k : Worker) (w : a.World)
      → r.verb ≡ Verb.forward
      → find r.instance_id c.workers ≡ some (some k)
      → Forwarded r c k (handle_request a j fuel r c w).0
  unfolding handle_request handle_verb
  handle_forward fuel r c k w v h =
      subst (λ v. Forwarded r c k (handle_verb a j fuel v r c w).0) (sym v)
        (subst (λ o. Forwarded r c k (forward_to r.instance_id r.content o c)) (sym h)
          (forward_to-Forwarded r c k))

  -- A forward request to an instance that has no worker goes through a null pointer.
  pub handle_forward_missing :
      (fuel : ℕ) (r : Request) (c : Conductor) (w : a.World)
      → r.verb ≡ Verb.forward
      → (find r.instance_id c.workers ≡ none) ⊎ (find r.instance_id c.workers ≡ some none)
      → (handle_request a j fuel r c w).0.0 ≡ Flow.undefined
  unfolding handle_request handle_verb forward_to
  handle_forward_missing fuel r c w v h = ground arith
