-- ===== src/Conductor/Service/Refines.antt =====
-- The conductor against the service that it promises.
use waterproof_wrapper.Base.{
  ℕ, ◌%◌, ◌^◌, ◌+◌, ◌≡◌, refl, ap, ◌∙◌, Bool, true, false, List, [], ◌∷◌, ◌++◌, Option, none, some,
  Text, map, inl, inr, if◌then◌else◌, ◌==◌,
}
use mathlib.Core.List.{map-append}
use waterproof_wrapper.Base.Maps
use waterproof_wrapper.Base.Maps.{find, find-erase, find-insert, find-replace, found_or}
use waterproof_wrapper.Utils.Config.{Configured, configured, config_threw, config}
use waterproof_wrapper.Utils.Exceptions.{ApiError}
use waterproof_wrapper.Platform.{
  Api, Piped, piped, pipe_failed, Forked, fork_failed, in_child, in_parent,
}
use waterproof_wrapper.Json.{Json}
use waterproof_wrapper.Message.{Request, Verb, Response, Status}
use waterproof_wrapper.Worker.Posix as Posix
use waterproof_wrapper.Worker.Posix.{
  Ends, Worker, Started, started, start_threw, child, start, start_interrupt, start_stdin,
  start_stdout, start_forked,
}
use waterproof_wrapper.Conductor.{
  Conductor, Flow, Effect, handle_request, handle_verb, handle_create, create_worker, after_start,
  insert_worker, answer_create, handle_destroy, erase_worker, create_empty_response, forward_to,
  handle_response, handle_worker_failure, fail_worker, join_threads, after_join-returns,
  on_invalidate, respond,
}
use waterproof_wrapper.Conductor.Responses.{create_response}
use waterproof_wrapper.Conductor.Service.{
  RequestFollows, Op, requested, responded, failed, invalidated, Follows, Run, messages_of,
  entry_of, answer_of, service, returned, then_act, act, acts,
}

-- A worker that has just been made has no messages.
abbrev NoMessages : Started → Type 0
NoMessages (started k) = k.message_queue ≡ []
NoMessages (start_threw e) = Unit
NoMessages child = Unit

module _ (a : Api) (id : ℕ) where
  forked-NoMessages :
      (i s o : Ends) (f : Forked) (w : a.World) → NoMessages (start_forked a id i s o f w).0.0
  unfolding start_forked
  forked-NoMessages i s o (fork_failed e) w = tt
  forked-NoMessages i s o in_child w = tt
  forked-NoMessages i s o (in_parent pid) w = refl

  stdout-NoMessages :
      (i s : Ends) (p : Piped) (w : a.World) → NoMessages (start_stdout a id i s p w).0.0
  unfolding start_stdout
  stdout-NoMessages i s (pipe_failed e) w = tt
  stdout-NoMessages i s (piped r t) w =
      forked-NoMessages i s (record { read_end = r; write_end = t }) (a.fork w).0 (a.fork w).1

  stdin-NoMessages : (i : Ends) (p : Piped) (w : a.World) → NoMessages (start_stdin a id i p w).0.0
  unfolding start_stdin
  stdin-NoMessages i (pipe_failed e) w = tt
  stdin-NoMessages i (piped r t) w =
      stdout-NoMessages i (record { read_end = r; write_end = t }) (a.pipe w).0 (a.pipe w).1

  interrupt-NoMessages : (p : Piped) (w : a.World) → NoMessages (start_interrupt a id p w).0.0
  unfolding start_interrupt
  interrupt-NoMessages (pipe_failed e) w = tt
  interrupt-NoMessages (piped r t) w =
      stdin-NoMessages (record { read_end = r; write_end = t }) (a.pipe w).0 (a.pipe w).1

  start-NoMessages : (w : a.World) → NoMessages (start a id w).0.0
  unfolding start
  start-NoMessages w = interrupt-NoMessages (a.pipe w).0 (a.pipe w).1

-- A map in which one entry was erased or set, seen as the service.
if-entry :
    (b : Bool) (v o : Option (Option Worker))
    → entry_of (if b then v else o) ≡ (if b then entry_of v else entry_of o)
if-entry true v o = refl
if-entry false v o = refl

erased-SetAt :
    (i j : ℕ) (m : List (ℕ × Option Worker))
    → entry_of (find j (Maps.erase i m)) ≡ (if i == j then none else entry_of (find j m))
erased-SetAt i j m = ap entry_of (find-erase i j m) ∙ if-entry (i == j) none (find j m)

answered-end :
    (rs : List Response) (r : Response)
    → map answer_of (rs ++ (r ∷ [])) ≡ map answer_of rs ++ (answer_of r ∷ [])
answered-end rs r = map-append answer_of rs (r ∷ [])

-- The worker of a create request, where the map gives this for the instance.
inserted-Follows :
    (n id : ℕ) (k : Worker) (c : Conductor) (o : Option (Option Worker))
    → k.message_queue ≡ []
    → find id c.workers ≡ o
    → RequestFollows Verb.create id []
        (service c)
        (service (answer_create n id Status.success [] (insert_worker id k c o).0))
unfolding answer_create insert_worker
inserted-Follows n id k c none e h = inl (
  inl (
    ap entry_of h,
    λ j.
        ap entry_of (
          find-insert id j (some k) c.workers
          ∙ ap (λ o. if id == j then some (found_or (some k) o) else find j c.workers) h)
        ∙ if-entry (id == j) (some (some k)) (find j c.workers)
        ∙ ap (λ q. if id == j then some (some q) else entry_of (find j c.workers)) e,
  ),
  answered-end c.out_queue (create_response n id Status.success []),
)
inserted-Follows n id k c (some p) e h = inl (
  inr (messages_of p, ap entry_of h, λ j. refl),
  answered-end c.out_queue (create_response n id Status.success []),
)

-- The conductor of a step that returns.
abbrev pub Done : {W : Type 0} → (Conductor → Type 0) → Option (Conductor × W) → Type 0
Done P none = Unit
Done P (some o) = P o.0

returned-Done :
    {W : Type 0} (P : Conductor → Type 0) (o : (Flow × Conductor × List Effect) × W)
    → (o.0.0 ≡ Flow.returns → P o.0.1)
    → Done P (returned o)
unfolding returned
returned-Done P ((Flow.returns, c, es), w) h = h refl
returned-Done P ((Flow.undefined, c, es), w) h = tt
returned-Done P ((Flow.aborts, c, es), w) h = tt
returned-Done P ((Flow.becomes_child, c, es), w) h = tt
returned-Done P ((Flow.waits, c, es), w) h = tt

started-Follows :
    (n id : ℕ) (content : Text) (o : Started) (c : Conductor)
    → NoMessages o
    → (after_start n id o c).0 ≡ Flow.returns
    → RequestFollows Verb.create id content (service c) (service (after_start n id o c).1)
unfolding after_start
started-Follows n id content (started k) c e h =
    inserted-Follows n id k c (find id c.workers) e refl
started-Follows n id content (start_threw error) c e h =
    unfold answer_create in
    inr (
      λ j. refl,
      (error.what, answered-end c.out_queue (create_response n id Status.failure error.what)),
    )
started-Follows n id content child c e h = cc

forwarded-Follows :
    (id : ℕ) (content : Text) (o : Option (Option Worker)) (c : Conductor)
    → find id c.workers ≡ o
    → (forward_to id content o c).0 ≡ Flow.returns
    → RequestFollows Verb.forward id content (service c) (service (forward_to id content o c).1)
unfolding forward_to Posix.enqueue
forwarded-Follows id content none c e h = cc
forwarded-Follows id content (some none) c e h = cc
forwarded-Follows id content (some (some k)) c e h = (
  (
    k.message_queue,
    ap entry_of e,
    λ j.
        ap entry_of (find-replace id j _ c.workers)
        ∙ if-entry (id == j) (some (some (Posix.enqueue content k).0)) (find j c.workers),
  ),
  refl,
)

failed-Follows :
    (i : ℕ) (e : ApiError) (o : Option (Option Worker)) (c : Conductor)
    → (fail_worker o i e c).0 ≡ Flow.returns
    → Follows (failed i e) (service c) (service (fail_worker o i e c).1)
unfolding fail_worker respond create_empty_response
failed-Follows i e none c h = (λ j. erased-SetAt i j c.workers, answered-end c.out_queue _)
failed-Follows i e (some none) c h = (λ j. erased-SetAt i j c.workers, answered-end c.out_queue _)
failed-Follows i e (some (some k)) c h = cc

module _ (a : Api) (j : Json) where
  create-Follows :
      (n id : ℕ) (content : Text) (o : Configured) (c : Conductor) (w : a.World)
      → (create_worker a j n id o c w).0.0 ≡ Flow.returns
      → RequestFollows Verb.create id content
          (service c)
          (service (create_worker a j n id o c w).0.1)
  unfolding create_worker
  create-Follows n id content (config_threw e) c w h = cc
  create-Follows n id content (configured conf) c w h =
      after_join-returns (λ o. RequestFollows Verb.create id content (service c) (service o.0.1)) _
        _ _ _ _ (started-Follows n id content (start a id w).0.0 c (start-NoMessages a id w)) h

  pub verb-Follows :
      (fuel : ℕ) (v : Verb) (r : Request) (c : Conductor) (w : a.World)
      → (handle_verb a j fuel v r c w).0.0 ≡ Flow.returns
      → RequestFollows v r.instance_id r.content
          (service c)
          (service (handle_verb a j fuel v r c w).0.1)
  unfolding handle_verb handle_create handle_destroy erase_worker create_empty_response
  verb-Follows fuel Verb.create r c w h =
      create-Follows c.next_id r.instance_id r.content (config j r.content)
        (record c { next_id = (c.next_id + 1) % 2 ^ 64 }) w h
  verb-Follows fuel Verb.destroy r c w h =
      after_join-returns
        (λ (o : (Flow × Conductor × List Effect) × a.World).
          RequestFollows Verb.destroy r.instance_id r.content (service c) (service o.0.1))
        (join_threads a (find r.instance_id c.workers)) _ _ w _
        (λ e. (λ i. erased-SetAt r.instance_id i c.workers, refl)) h
  verb-Follows fuel Verb.forward r c w h =
      forwarded-Follows r.instance_id r.content (find r.instance_id c.workers) c refl h
  verb-Follows fuel Verb.stop r c w h = (λ i. refl, refl)

  act-Follows :
      (op : Op) (c : Conductor) (w : a.World)
      → Done (λ c'. Follows op (service c) (service c')) (act a j op c w)
  unfolding act handle_request handle_response handle_worker_failure on_invalidate erase_worker
      respond create_empty_response
  act-Follows (requested fuel r) c w =
      returned-Done (λ c'. RequestFollows r.verb r.instance_id r.content (service c) (service c')) _
        (verb-Follows fuel r.verb r c w)
  act-Follows (responded i text) c w = (λ j. refl, answered-end c.out_queue _)
  act-Follows (failed i e) c w =
      returned-Done (λ c'. Follows (failed i e) (service c) (service c')) _
        (failed-Follows i e (find i c.workers) c)
  act-Follows (invalidated i) c w =
      returned-Done (λ c'. Follows (invalidated i) (service c) (service c')) _
        λ h. (λ j. erased-SetAt i j c.workers, refl)

  then-Run :
      (op : Op) (ops : List Op) (c : Conductor) (o : Option (Conductor × a.World))
      → Done (λ c'. Follows op (service c) (service c')) o
      → ((d : Conductor) (w : a.World)
          → Done (λ c'. Run ops (service d) (service c')) (acts a j ops d w))
      → Done (λ c'. Run (op ∷ ops) (service c) (service c')) (then_act o (acts a j ops))
  unfolding then_act
  then-Run op ops c none h k = tt
  then-Run op ops c (some (d, w)) h k = after (acts a j ops d w) (k d w)
    where
      after :
          (o : Option (Conductor × a.World))
          → Done (λ c'. Run ops (service d) (service c')) o
          → Done (λ c'. Run (op ∷ ops) (service c) (service c')) o
      after none g = tt
      after (some o) g = (service d, h, g)

  -- Any operations in turn.
  pub acts-Run :
      (ops : List Op) (c : Conductor) (w : a.World)
      → Done (λ c'. Run ops (service c) (service c')) (acts a j ops c w)
  unfolding acts
  acts-Run [] c w = (λ i. refl, refl)
  acts-Run (op ∷ ops) c w =
      then-Run op ops c (act a j op c w) (act-Follows op c w) (λ d v. acts-Run ops d v)
