-- ===== src/Conductor/Service/Breaks.antt =====
-- When the conductor does not return: the requests it does not survive, in src/conductor.cpp.
use waterproof_wrapper.Base.{
  ◌∙◌, false, ap, Bool-cases, if◌then◌else◌, ℕ, ◌%◌, ◌^◌, ◌+◌, ◌≡◌, ◌≢◌, refl, List, [], ◌∷◌,
  Option, none, some, Text, pos, ◌⊎◌, inl, inr,
}
use waterproof_wrapper.Base.Maps.{find, subscript}
use waterproof_wrapper.Utils.Exceptions.{ApiError, Thrown, api_error, parse_error, json_error}
use waterproof_wrapper.Utils.Config.{Configured, configured, config_threw, config}
use waterproof_wrapper.Platform.{Api}
use waterproof_wrapper.Json.{Json}
use waterproof_wrapper.Message.{Request, Verb, Response, Status}
use waterproof_wrapper.Server.Frame.{Outcome, done, closed, threw, stuck, write}
use waterproof_wrapper.Server.State.{Server, unmap, after_farewell}
use waterproof_wrapper.Worker.Posix.{Worker, Started, started, start_threw, child, start}
use waterproof_wrapper.Conductor.{
  join_refused, Conductor, Flow, Effect, handle_request, handle_verb, handle_create, create_worker,
  after_start, handle_destroy, erase_worker, create_empty_response, forward_to, unmapped,
  join_threads, after_join, fail_worker, handle_worker_failure, on_invalidate,
}
use waterproof_wrapper.Conductor.Service.{
  Op, requested, responded, failed, invalidated, Run, entry_of, service, returned, then_act, act,
  acts,
}
use waterproof_wrapper.Conductor.Service.Refines.{Done, acts-Run}

-- The response to a destroy request.
abbrev pub farewell : ℕ → ℕ → Response
farewell n id = record {
  id = n;
  priority = pos 1;
  status = Status.success;
  verb = Verb.destroy;
  instance_id = id;
  content = [];
}

-- What a step that does not return comes to.
abbrev Unless : {A : Type 0} → Type 0 → Option A → Type 0
Unless P none = P
Unless P (some x) = Unit

abbrev pub After : {C W : Type 0} → (C → W → Type 0) → Option (C × W) → Type 0
After P none = ⊥
After P (some (c, w)) = P c w

module _ (a : Api) (j : Json) where
  -- The instance has a worker whose threads do not end.
  abbrev pub Blocks : ℕ → Conductor → Type 0
  Blocks i c = (k : Worker) × (find i c.workers ≡ some (some k)) × (a.threads_end k.id ≡ false)

  -- A create request makes a worker whose threads do not end, for an instance that has one.
  abbrev pub Refuses : ℕ → Conductor → a.World → Type 0
  Refuses i c w =
      (k : Worker) × ((start a i w).0.0 ≡ started k)
      × (find i c.workers ≢ none)
      × (a.threads_end k.id ≡ false)

  -- A create request whose options cannot be read, in the child process, or whose worker is destroyed at
  -- once while its threads do not end; a destroy request for a
  -- worker whose threads do not end, or whose response is not written, for another reason than an error
  -- of the socket; and a forward request to an instance that is not there.
  abbrev pub BreaksRequest : Verb → ℕ → Request → Conductor → a.World → Type 0
  BreaksRequest Verb.create fuel r c w =
      ((e : Thrown) × (config j r.content ≡ config_threw e))
      ⊎ ((start a r.instance_id w).0.0 ≡ child)
      ⊎ Refuses r.instance_id c w
  BreaksRequest Verb.destroy fuel r c w =
      Blocks r.instance_id c
      ⊎ (let client = (subscript r.instance_id 0 c.server.client_map).0 in
          let o = (write a j fuel client (farewell c.next_id r.instance_id) w).0 in
          (o ≢ done tt) × ((e : ApiError) → o ≢ threw (api_error e)))
  BreaksRequest Verb.forward fuel r c w =
      ((service c).queues r.instance_id ≡ none) ⊎ ((service c).queues r.instance_id ≡ some none)
  BreaksRequest Verb.stop fuel r c w = ⊥

  abbrev pub Breaks : Op → Conductor → a.World → Type 0
  Breaks (requested fuel r) c w = BreaksRequest r.verb fuel r c w
  Breaks (responded i text) c w = ⊥
  Breaks (failed i e) c w = (k : Worker) × (find i c.workers ≡ some (some k))
  Breaks (invalidated i) c w = Blocks i c

  -- One of these is met on the way.
  abbrev pub BreaksIn : List Op → Conductor → a.World → Type 0
  BreaksIn [] c w = ⊥
  BreaksIn (op ∷ ops) c w = Breaks op c w ⊎ After (BreaksIn ops) (act a j op c w)

  -- A run of the service, or an operation that the conductor does not survive.
  abbrev pub Served : List Op → Conductor → a.World → Option (Conductor × a.World) → Type 0
  Served ops c w none = BreaksIn ops c w
  Served ops c w (some (c', w')) = Run ops (service c) (service c')

returned-Unless :
    {W : Type 0} (P : Type 0) (o : (Flow × Conductor × List Effect) × W)
    → (o.0.0 ≢ Flow.returns → P)
    → Unless P (returned o)
unfolding returned
returned-Unless P ((Flow.returns, c, es), w) h = tt
returned-Unless P ((Flow.undefined, c, es), w) h = h (λ e. cc)
returned-Unless P ((Flow.aborts, c, es), w) h = h (λ e. cc)
returned-Unless P ((Flow.becomes_child, c, es), w) h = h (λ e. cc)
returned-Unless P ((Flow.waits, c, es), w) h = h (λ e. cc)

started-Breaks :
    (n id : ℕ) (o : Started) (c : Conductor) → (after_start n id o c).0 ≢ Flow.returns → o ≡ child
unfolding after_start
started-Breaks n id (started k) c h = absurd (h refl)
started-Breaks n id (start_threw e) c h = absurd (h refl)
started-Breaks n id child c h = refl

forward-Breaks :
    (id : ℕ) (content : Text) (o : Option (Option Worker)) (c : Conductor)
    → (forward_to id content o c).0 ≢ Flow.returns
    → (entry_of o ≡ none) ⊎ (entry_of o ≡ some none)
unfolding forward_to
forward-Breaks id content none c h = inl refl
forward-Breaks id content (some none) c h = inr refl
forward-Breaks id content (some (some k)) c h = absurd (h refl)

farewell-Breaks :
    {W : Type 0} (id : ℕ) (s : Server) (o : Outcome (Unit {0})) (w : W)
    → unmapped (after_farewell id s o w).0 ≢ Flow.returns
    → (o ≢ done tt) × ((e : ApiError) → o ≢ threw (api_error e))
unfolding after_farewell
farewell-Breaks id s (done tt) w h = absurd (h refl)
farewell-Breaks id s closed w h = (λ e. cc, λ e p. cc)
farewell-Breaks id s (threw (api_error e)) w h = absurd (h refl)
farewell-Breaks id s (threw parse_error) w h = (λ e. cc, λ e p. cc)
farewell-Breaks id s (threw json_error) w h = (λ e. cc, λ e p. cc)
farewell-Breaks id s stuck w h = (λ e. cc, λ e p. cc)

joined-Breaks :
    (a : Api) (o : Option (Option Worker))
    → join_threads a o ≢ Flow.returns
    → (k : Worker) × (o ≡ some (some k)) × (a.threads_end k.id ≡ false)
unfolding join_threads
joined-Breaks a none h = absurd (h refl)
joined-Breaks a (some none) h = absurd (h refl)
joined-Breaks a (some (some k)) h = elim (Bool-cases (a.threads_end k.id)) [
  | inl e ↦ absurd (h (ap (λ b. if b then Flow.returns else Flow.waits) e))
  | inr e ↦ (k, refl, e)
]

refused-Breaks :
    (a : Api) (s : Started) (o : Option (Option Worker))
    → join_refused a s o ≢ Flow.returns
    → (k : Worker) × (s ≡ started k) × (o ≢ none) × (a.threads_end k.id ≡ false)
unfolding join_refused
refused-Breaks a (started k) none h = absurd (h refl)
refused-Breaks a (started k) (some present) h =
    let (k', e, t) = joined-Breaks a (some (some k)) h in
    (k, refl, (λ p. cc), ap a.threads_end (cc) ∙ t)
refused-Breaks a (start_threw e) o h = absurd (h refl)
refused-Breaks a child o h = absurd (h refl)

join_either :
    {W : Type 0} (flow : Flow) (c : Conductor) (effects : List Effect) (w : W)
    (rest : (Flow × Conductor × List Effect) × W)
    → (after_join flow c effects w rest).0.0 ≢ Flow.returns
    → (flow ≢ Flow.returns) ⊎ (rest.0.0 ≢ Flow.returns)
unfolding after_join
join_either Flow.returns c effects w rest h = inr h
join_either Flow.undefined c effects w rest h = inl h
join_either Flow.aborts c effects w rest h = inl h
join_either Flow.becomes_child c effects w rest h = inl h
join_either Flow.waits c effects w rest h = inl h

failed-Breaks :
    (o : Option (Option Worker)) (i : ℕ) (e : ApiError) (c : Conductor)
    → (fail_worker o i e c).0 ≢ Flow.returns
    → (k : Worker) × (o ≡ some (some k))
unfolding fail_worker
failed-Breaks none i e c h = absurd (h refl)
failed-Breaks (some none) i e c h = absurd (h refl)
failed-Breaks (some (some k)) i e c h = (k, refl)

module _ (a : Api) (j : Json) where
  create-Breaks :
      (n id : ℕ) (o : Configured) (c : Conductor) (w : a.World)
      → (create_worker a j n id o c w).0.0 ≢ Flow.returns
      → ((e : Thrown) × (o ≡ config_threw e)) ⊎ ((start a id w).0.0 ≡ child) ⊎ Refuses a j id c w
  unfolding create_worker
  create-Breaks n id (config_threw e) c w h = inl (e, refl)
  create-Breaks n id (configured conf) c w h =
      elim (join_either (join_refused a (start a id w).0.0 (find id c.workers)) _ _ _ _ h) [
        | inl e ↦ inr (inr (refused-Breaks a (start a id w).0.0 (find id c.workers) e))
        | inr e ↦ inr (inl (started-Breaks n id (start a id w).0.0 c e))
      ]

  verb-Breaks :
      (fuel : ℕ) (v : Verb) (r : Request) (c : Conductor) (w : a.World)
      → (handle_verb a j fuel v r c w).0.0 ≢ Flow.returns
      → BreaksRequest a j v fuel r c w
  unfolding handle_verb handle_create handle_destroy erase_worker create_empty_response unmap
      join_threads
  verb-Breaks fuel Verb.create r c w h =
      create-Breaks c.next_id r.instance_id (config j r.content)
        (record c { next_id = (c.next_id + 1) % 2 ^ 64 }) w h
  verb-Breaks fuel Verb.destroy r c w h =
      elim (join_either (join_threads a (find r.instance_id c.workers)) _ _ w _ h) [
        | inl e ↦ inl (joined-Breaks a (find r.instance_id c.workers) e)
        | inr e ↦ inr (farewell-Breaks r.instance_id _ _ _ e)
      ]
  verb-Breaks fuel Verb.forward r c w h =
      forward-Breaks r.instance_id r.content (find r.instance_id c.workers) c h
  verb-Breaks fuel Verb.stop r c w h = absurd (h refl)

  act-Breaks : (op : Op) (c : Conductor) (w : a.World) → Unless (Breaks a j op c w) (act a j op c w)
  unfolding act handle_request handle_worker_failure on_invalidate erase_worker
  act-Breaks (requested fuel r) c w = returned-Unless _ _ (verb-Breaks fuel r.verb r c w)
  act-Breaks (responded i text) c w = tt
  act-Breaks (failed i e) c w = returned-Unless _ _ (failed-Breaks (find i c.workers) i e c)
  act-Breaks (invalidated i) c w = returned-Unless _ _ (joined-Breaks a (find i c.workers))

  then-Breaks :
      (P : Type 0) (ops : List Op) (o : Option (Conductor × a.World))
      → Unless P o
      → ((c : Conductor) (w : a.World) → Unless (BreaksIn a j ops c w) (acts a j ops c w))
      → Unless (P ⊎ After (BreaksIn a j ops) o) (then_act o (acts a j ops))
  unfolding then_act
  then-Breaks P ops none h k = inl h
  then-Breaks P ops (some (c, w)) h k = after (acts a j ops c w) (k c w)
    where
      after :
          (o : Option (Conductor × a.World))
          → Unless (BreaksIn a j ops c w) o
          → Unless (P ⊎ BreaksIn a j ops c w) o
      after none g = inr g
      after (some o) g = tt

  acts-Breaks :
      (ops : List Op) (c : Conductor) (w : a.World)
      → Unless (BreaksIn a j ops c w) (acts a j ops c w)
  unfolding acts
  acts-Breaks [] c w = tt
  acts-Breaks (op ∷ ops) c w =
      then-Breaks (Breaks a j op c w) ops (act a j op c w) (act-Breaks op c w)
        (λ d v. acts-Breaks ops d v)

  both :
      (ops : List Op) (c : Conductor) (w : a.World) (o : Option (Conductor × a.World))
      → Done (λ c'. Run ops (service c) (service c')) o
      → Unless (BreaksIn a j ops c w) o
      → Served a j ops c w o
  both ops c w none h k = k
  both ops c w (some (c', w')) h k = h

  -- The conductor refines its service: requests, messages and failures of workers and lost clients, in
  -- any order, change the queues of messages and the answers as the service allows. A create request is
  -- answered once: with success, and the instance is then there, without messages if it was not there
  -- before and with those that it had if it was; or with failure, and nothing else changes. A forward
  -- request adds its content behind the messages of its instance; a destroy request or a lost client
  -- ends its instance; a message of a worker is answered once, in order, as is a failure that is reported
  -- for an instance without a worker; and no other instance changes. The conductor returns from all of
  -- them, unless one is a failure of a worker that is there, a destroy request or the loss of a client
  -- for a worker whose threads do not end, a destroy request whose response is not written for another
  -- reason than an error of the socket, a forward request to an instance that is not there, or a create
  -- request whose options are invalid, that goes on in the child process, or that makes a worker whose
  -- threads do not end for an instance that is there.
  pub acts-Served :
      (ops : List Op) (c : Conductor) (w : a.World) → Served a j ops c w (acts a j ops c w)
  acts-Served ops c w = both ops c w (acts a j ops c w) (acts-Run a j ops c w) (acts-Breaks ops c w)
