-- ===== src/Conductor/Service.antt =====
-- What the conductor promises: a service that keeps a queue of messages for each instance, and a list of
-- answers. It forgets the ids and the priorities of responses, and of a worker all but its messages.
pub mod Refines
pub mod Breaks
pub mod Rounds
use waterproof_wrapper.Base.{
  ℕ, ◌≡◌, List, [], ◌∷◌, ◌++◌, Option, none, some, Text, map, ◌⊎◌, if◌then◌else◌, ◌==◌,
}
use waterproof_wrapper.Base.Maps.{find}
use waterproof_wrapper.Utils.Exceptions.{ApiError}
use waterproof_wrapper.Platform.{Api}
use waterproof_wrapper.Json.{Json}
use waterproof_wrapper.Message.{Request, Verb, Response, Status}
use waterproof_wrapper.Worker.Posix.{Worker}
use waterproof_wrapper.Conductor.{
  Conductor, Flow, Effect, handle_request, handle_response, handle_worker_failure, on_invalidate,
}

pub record Answer : Type 0 where
  pub verb : Verb
  pub status : Status
  pub instance_id : ℕ
  pub content : Text

-- The messages that wait for an instance: `none` if it has no entry, `some none` if it has a null pointer.
pub record Service : Type 0 where
  pub queues : ℕ → Option (Option (List Text))
  pub answers : List Answer

-- A change at one instance, and none.
abbrev pub SetAt : ℕ → Option (Option (List Text)) → Service → Service → Type 0
SetAt i v s s' = (j : ℕ) → s'.queues j ≡ (if i == j then v else s.queues j)

abbrev pub SameQueues : Service → Service → Type 0
SameQueues s s' = (j : ℕ) → s'.queues j ≡ s.queues j

abbrev pub Answered : Verb → Status → ℕ → Text → Service → Service → Type 0
Answered verb status i content s s' =
    s'.answers
    ≡ s.answers
      ++ (record { verb = verb; status = status; instance_id = i; content = content } ∷ [])

-- The requests. An instance is made with no messages, unless it is there; a forward request needs one.
abbrev pub RequestFollows : Verb → ℕ → Text → Service → Service → Type 0
RequestFollows Verb.create i content s s' =
    (((s.queues i ≡ none) × SetAt i (some (some [])) s s'
        ⊎ ((q : Option (List Text)) × (s.queues i ≡ some q) × SameQueues s s'))
      × Answered Verb.create Status.success i [] s s')
    ⊎ (SameQueues s s' × ((text : Text) × Answered Verb.create Status.failure i text s s'))
RequestFollows Verb.destroy i content s s' = SetAt i none s s' × (s'.answers ≡ s.answers)
RequestFollows Verb.forward i content s s' =
    ((q : List Text) × (s.queues i ≡ some (some q))
      × SetAt i (some (some (q ++ (content ∷ [])))) s s')
    × (s'.answers ≡ s.answers)
RequestFollows Verb.stop i content s s' = SameQueues s s' × (s'.answers ≡ s.answers)

-- A request, a message of a worker, its failure, and the loss of the client of an instance.
pub data Op : Type 0 where
  requested : ℕ → Request → Op
  responded : ℕ → Text → Op
  failed : ℕ → ApiError → Op
  invalidated : ℕ → Op

abbrev pub Follows : Op → Service → Service → Type 0
Follows (requested fuel r) s s' = RequestFollows r.verb r.instance_id r.content s s'
Follows (responded i text) s s' = SameQueues s s' × Answered Verb.forward Status.success i text s s'
Follows (failed i e) s s' = SetAt i none s s' × Answered Verb.destroy Status.failure i e.what s s'
Follows (invalidated i) s s' = SetAt i none s s' × (s'.answers ≡ s.answers)

-- A run of the service.
abbrev pub Run : List Op → Service → Service → Type 0
Run [] s s' = SameQueues s s' × (s'.answers ≡ s.answers)
Run (op ∷ ops) s s' = (t : Service) × Follows op s t × Run ops t s'

-- The service that a conductor is.
abbrev pub messages_of : Option Worker → Option (List Text)
messages_of none = none
messages_of (some k) = some k.message_queue

abbrev pub entry_of : Option (Option Worker) → Option (Option (List Text))
entry_of none = none
entry_of (some o) = some (messages_of o)

abbrev pub answer_of : Response → Answer
answer_of r = record {
  verb = r.verb;
  status = r.status;
  instance_id = r.instance_id;
  content = r.content;
}

abbrev pub service : Conductor → Service
service c = record {
  queues = λ i. entry_of (find i c.workers);
  answers = map answer_of c.out_queue;
}

unfoldable pub returned :
    {W : Type 0} → (Flow × Conductor × List Effect) × W → Option (Conductor × W)
returned ((Flow.returns, c, effects), w) = some (c, w)
returned ((Flow.undefined, c, effects), w) = none
returned ((Flow.aborts, c, effects), w) = none
returned ((Flow.becomes_child, c, effects), w) = none
returned ((Flow.waits, c, effects), w) = none

unfoldable pub then_act :
    {W : Type 0}
    → Option (Conductor × W)
    → (Conductor → W → Option (Conductor × W))
    → Option (Conductor × W)
then_act none f = none
then_act (some (c, w)) f = f c w

module _ (a : Api) (j : Json) where
  -- What the conductor does; `none` if it does not return.
  unfoldable pub act : Op → Conductor → a.World → Option (Conductor × a.World)
  unfolding returned
  act (requested fuel r) c w = returned (handle_request a j fuel r c w)
  act (responded i text) c w = some (handle_response i text c, w)
  act (failed i e) c w = returned (handle_worker_failure i e c, w)
  act (invalidated i) c w = returned (on_invalidate a i c, w)

  unfoldable pub acts : List Op → Conductor → a.World → Option (Conductor × a.World)
  unfolding act then_act
  acts [] c w = some (c, w)
  acts (op ∷ ops) c w = then_act (act op c w) (acts ops)
