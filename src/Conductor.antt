-- ===== src/Conductor.antt =====
-- src/conductor.h and conductor.cpp: the conductor, which passes requests from the server to the workers
-- and their responses back. Its members are guarded by `queue_m_`, so each callback and each round of
-- `run` is one step of the model; logging is left out.
pub mod Round
pub mod Workers
pub mod Responses
pub mod Service
pub mod Issued
pub mod Farewell
use waterproof_wrapper.Base.{
  refl, ℕ, zero, suc, ◌+◌, ◌%◌, ◌^◌, ℤ, pos, Bool, true, false, List, [], ◌∷◌, ◌++◌, Option, none,
  some, Text, ◌≡◌, if◌then◌else◌, ◌||◌, ◌&&◌, not,
}
use waterproof_wrapper.Base.Maps
use waterproof_wrapper.Utils.Exceptions.{ApiError, Thrown}
use waterproof_wrapper.Utils.Config.{Config, Configured, configured, config_threw, config}
use waterproof_wrapper.Platform.{Api}
use waterproof_wrapper.Json.{Json}
use waterproof_wrapper.Message.{Request, Verb, Response, Status}
use waterproof_wrapper.Server.Frame.{Outcome, done, closed, threw, stuck}
use waterproof_wrapper.Server.State.{Server, unmap}
use waterproof_wrapper.Worker.Posix.{Worker, Started, started, start_threw, child, start}
use waterproof_wrapper.Worker.Posix as Posix

-- `workers_` holds a pointer for each instance, which may be null.
pub record Conductor : Type 0 where
  pub next_id : ℕ
  pub server_failed : Bool
  pub signal_received : Bool
  pub server : Server
  pub workers : List (ℕ × Option Worker)
  pub in_queue : List Request
  pub out_queue : List Response

-- How a step ends: normally, in undefined behaviour, by an exception that no one catches, in the child
-- process of a `fork`, or not yet, since a write goes on.
pub data Flow : Type 0 where
  returns undefined aborts becomes_child waits : Flow

-- The workers that a step destroys, and what it hands to the constructor of a worker.
pub data Effect : Type 0 where
  destroyed : Worker → Effect
  launched : ℕ → Config → Effect

-- The destruction of what a map holds for an id, when its entry is erased.
abbrev pub destruction : Option (Option Worker) → List Effect
destruction none = []
destruction (some none) = []
destruction (some (some k)) = destroyed k ∷ []

-- `has_failed`, `notify`.
unfoldable pub has_failed : Conductor → Bool
has_failed c = c.server_failed || c.signal_received

unfoldable pub notify : Conductor → Conductor
notify c = record c { signal_received = true }

-- The destructor, before it joins the thread of `run`.
unfoldable pub destroy : Conductor → Conductor
destroy c =
    if not (c.signal_received) && not (c.server_failed)
    then record c { signal_received = true }
    else c

-- `create_empty_response`: the verb and the content are set by the caller. `next_id_` is a `uint64_t`.
unfoldable pub create_empty_response :
    ℕ → ℤ → Status → Verb → Text → Conductor → Response × Conductor
create_empty_response instance_id priority status verb content c = (
  record {
    id = c.next_id;
    priority = priority;
    status = status;
    verb = verb;
    instance_id = instance_id;
    content = content;
  },
  record c { next_id = (c.next_id + 1) % 2 ^ 64 },
)

-- `out_queue_.push(…)` of such a response.
unfoldable pub respond : ℕ → ℤ → Status → Verb → Text → Conductor → Conductor
unfolding create_empty_response
respond instance_id priority status verb content c =
    let (response, c') = create_empty_response instance_id priority status verb content c in
    record c' { out_queue = c'.out_queue ++ (response ∷ []) }

-- The joins in the destructor of what a map holds for an id: it does not end before the worker's threads.
unfoldable pub join_threads : Api → Option (Option Worker) → Flow
join_threads a none = Flow.returns
join_threads a (some none) = Flow.returns
join_threads a (some (some k)) = if a.threads_end k.id then Flow.returns else Flow.waits

-- `workers_.erase(id)` on another thread than the worker's.
unfoldable pub erase_worker : Api → ℕ → Conductor → Flow × Conductor × List Effect
unfolding join_threads
erase_worker a id c = (
  join_threads a (Maps.find id c.workers),
  record c { workers = Maps.erase id c.workers },
  destruction (Maps.find id c.workers),
)

-- The callbacks of the server: `on_failure`, `on_request` and `on_invalidate`.
unfoldable pub on_failure : Conductor → Conductor
on_failure c = record c { server_failed = true }

unfoldable pub on_request : Request → Conductor → Conductor
on_request request c = record c { in_queue = c.in_queue ++ (request ∷ []) }

unfoldable pub on_invalidate : Api → ℕ → Conductor → Flow × Conductor × List Effect
unfolding erase_worker
on_invalidate a id c = erase_worker a id c

-- The callbacks of the workers.
unfoldable pub handle_response : ℕ → Text → Conductor → Conductor
unfolding respond
handle_response instance_id response c =
    respond instance_id (pos 0) Status.success Verb.forward response c

-- The failure is reported on a thread of the worker. Where the map holds the worker, it is destroyed on
-- that thread, and the join of the thread by itself throws in a destructor that is `noexcept`.
unfoldable pub fail_worker :
    Option (Option Worker) → ℕ → ApiError → Conductor → Flow × Conductor × List Effect
unfolding respond
fail_worker (some (some k)) instance_id error c =
    (Flow.aborts, record c { workers = Maps.erase instance_id c.workers }, destroyed k ∷ [])
fail_worker (some none) instance_id error c = (
  Flow.returns,
  respond instance_id (pos 1) Status.failure Verb.destroy error.what
      (record c { workers = Maps.erase instance_id c.workers }),
  [],
)
fail_worker none instance_id error c = (
  Flow.returns,
  respond instance_id (pos 1) Status.failure Verb.destroy error.what
      (record c { workers = Maps.erase instance_id c.workers }),
  [],
)

unfoldable pub handle_worker_failure : ℕ → ApiError → Conductor → Flow × Conductor × List Effect
unfolding fail_worker
handle_worker_failure instance_id error c =
    fail_worker (Maps.find instance_id c.workers) instance_id error c

-- A destruction that does not end is not gone past.
unfoldable pub after_join :
    {W : Type 0}
    → Flow
    → Conductor
    → List Effect
    → W
    → (Flow × Conductor × List Effect) × W
    → (Flow × Conductor × List Effect) × W
after_join Flow.returns c effects w rest = rest
after_join Flow.undefined c effects w rest = ((Flow.undefined, c, effects), w)
after_join Flow.aborts c effects w rest = ((Flow.aborts, c, effects), w)
after_join Flow.becomes_child c effects w rest = ((Flow.becomes_child, c, effects), w)
after_join Flow.waits c effects w rest = ((Flow.waits, c, effects), w)

-- What holds of the conductor in both cases.
pub after_join-either {ℓ} :
    {W : Type 0} (P : Conductor → Type ℓ) (flow : Flow) (c : Conductor) (effects : List Effect)
    (w : W) (rest : (Flow × Conductor × List Effect) × W)
    → P c
    → P rest.0.1
    → P (after_join flow c effects w rest).0.1
unfolding after_join
after_join-either P Flow.returns c effects w rest p q = q
after_join-either P Flow.undefined c effects w rest p q = p
after_join-either P Flow.aborts c effects w rest p q = p
after_join-either P Flow.becomes_child c effects w rest p q = p
after_join-either P Flow.waits c effects w rest p q = p

-- What is known of a step with such a destruction that returns.
pub after_join-returns {ℓ} :
    {W : Type 0} (P : (Flow × Conductor × List Effect) × W → Type ℓ) (flow : Flow) (c : Conductor)
    (effects : List Effect) (w : W) (rest : (Flow × Conductor × List Effect) × W)
    → (rest.0.0 ≡ Flow.returns → P rest)
    → (after_join flow c effects w rest).0.0 ≡ Flow.returns
    → P (after_join flow c effects w rest)
unfolding after_join
after_join-returns P Flow.returns c effects w rest f h = f h
after_join-returns P Flow.undefined c effects w rest f h = cc
after_join-returns P Flow.aborts c effects w rest f h = cc
after_join-returns P Flow.becomes_child c effects w rest f h = cc
after_join-returns P Flow.waits c effects w rest f h = cc

abbrev pub Step : Api → Type 0
Step a = a.World → (Flow × Conductor × List Effect) × a.World

-- What is known of one whose threads end.
pub after_join_lem :
    {W : Type 0} (flow : Flow) (c : Conductor) (effects : List Effect) (w : W)
    (rest : (Flow × Conductor × List Effect) × W)
    → flow ≡ Flow.returns
    → after_join flow c effects w rest ≡ rest
unfolding after_join
after_join_lem Flow.returns c effects w rest h = refl
after_join_lem Flow.undefined c effects w rest h = cc
after_join_lem Flow.aborts c effects w rest h = cc
after_join_lem Flow.becomes_child c effects w rest h = cc
after_join_lem Flow.waits c effects w rest h = cc

-- `workers_.insert(…)` leaves an entry that is there; the new worker is then destroyed.
unfoldable pub insert_worker :
    ℕ → Worker → Conductor → Option (Option Worker) → Conductor × List Effect
insert_worker id k c none = (record c { workers = Maps.insert id (some k) c.workers }, [])
insert_worker id k c (some present) = (c, destroyed k ∷ [])

-- The end of a create request: the response has its id from before the worker was made.
unfoldable pub answer_create : ℕ → ℕ → Status → Text → Conductor → Conductor
answer_create response_id instance_id status content c = record c {
  out_queue =
      c.out_queue
      ++ (record {
        id = response_id;
        priority = pos 1;
        status = status;
        verb = Verb.create;
        instance_id = instance_id;
        content = content;
      }
          ∷ []);
}

-- The join of the threads of a new worker that is destroyed since an entry is there.
unfoldable pub join_refused : Api → Started → Option (Option Worker) → Flow
unfolding join_threads
join_refused a (started k) none = Flow.returns
join_refused a (started k) (some present) = join_threads a (some (some k))
join_refused a (start_threw error) o = Flow.returns
join_refused a child o = Flow.returns

pub join_refused-none :
    (a : Api) (s : Started) (o : Option (Option Worker))
    → o ≡ none
    → join_refused a s o ≡ Flow.returns
unfolding join_refused
join_refused-none a (started k) none h = refl
join_refused-none a (started k) (some present) h = cc
join_refused-none a (start_threw error) o h = refl
join_refused-none a child o h = refl

unfoldable pub after_start : ℕ → ℕ → Started → Conductor → Flow × Conductor × List Effect
unfolding insert_worker answer_create
after_start response_id id (started k) c =
    let (c', effects) = insert_worker id k c (Maps.find id c.workers) in
    (Flow.returns, answer_create response_id id Status.success [] c', effects)
after_start response_id id (start_threw error) c =
    (Flow.returns, answer_create response_id id Status.failure error.what c, [])
after_start response_id id child c = (Flow.becomes_child, c, [])

-- The entry that `workers_[id]` finds, or makes with a null pointer; through that `enqueue` is
-- undefined.
unfoldable pub forward_to :
    ℕ → Text → Option (Option Worker) → Conductor → Flow × Conductor × List Effect
forward_to id content (some (some k)) c = (
  Flow.returns,
  record c {
    workers = Maps.insert id (some (Posix.enqueue content k).0) (Maps.erase id c.workers);
  },
  [],
)
forward_to id content (some none) c = (Flow.undefined, c, [])
forward_to id content none c =
    (Flow.undefined, record c { workers = Maps.insert id none c.workers }, [])

-- How `unmap` ends; `closed` is the end of reads, and never that of a write.
abbrev pub unmapped : Outcome (Unit {0}) → Flow
unmapped (done _) = Flow.returns
unmapped closed = Flow.waits
unmapped (threw _) = Flow.aborts
unmapped stuck = Flow.waits

module _ (a : Api) (j : Json) where
  -- An exception of the configuration is no `api_error`, and is not caught.
  unfoldable pub create_worker : ℕ → ℕ → Configured → Conductor → Step a
  unfolding after_start
  create_worker response_id id (config_threw e) c w = ((Flow.aborts, c, []), w)
  create_worker response_id id (configured conf) c w =
      let ((result, _), w') = start a id w in
      let (flow, c', effects) = after_start response_id id result c in
      after_join (join_refused a result (Maps.find id c.workers)) c (launched id conf ∷ effects) w'
        ((flow, c', launched id conf ∷ effects), w')

  unfoldable pub handle_create : Request → Conductor → Step a
  unfolding create_worker
  handle_create request c w =
      create_worker c.next_id request.instance_id (config j request.content)
        (record c { next_id = (c.next_id + 1) % 2 ^ 64 }) w

  unfoldable pub handle_destroy : ℕ → Request → Conductor → Step a
  unfolding erase_worker create_empty_response after_join
  handle_destroy fuel request c w =
      let (flow, c', effects) = erase_worker a request.instance_id c in
      let (response, c'') =
        create_empty_response request.instance_id (pos 1) Status.success Verb.destroy [] c' in
      let (result, s, w') = unmap a j fuel request.instance_id response c''.server w in
      after_join flow c' effects w ((unmapped result, record c'' { server = s }, effects), w')

  -- The switch over the verb.
  unfoldable pub handle_verb : ℕ → Verb → Request → Conductor → Step a
  unfolding handle_create handle_destroy forward_to
  handle_verb fuel Verb.create request c w = handle_create request c w
  handle_verb fuel Verb.destroy request c w = handle_destroy fuel request c w
  handle_verb fuel Verb.forward request c w = (
    forward_to request.instance_id request.content (Maps.find request.instance_id c.workers) c,
    w,
  )
  handle_verb fuel Verb.stop request c w =
      ((Flow.returns, record c { signal_received = true }, []), w)

  unfoldable pub handle_request : ℕ → Request → Conductor → Step a
  unfolding handle_verb
  handle_request fuel request c w = handle_verb fuel request.verb request c w
