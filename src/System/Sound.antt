-- ===== src/System/Sound.antt =====
-- The ids of the responses in the conductor and in the server, over a step of either.
use waterproof_wrapper.Base.{
  Holds, ℕ, suc, ◌+◌, ◌%◌, ◌^◌, ◌<◌, ◌≤◌, ◌≡◌, refl, ap, arith, Bool, true, false, List, [], ◌∷◌,
  Option, none, some, length, Text,
}
use waterproof_wrapper.Base.Maps
use waterproof_wrapper.Utils.Exceptions.{ApiError, plain_error}
use waterproof_wrapper.Utils.Config.{Configured, configured, config_threw, config}
use waterproof_wrapper.Platform.{Api}
use waterproof_wrapper.Json.{Json}
use waterproof_wrapper.Message.{Request, Verb, Response}
use waterproof_wrapper.Message.Copies.{copies, below}
use waterproof_wrapper.Server.State.{Server, Effect, requested, failed, invalidated}
use waterproof_wrapper.Server.Loops.{Next}
use waterproof_wrapper.Worker.Posix.{Worker, Started, started, start_threw, child, start}
use waterproof_wrapper.Conductor
use waterproof_wrapper.Conductor.{
  Conductor, Flow, on_request, on_failure, on_invalidate, handle_response, handle_worker_failure,
  notify, handle_request, handle_verb, handle_create, create_worker, after_start, insert_worker,
  answer_create, handle_destroy, erase_worker, create_empty_response, forward_to, has_failed,
  respond, fail_worker, after_join, after_join-either, join_threads,
}
use waterproof_wrapper.Conductor.Responses.{
  Numbered, TakesOne, handle_request-TakesOne, callbacks-TakesOne,
}
use waterproof_wrapper.Conductor.Round.{
  Turn, hand_over, after_requests, unless_failed, drain, round,
}
use waterproof_wrapper.Conductor.Round.Laws.{upon, hand_out_lem, after_front_either}
use waterproof_wrapper.System.{if_returns, deliver, after_thread}
use waterproof_wrapper.System.Queues.{SameQueue, unmap-SameQueue}

-- The ids of the conductor's responses are in order. Each id stands once at most among the responses of
-- the conductor, those in the queue of the server, and those the write thread has taken; and no id that
-- was not taken yet stands there.
abbrev pub Sound : List Response → Conductor → Type 0
Sound sent c =
    Numbered c.next_id c.out_queue
    × ((i : ℕ)
        → copies i c.out_queue + copies i c.server.response_queue + copies i sent
          ≤ below i c.next_id)

-- A step of the conductor that takes one id at most and leaves the server's queue.
pub advance :
    (sent : List Response) (c c' : Conductor)
    → TakesOne c c'
    → SameQueue c.server c'.server
    → Sound sent c
    → Sound sent c'
advance sent c c' step q h = (step.0, λ i. omega (arith, step.3 i, h.1 i, ap (copies i) q))

-- A step that leaves the responses and the next id.
pub stay :
    (sent : List Response) (c : Conductor) (s : Server)
    → SameQueue c.server s
    → Sound sent c
    → Sound sent (record c { server = s })
stay sent c s q h = (h.0, λ i. omega (arith, h.1 i, ap (copies i) q))

pub if_returns-Holds :
    (P : Conductor → Type 0) (flow : Flow) (o : Option Conductor)
    → Holds P o
    → Holds P (if_returns flow o)
unfolding if_returns
if_returns-Holds P Flow.returns o h = h
if_returns-Holds P Flow.undefined o h = tt
if_returns-Holds P Flow.aborts o h = tt
if_returns-Holds P Flow.becomes_child o h = tt
if_returns-Holds P Flow.waits o h = tt

deliver-Sound :
    (a : Api) (sent : List Response) (es : List Effect) (c : Conductor)
    → Sound sent c
    → Holds (Sound sent) (deliver a es c)
unfolding deliver on_request on_failure on_invalidate erase_worker
deliver-Sound a sent [] c h = h
deliver-Sound a sent (requested r ∷ es) c h = deliver-Sound a sent es (on_request r c) h
deliver-Sound a sent (failed e ∷ es) c h = deliver-Sound a sent es (on_failure c) h
deliver-Sound a sent (invalidated (some id) ∷ es) c h =
    if_returns-Holds (Sound sent) (on_invalidate a id c).0 _
      (deliver-Sound a sent es (on_invalidate a id c).1 h)
deliver-Sound a sent (invalidated none ∷ es) c h = tt
deliver-Sound a sent (Effect.notify ∷ es) c h = deliver-Sound a sent es c h
deliver-Sound a sent (Effect.woke ∷ es) c h = deliver-Sound a sent es c h
deliver-Sound a sent (Effect.close n ∷ es) c h = deliver-Sound a sent es c h

pub thread-Sound :
    (a : Api) (sent : List Response) (next : Next) (s : Server) (es : List Effect) (c : Conductor)
    → Sound sent (record c { server = s })
    → Holds (Sound sent) (after_thread a next s es c)
unfolding after_thread
thread-Sound a sent Next.again s es c h = deliver-Sound a sent es (record c { server = s }) h
thread-Sound a sent Next.leave s es c h = deliver-Sound a sent es (record c { server = s }) h
thread-Sound a sent Next.undefined s es c h = tt
thread-Sound a sent Next.aborts s es c h = tt
thread-Sound a sent Next.spins s es c h = tt

-- The requests leave the queue of the server.
insert_worker-SameQueue :
    (id : ℕ) (k : Worker) (c : Conductor) (o : Option (Option Worker))
    → SameQueue c.server (insert_worker id k c o).0.server
unfolding insert_worker
insert_worker-SameQueue id k c none = refl
insert_worker-SameQueue id k c (some p) = refl

start-SameQueue :
    (n id : ℕ) (o : Started) (c : Conductor) → SameQueue c.server (after_start n id o c).1.server
unfolding after_start answer_create
start-SameQueue n id (started k) c = insert_worker-SameQueue id k c (Maps.find id c.workers)
start-SameQueue n id (start_threw e) c = refl
start-SameQueue n id child c = refl

forward-SameQueue :
    (id : ℕ) (content : _) (o : Option (Option Worker)) (c : Conductor)
    → SameQueue c.server (forward_to id content o c).1.server
unfolding forward_to
forward-SameQueue id content none c = refl
forward-SameQueue id content (some none) c = refl
forward-SameQueue id content (some (some k)) c = refl

-- The callbacks of the workers.
pub response-Sound :
    (a : Api) (sent : List Response) (id : ℕ) (text : Text) (c : Conductor)
    → suc c.next_id < 2 ^ 64
    → Sound sent c
    → Sound sent (handle_response id text c)
response-Sound a sent id text c small h =
    advance sent c (handle_response id text c)
      (callbacks-TakesOne a id text (plain_error []) c small h.0).0
      (unfold handle_response respond create_empty_response in refl) h

fail_worker-SameQueue :
    (o : Option (Option Worker)) (id : ℕ) (e : ApiError) (c : Conductor)
    → SameQueue c.server (fail_worker o id e c).1.server
unfolding fail_worker respond create_empty_response
fail_worker-SameQueue none id e c = refl
fail_worker-SameQueue (some none) id e c = refl
fail_worker-SameQueue (some (some k)) id e c = refl

pub failure-Sound :
    (a : Api) (sent : List Response) (id : ℕ) (e : ApiError) (c : Conductor)
    → suc c.next_id < 2 ^ 64
    → Sound sent c
    → Sound sent (handle_worker_failure id e c).1
failure-Sound a sent id e c small h =
    advance sent c (handle_worker_failure id e c).1 (callbacks-TakesOne a id [] e c small h.0).1
      (unfold handle_worker_failure in fail_worker-SameQueue (Maps.find id c.workers) id e c) h

copies-upon : (i : ℕ) (rs q : List Response) → copies i (upon rs q) ≡ copies i rs + copies i q
copies-upon i [] q = omega arith
copies-upon i (r ∷ rs) q = omega (arith, copies-upon i rs (r ∷ q))

hand_over-Sound :
    (sent : List Response) (b : Bool) (c : Conductor) → Sound sent c → Sound sent (hand_over b c).1
unfolding hand_over
hand_over-Sound sent true c h = h
hand_over-Sound sent false c h = (
  (tt, tt),
  λ i. omega (
    arith,
    h.1 i,
    ap (copies i) (hand_out_lem c.out_queue c.server),
    copies-upon i c.out_queue c.server.response_queue,
  ),
)

after_requests-Sound :
    (sent : List Response) (flow : Flow) (c : Conductor)
    → Sound sent c
    → Sound sent (after_requests flow c).1
unfolding after_requests
after_requests-Sound sent Flow.returns c h = hand_over-Sound sent c.signal_received c h
after_requests-Sound sent Flow.undefined c h = h
after_requests-Sound sent Flow.aborts c h = h
after_requests-Sound sent Flow.becomes_child c h = h
after_requests-Sound sent Flow.waits c h = h

unless_failed-Sound {ℓ} :
    {W : Type ℓ} (sent : List Response) (b : Bool) (c : Conductor) (w : W)
    (r : (Turn × Conductor × List Conductor.Effect) × W)
    → Sound sent c
    → Sound sent r.0.1
    → Sound sent (unless_failed b c w r).0.1
unfolding unless_failed
unless_failed-Sound sent true c w r h g = h
unless_failed-Sound sent false c w r h g = g

module _ (a : Api) (j : Json) where
  create-SameQueue :
      (n id : ℕ) (o : Configured) (c : Conductor) (w : a.World)
      → SameQueue c.server (create_worker a j n id o c w).0.1.server
  unfolding create_worker
  create-SameQueue n id (config_threw e) c w = refl
  create-SameQueue n id (configured conf) c w =
      after_join-either (λ d. SameQueue c.server d.server) _ _ _ _ _ refl
        (start-SameQueue n id (start a id w).0.0 c)

  pub verb-SameQueue :
      (fuel : ℕ) (v : Verb) (r : Request) (c : Conductor) (w : a.World)
      → SameQueue c.server (handle_verb a j fuel v r c w).0.1.server
  unfolding handle_verb handle_create handle_destroy erase_worker create_empty_response
  verb-SameQueue fuel Verb.create r c w =
      create-SameQueue c.next_id r.instance_id (config j r.content)
        (record c { next_id = (c.next_id + 1) % 2 ^ 64 }) w
  verb-SameQueue fuel Verb.destroy r c w =
      after_join-either (λ d. SameQueue c.server d.server)
        (join_threads a (Maps.find r.instance_id c.workers)) _ _ _ _ refl
        (unmap-SameQueue a j fuel r.instance_id _ c.server w)
  verb-SameQueue fuel Verb.forward r c w =
      forward-SameQueue r.instance_id r.content (Maps.find r.instance_id c.workers) c
  verb-SameQueue fuel Verb.stop r c w = refl

  drain-Sound :
      (sent : List Response) (fuel : ℕ) (rs : List Request) (c : Conductor) (w : a.World)
      → c.next_id + length rs < 2 ^ 64
      → Sound sent c
      → Sound sent (drain a j fuel rs c w).0.1
  unfolding drain handle_request
  drain-Sound sent fuel [] c w small h = h
  drain-Sound sent fuel (r ∷ rs) c w small h =
      let d : Conductor = record c { in_queue = r ∷ rs } in
      let first = handle_request a j fuel r d w in
      let step = handle_request-TakesOne a j fuel r d w (omega (arith, small)) h.0 in
      let sound = advance sent d first.0.1 step (verb-SameQueue fuel r.verb r d w) h in
      after_front_either (Sound sent) first (drain a j fuel rs first.0.1 first.1) sound
        (drain-Sound sent fuel rs first.0.1 first.1 (omega (arith, small, step.2)) sound)

  pub round-Sound :
      (sent : List Response) (fuel : ℕ) (c : Conductor) (w : a.World)
      → c.next_id + length c.in_queue < 2 ^ 64
      → Sound sent c
      → Sound sent (round a j fuel c w).0.1
  unfolding round
  round-Sound sent fuel c w small h =
      let ran = drain a j fuel c.in_queue c w in
      unless_failed-Sound sent (has_failed c) c w _ h
        (after_requests-Sound sent ran.0.0 ran.0.1 (drain-Sound sent fuel c.in_queue c w small h))
