-- ===== src/System.antt =====
-- The conductor, its server and the callbacks of its workers as one system, whose threads take turns: a
-- move is one round of a thread of src/waterproof/server.cpp or src/conductor.cpp, or one callback. What
-- the server tells its subscribers in a round reaches the callbacks of the conductor. A worker may
-- report at any time, for any id, and a thread that has left its loop may go on: the model admits more
-- runs than the program has.
pub mod Queues
pub mod Sent
pub mod Sound
pub mod Create
pub mod Input
pub mod Output
pub mod Unique
pub mod Issued
use waterproof_wrapper.Base.{
  ℕ, Bool, true, false, List, [], ◌∷◌, ◌++◌, Option, none, some, Text, length,
}
use waterproof_wrapper.Utils.Exceptions.{ApiError}
use waterproof_wrapper.Platform.{Api}
use waterproof_wrapper.Json.{Json}
use waterproof_wrapper.Message.{Response}
use waterproof_wrapper.Server.Queue.{pop}
use waterproof_wrapper.Server.State.{Server, Effect, requested, failed, invalidated}
use waterproof_wrapper.Server.Startup.Posix.{fresh_server}
use waterproof_wrapper.Server.Loops.{Next}
use waterproof_wrapper.Server.Loops.Accept.{AcceptEvent, accept_round}
use waterproof_wrapper.Server.Loops.Read.{ReadEvent, read_round}
use waterproof_wrapper.Server.Loops.Write.{write_round}
use waterproof_wrapper.Conductor.{
  Conductor, Flow, on_request, on_failure, on_invalidate, handle_response, handle_worker_failure,
  notify,
}
use waterproof_wrapper.Conductor.Round.{Turn, again, stops, broken, round}

-- `sent` is a record of the past: the responses that the write thread has taken off its queue.
pub record System (a : Api) : Type 0 where
  pub conductor : Conductor
  pub watched : List (Option ℕ)
  pub world : a.World
  pub sent : List Response

pub data Move : Type 0 where
  accepts : AcceptEvent → Move
  reads : ℕ → ReadEvent → Move
  writes : ℕ → Move
  runs : ℕ → Move
  responds : ℕ → Text → Move
  fails : ℕ → ApiError → Move
  notified : Move

-- What follows a callback that returns.
unfoldable pub if_returns : Flow → Option Conductor → Option Conductor
if_returns Flow.returns o = o
if_returns Flow.undefined o = none
if_returns Flow.aborts o = none
if_returns Flow.becomes_child o = none
if_returns Flow.waits o = none

-- The server's callbacks, in order. One with an id that is read through the end of a map is undefined.
unfoldable pub deliver : Api → List Effect → Conductor → Option Conductor
unfolding on_request on_failure on_invalidate if_returns
deliver a [] c = some c
deliver a (requested request ∷ es) c = deliver a es (on_request request c)
deliver a (failed error ∷ es) c = deliver a es (on_failure c)
deliver a (invalidated (some id) ∷ es) c =
    let o = on_invalidate a id c in if_returns o.0 (deliver a es o.1)
deliver a (invalidated none ∷ es) c = none
deliver a (Effect.notify ∷ es) c = deliver a es c
deliver a (Effect.woke ∷ es) c = deliver a es c
deliver a (Effect.close n ∷ es) c = deliver a es c

-- The end of a round of a server thread.
unfoldable pub after_thread : Api → Next → Server → List Effect → Conductor → Option Conductor
unfolding deliver
after_thread a Next.again s es c = deliver a es (record c { server = s })
after_thread a Next.leave s es c = deliver a es (record c { server = s })
after_thread a Next.undefined s es c = none
after_thread a Next.aborts s es c = none
after_thread a Next.spins s es c = none

unfoldable pub after_turn : Turn → Conductor → Option Conductor
after_turn again c = some c
after_turn stops c = some c
after_turn (broken flow) c = none

-- The response that a round of the write thread takes.
unfoldable pub taken : Bool → Option (Response × List Response) → List Response
taken true (some (top, others)) = top ∷ []
taken true none = []
taken false o = []

unfoldable pub resume :
    {a : Api} → List (Option ℕ) → a.World → List Response → Option Conductor → Option (System a)
resume watched w sent none = none
resume watched w sent (some c) =
    some (record { conductor = c; watched = watched; world = w; sent = sent })

unfoldable pub and_then :
    {a : Api} → Option (System a) → (System a → Option (System a)) → Option (System a)
and_then none f = none
and_then (some s) f = f s

module _ (a : Api) (j : Json) where
  -- A move; `none` if the program ends in it, hangs in it, or its behaviour is undefined.
  unfoldable pub move : Move → System a → Option (System a)
  unfolding resume after_thread after_turn taken
  move (accepts event) s =
      let (next, server, effects) = accept_round a.format_code event s.conductor.server in
      resume s.watched s.world s.sent (after_thread a next server effects s.conductor)
  move (reads fuel event) s =
      let ((next, watched, server, effects), w) =
        read_round a j fuel event s.watched s.conductor.server s.world in
      resume watched w s.sent (after_thread a next server effects s.conductor)
  move (writes fuel) s =
      let server = s.conductor.server in
      let ((next, server', effects), w) = write_round a j fuel server s.world in
      resume s.watched w (taken server.running (pop server.response_queue) ++ s.sent)
        (after_thread a next server' effects s.conductor)
  move (runs fuel) s =
      let ((turn, c, effects), w) = round a j fuel s.conductor s.world in
      resume s.watched w s.sent (after_turn turn c)
  move (responds id text) s = some (record s { conductor = handle_response id text s.conductor })
  move (fails id error) s =
      let o = handle_worker_failure id error s.conductor in
      resume s.watched s.world s.sent (if_returns o.0 (some o.1))
  move notified s = some (record s { conductor = notify s.conductor })

  -- The moves in turn.
  unfoldable pub play : List Move → System a → Option (System a)
  unfolding move and_then
  play [] s = some s
  play (m ∷ ms) s = and_then (move m s) (play ms)

-- The system when its threads have been started, on these sockets.
abbrev pub begun : (a : Api) → ℕ → ℕ → ℕ → a.World → System a
begun a listen_socket interrupt_read interrupt_write w = record {
  conductor = record {
    next_id = 0;
    server_failed = false;
    signal_received = false;
    server = fresh_server listen_socket interrupt_read interrupt_write;
    workers = [];
    in_queue = [];
    out_queue = [];
  };
  watched = [];
  world = w;
  sent = [];
}
