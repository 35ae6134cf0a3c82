-- ===== src/Conductor/Round.antt =====
-- The loop of `conductor::run`: a round handles the queued requests in order, then hands the queued
-- responses to the server.
pub mod Laws
use waterproof_wrapper.Base.{
  ℕ, suc, ◌+◌, ◌^◌, ◌<◌, ◌≤◌, ◌≡◌, refl, arith, Bool, true, false, List, [], ◌∷◌, ◌++◌, ◌||◌,
  if◌then◌else◌, subst, sym, ap, ◌∙◌, length, Bool-cases, inl, inr,
}
use waterproof_wrapper.Platform.{Api}
use waterproof_wrapper.Json.{Json}
use waterproof_wrapper.Message.{Request, Response}
use waterproof_wrapper.Server.Queue.{push}
use waterproof_wrapper.Server.State.{Server}
use waterproof_wrapper.Server.State as State
use waterproof_wrapper.Conductor.{Conductor, Flow, Effect, has_failed, handle_request}
use waterproof_wrapper.Conductor.Responses.{Numbered, TakesOne, handle_request-TakesOne}

-- How a round ends: with a further one, with the end of the loop, or in a request that did not return.
pub data Turn : Type 0 where
  again stops : Turn
  broken : Flow → Turn

-- The loop that gives the responses to the server, whose write loop is notified of each.
unfoldable pub hand_out : List Response → Server → Server
hand_out [] s = s
hand_out (r ∷ rs) s = hand_out rs (State.enqueue r s).0

-- The responses are handed out, unless one of the requests was a stop.
unfoldable pub hand_over : Bool → Conductor → Turn × Conductor
unfolding hand_out
hand_over true c = (stops, c)
hand_over false c = (again, record c { server = hand_out c.out_queue c.server; out_queue = [] })

-- The end of the round, behind the requests.
unfoldable pub after_requests : Flow → Conductor → Turn × Conductor
unfolding hand_over
after_requests Flow.returns c = hand_over c.signal_received c
after_requests Flow.undefined c = (broken Flow.undefined, c)
after_requests Flow.aborts c = (broken Flow.aborts, c)
after_requests Flow.becomes_child c = (broken Flow.becomes_child, c)
after_requests Flow.waits c = (broken Flow.waits, c)

-- The other requests follow one that returned.
unfoldable pub after_front {ℓ} :
    {W : Type ℓ}
    → (Flow × Conductor × List Effect) × W
    → (Flow × Conductor × List Effect) × W
    → (Flow × Conductor × List Effect) × W
after_front ((Flow.returns, c, effects), w) ((flow, c', effects'), w') =
    ((flow, c', effects ++ effects'), w')
after_front ((Flow.undefined, c, effects), w) rest = ((Flow.undefined, c, effects), w)
after_front ((Flow.aborts, c, effects), w) rest = ((Flow.aborts, c, effects), w)
after_front ((Flow.becomes_child, c, effects), w) rest = ((Flow.becomes_child, c, effects), w)
after_front ((Flow.waits, c, effects), w) rest = ((Flow.waits, c, effects), w)

-- A loop that has been told to end does so before its round.
unfoldable pub unless_failed {ℓ} :
    {W : Type ℓ}
    → Bool
    → Conductor
    → W
    → (Turn × Conductor × List Effect) × W
    → (Turn × Conductor × List Effect) × W
unless_failed true c w done = ((stops, c, []), w)
unless_failed false c w done = done

module _ (a : Api) (j : Json) where
  -- The loop over the requests: the front is taken off when it has been handled.
  unfoldable pub drain :
      ℕ → List Request → Conductor → a.World → (Flow × Conductor × List Effect) × a.World
  unfolding handle_request after_front
  drain fuel [] c w = ((Flow.returns, record c { in_queue = [] }, []), w)
  drain fuel (r ∷ rs) c w =
      let first = handle_request a j fuel r (record c { in_queue = r ∷ rs }) w in
      after_front first (drain fuel rs first.0.1 first.1)

  unfoldable pub round : ℕ → Conductor → a.World → (Turn × Conductor × List Effect) × a.World
  unfolding drain after_requests unless_failed
  round fuel c w =
      let ((flow, c', effects), w') = drain fuel c.in_queue c w in
      let (turn, c'') = after_requests flow c' in
      unless_failed (has_failed c) c w ((turn, c'', effects), w')
