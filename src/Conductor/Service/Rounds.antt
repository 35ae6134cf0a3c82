-- ===== src/Conductor/Service/Rounds.antt =====
-- A round of `conductor::run` against the service that the conductor promises.
use waterproof_wrapper.Base.{ℕ, ◌≡◌, refl, ◌∙◌, ap, subst, Bool, true, false, List, [], ◌∷◌, map}
use waterproof_wrapper.Platform.{Api}
use waterproof_wrapper.Json.{Json}
use waterproof_wrapper.Message.{Request, Response}
use waterproof_wrapper.Conductor.{Conductor, Flow, Effect, handle_request, has_failed}
use waterproof_wrapper.Conductor.Round.{
  Turn, again, hand_over, after_requests, after_front, unless_failed, drain, round,
}
use waterproof_wrapper.Conductor.Round.Laws.{upon, hand_out_lem}
use waterproof_wrapper.Conductor.Service.{requested, Run, answer_of, service}
use waterproof_wrapper.Conductor.Service.Refines.{verb-Follows}
use waterproof_wrapper.System.Queues.{SameQueue}
use waterproof_wrapper.System.Sound.{verb-SameQueue}

front-returns :
    {W : Type 0} (first rest : (Flow × Conductor × List Effect) × W)
    → (after_front first rest).0.0 ≡ Flow.returns
    → (first.0.0 ≡ Flow.returns)
      × (rest.0.0 ≡ Flow.returns)
      × (rest.0.1 ≡ (after_front first rest).0.1)
unfolding after_front
front-returns ((Flow.returns, c, es), w) rest h = (refl, h, refl)
front-returns ((Flow.undefined, c, es), w) rest h = cc
front-returns ((Flow.aborts, c, es), w) rest h = cc
front-returns ((Flow.becomes_child, c, es), w) rest h = cc
front-returns ((Flow.waits, c, es), w) rest h = cc

-- What the requests come to that are handled: the service has followed each of them, in order, no
-- request is left, and nothing was handed to the server.
abbrev Drained : ℕ → List Request → Conductor → Conductor → Type 0
Drained fuel rs c d =
    Run (map (requested fuel) rs) (service c) (service d)
    × (d.in_queue ≡ [])
    × SameQueue c.server d.server

-- What a round comes to: the same, and the answers are now in the queue of the server.
abbrev pub RoundFollows : ℕ → Conductor → Conductor → Type 0
RoundFollows fuel c c' =
    (responses : List Response) × Run (map (requested fuel) c.in_queue) (service c)
      (record { queues = (service c').queues; answers = map answer_of responses })
    × (c'.server.response_queue ≡ upon responses c.server.response_queue)
    × (c'.in_queue ≡ [])
    × (c'.out_queue ≡ [])

handed-Follows :
    (fuel : ℕ) (c d : Conductor) (b : Bool)
    → Drained fuel c.in_queue c d
    → (hand_over b d).0 ≡ again
    → RoundFollows fuel c (hand_over b d).1
unfolding hand_over
handed-Follows fuel c d true (run, empty, same) h = cc
handed-Follows fuel c d false (run, empty, same) h =
    (d.out_queue, run, hand_out_lem d.out_queue d.server ∙ ap (upon d.out_queue) same, empty, refl)

requests-Follows :
    (fuel : ℕ) (c d : Conductor) (flow : Flow)
    → (flow ≡ Flow.returns → Drained fuel c.in_queue c d)
    → (after_requests flow d).0 ≡ again
    → RoundFollows fuel c (after_requests flow d).1
unfolding after_requests
requests-Follows fuel c d Flow.returns f h = handed-Follows fuel c d d.signal_received (f refl) h
requests-Follows fuel c d Flow.undefined f h = cc
requests-Follows fuel c d Flow.aborts f h = cc
requests-Follows fuel c d Flow.becomes_child f h = cc
requests-Follows fuel c d Flow.waits f h = cc

unless-Follows :
    {W : Type 0} (fuel : ℕ) (b : Bool) (c : Conductor) (w : W)
    (r : (Turn × Conductor × List Effect) × W)
    → (r.0.0 ≡ again → RoundFollows fuel c r.0.1)
    → (unless_failed b c w r).0.0 ≡ again
    → RoundFollows fuel c (unless_failed b c w r).0.1
unfolding unless_failed
unless-Follows fuel true c w r f h = cc
unless-Follows fuel false c w r f h = f h

module _ (a : Api) (j : Json) where
  drain-Drained :
      (fuel : ℕ) (rs : List Request) (c : Conductor) (w : a.World)
      → (drain a j fuel rs c w).0.0 ≡ Flow.returns
      → Drained fuel rs c (drain a j fuel rs c w).0.1
  unfolding drain handle_request
  drain-Drained fuel [] c w h = ((λ i. refl, refl), refl, refl)
  drain-Drained fuel (r ∷ rs) c w h =
      let d : Conductor = record c { in_queue = r ∷ rs } in
      let first = handle_request a j fuel r d w in
      let rest = drain a j fuel rs first.0.1 first.1 in
      let (e, g, same) = front-returns first rest h in
      let (run, empty, queue) = drain-Drained fuel rs first.0.1 first.1 g in
      subst (Drained fuel (r ∷ rs) c) same (
        (service first.0.1, verb-Follows a j fuel r.verb r d w e, run),
        empty,
        queue ∙ verb-SameQueue a j fuel r.verb r d w,
      )

  -- A round of `run` that is followed by another one has handled every queued request as the service
  -- allows, in order: the messages of the instances are those that the service has behind these requests,
  -- the answers that it has then are those of the responses that were put on the queue of the server, in
  -- order and upon those that were there, and no request and no response is left in the conductor.
  pub round-Follows :
      (fuel : ℕ) (c : Conductor) (w : a.World)
      → (round a j fuel c w).0.0 ≡ again
      → RoundFollows fuel c (round a j fuel c w).0.1
  unfolding round
  round-Follows fuel c w =
      let ran = drain a j fuel c.in_queue c w in
      unless-Follows fuel (has_failed c) c w _
        (requests-Follows fuel c ran.0.1 ran.0.0 (drain-Drained fuel c.in_queue c w))
