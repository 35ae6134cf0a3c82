-- ===== src/Conductor/Round/Laws.antt =====
-- What a round of `conductor::run` leaves in the queues.
use waterproof_wrapper.Base.{
  ℕ, ◌+◌, ◌^◌, ◌<◌, ◌≡◌, refl, arith, Bool, true, false, List, [], ◌∷◌, length,
}
use waterproof_wrapper.Platform.{Api}
use waterproof_wrapper.Json.{Json}
use waterproof_wrapper.Message.{Request, Response}
use waterproof_wrapper.Server.Queue.{push}
use waterproof_wrapper.Server.State.{Server}
use waterproof_wrapper.Server.State as State
use waterproof_wrapper.Conductor.{Conductor, Flow, Effect, has_failed, handle_request}
use waterproof_wrapper.Conductor.Responses.{Numbered, handle_request-TakesOne}
use waterproof_wrapper.Conductor.Round.{
  Turn, again, hand_out, hand_over, after_requests, after_front, unless_failed, drain, round,
}

pub after_front_either {ℓ κ} :
    {W : Type ℓ} (P : Conductor → Type κ) (first rest : (Flow × Conductor × List Effect) × W)
    → P first.0.1
    → P rest.0.1
    → P (after_front first rest).0.1
unfolding after_front
after_front_either P ((Flow.returns, c, es), w) rest p q = q
after_front_either P ((Flow.undefined, c, es), w) rest p q = p
after_front_either P ((Flow.aborts, c, es), w) rest p q = p
after_front_either P ((Flow.becomes_child, c, es), w) rest p q = p
after_front_either P ((Flow.waits, c, es), w) rest p q = p

after_front-returns {ℓ} :
    {W : Type ℓ} (first rest : (Flow × Conductor × List Effect) × W)
    → (rest.0.0 ≡ Flow.returns → rest.0.1.in_queue ≡ [])
    → (after_front first rest).0.0 ≡ Flow.returns
    → (after_front first rest).0.1.in_queue ≡ []
unfolding after_front
after_front-returns ((Flow.returns, c, es), w) rest q h = q h
after_front-returns ((Flow.undefined, c, es), w) rest q h = cc
after_front-returns ((Flow.aborts, c, es), w) rest q h = cc
after_front-returns ((Flow.becomes_child, c, es), w) rest q h = cc
after_front-returns ((Flow.waits, c, es), w) rest q h = cc

-- The responses that were handed out, the last one in front, before those that were queued.
abbrev pub upon : List Response → List Response → List Response
upon [] q = q
upon (r ∷ rs) q = upon rs (r ∷ q)

pub hand_out_lem :
    (rs : List Response) (s : Server) → (hand_out rs s).response_queue ≡ upon rs s.response_queue
unfolding hand_out State.enqueue push
hand_out_lem [] s = refl
hand_out_lem (r ∷ rs) s = hand_out_lem rs (State.enqueue r s).0

-- A conductor whose round has done all its work.
abbrev pub IsIdle : Conductor → Conductor → Type 0
IsIdle c c' =
    (c'.in_queue ≡ [])
    × (c'.out_queue ≡ [])
    × (c'.signal_received ≡ false)
    × (c'.server.response_queue ≡ upon c.out_queue c.server.response_queue)

hand_over-IsIdle :
    (b : Bool) (c : Conductor)
    → c.signal_received ≡ b
    → c.in_queue ≡ []
    → (hand_over b c).0 ≡ again
    → IsIdle c (hand_over b c).1
unfolding hand_over
hand_over-IsIdle true c e q h = cc
hand_over-IsIdle false c e q h = (q, refl, e, hand_out_lem c.out_queue c.server)

pub hand_over-Numbered :
    (b : Bool) (c : Conductor)
    → Numbered c.next_id c.out_queue
    → Numbered (hand_over b c).1.next_id (hand_over b c).1.out_queue
unfolding hand_over
hand_over-Numbered true c n = n
hand_over-Numbered false c n = (tt, tt)

after_requests-IsIdle :
    (flow : Flow) (c : Conductor)
    → (flow ≡ Flow.returns → c.in_queue ≡ [])
    → (after_requests flow c).0 ≡ again
    → IsIdle c (after_requests flow c).1
unfolding after_requests
after_requests-IsIdle Flow.returns c q h = hand_over-IsIdle c.signal_received c refl (q refl) h
after_requests-IsIdle Flow.undefined c q h = cc
after_requests-IsIdle Flow.aborts c q h = cc
after_requests-IsIdle Flow.becomes_child c q h = cc
after_requests-IsIdle Flow.waits c q h = cc

after_requests-Numbered :
    (flow : Flow) (c : Conductor)
    → Numbered c.next_id c.out_queue
    → Numbered (after_requests flow c).1.next_id (after_requests flow c).1.out_queue
unfolding after_requests
after_requests-Numbered Flow.returns c n = hand_over-Numbered c.signal_received c n
after_requests-Numbered Flow.undefined c n = n
after_requests-Numbered Flow.aborts c n = n
after_requests-Numbered Flow.becomes_child c n = n
after_requests-Numbered Flow.waits c n = n

unless_failed-IsIdle {ℓ} :
    {W : Type ℓ} (b : Bool) (c d : Conductor) (w : W) (r : (Turn × Conductor × List Effect) × W)
    → (r.0.0 ≡ again → IsIdle d r.0.1)
    → (unless_failed b c w r).0.0 ≡ again
    → IsIdle d (unless_failed b c w r).0.1
unfolding unless_failed
unless_failed-IsIdle true c d w r f h = cc
unless_failed-IsIdle false c d w r f h = f h

unless_failed-Numbered {ℓ} :
    {W : Type ℓ} (b : Bool) (c : Conductor) (w : W) (r : (Turn × Conductor × List Effect) × W)
    → Numbered c.next_id c.out_queue
    → Numbered r.0.1.next_id r.0.1.out_queue
    → Numbered (unless_failed b c w r).0.1.next_id (unless_failed b c w r).0.1.out_queue
unfolding unless_failed
unless_failed-Numbered true c w r n m = n
unless_failed-Numbered false c w r n m = m

module _ (a : Api) (j : Json) where
  drain_empties :
      (fuel : ℕ) (rs : List Request) (c : Conductor) (w : a.World)
      → (drain a j fuel rs c w).0.0 ≡ Flow.returns
      → (drain a j fuel rs c w).0.1.in_queue ≡ []
  unfolding drain
  drain_empties fuel [] c w h = refl
  drain_empties fuel (r ∷ rs) c w h =
      let first = handle_request a j fuel r (record c { in_queue = r ∷ rs }) w in
      after_front-returns first _ (drain_empties fuel rs first.0.1 first.1) h

  drain-Numbered :
      (fuel : ℕ) (rs : List Request) (c : Conductor) (w : a.World)
      → c.next_id + length rs < 2 ^ 64
      → Numbered c.next_id c.out_queue
      → Numbered (drain a j fuel rs c w).0.1.next_id (drain a j fuel rs c w).0.1.out_queue
  unfolding drain
  drain-Numbered fuel [] c w small h = h
  drain-Numbered fuel (r ∷ rs) c w small h =
      let first = handle_request a j fuel r (record c { in_queue = r ∷ rs }) w in
      let step =
        handle_request-TakesOne a j fuel r (record c { in_queue = r ∷ rs }) w (omega (arith, small))
          h in
      after_front_either (λ d. Numbered d.next_id d.out_queue) first
        (drain a j fuel rs first.0.1 first.1) step.0
        (drain-Numbered fuel rs first.0.1 first.1 (omega (arith, small, step.1)) step.0)

  -- A round that is followed by another one has handled every queued request: no request and no
  -- response is left in the queues of the conductor, no signal came, and all the responses that were
  -- queued when the requests had been handled stand in the queue of the server, with those that were there.
  pub round_again :
      (fuel : ℕ) (c : Conductor) (w : a.World)
      → (round a j fuel c w).0.0 ≡ again
      → IsIdle (drain a j fuel c.in_queue c w).0.1 (round a j fuel c w).0.1
  unfolding round
  round_again fuel c w =
      let ran = drain a j fuel c.in_queue c w in
      unless_failed-IsIdle (has_failed c) c ran.0.1 w _
        (after_requests-IsIdle ran.0.0 ran.0.1 (drain_empties fuel c.in_queue c w))

  -- While the ids do not run out, a round keeps the ids of the queued responses increasing and below
  -- the next id, however it ends.
  pub round-Numbered :
      (fuel : ℕ) (c : Conductor) (w : a.World)
      → c.next_id + length c.in_queue < 2 ^ 64
      → Numbered c.next_id c.out_queue
      → Numbered (round a j fuel c w).0.1.next_id (round a j fuel c w).0.1.out_queue
  unfolding round
  round-Numbered fuel c w small h =
      let ran = drain a j fuel c.in_queue c w in
      unless_failed-Numbered (has_failed c) c w _ h
        (after_requests-Numbered ran.0.0 ran.0.1 (drain-Numbered fuel c.in_queue c w small h))
