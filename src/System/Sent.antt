-- ===== src/System/Sent.antt =====
-- What a round of the write thread does to the queue of responses.
use waterproof_wrapper.Base.{
  ℕ, ◌+◌, ◌≡◌, refl, ap, arith, Bool, true, false, List, [], ◌∷◌, Bool-cases, inl, inr,
}
use waterproof_wrapper.Base.Maps.{subscript}
use waterproof_wrapper.Utils.Exceptions.{api_error, parse_error, json_error}
use waterproof_wrapper.Platform.{Api}
use waterproof_wrapper.Json.{Json}
use waterproof_wrapper.Message.{Response, response_lt}
use waterproof_wrapper.Message.Copies.{copies}
use waterproof_wrapper.Server.Queue.{greatest, pop}
use waterproof_wrapper.Server.Frame.{Outcome, done, closed, threw, stuck, write}
use waterproof_wrapper.Server.State.{Server}
use waterproof_wrapper.Server.Loops.Write.{after_write, send_top, write_if, write_round}
use waterproof_wrapper.System.{taken}
use waterproof_wrapper.System.Queues.{SameQueue, invalidate-SameQueue}

greatest-copies :
    (i : ℕ) (best : Response) (rs : List Response)
    → copies i ((greatest best rs).0 ∷ (greatest best rs).1) ≡ copies i (best ∷ rs)
unfolding greatest
greatest-copies i best [] = refl
greatest-copies i best (r ∷ rs) = elim (Bool-cases (response_lt best r)) [
  | inl e ↦ rw e (omega (arith, greatest-copies i r rs))
  | inr e ↦ rw e (omega (arith, greatest-copies i best rs))
]

module _ (a : Api) (j : Json) where
  after_write-SameQueue :
      (client : ℕ) (s : Server) (o : Outcome (Unit {0})) → SameQueue s (after_write client s o).1
  unfolding after_write
  after_write-SameQueue client s (done u) = refl
  after_write-SameQueue client s closed = refl
  after_write-SameQueue client s (threw (api_error e)) = invalidate-SameQueue client s
  after_write-SameQueue client s (threw parse_error) = refl
  after_write-SameQueue client s (threw json_error) = refl
  after_write-SameQueue client s stuck = refl

  top-copies :
      (i fuel : ℕ) (q : List Response) (s : Server) (w : a.World)
      → s.response_queue ≡ q
      → copies i (taken true (pop q)) + copies i (send_top a j fuel (pop q) s w).0.1.response_queue
        ≡ copies i q
  unfolding pop send_top taken
  top-copies i fuel [] s w e = omega (arith, ap (copies i) e)
  top-copies i fuel (r ∷ rs) s w e =
      let top = (greatest r rs).0 in
      let found = subscript top.instance_id 0 s.client_map in
      let left : Server = record s { response_queue = (greatest r rs).1; client_map = found.1 } in
      omega (
        arith,
        ap (copies i) (after_write-SameQueue found.0 left (write a j fuel found.0 top w).0),
        greatest-copies i r rs,
      )

  if-copies :
      (i fuel : ℕ) (b : Bool) (s : Server) (w : a.World)
      → copies i (taken b (pop s.response_queue))
          + copies i (write_if a j b fuel s w).0.1.response_queue
        ≡ copies i s.response_queue
  unfolding write_if
  if-copies i fuel true s w = top-copies i fuel s.response_queue s w refl
  if-copies i fuel false s w = unfold taken in omega arith

  -- What is taken and what is left are what was there.
  pub write_round-copies :
      (i fuel : ℕ) (s : Server) (w : a.World)
      → copies i (taken s.running (pop s.response_queue))
          + copies i (write_round a j fuel s w).0.1.response_queue
        ≡ copies i s.response_queue
  unfolding write_round
  write_round-copies i fuel s w = if-copies i fuel s.running s w
