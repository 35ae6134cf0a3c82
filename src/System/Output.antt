-- ===== src/System/Output.antt =====
-- The output of sertop on its way: from the read loop of its worker over the conductor and the write
-- thread of the server to the client of the instance.
pub mod Order
use waterproof_wrapper.Base.{ℕ, zero, suc, List, [], ◌∷◌, Text, pos}
use waterproof_wrapper.Platform.{Api}
use waterproof_wrapper.Json.{Json}
use waterproof_wrapper.Message.{Response, Status, Verb}
use waterproof_wrapper.Server.State.{Server}
use waterproof_wrapper.Server.State as State
use waterproof_wrapper.Server.Loops.{Next}
use waterproof_wrapper.Server.Loops.Write.{write_round}
use waterproof_wrapper.Worker.Posix.{Effect, responded, failed}
use waterproof_wrapper.Conductor.{Conductor, Flow, handle_response, handle_worker_failure}
use waterproof_wrapper.Conductor.Round.{Turn, broken, round}

-- What follows a callback that returns.
unfoldable pub and_report : Flow × Conductor → (Flow × Conductor) → Flow × Conductor
and_report (Flow.returns, c) rest = rest
and_report (Flow.undefined, c) rest = (Flow.undefined, c)
and_report (Flow.aborts, c) rest = (Flow.aborts, c)
and_report (Flow.becomes_child, c) rest = (Flow.becomes_child, c)
and_report (Flow.waits, c) rest = (Flow.waits, c)

-- The callbacks that a worker executes, in order.
unfoldable pub report : List Effect → Conductor → Flow × Conductor
unfolding and_report
report [] c = (Flow.returns, c)
report (responded id text ∷ es) c = report es (handle_response id text c)
report (failed id error ∷ es) c =
    let o = handle_worker_failure id error c in and_report (o.0, o.1) (report es o.1)
report (Effect.notify ∷ es) c = report es c
report (Effect.opened e ∷ es) c = report es c
report (Effect.close n ∷ es) c = report es c
report (Effect.interrupted ∷ es) c = report es c
report (Effect.terminated n ∷ es) c = report es c

unfoldable pub next_round :
    {W : Type 0}
    → (Server → W → (Next × Server) × W)
    → (Next × Server × List State.Effect) × W
    → (Next × Server) × W
next_round rest ((Next.again, s, es), w) = rest s w
next_round rest ((Next.leave, s, es), w) = ((Next.leave, s), w)
next_round rest ((Next.undefined, s, es), w) = ((Next.undefined, s), w)
next_round rest ((Next.aborts, s, es), w) = ((Next.aborts, s), w)
next_round rest ((Next.spins, s, es), w) = ((Next.spins, s), w)

module _ (a : Api) (j : Json) where
  -- So many rounds of the write thread of the server.
  unfoldable pub write_rounds : ℕ → ℕ → Server → a.World → (Next × Server) × a.World
  unfolding next_round write_round
  write_rounds fuel zero s w = ((Next.again, s), w)
  write_rounds fuel (suc n) s w = next_round (write_rounds fuel n) (write_round a j fuel s w)

  -- A round of the conductor, and then so many rounds of the write thread, where the callbacks returned.
  unfoldable pub relay_on : ℕ → ℕ → Flow × Conductor → a.World → Turn × ((Next × Server) × a.World)
  unfolding write_rounds
  relay_on fuel rounds (Flow.returns, c) w =
      let ((turn, c', destroyed), w') = round a j fuel c w in
      (turn, write_rounds fuel rounds c'.server w')
  relay_on fuel rounds (Flow.undefined, c) w = (broken Flow.undefined, ((Next.again, c.server), w))
  relay_on fuel rounds (Flow.aborts, c) w = (broken Flow.aborts, ((Next.again, c.server), w))
  relay_on fuel rounds (Flow.becomes_child, c) w =
      (broken Flow.becomes_child, ((Next.again, c.server), w))
  relay_on fuel rounds (Flow.waits, c) w = (broken Flow.waits, ((Next.again, c.server), w))

  -- The callbacks of a worker, a round of the conductor, and then so many rounds of the write thread.
  unfoldable pub relay :
      ℕ → ℕ → List Effect → Conductor → a.World → Turn × ((Next × Server) × a.World)
  unfolding report relay_on
  relay fuel rounds effects c w = relay_on fuel rounds (report effects c) w

-- The answers of a conductor with this next id to these messages of a worker.
abbrev pub answers : ℕ → ℕ → List Text → List Response
answers n id [] = []
answers n id (text ∷ texts) =
    record {
      id = n;
      priority = pos 0;
      status = Status.success;
      verb = Verb.forward;
      instance_id = id;
      content = text;
    }
    ∷ answers (suc n) id texts
