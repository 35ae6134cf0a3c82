-- ===== src/System/Issued/Moves.antt =====
-- The ids of the instances over any moves of the system.
use waterproof_wrapper.Base.{
  Holds, ℕ, arith, Bool, true, false, List, [], ◌∷◌, ◌++◌, Option, none, some,
}
use waterproof_wrapper.Base.Maps.{find}
use waterproof_wrapper.Platform.{Api}
use waterproof_wrapper.Json.{Json}
use waterproof_wrapper.Server.Queue.{pop}
use waterproof_wrapper.Server.Loops.Accept.{accept_round}
use waterproof_wrapper.Server.Loops.Read.{read_round}
use waterproof_wrapper.Server.Loops.Write.{write_round}
use waterproof_wrapper.Server.Loops.Grants.Threads.{
  accept_round-Grants, read_round-Grants, write_round-Leaves,
}
use waterproof_wrapper.Conductor
use waterproof_wrapper.Conductor.{
  Conductor, Flow, on_request, on_failure, on_invalidate, erase_worker, handle_response,
  handle_worker_failure, respond, create_empty_response, notify, has_failed,
}
use waterproof_wrapper.Conductor.Issued.{Issued, Kept}
use waterproof_wrapper.Conductor.Issued.Steps.{drain-Issued}
use waterproof_wrapper.Conductor.Round.{Turn, after_requests, unless_failed, drain, round}
use waterproof_wrapper.System.{
  System, Move, accepts, reads, writes, runs, responds, fails, notified, after_turn, taken,
  and_then, move, play, begun,
}
use waterproof_wrapper.System.Sound.{if_returns-Holds}
use waterproof_wrapper.System.Queues.{accept_round-SameQueue, read_round-SameQueue}
use waterproof_wrapper.Conductor.Issued.Steps.{Drained}
use waterproof_wrapper.System.Issued.{
  granted-Coming, kept_queue, thread-Issued, Turned, hand_over-Issued, HasIds, ReportsGranted,
  IsIssued, resume-IsIssued, response-Issued, failure-Issued,
}

module _ (a : Api) (j : Json) where
  requests-Issued :
      (o : Flow × Conductor × List Conductor.Effect)
      → Kept (Drained a j) o
      → Turned (after_requests o.0 o.1)
  unfolding after_requests after_turn
  requests-Issued (Flow.returns, c, es) h = hand_over-Issued c.signal_received c h.1 h.0
  requests-Issued (Flow.undefined, c, es) h = tt
  requests-Issued (Flow.aborts, c, es) h = tt
  requests-Issued (Flow.becomes_child, c, es) h = tt
  requests-Issued (Flow.waits, c, es) h = tt

  unless-Issued :
      (b : Bool) (c : Conductor) (w : a.World)
      (r : (Turn × Conductor × List Conductor.Effect) × a.World)
      → Issued c
      → Turned (r.0.0, r.0.1)
      → let o = unless_failed b c w r in Turned (o.0.0, o.0.1)
  unfolding unless_failed after_turn
  unless-Issued true c w r h g = h
  unless-Issued false c w r h g = g

  round-Issued :
      (fuel : ℕ) (c : Conductor) (w : a.World)
      → Issued c
      → let o = round a j fuel c w in Turned (o.0.0, o.0.1)
  unfolding round
  round-Issued fuel c w h =
      let ran = drain a j fuel c.in_queue c w in
      unless-Issued (has_failed c) c w _ h
        (requests-Issued ran.0 (drain-Issued a j fuel c.in_queue c w h))

  -- The 32 bits of the ids suffice, and the workers report for granted ids, in these moves.
  abbrev pub Fair : List Move → System a → Type 0
  Fair [] s = Unit
  Fair (m ∷ ms) s = HasIds s × ReportsGranted m s × Holds (Fair ms) (move a j m s)

  move-IsIssued :
      (m : Move) (s : System a)
      → HasIds s
      → ReportsGranted m s
      → IsIssued s
      → Holds IsIssued (move a j m s)
  unfolding move notify
  move-IsIssued (accepts event) s small fair h =
      let server = s.conductor.server in
      let o = accept_round a.format_code event server in
      let g = accept_round-Grants a.format_code event server h.3 in
      resume-IsIssued a s.watched s.world s.sent _ (
        thread-Issued a o.0 o.1 o.2 s.conductor (
          granted-Coming o.1 o.2 s.conductor h g (
            kept_queue o.1 o.2 s.conductor h g
              (accept_round-SameQueue a.format_code event server))))
  move-IsIssued (reads fuel event) s small fair h =
      let server = s.conductor.server in
      let o = read_round a j fuel event s.watched server s.world in
      let g = read_round-Grants a j fuel event s.watched server s.world small h.3 in
      resume-IsIssued a o.0.1 o.1 s.sent _ (
        thread-Issued a o.0.0 o.0.2 o.0.3 s.conductor (
          granted-Coming o.0.2 o.0.3 s.conductor h g (
            kept_queue o.0.2 o.0.3 s.conductor h g
              (read_round-SameQueue a j fuel event s.watched server s.world))))
  move-IsIssued (writes fuel) s small fair h =
      let server = s.conductor.server in
      let o = write_round a j fuel server s.world in
      let g = write_round-Leaves a j fuel server s.world h.3 h.2 in
      resume-IsIssued a s.watched o.1 (taken server.running (pop server.response_queue) ++ s.sent) _
        (thread-Issued a o.0.0 o.0.1 o.0.2 s.conductor
          (granted-Coming o.0.1 o.0.2 s.conductor h g.0 g.1))
  move-IsIssued (runs fuel) s small fair h =
      let o = round a j fuel s.conductor s.world in
      resume-IsIssued a s.watched o.1 s.sent (after_turn o.0.0 o.0.1)
        (round-Issued fuel s.conductor s.world h)
  move-IsIssued (responds id text) s small fair h = response-Issued id text s.conductor fair h
  move-IsIssued (fails id error) s small fair h =
      let o = handle_worker_failure id error s.conductor in
      resume-IsIssued a s.watched s.world s.sent _
        (if_returns-Holds Issued o.0 (some o.1) (failure-Issued id error s.conductor fair h))
  move-IsIssued notified s small fair h = h

  then-IsIssued :
      (ms : List Move) (o : Option (System a))
      → ((s : System a) → Fair ms s → IsIssued s → Holds IsIssued (play a j ms s))
      → Holds (Fair ms) o
      → Holds IsIssued o
      → Holds IsIssued (and_then o (play a j ms))
  unfolding and_then
  then-IsIssued ms none g p h = tt
  then-IsIssued ms (some s) g p h = g s p h

  play-IsIssued :
      (ms : List Move) (s : System a) → Fair ms s → IsIssued s → Holds IsIssued (play a j ms s)
  unfolding play
  play-IsIssued [] s f h = h
  play-IsIssued (m ∷ ms) s f h =
      then-IsIssued ms (move a j m s) (play-IsIssued ms) f.2 (move-IsIssued m s f.0 f.1 h)

  -- After any moves of a system that has just been started, in any order, whatever the platform and the
  -- clients do in them: if the system goes on, then each id is that of one waiting create request or of
  -- one entry of the workers at most, so a create request that waits makes a worker that is not there;
  -- and the ids of these, of the instances that the waiting responses are for, and of the mappings to
  -- clients were handed out by the server, so that none of them is the id of the next create request.
  -- The 32 bits of the ids are taken to suffice, and the workers to report only for ids handed out.
  pub play_begun-IsIssued :
      (listen_socket interrupt_read interrupt_write : ℕ) (w : a.World) (ms : List Move)
      → Fair ms (begun a listen_socket interrupt_read interrupt_write w)
      → Holds IsIssued (play a j ms (begun a listen_socket interrupt_read interrupt_write w))
  unfolding find
  play_begun-IsIssued listen_socket interrupt_read interrupt_write w ms f =
      play-IsIssued ms (begun a listen_socket interrupt_read interrupt_write w) f
        (λ i. omega arith, tt, tt, tt)
