-- ===== src/System/Unique.antt =====
-- The ids of the responses over any moves of the system.
use waterproof_wrapper.Base.{
  Holds, ℕ, ◌+◌, ◌^◌, ◌<◌, arith, List, [], ◌∷◌, ◌++◌, Option, none, some, length,
}
use waterproof_wrapper.Platform.{Api}
use waterproof_wrapper.Json.{Json}
use waterproof_wrapper.Message.{Response}
use waterproof_wrapper.Message.Copies.{copies-append}
use waterproof_wrapper.Server.Queue.{pop}
use waterproof_wrapper.Server.Loops.Accept.{accept_round}
use waterproof_wrapper.Server.Loops.Read.{read_round}
use waterproof_wrapper.Server.Loops.Write.{write_round}
use waterproof_wrapper.Conductor.{Conductor, handle_worker_failure, notify}
use waterproof_wrapper.Conductor.Round.{Turn, again, stops, broken, round}
use waterproof_wrapper.System.{
  System, Move, accepts, reads, writes, runs, responds, fails, notified, after_turn, taken, resume,
  and_then, move, play, begun,
}
use waterproof_wrapper.System.Queues.{accept_round-SameQueue, read_round-SameQueue}
use waterproof_wrapper.System.Sent.{write_round-copies}
use waterproof_wrapper.System.Sound.{
  Sound, stay, if_returns-Holds, thread-Sound, round-Sound, response-Sound, failure-Sound,
}

-- The ids of the conductor's responses are increasing and below the next one; and each id stands at most
-- once among the responses in the queues of the conductor and the server and those that the write
-- thread has taken, and not at all unless it is below the next one.
abbrev pub IsSound : {a : Api} → System a → Type 0
IsSound s = Sound s.sent s.conductor

resume-IsSound :
    (a : Api) (watched : List (Option ℕ)) (w : a.World) (sent : List Response)
    (o : Option Conductor)
    → Holds (Sound sent) o
    → Holds IsSound (resume {a = a} watched w sent o)
unfolding resume
resume-IsSound a watched w sent none h = tt
resume-IsSound a watched w sent (some c) h = h

turn-Sound :
    (sent : List Response) (t : Turn) (c : Conductor)
    → Sound sent c
    → Holds (Sound sent) (after_turn t c)
unfolding after_turn
turn-Sound sent again c h = h
turn-Sound sent stops c h = h
turn-Sound sent (broken flow) c h = tt

module _ (a : Api) (j : Json) where
  -- The ids do not run out in the next move, or in the moves that follow.
  abbrev pub HasIds : System a → Type 0
  HasIds s = s.conductor.next_id + length s.conductor.in_queue + 1 < 2 ^ 64

  abbrev pub Lasts : List Move → System a → Type 0
  Lasts [] s = Unit
  Lasts (m ∷ ms) s = HasIds s × Holds (Lasts ms) (move a j m s)

  move-IsSound : (m : Move) (s : System a) → HasIds s → IsSound s → Holds IsSound (move a j m s)
  unfolding move notify
  move-IsSound (accepts event) s small h =
      let o = accept_round a.format_code event s.conductor.server in
      resume-IsSound a s.watched s.world s.sent _ (
        thread-Sound a s.sent o.0 o.1 o.2 s.conductor (
          stay s.sent s.conductor o.1
            (accept_round-SameQueue a.format_code event s.conductor.server) h))
  move-IsSound (reads fuel event) s small h =
      let o = read_round a j fuel event s.watched s.conductor.server s.world in
      resume-IsSound a o.0.1 o.1 s.sent _ (
        thread-Sound a s.sent o.0.0 o.0.2 o.0.3 s.conductor (
          stay s.sent s.conductor o.0.2
            (read_round-SameQueue a j fuel event s.watched s.conductor.server s.world) h))
  move-IsSound (writes fuel) s small h =
      let server = s.conductor.server in
      let o = write_round a j fuel server s.world in
      let front = taken server.running (pop server.response_queue) in
      resume-IsSound a s.watched o.1 (front ++ s.sent) _ (
        thread-Sound a (front ++ s.sent) o.0.0 o.0.1 o.0.2 s.conductor (
          h.0,
          λ i. omega (
            arith,
            h.1 i,
            copies-append i front s.sent,
            write_round-copies a j i fuel server s.world,
          ),
        ))
  move-IsSound (runs fuel) s small h =
      let o = round a j fuel s.conductor s.world in
      resume-IsSound a s.watched o.1 s.sent _ (
        turn-Sound s.sent o.0.0 o.0.1
          (round-Sound a j s.sent fuel s.conductor s.world (omega (arith, small)) h))
  move-IsSound (responds id text) s small h =
      response-Sound a s.sent id text s.conductor (omega (arith, small)) h
  move-IsSound (fails id error) s small h =
      let o = handle_worker_failure id error s.conductor in
      resume-IsSound a s.watched s.world s.sent _ (
        if_returns-Holds (Sound s.sent) o.0 (some o.1)
          (failure-Sound a s.sent id error s.conductor (omega (arith, small)) h))
  move-IsSound notified s small h = h

  then-IsSound :
      (f : System a → Option (System a)) (P : System a → Type 0) (o : Option (System a))
      → ((s : System a) → P s → IsSound s → Holds IsSound (f s))
      → Holds P o
      → Holds IsSound o
      → Holds IsSound (and_then o f)
  unfolding and_then
  then-IsSound f P none g p h = tt
  then-IsSound f P (some s) g p h = g s p h

  play-IsSound :
      (ms : List Move) (s : System a) → Lasts ms s → IsSound s → Holds IsSound (play a j ms s)
  unfolding play
  play-IsSound [] s l h = h
  play-IsSound (m ∷ ms) s l h =
      then-IsSound (play a j ms) (Lasts ms) (move a j m s) (play-IsSound ms) l.1
        (move-IsSound m s l.0 h)

  -- After any moves of a system that has just been started, in any order, whatever the platform, the
  -- clients and the workers do in them: if the system goes on, then the ids of the responses that wait
  -- in the conductor are increasing, and each id stands at most once among those responses, the ones in
  -- the queue of the server and the ones that the write thread has taken, and it is below the next id.
  -- The 64 bits of the ids are taken to suffice for the requests and the reports of the workers.
  pub play_begun-IsSound :
      (listen_socket interrupt_read interrupt_write : ℕ) (w : a.World) (ms : List Move)
      → Lasts ms (begun a listen_socket interrupt_read interrupt_write w)
      → Holds IsSound (play a j ms (begun a listen_socket interrupt_read interrupt_write w))
  play_begun-IsSound listen_socket interrupt_read interrupt_write w ms l =
      play-IsSound ms (begun a listen_socket interrupt_read interrupt_write w) l
        ((tt, tt), λ i. omega arith)
