-- ===== src/System/Issued.antt =====
-- The ids of the instances over a step of the system.
pub mod Moves
use waterproof_wrapper.Base.{
  Holds, ℕ, ◌+◌, ◌^◌, ◌<◌, ◌≤◌, ◌≡◌, sym, ap, subst, arith, Bool, true, false, List, [], ◌∷◌, ◌++◌,
  Option, none, some, Text, length, All, All-append,
}
use waterproof_wrapper.Utils.Exceptions.{ApiError}
use waterproof_wrapper.Platform.{Api}
use waterproof_wrapper.Worker.Posix.{Worker}
use waterproof_wrapper.Base.Maps.{find}
use waterproof_wrapper.Json.{Json}
use waterproof_wrapper.Message.{Request, Response, Status, Verb}
use waterproof_wrapper.Message.Copies.{below}
use waterproof_wrapper.Server.Queue.{pop}
use waterproof_wrapper.Server.State.{Server, Effect, requested, failed, invalidated}
use waterproof_wrapper.Server.Loops.{Next}
use waterproof_wrapper.Server.Loops.Accept.{accept_round}
use waterproof_wrapper.Server.Loops.Read.{read_round}
use waterproof_wrapper.Server.Loops.Write.{write_round}
use waterproof_wrapper.Server.Loops.Ids.{IsFresh}
use waterproof_wrapper.Server.Loops.Grants.{creates, granted, Grants, Grants-rises}
use waterproof_wrapper.Server.Loops.Grants.Threads.{
  AllBelow, accept_round-Grants, read_round-Grants, write_round-Leaves,
}
use waterproof_wrapper.Conductor
use waterproof_wrapper.Conductor.{
  Conductor, Flow, on_request, on_failure, on_invalidate, erase_worker, handle_response,
  fail_worker, handle_worker_failure, respond, create_empty_response, notify, has_failed,
}
use waterproof_wrapper.Conductor.Issued.{IssuedWith, Issued, Kept, has, has-erase}
use waterproof_wrapper.Conductor.Issued.Steps.{drain-Issued}
use waterproof_wrapper.Conductor.Round.{
  Turn, again, hand_out, hand_over, after_requests, unless_failed, drain, round,
}
use waterproof_wrapper.Conductor.Round.Laws.{upon}
use waterproof_wrapper.System.{
  System, Move, accepts, reads, writes, runs, responds, fails, notified, after_thread, after_turn,
  deliver, taken, resume, and_then, move, play, begun,
}
use waterproof_wrapper.System.Sound.{if_returns-Holds}
use waterproof_wrapper.System.Queues.{SameQueue, accept_round-SameQueue, read_round-SameQueue}
use waterproof_wrapper.System.Output.Order.{hand_out-upon}

creates-append : (i : ℕ) (rs qs : List Request) → creates i (rs ++ qs) ≡ creates i rs + creates i qs
creates-append i [] qs = omega arith
creates-append i (r ∷ rs) qs = omega (arith, creates-append i rs qs)

AllBelow-later : (n m : ℕ) (rs : List Response) → n ≤ m → AllBelow n rs → AllBelow m rs
AllBelow-later n m [] h a = tt
AllBelow-later n m (r ∷ rs) h a = (omega (arith, a.0), AllBelow-later n m rs h a.1)

-- What the callbacks of the server find: the requests among the effects are under way, too.
abbrev Coming : List Effect → Conductor → Type 0
Coming es c =
    ((i : ℕ) → creates i c.in_queue + granted i es + has i c.workers ≤ below i c.server.next_id)
    × AllBelow c.server.next_id c.out_queue
    × AllBelow c.server.next_id c.server.response_queue
    × IsFresh c.server

deliver-Issued :
    (a : Api) (es : List Effect) (c : Conductor) → Coming es c → Holds Issued (deliver a es c)
unfolding deliver on_request on_failure on_invalidate erase_worker
deliver-Issued a [] c h = (λ i. omega (arith, h.0 i), h.1, h.2, h.3)
deliver-Issued a (requested r ∷ es) c h =
    deliver-Issued a es (on_request r c)
      (λ i. omega (arith, h.0 i, creates-append i c.in_queue (r ∷ [])), h.1, h.2, h.3)
deliver-Issued a (failed e ∷ es) c h = deliver-Issued a es (on_failure c) h
deliver-Issued a (invalidated (some id) ∷ es) c h =
    if_returns-Holds Issued (on_invalidate a id c).0 _ (
      deliver-Issued a es (on_invalidate a id c).1
        (λ i. omega (arith, h.0 i, has-erase i id c.workers), h.1, h.2, h.3))
deliver-Issued a (invalidated none ∷ es) c h = tt
deliver-Issued a (Effect.notify ∷ es) c h = deliver-Issued a es c h
deliver-Issued a (Effect.woke ∷ es) c h = deliver-Issued a es c h
deliver-Issued a (Effect.close n ∷ es) c h = deliver-Issued a es c h

pub granted-Coming :
    (s : Server) (es : List Effect) (c : Conductor)
    → Issued c
    → Grants c.server s es
    → AllBelow s.next_id s.response_queue
    → Coming es (record c { server = s })
granted-Coming s es c h g q = (
  λ i. omega (arith, h.0 i, g.1 i),
  AllBelow-later c.server.next_id s.next_id c.out_queue (Grants-rises c.server s es g) h.1,
  q,
  g.0,
)

pub kept_queue :
    (s : Server) (es : List Effect) (c : Conductor)
    → Issued c
    → Grants c.server s es
    → SameQueue c.server s
    → AllBelow s.next_id s.response_queue
kept_queue s es c h g q = subst (AllBelow s.next_id) (sym q) (
    AllBelow-later c.server.next_id s.next_id c.server.response_queue (Grants-rises c.server s es g)
      h.2)

pub thread-Issued :
    (a : Api) (next : Next) (s : Server) (es : List Effect) (c : Conductor)
    → Coming es (record c { server = s })
    → Holds Issued (after_thread a next s es c)
unfolding after_thread
thread-Issued a Next.again s es c h = deliver-Issued a es (record c { server = s }) h
thread-Issued a Next.leave s es c h = deliver-Issued a es (record c { server = s }) h
thread-Issued a Next.undefined s es c h = tt
thread-Issued a Next.aborts s es c h = tt
thread-Issued a Next.spins s es c h = tt

upon-AllBelow :
    (n : ℕ) (rs q : List Response) → AllBelow n rs → AllBelow n q → AllBelow n (upon rs q)
upon-AllBelow n [] q h g = g
upon-AllBelow n (r ∷ rs) q h g = upon-AllBelow n rs (r ∷ q) h.1 (h.0, g)

-- A round of the conductor.
abbrev pub Turned : Turn × Conductor → Type 0
Turned (turn, c) = Holds Issued (after_turn turn c)

pub hand_over-Issued :
    (b : Bool) (c : Conductor) → c.in_queue ≡ [] → IssuedWith [] c → Turned (hand_over b c)
unfolding hand_over after_turn
hand_over-Issued true c e h = subst (λ rs. IssuedWith rs c) (sym e) h
hand_over-Issued false c e h =
    subst (λ s. Issued (record c { server = s; out_queue = [] }))
      (sym (hand_out-upon c.out_queue c.server))
      (subst
        (λ rs. IssuedWith rs (record c {
          server = record c.server { response_queue = upon c.out_queue c.server.response_queue };
          out_queue = [];
        }))
        (sym e)
        (h.0, tt, upon-AllBelow c.server.next_id c.out_queue c.server.response_queue h.1 h.2, h.3))

abbrev pub HasIds : {a : Api} → System a → Type 0
HasIds s = s.conductor.server.next_id + length s.watched < 2 ^ 32

-- A worker reports for an instance whose id was granted.
abbrev pub ReportsGranted : {a : Api} → Move → System a → Type 0
ReportsGranted (responds id text) s = id < s.conductor.server.next_id
ReportsGranted (fails id error) s = id < s.conductor.server.next_id
ReportsGranted (accepts event) s = Unit
ReportsGranted (reads fuel event) s = Unit
ReportsGranted (writes fuel) s = Unit
ReportsGranted (runs fuel) s = Unit
ReportsGranted notified s = Unit

abbrev pub IsIssued : {a : Api} → System a → Type 0
IsIssued s = Issued s.conductor

pub resume-IsIssued :
    (a : Api) (watched : List (Option ℕ)) (w : a.World) (sent : List Response)
    (o : Option Conductor)
    → Holds Issued o
    → Holds IsIssued (resume {a = a} watched w sent o)
unfolding resume
resume-IsIssued a watched w sent none h = tt
resume-IsIssued a watched w sent (some c) h = h

pub response-Issued :
    (id : ℕ) (text : Text) (c : Conductor)
    → id < c.server.next_id
    → Issued c
    → Issued (handle_response id text c)
unfolding handle_response respond create_empty_response
response-Issued id text c small h = (
  h.0,
  All-append (λ (r : Response). r.instance_id < c.server.next_id) c.out_queue _ h.1 (small, tt),
  h.2,
  h.3,
)

failed-Issued :
    (o : Option (Option Worker)) (id : ℕ) (e : ApiError) (c : Conductor)
    → id < c.server.next_id
    → Issued c
    → Issued (fail_worker o id e c).1
unfolding fail_worker respond create_empty_response
failed-Issued none id e c small h = (
  λ i. omega (arith, h.0 i, has-erase i id c.workers),
  All-append (λ (r : Response). r.instance_id < c.server.next_id) c.out_queue _ h.1 (small, tt),
  h.2,
  h.3,
)
failed-Issued (some none) id e c small h = (
  λ i. omega (arith, h.0 i, has-erase i id c.workers),
  All-append (λ (r : Response). r.instance_id < c.server.next_id) c.out_queue _ h.1 (small, tt),
  h.2,
  h.3,
)
failed-Issued (some (some k)) id e c small h =
    (λ i. omega (arith, h.0 i, has-erase i id c.workers), h.1, h.2, h.3)

pub failure-Issued :
    (id : ℕ) (e : ApiError) (c : Conductor)
    → id < c.server.next_id
    → Issued c
    → Issued (handle_worker_failure id e c).1
unfolding handle_worker_failure
failure-Issued id e c small h = failed-Issued (find id c.workers) id e c small h
