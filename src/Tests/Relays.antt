-- ===== src/Tests/Relays.antt =====
-- Runs of the conductor as a service, and of sertop's output on its way to the client.
use waterproof_wrapper.Base.{refl, arith, ◌++◌, none, some, List, [], ◌∷◌, Text, codes}
use waterproof_wrapper.Base.Maps.{find}
use waterproof_wrapper.Utils.Exceptions.{plain_error}
use waterproof_wrapper.Platform.Pipe.{Connection, pipe, pipe-IsStream, pipe-IsReliable}
use waterproof_wrapper.Json.Toy.{toy, entries, toy-IsJson}
use waterproof_wrapper.Message.{Response, request_to_json, response_to_json}
use waterproof_wrapper.Worker.Parse.{count_nul}
use waterproof_wrapper.Worker.Posix.Loops.{read_loop}
use waterproof_wrapper.Worker.Posix.Loops.Stream.{reads}
use waterproof_wrapper.Conductor.Service.{Op, requested, responded, failed, invalidated, acts}
use waterproof_wrapper.Conductor.Service.Breaks.{Served, acts-Served}
use waterproof_wrapper.System.{play}
use waterproof_wrapper.System.Create.{calm}
use waterproof_wrapper.System.Input.{a_forward, takes, waiting_for}
use waterproof_wrapper.System.Input.Order.{Written, input-Written}
use waterproof_wrapper.System.Output.Order.{frames}
use waterproof_wrapper.System.Output.{answers, relay}
use waterproof_wrapper.System.Output.Order.{Relayed, output-Relayed}
use waterproof_wrapper.Tests.Messages.{a_request}
use waterproof_wrapper.Tests.Servers.{empty_connection}
use waterproof_wrapper.Tests.Workers.{a_worker, pipe-IsOpen}
use waterproof_wrapper.Tests.Conductors.{a_conductor}

-- A forward request, an answer, and the loss of the client, of instance 7.
abbrev ops : List Op
ops =
    requested 100 a_request
    ∷ responded 7 (codes "ok")
    ∷ failed 8 (plain_error [])
    ∷ invalidated 7
    ∷ []

acts-Served_example :
    Served pipe toy ops a_conductor empty_connection
      (acts pipe toy ops a_conductor empty_connection)
acts-Served_example = acts-Served pipe toy ops a_conductor empty_connection

-- The texts "ab" and "c", in three pieces.
abbrev texts : List Text
texts = codes "ab" ∷ codes "c" ∷ []

abbrev pieces : List Text
pieces = (97 ∷ []) ∷ (98 ∷ 0 ∷ 99 ∷ []) ∷ (0 ∷ []) ∷ []

abbrev raws : List Text
unfolding toy entries response_to_json
raws = go (answers 10 7 texts)
  where
    go : List Response → List Text
    go [] = []
    go (r ∷ rs) = response_to_json toy r ∷ go rs

output-Relayed_example : Relayed pipe pipe-IsStream 22 toy raws empty_connection (
    relay pipe toy 100 2
      (read_loop (λ t e. t) (reads pieces) [] a_worker).3
      (calm a_conductor)
      empty_connection)
unfolding toy entries response_to_json raws find
output-Relayed_example =
    output-Relayed pipe pipe-IsStream 22 toy (pipe-IsReliable 22) 100 (λ t e. t) a_worker pieces
      texts raws a_conductor empty_connection refl (unfold count_nul in (refl, (refl, tt))) refl
      refl refl (omega arith)
      ((refl, omega arith, omega arith, (refl, omega arith, omega arith, tt)))

-- Two forward requests to instance 7 on socket 22, and what follows them.
abbrev sent_raws : List Text
unfolding toy entries request_to_json
sent_raws =
    request_to_json toy (a_forward 7 (codes "ab"))
    ∷ request_to_json toy (a_forward 7 (codes "c"))
    ∷ []

abbrev sending : Connection
sending = record { incoming = frames sent_raws ++ (1 ∷ []); outgoing = []; next_fd = 3 }

input-Written_example :
    Written pipe pipe-IsStream 22 toy 11 pipe-IsOpen 100 7 a_worker
      (a_worker.message_queue ++ texts)
      (1 ∷ [])
      (play pipe toy
        (takes 100 1 2)
        (waiting_for (none ∷ []) 22 (some 30 ∷ []) [] a_conductor [] sending))
unfolding toy entries request_to_json sent_raws find pipe-IsStream
input-Written_example =
    input-Written pipe pipe-IsStream 22 (pipe-IsReliable 22) toy 11 pipe-IsOpen toy-IsJson
      (none ∷ []) (some 30 ∷ []) 7 100 texts sent_raws (1 ∷ []) [] a_worker a_conductor sending
      (omega arith) ((refl, omega arith, (refl, omega arith, tt))) refl refl refl refl
      (omega arith, (omega arith, tt))
