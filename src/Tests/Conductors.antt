-- ===== src/Tests/Conductors.antt =====
-- Runs of src/conductor.cpp.
use waterproof_wrapper.Base.{◌≡◌, refl, arith, [], ◌∷◌, some, codes, false, Text}
use waterproof_wrapper.Base.Maps.{find}
use waterproof_wrapper.Platform.Pipe.{pipe, pipe-IsStream, pipe-IsReliable}
use waterproof_wrapper.Json.Toy.{toy, entries}
use waterproof_wrapper.Message.{Request, Verb, response_to_json}
use waterproof_wrapper.Conductor.{Conductor, handle_request, handle_verb, forward_to, has_failed}
use waterproof_wrapper.Conductor.Service.Breaks.{farewell}
use waterproof_wrapper.Conductor.Farewell.{Farewelled, handle_destroy-Farewelled}
use waterproof_wrapper.Conductor.Responses.{Numbered}
use waterproof_wrapper.Conductor.Round.{
  round, drain, again, after_requests, hand_over, unless_failed, after_front,
}
use waterproof_wrapper.Conductor.Service.Rounds.{RoundFollows, round-Follows}
use waterproof_wrapper.Tests.Messages.{a_request, a_response}
use waterproof_wrapper.Tests.Servers.{a_server, empty_connection}
use waterproof_wrapper.Tests.Workers.{a_worker}

abbrev pub a_conductor : Conductor
a_conductor = record {
  next_id = 10;
  server_failed = false;
  signal_received = false;
  server = a_server;
  workers = (7, some a_worker) ∷ [];
  in_queue = [];
  out_queue = a_response 8 0 ∷ a_response 9 0 ∷ [];
}

abbrev a_create : Request
a_create = record { verb = Verb.create; instance_id = 8; content = [] }

abbrev a_destroy : Request
a_destroy = record { verb = Verb.destroy; instance_id = 7; content = [] }

abbrev a_forward : Request
a_forward = record { verb = Verb.forward; instance_id = 8; content = codes "go" }

a_conductor-Numbered : Numbered a_conductor.next_id a_conductor.out_queue
a_conductor-Numbered = ((omega arith, (omega arith, tt)), ((omega arith, tt), (tt, tt)))

abbrev a_busy_conductor : Conductor
a_busy_conductor = record a_conductor { in_queue = a_request ∷ [] }

round_ends : (round pipe toy 100 a_busy_conductor empty_connection).0.0 ≡ again
unfolding round drain after_requests hand_over unless_failed handle_request handle_verb forward_to
    after_front has_failed find
round_ends = refl

round-Follows_example :
    RoundFollows 100 a_busy_conductor (round pipe toy 100 a_busy_conductor empty_connection).0.1
round-Follows_example = round-Follows pipe toy 100 a_busy_conductor empty_connection round_ends

abbrev raw_farewell : Text
unfolding toy entries response_to_json
raw_farewell = response_to_json toy (farewell 10 7)

handle_destroy-Farewelled_example :
    Farewelled pipe pipe-IsStream 22 toy raw_farewell 7 a_worker a_conductor empty_connection
      (handle_request pipe toy 100 a_destroy a_conductor empty_connection)
unfolding toy entries response_to_json raw_farewell pipe-IsStream find
handle_destroy-Farewelled_example =
    handle_destroy-Farewelled pipe pipe-IsStream 22 toy (pipe-IsReliable 22) 100 a_destroy
      raw_farewell a_worker a_conductor empty_connection refl refl refl refl refl (omega arith)
      (omega arith)
