-- ===== src/Tests/Servers.antt =====
-- Runs of the queue and the client lists of src/waterproof/server.cpp.

use waterproof_wrapper.Base.{
  ℕ, ◌+◌, Option, map, length, Text, false, ◌≡◌, refl, arith, List, [], ◌∷◌, ◌++◌, some, true,
}
use waterproof_wrapper.Base.Maps.{find, subscript, insert, place, erase}
use waterproof_wrapper.Platform.Pipe.{Connection, pipe, pipe-IsStream, pipe-IsReliable}
use waterproof_wrapper.Json.Toy.{toy, entries}
use waterproof_wrapper.Message.{Request, Verb, Response, response_lt, response_to_json}
use waterproof_wrapper.Server.Queue.{pop, greatest}
use waterproof_wrapper.Server.Frame.{done, write, write_raw, send_loop, after_send}
use waterproof_wrapper.Utils.Buffers.{write_uint32}
use waterproof_wrapper.Server.State.{Server, invalidated, close, invalidate, unmap, after_farewell}
use waterproof_wrapper.Server.State.Invalidate.{invalidate_removes, invalidate_tells_next}
use waterproof_wrapper.Server.Loops.{Revents}
use waterproof_wrapper.Server.Loops.Write.{write_round}
use waterproof_wrapper.Server.Loops.Delivery.{Delivered, write_round-Delivered}
use waterproof_wrapper.Tests.Messages.{a_response}

abbrev pub a_server : Server
a_server = record {
  running = true;
  next_id = 9;
  listen_socket = 3;
  interrupt_read = 4;
  interrupt_write = 5;
  response_queue = [];
  client_map = (6, 21) ∷ (7, 22) ∷ (8, 23) ∷ [];
  clients = 21 ∷ 22 ∷ 23 ∷ [];
  new_clients = [];
}

abbrev queued : List Response
queued = a_response 4 1 ∷ a_response 3 1 ∷ a_response 5 0 ∷ []

invalidate_removes_example :
    ((invalidate 22 a_server).0
      ≡ record a_server { clients = 21 ∷ 23 ∷ []; client_map = (6, 21) ∷ (8, 23) ∷ [] })
    × ((told : List (Option ℕ)) × ((invalidate 22 a_server).1
          ≡ map invalidated told ++ (close 22 ∷ []))
        × (length told + 2 ≡ 3))
invalidate_removes_example =
    invalidate_removes 22 (21 ∷ []) (23 ∷ []) a_server refl (omega arith, tt)

invalidate_tells_next_example : (invalidate 22 a_server).1 ≡ invalidated (some 8) ∷ close 22 ∷ []
invalidate_tells_next_example =
    invalidate_tells_next 22 7 8 23 ((6, 21) ∷ []) [] a_server refl (omega arith, tt)
      (omega arith, tt)

abbrev pub empty_connection : Connection
empty_connection = record { incoming = []; outgoing = []; next_fd = 30 }

unmap_ends : (unmap pipe toy 100 7 (a_response 4 1) a_server empty_connection).0 ≡ done tt
unfolding unmap after_farewell subscript insert place erase find write write_raw send_loop
    after_send write_uint32 toy entries response_to_json
unmap_ends = refl

abbrev a_request : Request
a_request = record { verb = Verb.create; instance_id = 0; content = [] }

abbrev some_data : Revents
some_data = record { gone = false; readable = true }

abbrev quiet : Revents
quiet = record { gone = false; readable = false }

abbrev loaded : Server
loaded = record a_server { response_queue = a_response 4 1 ∷ a_response 3 1 ∷ [] }

abbrev raw_response : Text
unfolding toy entries response_to_json
raw_response = response_to_json toy (a_response 3 1)

write_round-Delivered_example :
    Delivered pipe pipe-IsStream 22 toy raw_response
      (a_response 4 1 ∷ [])
      loaded
      empty_connection
      (write_round pipe toy 100 loaded empty_connection)
unfolding toy entries response_to_json raw_response find pop greatest response_lt
write_round-Delivered_example =
    write_round-Delivered pipe pipe-IsStream 22 toy (pipe-IsReliable 22) 100 (a_response 3 1)
      (a_response 4 1 ∷ []) raw_response loaded empty_connection refl refl refl refl (omega arith)
      (omega arith)
