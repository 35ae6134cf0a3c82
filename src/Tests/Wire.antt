-- ===== src/Tests/Wire.antt =====
-- Runs of the frames on the wire: `read` and `write` of src/waterproof/server.cpp.
use waterproof_wrapper.Base.{ℕ, ◌≡◌, ◌≢◌, ◌⊎◌, ◌≤◌, refl, arith, [], ◌∷◌, ◌++◌, Text, length, take}
use waterproof_wrapper.Platform.Pipe.{Connection, pipe, pipe-IsStream, pipe-IsReliable}
use waterproof_wrapper.Json.Toy.{toy, entries, toy-IsJson}
use waterproof_wrapper.Message.{request_to_json, response_to_json}
use waterproof_wrapper.Server.Frame.{done, stuck, read, write, recv_loop, whole}
use waterproof_wrapper.Server.Frame.Read.{recv_loop-ne-stuck}
use waterproof_wrapper.Server.Frame.RoundTrip.{frame, read-request}
use waterproof_wrapper.Server.Frame.Write.{write-frame, write_front}
use waterproof_wrapper.Tests.Messages.{a_request, a_response}

abbrev raw_request : Text
unfolding toy entries request_to_json
raw_request = request_to_json toy a_request

abbrev raw_response : Text
unfolding toy entries response_to_json
raw_response = response_to_json toy (a_response 4 1)

abbrev waiting : Connection
waiting = record { incoming = frame raw_request ++ (1 ∷ 2 ∷ []); outgoing = []; next_fd = 3 }

read-request_example :
    (w' : Connection) × (read pipe toy 5 waiting ≡ (done a_request, w'))
    × (w'.incoming ≡ 1 ∷ 2 ∷ [])
unfolding toy entries request_to_json response_to_json pipe-IsStream raw_request raw_response
read-request_example =
    read-request pipe pipe-IsStream 5 (pipe-IsReliable 5) toy toy-IsJson a_request raw_request
      (1 ∷ 2 ∷ []) waiting (omega arith) refl (omega arith) refl

recv_loop-ne-stuck_example : (recv_loop pipe 4 whole 5 4 [] waiting).0 ≢ stuck
recv_loop-ne-stuck_example = recv_loop-ne-stuck pipe 4 whole 5 4 [] waiting (omega arith)

write-frame_example :
    ((write pipe toy 100 5 (a_response 4 1) waiting).0 ≡ done tt)
    × ((write pipe toy 100 5 (a_response 4 1) waiting).1.outgoing ≡ [] ++ frame raw_response)
unfolding toy entries request_to_json response_to_json pipe-IsStream raw_request raw_response
write-frame_example =
    write-frame pipe pipe-IsStream 5 toy (pipe-IsReliable 5) 100 (a_response 4 1) raw_response
      waiting refl (omega arith) (omega arith)

write_front_example :
    (k : ℕ) × (k ≤ length (frame raw_response))
    × ((write pipe toy 3 5 (a_response 4 1) waiting).1.outgoing ≡ [] ++ take k (frame raw_response))
    × ((k ≡ length (frame raw_response))
        ⊎ ((write pipe toy 3 5 (a_response 4 1) waiting).0 ≢ done tt))
unfolding toy entries request_to_json response_to_json pipe-IsStream raw_request raw_response
write_front_example =
    write_front pipe pipe-IsStream 5 toy 3 (a_response 4 1) raw_response waiting refl (omega arith)
