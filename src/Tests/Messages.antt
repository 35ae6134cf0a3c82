-- ===== src/Tests/Messages.antt =====
-- Runs of src/utils/buffers.cpp and src/waterproof/message.cpp.
use waterproof_wrapper.Base.{
  get_or, inl, ℕ, ◌≡◌, ◌≢◌, ◌<◌, ◌↔◌, arith, List, [], ◌∷◌, some, pos, codes, Text, ap, true,
  length, replicate,
}
use waterproof_wrapper.Utils.Buffers.{Endianness, read_uint32, write_uint32}
use waterproof_wrapper.Utils.Buffers.RoundTrip.{read_uint32-write_uint32, write_uint32_frame}
use waterproof_wrapper.Json.Toy.{toy, toy-IsJson}
use waterproof_wrapper.Message.{
  Request, Response, Verb, Status, response_lt, request_from_json, request_to_json,
  response_from_json, response_to_json,
}
use waterproof_wrapper.Message.Order.{Smaller, response_lt_iff}
use waterproof_wrapper.Message.Codec.{request_from_json-to_json, response_from_json-to_json}

abbrev pub a_response : ℕ → ℕ → Response
a_response id priority = record {
  id = id;
  priority = pos priority;
  status = Status.success;
  verb = Verb.forward;
  instance_id = 7;
  content = codes "ok";
}

abbrev pub a_request : Request
a_request = record { verb = Verb.forward; instance_id = 7; content = codes "go" }

read_uint32-write_uint32_example :
    read_uint32 (write_uint32 0xdeadbeef (replicate 6 0) Endianness.big 1) Endianness.big 1
    ≡ 0xdeadbeef
read_uint32-write_uint32_example =
    read_uint32-write_uint32 0xdeadbeef 1 (replicate 6 0) Endianness.big (omega arith) (omega arith)

write_uint32_frame_example :
    (length (write_uint32 7 (9 ∷ 1 ∷ 200 ∷ 3 ∷ 4 ∷ []) Endianness.big 1) ≡ 5)
    × (get_or (write_uint32 7 (9 ∷ 1 ∷ 200 ∷ 3 ∷ 4 ∷ []) Endianness.big 1) 0 0 ≡ 9)
write_uint32_frame_example =
    write_uint32_frame 7 1 0 (9 ∷ 1 ∷ 200 ∷ 3 ∷ 4 ∷ []) Endianness.big (omega arith)
      (inl (omega arith))

response_lt_iff_example :
    (response_lt (a_response 4 1) (a_response 3 1) ≡ true)
    ↔ Smaller (a_response 4 1) (a_response 3 1)
response_lt_iff_example = response_lt_iff (a_response 4 1) (a_response 3 1)

request_from_json-to_json_example :
    request_from_json toy (request_to_json toy a_request) ≡ some a_request
request_from_json-to_json_example = request_from_json-to_json toy toy-IsJson a_request (omega arith)

response_from_json-to_json_example :
    response_from_json toy (response_to_json toy (a_response 4 1)) (a_response 9 2)
    ≡ some (a_response 9 2)
response_from_json-to_json_example =
    response_from_json-to_json toy toy-IsJson (a_response 4 1) (a_response 9 2) (omega arith)

longer : (s t : Text) → length s < length t → s ≢ t
longer s t h = λ p. omega (arith, h, ap length p)

abbrev odd_members : List (List ℕ × toy.Value)
odd_members =
    (codes "verb", toy.of_text (codes "restarted"))
    ∷ (codes "instance_id", toy.of_unsigned 5)
    ∷ (codes "content", toy.of_text (codes "x"))
    ∷ []
