-- ===== src/Server/Frame/RoundTrip.antt =====
-- `read` and `write` against the form of a message on the wire.
use waterproof_wrapper.Base.{
  ℕ, ◌-◌, ◌^◌, ◌<◌, ◌≡◌, refl, sym, ap, ◌∙◌, arith, [], ◌++◌, append_assoc, some, Text, length,
  replicate, to_int32, pos_part,
}
use waterproof_wrapper.Base.Bits.{IsU32}
use waterproof_wrapper.Utils.Buffers.RoundTrip.{big_endian, read_header}
use waterproof_wrapper.Platform.{Api, IsStream, IsReliable}
use waterproof_wrapper.Json.{Json, IsJson}
use waterproof_wrapper.Message.{Request, request_to_json}
use waterproof_wrapper.Message.Codec.{request_from_json-to_json}
use waterproof_wrapper.Server.Frame.{
  done, buffer_size, at_most_buffer, whole, header_length, read, to_request, recv_loop, read_body,
  >>=-done,
}
use waterproof_wrapper.Server.Frame.Read.{whole-IsSize, at_most_buffer-IsSize, recv_loop_gets}

-- A message on the wire: the number of its bytes, in four bytes, and the bytes.
abbrev pub frame : Text → Text
frame raw = big_endian (length raw) ++ raw

-- A length that is positive as an `int`.
abbrev pub IsShort : Text → Type 0
IsShort raw = length raw < 2 ^ 31

pub int_length : (n : ℕ) → n < 2 ^ 31 → pos_part (to_int32 n) ≡ n
int_length n h = ground arith

header_length-big_endian : (v : ℕ) → IsU32 v → header_length (big_endian v) ≡ v
unfolding header_length
header_length-big_endian v h = read_header v (replicate (buffer_size - length (big_endian v)) 0) h

module _ (a : Api) where
  module _ (stream : IsStream a) (client : ℕ) (reliable : IsReliable a stream client)
      (j : Json) where
    open stream use {inbox, outbox}

    body-gets :
        (raw rest : Text) (w : a.World)
        → IsShort raw
        → inbox client w ≡ raw ++ rest
        → (w' : a.World) × (read_body a j client (big_endian (length raw)) w
            ≡ (to_request j raw, w'))
          × (inbox client w' ≡ rest)
    unfolding read_body
    body-gets raw rest w h hi =
        let n = pos_part (to_int32 (header_length (big_endian (length raw)))) in
        let len : length raw ≡ n =
          sym (
            rw (header_length-big_endian (length raw) (omega arith)) (int_length (length raw) h)) in
        let (w', e, i) =
          recv_loop_gets a stream client reliable n at_most_buffer n [] raw rest w
            at_most_buffer-IsSize (omega arith) len hi in
        (w', >>=-done (recv_loop a n at_most_buffer client n []) _ w e, i)

    -- On a socket on which no call fails, `read` takes exactly one message off the stream, whatever
    -- pieces it comes in, and answers with what its text stands for. The text must be shorter than
    -- 2 ^ 31 bytes.
    pub read-frame :
        (raw rest : Text) (w : a.World)
        → IsShort raw
        → inbox client w ≡ frame raw ++ rest
        → (w' : a.World) × (read a j client w ≡ (to_request j raw, w')) × (inbox client w' ≡ rest)
    unfolding read
    read-frame raw rest w h hi =
        let (w₁, e₁, i₁) =
          recv_loop_gets a stream client reliable 4 whole 4 [] (big_endian (length raw))
            (raw ++ rest) w whole-IsSize (omega arith) refl
            (hi ∙ append_assoc (big_endian (length raw)) raw rest) in
        let (w₂, e₂, i₂) = body-gets raw rest w₁ h i₁ in
        (w₂, >>=-done (recv_loop a 4 whole client 4 []) (read_body a j client) w e₁ ∙ e₂, i₂)

    -- So a client's request, sent as a message, is read as the request that it is: its id must fit 32
    -- bits, and its JSON text must be shorter than 2 ^ 31 bytes.
    pub read-request :
        IsJson j
        → (r : Request) (raw rest : Text) (w : a.World) → IsU32 r.instance_id
        → j.dump (request_to_json j r) ≡ some raw
        → IsShort raw
        → inbox client w ≡ frame raw ++ rest
        → (w' : a.World) × (read a j client w ≡ (done r, w')) × (inbox client w' ≡ rest)
    read-request laws r raw rest w hr hd h hi =
        let (w', e, i) = read-frame raw rest w h hi in
        let parsed_request : to_request j raw ≡ done r =
          rw (laws.parse-dump _ raw hd, request_from_json-to_json j laws r hr) in
        (w', e ∙ ap (λ o. (o, w')) parsed_request, i)
