-- ===== src/Server/Frame.antt =====
-- `server::read` and `server::write` of src/waterproof/server.cpp: a message is sent as its length, four
-- bytes in big-endian order, and its JSON text.
pub mod Read
pub mod RoundTrip
pub mod Write
use waterproof_wrapper.Base.{
  ◌≡◌, ℕ, zero, suc, ◌+◌, ◌-◌, ◌%◌, ◌^◌, Bool, true, false, List, [], ◌∷◌, ◌++◌, Option, none, some,
  Text, codes, ℤ, pos, if◌then◌else◌, ltb, length, take, drop, replicate, to_int32, pos_part, ◌||◌,
  int_eq,
}
use waterproof_wrapper.Utils.Buffers.{Endianness, clear, read_uint32, write_uint32}
use waterproof_wrapper.Utils.Exceptions.{
  ApiError, Thrown, api_error, parse_error, json_error, coded_error,
}
use waterproof_wrapper.Platform.{Api, Received, received, recv_failed, Sent, sent, send_failed}
use waterproof_wrapper.Json.{Json}
use waterproof_wrapper.Message.{Request, Response, request_from_json, response_to_json}

-- What a read or a write comes to. `closed` is the empty optional of `read`; `stuck` is no value of the
-- program: it says that a loop ran out of fuel.
pub data Outcome {ℓ} (A : Type ℓ) : Type ℓ where
  done : A → Outcome A
  closed : Outcome A
  threw : Thrown → Outcome A
  stuck : Outcome A

-- The size of the buffer, and of the pieces that are sent.
abbrev pub buffer_size : ℕ
buffer_size = 4096

abbrev pub at_most_buffer : ℕ → ℕ
at_most_buffer bytes = if ltb buffer_size bytes then buffer_size else bytes

abbrev pub whole : ℕ → ℕ
whole bytes = bytes

-- A computation on the platform's world.
abbrev pub M {ℓ} : Api → Type ℓ → Type ℓ
M a A = a.World → Outcome A × a.World

abbrev pub then_do {ℓ} :
    {W : Type 0} {A B : Type ℓ} → Outcome A → W → (A → W → Outcome B × W) → Outcome B × W
then_do (done x) w f = f x w
then_do closed w f = (closed, w)
then_do (threw e) w f = (threw e, w)
then_do stuck w f = (stuck, w)

infixl 5 ◌>>=◌
abbrev pub ◌>>=◌ {ℓ} :
    {W : Type 0} {A B : Type ℓ} → (W → Outcome A × W) → (A → W → Outcome B × W) → W → Outcome B × W
◌>>=◌ m f w = let r = m w in then_do r.0 r.1 f

pub >>=-done {ℓ} :
    {W : Type 0} {A B : Type ℓ} (m : W → Outcome A × W) (f : A → W → Outcome B × W) (w : W) {x : A}
    {w' : W}
    → m w ≡ (done x, w')
    → (m >>= f) w ≡ f x w'
>>=-done m f w e = rw e

module _ (j : Json) where
  open j use {Value, parse}

  abbrev pub converted : Option Request → Outcome Request
  converted none = threw json_error
  converted (some r) = done r

  abbrev pub parsed : Option Value → Outcome Request
  parsed none = threw parse_error
  parsed (some v) = converted (request_from_json j v)

  -- `nlohmann::json::parse(raw_request)` and `j.get<request>()`.
  abbrev pub to_request : Text → Outcome Request
  to_request raw = parsed (parse raw)

-- The length that the header gives, read from the buffer that it was received into.
unfoldable pub header_length : Text → ℕ
header_length header =
    read_uint32 (header ++ replicate (buffer_size - length header) 0) Endianness.big 0

module _ (a : Api) where
  open a use {World, recv, send, conn_reset, format_socket, format_code}

  abbrev pub read_error : ℕ → ℤ → Thrown
  read_error client e =
      api_error
        (coded_error format_code (format_socket (codes "unable to read from socket {}") client) e)

  abbrev pub write_error : ℕ → ℤ → Thrown
  write_error client e =
      api_error
        (coded_error format_code (format_socket (codes "unable to write to socket {}") client) e)

  -- The body of a loop of `read`, given what `recv` gave; `next` is the rest of the loop.
  unfoldable pub after_recv :
      ℕ
      → ℕ
      → Text
      → (ℕ → Text → World → Outcome Text × World)
      → Received
      → World
      → Outcome Text × World
  after_recv client n got next (received []) w = (closed, w)
  after_recv client n got next (received (b ∷ bytes)) w =
      next (n - length (b ∷ bytes)) (got ++ (b ∷ bytes)) w
  after_recv client n got next (recv_failed e) w =
      if int_eq e conn_reset then (closed, w) else (threw (read_error client e), w)

  -- `while (bytes_to_read > 0) { result = recv(client, …, size(bytes_to_read), 0); … }`, which appends
  -- to `got`. `bytes_to_read` is an `int`; where it is not positive the loop is over, and 0 stands
  -- for it.
  unfoldable pub recv_loop : ℕ → (ℕ → ℕ) → ℕ → ℕ → Text → World → Outcome Text × World
  unfolding after_recv
  recv_loop fuel size client zero got w = (done got, w)
  recv_loop zero size client (suc n) got w = (stuck, w)
  recv_loop (suc fuel) size client (suc n) got w =
      let r = recv client (size (suc n)) w in
      after_recv client (suc n) got (recv_loop fuel size client) r.0 r.1

  -- The body of a loop of `write`, given what `send` gave.
  unfoldable pub after_send :
      ℕ
      → ℕ
      → Text
      → (ℕ → Text → World → Outcome (Unit {0}) × World)
      → Sent
      → World
      → Outcome (Unit {0}) × World
  after_send client n bytes next (sent k) w = next (n - k) (drop k bytes) w
  after_send client n bytes next (send_failed e) w = (threw (write_error client e), w)

  -- `while (bytes_to_write > 0) { result = send(client, data, size(bytes_to_write), 0); … }`.
  unfoldable pub send_loop : ℕ → (ℕ → ℕ) → ℕ → ℕ → Text → World → Outcome (Unit {0}) × World
  unfolding after_send
  send_loop fuel size client zero bytes w = (done tt, w)
  send_loop zero size client (suc n) bytes w = (stuck, w)
  send_loop (suc fuel) size client (suc n) bytes w =
      let r = send client (take (size (suc n)) bytes) w in
      after_send client (suc n) bytes (send_loop fuel size client) r.0 r.1

  -- The loops of `write`: the length, and the text.
  unfoldable pub write_raw : ℕ → ℕ → Text → World → Outcome (Unit {0}) × World
  unfolding send_loop
  write_raw fuel client raw =
      let size = length raw % 2 ^ 32 in
      let buffer = write_uint32 size (replicate 4 0) Endianness.big 0 in
      send_loop fuel whole client 4 buffer >>= λ _.
      send_loop fuel at_most_buffer client (pos_part (to_int32 size)) raw

  module _ (j : Json) where
    open j use {dump}

    -- The second part of `read`, which takes the bytes that the header announces.
    unfoldable pub read_body : ℕ → Text → World → Outcome Request × World
    unfolding recv_loop header_length
    read_body client header =
        let bytes_to_read = pos_part (to_int32 (header_length header)) in
        recv_loop bytes_to_read at_most_buffer client bytes_to_read [] >>= λ raw_request w.
        (to_request j raw_request, w)

    -- Each loop takes a byte at least in a round, so as many rounds as bytes are enough.
    unfoldable pub read : ℕ → World → Outcome Request × World
    unfolding recv_loop read_body
    read client = recv_loop 4 whole client 4 [] >>= read_body client

    abbrev pub write_dumped : ℕ → ℕ → Option Text → World → Outcome (Unit {0}) × World
    write_dumped fuel client none w = (threw json_error, w)
    write_dumped fuel client (some raw) w = write_raw fuel client raw w

    -- `send` may take no byte and report no error, so the loops of `write` need fuel.
    unfoldable pub write : ℕ → ℕ → Response → World → Outcome (Unit {0}) × World
    unfolding write_raw
    write fuel client response = write_dumped fuel client (dump (response_to_json j response))
