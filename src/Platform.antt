-- ===== src/Platform.antt =====
-- src/posix/api.h and src/win/api.h: the calls of the platform. `api` is an interface; what stands
-- behind it, and fmt::format, is not in the repository, so the calls are the fields of a parameter.
-- `World` is what the platform keeps between the calls.
pub mod Pipe
pub mod Setup
use waterproof_wrapper.Base.{Bool, ℕ, ◌+◌, ◌≤◌, ◌<◌, ◌≡◌, List, [], ◌++◌, Text, ℤ, length, take}

-- What `recv` gives: the bytes that it stored, whose number it returns; or -1, with the error.
pub data Received : Type 0 where
  received : Text → Received
  recv_failed : ℤ → Received

-- What `send` gives: the number of bytes taken; or -1, with the error.
pub data Sent : Type 0 where
  sent : ℕ → Sent
  send_failed : ℤ → Sent

-- `pipe(fd)` gives the read and the write end.
pub data Piped : Type 0 where
  piped : ℕ → ℕ → Piped
  pipe_failed : ℤ → Piped

-- `fork()` returns twice: in the child, and in the parent with the child's process id.
pub data Forked : Type 0 where
  in_child : Forked
  in_parent : ℕ → Forked
  fork_failed : ℤ → Forked

pub record Api : Type 1 where
  pub World : Type 0
  -- `recv(socket, buffer, len, 0)` and `send(socket, data, len, 0)`; the data are the `len` bytes.
  pub recv : ℕ → ℕ → World → Received × World
  pub send : ℕ → Text → World → Sent × World
  -- `read(fd, buffer, len)` and `write(fd, data, len)`, as `recv` and `send`.
  pub read : ℕ → ℕ → World → Received × World
  pub write : ℕ → Text → World → Sent × World
  pub pipe : World → Piped × World
  pub fork : World → Forked × World
  -- WPCONNRESET.
  pub conn_reset : ℤ
  -- fmt::format("… socket {}", socket) and fmt::format("{} (error code: {})", message, code).
  pub format_socket : Text → ℕ → Text
  pub format_code : Text → ℤ → Text
  -- std::thread: whether the threads of the worker of this id end when its destructor joins them.
  pub threads_end : ℕ → Bool

-- The documented behaviour of a stream socket: `recv` takes bytes off the front of what the peer sent,
-- at most as many as asked for; `send` hands a front part of its data on.
pub record IsStream (a : Api) : Type 0 where
  pub inbox : ℕ → a.World → Text
  pub outbox : ℕ → a.World → Text
  pub recv-inbox :
      (s n : ℕ) (w w' : a.World) (bytes : Text)
      → a.recv s n w ≡ (received bytes, w')
      → (inbox s w ≡ bytes ++ inbox s w') × (length bytes ≤ n)
  pub recv_failed-inbox :
      (s n : ℕ) (w w' : a.World) (e : ℤ)
      → a.recv s n w ≡ (recv_failed e, w')
      → inbox s w' ≡ inbox s w
  pub send-outbox :
      (s : ℕ) (data' : Text) (w w' : a.World) (n : ℕ)
      → a.send s data' w ≡ (sent n, w')
      → (outbox s w' ≡ outbox s w ++ take n data') × (n ≤ length data')
  pub send_failed-outbox :
      (s : ℕ) (data' : Text) (w w' : a.World) (e : ℤ)
      → a.send s data' w ≡ (send_failed e, w')
      → outbox s w' ≡ outbox s w

-- A socket on which no call fails: a blocking `recv` returns a byte at least while there is one, and
-- a blocking `send` takes one at least.
pub record IsReliable (a : Api) (stream : IsStream a) (s : ℕ) : Type 0 where
  pub recv_some :
      (n : ℕ) (w : a.World)
      → 0 < n
      → 0 < length (stream.inbox s w)
      → (bytes : Text) × (w' : a.World) × (a.recv s n w ≡ (received bytes, w')) × (0 < length bytes)
  pub send_some :
      (data' : Text) (w : a.World)
      → 0 < length data'
      → (n : ℕ) × (w' : a.World) × (a.send s data' w ≡ (sent n, w')) × (0 < n)
