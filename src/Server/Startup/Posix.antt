-- ===== src/Server/Startup/Posix.antt =====
-- src/waterproof/server_posix.cpp.
pub mod Sockets
use waterproof_wrapper.Base.{
  ℕ, ℤ, pos, negsuc, Bool, true, false, List, [], ◌∷◌, ◌++◌, Option, none, some, Text, codes,
}
use waterproof_wrapper.Utils.Exceptions.{coded_error}
use waterproof_wrapper.Platform.Setup.{
  Resource, address, socket, Act, acquired, Result, ok, threw, undefined, Setup, ◌>>=◌, ◌>>◌, pure,
  releases, release, check, open_or, asked, failing,
}
use waterproof_wrapper.Server.State.{Server, Effect, notify, close, close_all}
use waterproof_wrapper.Server.Startup.{
  SocketApi, Resolution, resolved, not_resolved, reuse_addr, reuse_port, cloexec, for_address, udp,
}

-- The members when the threads are started.
abbrev pub fresh_server : ℕ → ℕ → ℕ → Server
fresh_server listen_socket interrupt_read interrupt_write = record {
  running = true;
  next_id = 0;
  listen_socket = listen_socket;
  interrupt_read = interrupt_read;
  interrupt_write = interrupt_write;
  response_queue = [];
  client_map = [];
  clients = [];
  new_clients = [];
}

module _ (a : SocketApi) where
  open a use {
    World, getaddrinfo, socket_of, set_option, bind, getsockname, listen, connect, format_code,
  }

  -- `if (result < 0)`: a code above 0 is not seen, and the addresses that are then used were never set.
  unfoldable pub after_resolve :
      Text → List Resource → Resolution × World → (Result ℕ × List Act) × World
  unfolding releases
  after_resolve message rs (resolved addr, w) = ((ok addr, acquired (address addr) ∷ []), w)
  after_resolve message rs (not_resolved (negsuc n), w) =
      failing format_code message rs (negsuc n) w
  after_resolve message rs (not_resolved (pos n), w) = ((undefined, []), w)

  unfoldable pub resolve : Option ℕ → Text → List Resource → Setup World ℕ
  unfolding after_resolve
  resolve service message rs w = after_resolve message rs (getaddrinfo service w)

  -- The socket on which the server listens, and the port that it got.
  unfoldable pub open_listener : Setup World (ℕ × ℕ)
  open_listener = do
    addr ← resolve none (codes "unable to resolve server address") []
    s ←
        open_or format_code socket (socket_of (for_address addr))
          (codes "unable to create server socket") (address addr ∷ [])
    check format_code (set_option s reuse_addr)
        (codes "unable to set SO_REUSEADDR on server socket") (address addr ∷ socket s ∷ [])
    check format_code (set_option s reuse_port)
        (codes "unable to set SO_REUSEPORT on server socket") (address addr ∷ socket s ∷ [])
    check format_code (set_option s cloexec) (codes "unable to set FD_CLOEXEC")
        (address addr ∷ socket s ∷ [])
    check format_code (bind s addr) (codes "unable to bind server socket")
        (address addr ∷ socket s ∷ [])
    port ←
        asked format_code (getsockname s)
          (codes "unable to get socket info after binding server socket")
          (address addr ∷ socket s ∷ [])
    release (address addr ∷ [])
    check format_code (listen s) (codes "unable to listen on server socket") (socket s ∷ [])
    pure (s, port)

  -- The interrupt: two UDP sockets, of which the second is connected to the first.
  unfoldable pub open_interrupt : ℕ → ℕ → Setup World (ℕ × ℕ)
  open_interrupt s port = do
    i ←
        open_or format_code socket (socket_of udp)
          (codes "unable to create read end of interrupt socket") (socket s ∷ [])
    o ←
        open_or format_code socket (socket_of udp)
          (codes "unable to create write end of interrupt socket") (socket s ∷ socket i ∷ [])
    iaddr ←
        resolve (some port) (codes "unable to resolve interrupt address")
          (socket s ∷ socket i ∷ socket o ∷ [])
    check format_code (set_option i reuse_addr)
        (codes "unable to set SO_REUSEADDR on interrupt socket")
        (address iaddr ∷ socket s ∷ socket i ∷ socket o ∷ [])
    check format_code (set_option i reuse_port)
        (codes "unable to set SO_REUSEPORT on interrupt socket")
        (address iaddr ∷ socket s ∷ socket i ∷ socket o ∷ [])
    check format_code (bind i iaddr) (codes "unable to bind interrupt socket")
        (address iaddr ∷ socket s ∷ socket i ∷ socket o ∷ [])
    check format_code (connect o iaddr) (codes "unable to connect interrupt socket")
        (address iaddr ∷ socket s ∷ socket i ∷ socket o ∷ [])
    release (address iaddr ∷ [])
    check format_code (set_option i cloexec)
        (codes "unable to set FD_CLOEXEC on read end of interrupt pipe")
        (socket s ∷ socket i ∷ socket o ∷ [])
    check format_code (set_option o cloexec)
        (codes "unable to set FD_CLOEXEC on write end of interrupt pipe")
        (socket s ∷ socket i ∷ socket o ∷ [])
    pure (i, o)

  -- The constructor.
  unfoldable pub construct : Setup World Server
  construct = do
    (s, port) ← open_listener
    (i, o) ← open_interrupt s port
    pure (fresh_server s i o)

-- The destructor; the joins of the threads are left out.
unfoldable pub stop : Bool → Server → List Effect
stop true s = notify ∷ close s.interrupt_write ∷ []
stop false s = []

unfoldable pub destroy : Server → List Effect
unfolding stop close_all
destroy s = stop s.running s ++ close_all (s.listen_socket ∷ s.interrupt_read ∷ s.clients)
