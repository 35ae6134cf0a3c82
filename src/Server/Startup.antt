-- ===== src/Server/Startup.antt =====
-- The constructor and the destructor of `server`: src/waterproof/server_posix.cpp, and below in Windows
-- those of server_win.cpp. Between them stand the calls that the constructor makes.
pub mod Posix
pub mod Windows
use waterproof_wrapper.Base.{ℕ, ℤ, pos, negsuc, List, [], ◌∷◌, Option, Text}
use waterproof_wrapper.Utils.Exceptions.{coded_error}
use waterproof_wrapper.Platform.Setup.{
  Resource, address, Act, acquired, Result, ok, threw, undefined, Called, Opened, Setup, releases,
  failing,
}

-- What `getaddrinfo` gives: a list of addresses, or an error code, which is not 0.
pub data Resolution : Type 0 where
  resolved : ℕ → Resolution
  not_resolved : ℤ → Resolution

-- The options that the constructor sets.
pub data SocketOption : Type 0 where
  reuse_addr reuse_port cloexec : SocketOption

-- The kinds of sockets that are made: for a resolved address, or a UDP socket.
pub data SocketKind : Type 0 where
  for_address : ℕ → SocketKind
  udp : SocketKind

-- The calls of the platform. `getaddrinfo("localhost", service, …)`; `set_option` is `setsockopt`, and
-- `fcntl` for `cloexec`; `getsockname` gives the port.
pub record SocketApi : Type 1 where
  pub World : Type 0
  pub getaddrinfo : Option ℕ → World → Resolution × World
  pub socket_of : SocketKind → World → Opened × World
  pub set_option : ℕ → SocketOption → World → Called × World
  pub bind : ℕ → ℕ → World → Called × World
  pub getsockname : ℕ → World → Opened × World
  pub listen : ℕ → World → Called × World
  pub connect : ℕ → ℕ → World → Called × World
  pub startup : World → Called × World
  pub format_code : Text → ℤ → Text
