-- ===== src/Tests/Startup.antt =====
-- Runs of the constructors of `server` and of the Windows worker, on a small platform that hands out the
-- numbers in order. Its `listen`, and its third event, fail.
use waterproof_wrapper.Base.{ℕ, ◌+◌, pos, ◌≡◌, arith, List, [], ◌∷◌, true}
use waterproof_wrapper.Platform.Setup.{
  Resource, address, socket, Act, acquired, ok, call_ok, call_failed, opened,
}
use waterproof_wrapper.Platform.Setup.Balance.{total, gained, lost}
use waterproof_wrapper.Server.State.{Server}
use waterproof_wrapper.Server.Startup.{SocketApi, resolved}
use waterproof_wrapper.Server.Startup.Posix.{fresh_server, destroy}
use waterproof_wrapper.Server.Startup.Posix.Sockets.{
  own_sockets, sockets, closed_sockets, construct-Accounted, life_closes_sockets,
  fail-destroy_closes,
}
use waterproof_wrapper.Server.Startup.Posix.Sockets
use waterproof_wrapper.Server.Startup.Windows.{
  construct-WinsockAccounted, WinsockAccounted, life_leaks_address,
}
use waterproof_wrapper.Server.Startup.Windows
use waterproof_wrapper.Server.Startup.Posix

abbrev counting : SocketApi
counting = record {
  World = ℕ;
  getaddrinfo = λ service w. (resolved w, w + 1);
  socket_of = λ kind w. (opened w, w + 1);
  set_option = λ s option w. (call_ok, w);
  bind = λ s addr w. (call_ok, w);
  getsockname = λ s w. (opened 51613, w);
  listen = λ s w. (call_failed (pos 98), w);
  connect = λ s addr w. (call_ok, w);
  startup = λ w. (call_ok, w);
  format_code = λ t e. t;
}

construct-Accounted_example : Sockets.Accounted (Posix.construct counting 3).0
construct-Accounted_example = construct-Accounted counting 3

construct-WinsockAccounted_example : WinsockAccounted (Windows.construct counting 3).0
construct-WinsockAccounted_example = construct-WinsockAccounted counting 3

abbrev a_server : Server
a_server = fresh_server 4 5 6

abbrev three_sockets : List Act
three_sockets = acquired (socket 4) ∷ acquired (socket 5) ∷ acquired (socket 6) ∷ []

three_sockets-Accounted : Sockets.Accounted (ok a_server, three_sockets)
unfolding gained lost
three_sockets-Accounted x = omega arith

life_closes_sockets_example :
    gained (socket 5) three_sockets + total (socket 5) (sockets (7 ∷ []))
    ≡ lost (socket 5) three_sockets
      + total
          (socket 5)
          (closed_sockets (destroy (record a_server { running = true; clients = 7 ∷ [] })))
life_closes_sockets_example =
    life_closes_sockets a_server three_sockets (7 ∷ []) three_sockets-Accounted (socket 5)

abbrev on_windows : List Act
on_windows = acquired Resource.library ∷ acquired (address 3) ∷ three_sockets

on_windows-Accounted : WinsockAccounted (ok (a_server, 3), on_windows)
unfolding gained lost
on_windows-Accounted x = omega arith
