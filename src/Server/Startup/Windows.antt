-- ===== src/Server/Startup/Windows.antt =====
-- src/waterproof/server_win.cpp.
use waterproof_wrapper.Base.{
  Bool, true, false, ℕ, ◌+◌, ◌≡◌, refl, arith, List, [], ◌∷◌, ◌++◌, Option, some, Text, codes,
}
use waterproof_wrapper.Platform.Setup.{
  Resource, address, socket, library, Act, acquired, released, Result, ok, threw, undefined, Called,
  call_ok, call_failed, Setup, ◌>>=◌, ◌>>◌, pure, releases, release, check, open_or, asked, failing,
}
use waterproof_wrapper.Platform.Setup.Balance.{
  one, total, gained, lost, lost-append, lost-releases, SameAs, Settled, Balanced, thrown,
  Balanced-bind, Balanced-seq, check-Balanced, open_or-Balanced, asked-Balanced, release-Balanced,
  pure-Balanced,
}
use waterproof_wrapper.Server.State.{Server}
use waterproof_wrapper.Server.Startup.{
  SocketApi, Resolution, resolved, not_resolved, for_address, udp,
}
use waterproof_wrapper.Server.Startup.Posix.{fresh_server}
use waterproof_wrapper.Server.Startup.Posix.Sockets.{own_sockets, sockets}

module _ (a : SocketApi) where
  open a use {
    World, getaddrinfo, socket_of, bind, getsockname, listen, connect, startup, format_code,
  }

  -- `WSAStartup`, which nothing has to be released for if it fails.
  unfoldable pub after_startup : Called × World → (Result (Unit {0}) × List Act) × World
  unfolding releases
  after_startup (call_ok, w) = ((ok tt, acquired library ∷ []), w)
  after_startup (call_failed e, w) =
      failing format_code (codes "unable to initialize winsock library") [] e w

  unfoldable pub start_library : Setup World (Unit {0})
  unfolding after_startup
  start_library w = after_startup (startup w)

  -- `if (result != 0)`.
  unfoldable pub after_resolve :
      Text → List Resource → Resolution × World → (Result ℕ × List Act) × World
  unfolding releases
  after_resolve message rs (resolved addr, w) = ((ok addr, acquired (address addr) ∷ []), w)
  after_resolve message rs (not_resolved e, w) = failing format_code message rs e w

  unfoldable pub resolve : Option ℕ → Text → List Resource → Setup World ℕ
  unfolding after_resolve
  resolve service message rs w = after_resolve message rs (getaddrinfo service w)

  -- The socket on which the server listens, and the port that it got.
  unfoldable pub open_listener : Setup World (ℕ × ℕ)
  open_listener = do
    start_library
    addr ← resolve (some 0) (codes "unable to resolve server address") (library ∷ [])
    s ←
        open_or format_code socket (socket_of (for_address addr))
          (codes "unable to create server socket") (address addr ∷ library ∷ [])
    check format_code (bind s addr) (codes "unable to bind server socket")
        (address addr ∷ socket s ∷ library ∷ [])
    port ←
        asked format_code (getsockname s) (codes "unable to get name of server socket")
          (address addr ∷ socket s ∷ library ∷ [])
    release (address addr ∷ [])
    check format_code (listen s) (codes "unable to listen on server socket")
        (socket s ∷ library ∷ [])
    pure (s, port)

  -- The interrupt: two UDP sockets, of which the second is connected to the first.
  -- The address list is returned, too: the source does not free it.
  unfoldable pub open_interrupt : ℕ → ℕ → Setup World (ℕ × ℕ × ℕ)
  open_interrupt s port = do
    i ←
        open_or format_code socket (socket_of udp)
          (codes "unable to create read end of interrupt socket") (socket s ∷ library ∷ [])
    o ←
        open_or format_code socket (socket_of udp)
          (codes "unable to create write end of interrupt socket")
          (socket s ∷ socket i ∷ library ∷ [])
    iaddr ←
        resolve (some port) (codes "unable to resolve interrupt address")
          (socket s ∷ socket i ∷ socket o ∷ library ∷ [])
    check format_code (bind i iaddr) (codes "unable to bind interrupt socket")
        (address iaddr ∷ socket s ∷ socket i ∷ socket o ∷ library ∷ [])
    check format_code (connect o iaddr) (codes "unable to connect interrupt socket")
        (address iaddr ∷ socket s ∷ socket i ∷ socket o ∷ library ∷ [])
    pure (i, o, iaddr)

  -- The constructor: the server, and the address list that is left.
  unfoldable pub construct : Setup World (Server × ℕ)
  construct = do
    (s, port) ← open_listener
    (i, o, iaddr) ← open_interrupt s port
    pure (fresh_server s i o, iaddr)

  start_library-Balanced : Balanced [] [] (λ _. library ∷ []) start_library
  unfolding start_library
  start_library-Balanced = record { settled = λ w. on_result (startup w) }
    where
      on_result : (o : Called × World) → Settled [] [] (λ _. library ∷ []) (after_startup o).0
      on_result (call_ok, w) = unfold gained lost in λ x. omega arith
      on_result (call_failed e, w) = thrown [] [] [] (λ x. refl)

  after_resolve-Settled :
      (rs cleanup : List Resource) (message : Text) (o : Resolution × World)
      → SameAs (rs ++ []) cleanup
      → Settled rs [] (λ n. address n ∷ rs) (after_resolve message cleanup o).0
  unfolding after_resolve gained lost
  after_resolve-Settled rs cleanup message (resolved n, w) h = λ x. omega arith
  after_resolve-Settled rs cleanup message (not_resolved e, w) h = thrown rs [] cleanup h

  resolve-Balanced :
      {rs : List Resource} (service : Option ℕ) (message : Text) (cleanup : List Resource)
      → SameAs (rs ++ []) cleanup
      → Balanced rs [] (λ n. address n ∷ rs) (resolve service message cleanup)
  unfolding resolve
  resolve-Balanced {rs} service message cleanup h = record {
    settled = λ w. after_resolve-Settled rs cleanup message (getaddrinfo service w) h;
  }

  listener-Balanced : Balanced [] [] (λ l. socket l.0 ∷ library ∷ []) open_listener
  unfolding open_listener
  listener-Balanced = Balanced-seq start_library-Balanced (
      Balanced-bind (resolve-Balanced _ _ (library ∷ []) (λ x. refl)) λ addr.
        Balanced-bind
          (open_or-Balanced _ socket _ _ (address addr ∷ library ∷ []) (λ x. omega arith))
          λ s.
            let both = address addr ∷ socket s ∷ library ∷ [] in
            Balanced-seq (check-Balanced _ _ _ both (λ x. omega arith)) (
              Balanced-bind (asked-Balanced _ _ _ both (λ x. omega arith)) λ port.
                Balanced-seq
                  (release-Balanced {qs = socket s ∷ library ∷ []} (address addr ∷ [])
                    (λ x. omega arith))
                  (Balanced-seq (check-Balanced _ _ _ (socket s ∷ library ∷ []) (λ x. omega arith))
                    (pure-Balanced (λ (l : ℕ × ℕ). socket l.0 ∷ library ∷ []) _ (λ x. refl)))))

  interrupt-Balanced :
      (s port : ℕ)
      → Balanced
          (socket s ∷ library ∷ [])
          []
          (λ e. socket s ∷ socket e.0 ∷ socket e.1 ∷ library ∷ address e.2 ∷ [])
          (open_interrupt s port)
  unfolding open_interrupt
  interrupt-Balanced s port =
      Balanced-bind (open_or-Balanced _ socket _ _ (socket s ∷ library ∷ []) (λ x. omega arith))
        λ i.
          Balanced-bind
            (open_or-Balanced _ socket _ _ (socket s ∷ socket i ∷ library ∷ []) (λ x. omega arith))
            λ o.
              let all = socket s ∷ socket i ∷ socket o ∷ library ∷ [] in
              Balanced-bind (resolve-Balanced _ _ all (λ x. omega arith)) λ iaddr.
                Balanced-seq (check-Balanced _ _ _ (address iaddr ∷ all) (λ x. omega arith)) (
                  Balanced-seq (check-Balanced _ _ _ (address iaddr ∷ all) (λ x. omega arith)) (
                    pure-Balanced
                      (λ (e : ℕ × ℕ × ℕ).
                        socket s ∷ socket e.0 ∷ socket e.1 ∷ library ∷ address e.2 ∷ [])
                      _ (λ x. omega arith)))

  construct-Balanced :
      Balanced [] [] (λ made. library ∷ address made.1 ∷ own_sockets made.0) construct
  unfolding construct
  construct-Balanced = Balanced-bind listener-Balanced λ l.
      Balanced-bind (interrupt-Balanced l.0 l.1) λ e.
        pure-Balanced (λ (made : Server × ℕ). library ∷ address made.1 ∷ own_sockets made.0) _
          (λ x. omega arith)

-- The destructor: what it releases, in order. The joins of the threads are left out.
unfoldable pub stop : Bool → Server → List Act
stop true s = released (socket s.interrupt_write) ∷ []
stop false s = []

unfoldable pub destroy : Server → List Act
unfolding stop releases
destroy s =
    stop s.running s
    ++ (releases (sockets (s.listen_socket ∷ s.interrupt_read ∷ s.clients))
        ++ (released library ∷ []))

-- What a construction comes to. A server that has started holds its three sockets, the WinSock library,
-- and the address list of the interrupt; a construction that throws holds nothing.
abbrev pub WinsockAccounted : Result (Server × ℕ) × List Act → Type 0
WinsockAccounted (ok (s, iaddr), es) =
    (x : Resource) → gained x es ≡ lost x es + total x (library ∷ address iaddr ∷ own_sockets s)
WinsockAccounted (threw e, es) = (x : Resource) → gained x es ≡ lost x es
WinsockAccounted (undefined, es) = Unit {0}

Settled-WinsockAccounted :
    (o : Result (Server × ℕ) × List Act)
    → Settled [] [] (λ made. library ∷ address made.1 ∷ own_sockets made.0) o
    → WinsockAccounted o
Settled-WinsockAccounted (ok (s, iaddr), es) h = λ x. omega (arith, h x)
Settled-WinsockAccounted (threw e, es) h = λ x. omega (arith, h x)
Settled-WinsockAccounted (undefined, es) h = tt

-- The constructor of the Windows server, whichever of its eleven calls fails: if it throws, it has
-- released every socket, every address list and the WinSock library as often as it acquired them; if it
-- succeeds, it holds the library, the sockets of the new server and the address list of the interrupt.
pub construct-WinsockAccounted : (a : SocketApi) (w : a.World) → WinsockAccounted (construct a w).0
construct-WinsockAccounted a w =
    Settled-WinsockAccounted (construct a w).0 ((construct-Balanced a).settled w)

-- Over the construction and the destruction of a server that did not fail, and whose clients are now
-- these, each of its resources and clients is released as often as it was acquired, but for the address
-- list of the interrupt, which is released once less.
pub life_leaks_address :
    (s : Server) (iaddr : ℕ) (es : List Act) (clients : List ℕ)
    → WinsockAccounted (ok (s, iaddr), es)
    → (x : Resource)
    → gained x es + total x (sockets clients)
      ≡ lost x es
        + lost x (destroy (record s { running = true; clients = clients }))
        + one (address iaddr) x
unfolding destroy lost
life_leaks_address s iaddr es clients h x = omega (
  arith,
  h x,
  lost-append x (releases (sockets clients)) (released library ∷ []),
  lost-releases x (sockets clients),
)
