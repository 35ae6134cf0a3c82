-- ===== src/Server/Startup/Posix/Sockets.antt =====
-- The sockets and address lists of the POSIX server, over its construction and its destruction.
use waterproof_wrapper.Base.{
  ℕ, pos, negsuc, ◌+◌, ◌≡◌, refl, ap, arith, true, List, [], ◌∷◌, ◌++◌, Option, Text,
}
use waterproof_wrapper.Utils.Exceptions.{ApiError}
use waterproof_wrapper.Platform.Setup.{Resource, address, socket, Act, Result, ok, threw, undefined}
use waterproof_wrapper.Platform.Setup.Balance.{
  total, gained, lost, SameAs, Settled, Balanced, thrown, Balanced-bind, Balanced-seq,
  check-Balanced, open_or-Balanced, asked-Balanced, release-Balanced, pure-Balanced,
}
use waterproof_wrapper.Server.State.{Server, Effect, close, close_all, fail}
use waterproof_wrapper.Server.Startup.{SocketApi, Resolution, resolved, not_resolved}
use waterproof_wrapper.Server.Startup.Posix.{
  after_resolve, resolve, open_listener, open_interrupt, construct, destroy,
}

-- The sockets that a server has made.
abbrev pub own_sockets : Server → List Resource
own_sockets s = socket s.listen_socket ∷ socket s.interrupt_read ∷ socket s.interrupt_write ∷ []

module _ (a : SocketApi) where
  open a use {World, format_code, set_option, socket_of, bind, getsockname, listen, connect}

  after_resolve-Settled :
      (rs cleanup : List Resource) (message : Text) (o : Resolution × World)
      → SameAs (rs ++ []) cleanup
      → Settled rs [] (λ n. address n ∷ rs) (after_resolve a message cleanup o).0
  unfolding after_resolve gained lost
  after_resolve-Settled rs cleanup message (resolved n, w) h = λ x. omega arith
  after_resolve-Settled rs cleanup message (not_resolved (negsuc n), w) h = thrown rs [] cleanup h
  after_resolve-Settled rs cleanup message (not_resolved (pos n), w) h = tt

  resolve-Balanced :
      {rs : List Resource} (service : Option ℕ) (message : Text) (cleanup : List Resource)
      → SameAs (rs ++ []) cleanup
      → Balanced rs [] (λ n. address n ∷ rs) (resolve a service message cleanup)
  unfolding resolve
  resolve-Balanced {rs} service message cleanup h = record {
    settled = λ w. after_resolve-Settled rs cleanup message (a.getaddrinfo service w) h;
  }

  listener-Balanced : Balanced [] [] (λ l. socket l.0 ∷ []) (open_listener a)
  unfolding open_listener
  listener-Balanced = Balanced-bind (resolve-Balanced _ _ [] (λ x. refl)) λ addr.
      Balanced-bind (open_or-Balanced _ socket _ _ (address addr ∷ []) (λ x. omega arith)) λ s.
        let both = address addr ∷ socket s ∷ [] in
        Balanced-seq (check-Balanced _ _ _ both (λ x. omega arith)) (
          Balanced-seq (check-Balanced _ _ _ both (λ x. omega arith)) (
            Balanced-seq (check-Balanced _ _ _ both (λ x. omega arith)) (
              Balanced-seq (check-Balanced _ _ _ both (λ x. omega arith)) (
                Balanced-bind (asked-Balanced _ _ _ both (λ x. omega arith)) λ port.
                  Balanced-seq
                    (release-Balanced {qs = socket s ∷ []} (address addr ∷ []) (λ x. omega arith))
                    (Balanced-seq (check-Balanced _ _ _ (socket s ∷ []) (λ x. omega arith))
                      (pure-Balanced (λ (l : ℕ × ℕ). socket l.0 ∷ []) _ (λ x. refl)))))))

  interrupt-Balanced :
      (s port : ℕ)
      → Balanced
          (socket s ∷ [])
          []
          (λ ends. socket s ∷ socket ends.0 ∷ socket ends.1 ∷ [])
          (open_interrupt a s port)
  unfolding open_interrupt
  interrupt-Balanced s port =
      Balanced-bind (open_or-Balanced _ socket _ _ (socket s ∷ []) (λ x. omega arith)) λ i.
        Balanced-bind (open_or-Balanced _ socket _ _ (socket s ∷ socket i ∷ []) (λ x. omega arith))
          λ o.
            let all = socket s ∷ socket i ∷ socket o ∷ [] in
            Balanced-bind (resolve-Balanced _ _ all (λ x. omega arith)) λ iaddr.
              Balanced-seq (check-Balanced _ _ _ (address iaddr ∷ all) (λ x. omega arith)) (
                Balanced-seq (check-Balanced _ _ _ (address iaddr ∷ all) (λ x. omega arith)) (
                  Balanced-seq (check-Balanced _ _ _ (address iaddr ∷ all) (λ x. omega arith)) (
                    Balanced-seq (check-Balanced _ _ _ (address iaddr ∷ all) (λ x. omega arith)) (
                      Balanced-seq
                        (release-Balanced {qs = all} (address iaddr ∷ []) (λ x. omega arith))
                        (Balanced-seq (check-Balanced _ _ _ all (λ x. omega arith)) (
                          Balanced-seq (check-Balanced _ _ _ all (λ x. omega arith)) (
                            pure-Balanced (λ (e : ℕ × ℕ). socket s ∷ socket e.0 ∷ socket e.1 ∷ []) _
                              (λ x. refl))))))))

  construct-Balanced : Balanced [] [] own_sockets (construct a)
  unfolding construct
  construct-Balanced =
      Balanced-bind listener-Balanced
        λ l. Balanced-bind (interrupt-Balanced l.0 l.1) λ e. pure-Balanced own_sockets _ (λ x. refl)

-- What a construction comes to. A server that has started holds its three sockets and nothing else; a
-- construction that throws holds nothing: it has released whatever it acquired.
abbrev pub Accounted : Result Server × List Act → Type 0
Accounted (ok s, es) = (x : Resource) → gained x es ≡ lost x es + total x (own_sockets s)
Accounted (threw e, es) = (x : Resource) → gained x es ≡ lost x es
Accounted (undefined, es) = Unit {0}

pub Settled-Accounted : (o : Result Server × List Act) → Settled [] [] own_sockets o → Accounted o
Settled-Accounted (ok s, es) h = λ x. omega (arith, h x)
Settled-Accounted (threw e, es) h = λ x. omega (arith, h x)
Settled-Accounted (undefined, es) h = tt

-- The constructor of the POSIX server, whichever of its seventeen calls fails: if it throws, it has
-- released every socket and every address list that it acquired, each as often as it acquired it; if it
-- succeeds, it holds the sockets of the new server and nothing else. A failure of `getaddrinfo` whose
-- code is above 0 is left out: it is not noticed.
pub construct-Accounted : (a : SocketApi) (w : a.World) → Accounted (construct a w).0
construct-Accounted a w = Settled-Accounted (construct a w).0 ((construct-Balanced a).settled w)

-- The sockets that effects close.
unfoldable pub closed_sockets : List Effect → List Resource
closed_sockets [] = []
closed_sockets (close n ∷ es) = socket n ∷ closed_sockets es
closed_sockets (_ ∷ es) = closed_sockets es

abbrev pub sockets : List ℕ → List Resource
sockets [] = []
sockets (n ∷ ns) = socket n ∷ sockets ns

closed-close_all : (ns : List ℕ) → closed_sockets (close_all ns) ≡ sockets ns
unfolding closed_sockets close_all
closed-close_all [] = refl
closed-close_all (n ∷ ns) = ap (◌∷◌ (socket n)) (closed-close_all ns)

closed-destroy_running :
    (s : Server)
    → closed_sockets (destroy (record s { running = true }))
      ≡ socket s.interrupt_write
        ∷ socket s.listen_socket
        ∷ socket s.interrupt_read
        ∷ sockets s.clients
unfolding destroy closed_sockets
closed-destroy_running s =
    ap (λ cs. socket s.interrupt_write ∷ socket s.listen_socket ∷ socket s.interrupt_read ∷ cs)
      (closed-close_all s.clients)

-- A server that was started and did not fail, and whose clients are now these: over its construction
-- and its destruction each of its own sockets is released as often as it was acquired, and each client
-- is closed as often as it stands in the list.
pub life_closes_sockets :
    (s : Server) (es : List Act) (clients : List ℕ)
    → Accounted (ok s, es)
    → (x : Resource)
    → gained x es + total x (sockets clients)
      ≡ lost x es
        + total x (closed_sockets (destroy (record s { running = true; clients = clients })))
life_closes_sockets s es clients h x =
    rw (closed-destroy_running (record s { clients = clients })) (omega (arith, h x))

-- After a failure the destructor closes the read end of the interrupt a second time, and neither of the
-- two closes the write end.
pub fail-destroy_closes :
    (error : ApiError) (s : Server)
    → closed_sockets ((fail error s).1 ++ destroy (fail error s).0)
      ≡ socket s.interrupt_read
        ∷ socket s.listen_socket
        ∷ socket s.interrupt_read
        ∷ sockets s.clients
unfolding fail destroy closed_sockets close_all
fail-destroy_closes error s =
    ap (λ cs. socket s.interrupt_read ∷ socket s.listen_socket ∷ socket s.interrupt_read ∷ cs)
      (closed-close_all s.clients)
