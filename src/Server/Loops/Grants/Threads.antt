-- ===== src/Server/Loops/Grants/Threads.antt =====
-- The ids that the threads of the server grant, and the responses that they leave.
use waterproof_wrapper.Base.{
  ℕ, zero, suc, ◌+◌, ◌^◌, ◌<◌, ℤ, Bool, true, false, List, [], ◌∷◌, Option, Text, ltb, length,
  if-either, All, Bool-cases, inl, inr,
}
use waterproof_wrapper.Base.Maps.{subscript, All-insert}
use waterproof_wrapper.Utils.Exceptions.{api_error, parse_error, json_error}
use waterproof_wrapper.Platform.{Api, Received, received, recv_failed, Sent, sent, send_failed}
use waterproof_wrapper.Json.{Json}
use waterproof_wrapper.Message.{Response, response_lt}
use waterproof_wrapper.Server.Frame.{Outcome, done, closed, threw, stuck, write}
use waterproof_wrapper.Server.State.{Server, Effect, invalidate}
use waterproof_wrapper.Server.Loops.{Next}
use waterproof_wrapper.Server.Loops.Accept as Accept
use waterproof_wrapper.Server.Loops.Accept.{
  AcceptEvent, Accepted, accepted, accept_failed, wake, admit, accept_polled, accept_round,
}
use waterproof_wrapper.Server.Loops.Read as Read
use waterproof_wrapper.Server.Loops.Read.{
  ReadEvent, Served, Round, take_verb, take_request, after_read, invalidate_all, watch_client,
  watch_next, serve_client, serve, after_serve, serve_all, after_ack, take_ack, watch_after_ack,
  refresh, clean_up, read_polled, read_round,
}
use waterproof_wrapper.Server.Queue.{greatest, pop}
use waterproof_wrapper.Server.Loops.Ids.{IsFresh}
use waterproof_wrapper.Server.Loops.Write.{after_write, send_top, write_if, write_round}
use waterproof_wrapper.Server.Loops.Grants.{
  Grants, Grants-none, then-Grants, fail-Grants, invalidate-Grants, invalidate_all-Grants,
  serve_all-Grants,
}

abbrev GrantsOf : Server → Next × Server × List Effect → Type 0
GrantsOf s (next, s', es) = Grants s s' es

-- The accept thread.
wake-Grants :
    (f : Text → ℤ → Text) (sends : List Sent) (s : Server) → IsFresh s → GrantsOf s (wake f sends s)
unfolding wake
wake-Grants f [] s h = Grants-none s h
wake-Grants f (sent zero ∷ sends) s h = wake-Grants f sends s h
wake-Grants f (sent (suc n) ∷ sends) s h = Grants-none s h
wake-Grants f (send_failed e ∷ sends) s h = fail-Grants _ s h

admit-Grants :
    (f : Text → ℤ → Text) (o : Accepted) (sends : List Sent) (s : Server)
    → IsFresh s
    → GrantsOf s (admit f o sends s)
unfolding admit
admit-Grants f (accept_failed e) sends s h = fail-Grants _ s h
admit-Grants f (accepted client) sends s h = wake-Grants f sends _ h

polled-Grants :
    (f : Text → ℤ → Text) (event : AcceptEvent) (s : Server)
    → IsFresh s
    → GrantsOf s (accept_polled f event s)
unfolding accept_polled
polled-Grants f (Accept.poll_failed e) s h = fail-Grants _ s h
polled-Grants f Accept.none_ready s h = Grants-none s h
polled-Grants f (Accept.ready interrupt listen client sends) s h =
    if-either (GrantsOf s) interrupt.gone _ _ (Grants-none s h) (
      if-either (GrantsOf s) listen.readable _ _ (admit-Grants f client sends s h)
        (Grants-none s h))

pub accept_round-Grants :
    (f : Text → ℤ → Text) (event : AcceptEvent) (s : Server)
    → IsFresh s
    → let o = accept_round f event s in Grants s o.1 o.2
unfolding accept_round
accept_round-Grants f event s h =
    if-either (GrantsOf s) s.running _ _ (polled-Grants f event s h) (Grants-none s h)

-- The read thread.
abbrev WatchGrants : Server → Next × List (Option ℕ) × Server × List Effect → Type 0
WatchGrants s (next, watched, s', es) = Grants s s' es

watch-Grants :
    (t : Server) (waiting : List ℕ) (watched : List (Option ℕ)) (s : Server) (es : List Effect)
    → Grants t s es
    → WatchGrants t (watch_client waiting watched s es)
unfolding watch_client
watch-Grants t [] watched s es h = h
watch-Grants t (client ∷ rest) watched s es h =
    if-either (WatchGrants t) (ltb (1 + length watched) 256) _ _ h h

module _ (a : Api) (j : Json) where
  after_ack-Grants :
      (rest : a.World → (Next × Server × List Effect) × a.World) (o : Received) (s : Server)
      (w : a.World)
      → IsFresh s
      → GrantsOf s (rest w).0
      → GrantsOf s (after_ack a j rest o s w).0
  unfolding after_ack
  after_ack-Grants rest (received []) s w f h = h
  after_ack-Grants rest (received (b ∷ bytes)) s w f h = Grants-none s f
  after_ack-Grants rest (recv_failed e) s w f h = fail-Grants _ s f

  take_ack-Grants :
      (fuel : ℕ) (s : Server) (w : a.World) → IsFresh s → GrantsOf s (take_ack a j fuel s w).0
  unfolding take_ack
  take_ack-Grants zero s w h = Grants-none s h
  take_ack-Grants (suc fuel) s w h =
      let o = a.recv s.interrupt_read 1 w in
      after_ack-Grants (take_ack a j fuel s) o.0 s o.1 h (take_ack-Grants fuel s o.1 h)

  after_watch-Grants :
      (t : Server) (watched : List (Option ℕ)) (o : (Next × Server × List Effect) × a.World)
      → GrantsOf t o.0
      → WatchGrants t (watch_after_ack a j watched o).0
  after_watch-Grants t watched ((Next.again, s, es), w) h =
      unfold watch_next in watch-Grants t s.new_clients watched s es h
  after_watch-Grants t watched ((Next.leave, s, es), w) h = h
  after_watch-Grants t watched ((Next.undefined, s, es), w) h = h
  after_watch-Grants t watched ((Next.aborts, s, es), w) h = h
  after_watch-Grants t watched ((Next.spins, s, es), w) h = h

  clean_up-Grants :
      (t : Server) (o : Round × a.World) → Grants t o.0.3 o.0.4 → WatchGrants t (clean_up a j o).0
  clean_up-Grants t ((Next.again, cs, gone, s, es), w) h =
      let more = invalidate_all gone s in
      then-Grants t s more.0 es more.1 h (invalidate_all-Grants gone s h.0)
  clean_up-Grants t ((Next.leave, cs, gone, s, es), w) h = h
  clean_up-Grants t ((Next.undefined, cs, gone, s, es), w) h = h
  clean_up-Grants t ((Next.aborts, cs, gone, s, es), w) h = h
  clean_up-Grants t ((Next.spins, cs, gone, s, es), w) h = h

  abbrev Reading : Type 0
  Reading = (Next × List (Option ℕ) × Server × List Effect) × a.World

  abbrev ReadGrants : Server → Reading → Type 0
  ReadGrants s o = WatchGrants s o.0

  read_polled-Grants :
      (fuel : ℕ) (event : ReadEvent) (watched : List (Option ℕ)) (s : Server) (w : a.World)
      → s.next_id + length watched < 2 ^ 32
      → IsFresh s
      → ReadGrants s (read_polled a j fuel event watched s w)
  unfolding read_polled refresh
  read_polled-Grants fuel (Read.poll_failed e) watched s w small h = fail-Grants _ s h
  read_polled-Grants fuel Read.none_ready watched s w small h = Grants-none s h
  read_polled-Grants fuel (Read.ready interrupt events) watched s w small h =
      if-either (ReadGrants s) interrupt.gone _ _ (Grants-none s h) (
        if-either (ReadGrants s) interrupt.readable _ _
          (after_watch-Grants s watched (take_ack a j fuel s w) (take_ack-Grants fuel s w h))
          (clean_up-Grants s (serve_all a j events watched s w)
            (serve_all-Grants a j events watched s w small h)))

  pub read_round-Grants :
      (fuel : ℕ) (event : ReadEvent) (watched : List (Option ℕ)) (s : Server) (w : a.World)
      → s.next_id + length watched < 2 ^ 32
      → IsFresh s
      → let o = (read_round a j fuel event watched s w).0 in Grants s o.2 o.3
  unfolding read_round
  read_round-Grants fuel event watched s w small h =
      if-either (ReadGrants s) s.running _ _ (read_polled-Grants fuel event watched s w small h)
        (Grants-none s h)

-- The write thread.
abbrev pub AllBelow : ℕ → List Response → Type 0
AllBelow n = All (λ r. r.instance_id < n)

greatest-AllBelow :
    (n : ℕ) (best : Response) (rs : List Response)
    → best.instance_id < n
    → AllBelow n rs
    → (((greatest best rs).0).instance_id < n) × AllBelow n (greatest best rs).1
unfolding greatest
greatest-AllBelow n best [] h hs = (h, tt)
greatest-AllBelow n best (r ∷ rs) h hs = elim (Bool-cases (response_lt best r)) [
  | inl e ↦ rw e (let g = greatest-AllBelow n r rs hs.0 hs.1 in (g.0, (h, g.1)))
  | inr e ↦ rw e (let g = greatest-AllBelow n best rs h hs.1 in (g.0, (hs.0, g.1)))
]

-- What a round of the write thread grants, and the responses that it leaves.
abbrev pub Leaves : Server → (Next × Server × List Effect) → Type 0
Leaves s (next, s', es) = Grants s s' es × AllBelow s'.next_id s'.response_queue

after_write-Leaves :
    (client : ℕ) (s : Server) (o : Outcome (Unit {0}))
    → IsFresh s
    → AllBelow s.next_id s.response_queue
    → Leaves s (after_write client s o)
unfolding after_write
after_write-Leaves client s (done u) h q = (Grants-none s h, q)
after_write-Leaves client s closed h q = (Grants-none s h, q)
after_write-Leaves client s (threw (api_error e)) h q =
    (invalidate-Grants client s h, unfold invalidate in q)
after_write-Leaves client s (threw parse_error) h q = (Grants-none s h, q)
after_write-Leaves client s (threw json_error) h q = (Grants-none s h, q)
after_write-Leaves client s stuck h q = (Grants-none s h, q)

module _ (a : Api) (j : Json) where
  top-Leaves :
      (fuel : ℕ) (q : List Response) (s : Server) (w : a.World)
      → IsFresh s
      → AllBelow s.next_id s.response_queue
      → AllBelow s.next_id q
      → Leaves s (send_top a j fuel (pop q) s w).0
  unfolding pop send_top subscript
  top-Leaves fuel [] s w h all hq = (Grants-none s h, all)
  top-Leaves fuel (r ∷ rs) s w h all hq =
      let top = (greatest r rs).0 in
      let found = subscript top.instance_id 0 s.client_map in
      let g = greatest-AllBelow s.next_id r rs hq.0 hq.1 in
      let left : Server = record s { response_queue = (greatest r rs).1; client_map = found.1 } in
      after_write-Leaves found.0 left (write a j fuel found.0 top w).0
        (All-insert (λ (e : ℕ × ℕ). e.0 < s.next_id) top.instance_id 0 s.client_map g.0 h) g.1

  if-Leaves :
      (fuel : ℕ) (b : Bool) (s : Server) (w : a.World)
      → IsFresh s
      → AllBelow s.next_id s.response_queue
      → Leaves s (write_if a j b fuel s w).0
  unfolding write_if
  if-Leaves fuel true s w h all = top-Leaves fuel s.response_queue s w h all all
  if-Leaves fuel false s w h all = (Grants-none s h, all)

  pub write_round-Leaves :
      (fuel : ℕ) (s : Server) (w : a.World)
      → IsFresh s
      → AllBelow s.next_id s.response_queue
      → Leaves s (write_round a j fuel s w).0
  unfolding write_round
  write_round-Leaves fuel s w h all = if-Leaves fuel s.running s w h all
