-- ===== src/System/Queues.antt =====
-- What the steps of the server leave in its queue of responses.
use waterproof_wrapper.Base.{
  ℕ, zero, suc, ◌+◌, ℤ, ◌≡◌, refl, ◌∙◌, Bool, true, false, List, [], ◌∷◌, Option, none, some, Text,
  ltb, length, if-either,
}
use waterproof_wrapper.Base.Maps.{subscript}
use waterproof_wrapper.Utils.Exceptions.{ApiError, api_error, parse_error, json_error}
use waterproof_wrapper.Platform.{Api, Received, received, recv_failed, Sent, sent, send_failed}
use waterproof_wrapper.Json.{Json}
use waterproof_wrapper.Message.{Request, Verb, Response}
use waterproof_wrapper.Server.Frame.{Outcome, done, closed, threw, stuck, read, write}
use waterproof_wrapper.Server.State.{Server, Effect, fail, invalidate, unmap, after_farewell}
use waterproof_wrapper.Server.Loops.{Next, Revents}
use waterproof_wrapper.Server.Loops.Accept as Accept
use waterproof_wrapper.Server.Loops.Accept.{
  AcceptEvent, Accepted, accepted, accept_failed, wake, admit, accept_polled, accept_round,
}
use waterproof_wrapper.Server.Loops.Read as Read
use waterproof_wrapper.Server.Loops.Read.{
  ReadEvent, Served, Round, take_verb, take_request, after_read, invalidate_all, watch_client,
  watch_next, serve_client, serve, after_serve, serve_all, after_ack, take_ack, watch_after_ack,
  refresh, clean_up, read_polled, read_round,
}

abbrev pub SameQueue : Server → Server → Type 0
SameQueue s s' = s'.response_queue ≡ s.response_queue

-- A server that is told to fail, or loses a client.
fail-SameQueue : (e : ApiError) (s : Server) → SameQueue s (fail e s).0
unfolding fail
fail-SameQueue e s = refl

pub invalidate-SameQueue : (client : ℕ) (s : Server) → SameQueue s (invalidate client s).0
unfolding invalidate
invalidate-SameQueue client s = refl

invalidate_all-SameQueue : (gone : List ℕ) (s : Server) → SameQueue s (invalidate_all gone s).0
unfolding invalidate_all
invalidate_all-SameQueue [] s = refl
invalidate_all-SameQueue (client ∷ rest) s =
    invalidate_all-SameQueue rest (invalidate client s).0 ∙ invalidate-SameQueue client s

wake-SameQueue :
    (f : Text → ℤ → Text) (sends : List Sent) (s : Server) → SameQueue s (wake f sends s).1
unfolding wake
wake-SameQueue f [] s = refl
wake-SameQueue f (sent zero ∷ sends) s = wake-SameQueue f sends s
wake-SameQueue f (sent (suc n) ∷ sends) s = refl
wake-SameQueue f (send_failed e ∷ sends) s = fail-SameQueue _ s

admit-SameQueue :
    (f : Text → ℤ → Text) (o : Accepted) (sends : List Sent) (s : Server)
    → SameQueue s (admit f o sends s).1
unfolding admit
admit-SameQueue f (accept_failed e) sends s = fail-SameQueue _ s
admit-SameQueue f (accepted client) sends s = wake-SameQueue f sends _

accept_polled-SameQueue :
    (f : Text → ℤ → Text) (event : AcceptEvent) (s : Server)
    → SameQueue s (accept_polled f event s).1
unfolding accept_polled
accept_polled-SameQueue f (Accept.poll_failed e) s = fail-SameQueue _ s
accept_polled-SameQueue f Accept.none_ready s = refl
accept_polled-SameQueue f (Accept.ready interrupt listen client sends) s =
    if-either (λ (o : Next × Server × List Effect). SameQueue s o.1) interrupt.gone _ _ refl
      (if-either (λ (o : Next × Server × List Effect). SameQueue s o.1) listen.readable _ _
        (admit-SameQueue f client sends s) refl)

pub accept_round-SameQueue :
    (f : Text → ℤ → Text) (event : AcceptEvent) (s : Server)
    → SameQueue s (accept_round f event s).1
unfolding accept_round
accept_round-SameQueue f event s =
    if-either (λ (o : Next × Server × List Effect). SameQueue s o.1) s.running _ _
      (accept_polled-SameQueue f event s) refl

verb-SameQueue :
    (v : Verb) (client : ℕ) (r : Request) (s : Server) → SameQueue s (take_verb v client r s).0
unfolding take_verb
verb-SameQueue Verb.create client r s = refl
verb-SameQueue Verb.destroy client r s = refl
verb-SameQueue Verb.forward client r s = refl
verb-SameQueue Verb.stop client r s = refl

after_read-SameQueue :
    (client : ℕ) (o : Outcome Request) (s : Server) → SameQueue s (after_read client o s).3
unfolding after_read take_request
after_read-SameQueue client (done r) s = verb-SameQueue r.verb client r s
after_read-SameQueue client closed s = refl
after_read-SameQueue client (threw (api_error e)) s = refl
after_read-SameQueue client (threw parse_error) s = refl
after_read-SameQueue client (threw json_error) s = refl
after_read-SameQueue client stuck s = refl

watch-SameQueue :
    (waiting : List ℕ) (watched : List (Option ℕ)) (s : Server) (es : List Effect)
    → SameQueue s (watch_client waiting watched s es).2
unfolding watch_client
watch-SameQueue [] watched s es = refl
watch-SameQueue (client ∷ rest) watched s es =
    if-either (λ (o : Next × List (Option ℕ) × Server × List Effect). SameQueue s o.2)
      (ltb (1 + length watched) 256) _ _ refl refl

module _ (a : Api) (j : Json) where
  client-SameQueue :
      (gone readable : Bool) (client : ℕ) (s : Server) (w : a.World)
      → SameQueue s (serve_client a j gone readable client s w).0.3
  unfolding serve_client
  client-SameQueue true readable client s w = refl
  client-SameQueue false true client s w = after_read-SameQueue client (read a j client w).0 s
  client-SameQueue false false client s w = refl

  serve-SameQueue :
      (revents : Revents) (c : Option ℕ) (s : Server) (w : a.World)
      → SameQueue s (serve a j revents c s w).0.3
  unfolding serve
  serve-SameQueue revents none s w = refl
  serve-SameQueue revents (some client) s w =
      client-SameQueue revents.gone revents.readable client s w

  after_serve-SameQueue :
      (t : Server) (c : Option ℕ) (cs : List (Option ℕ)) (first : Served × a.World)
      (rest : Server → a.World → Round × a.World)
      → SameQueue t first.0.3
      → SameQueue first.0.3 (rest first.0.3 first.1).0.3
      → SameQueue t (after_serve a j c cs first rest).0.3
  unfolding after_serve
  after_serve-SameQueue t c cs ((Next.again, c', i, s, es), w) rest p q = q ∙ p
  after_serve-SameQueue t c cs ((Next.leave, c', i, s, es), w) rest p q = p
  after_serve-SameQueue t c cs ((Next.undefined, c', i, s, es), w) rest p q = p
  after_serve-SameQueue t c cs ((Next.aborts, c', i, s, es), w) rest p q = p
  after_serve-SameQueue t c cs ((Next.spins, c', i, s, es), w) rest p q = p

  serve_all-SameQueue :
      (events : List Revents) (cs : List (Option ℕ)) (s : Server) (w : a.World)
      → SameQueue s (serve_all a j events cs s w).0.3
  unfolding serve_all
  serve_all-SameQueue events [] s w = refl
  serve_all-SameQueue [] (c ∷ cs) s w = refl
  serve_all-SameQueue (revents ∷ events) (c ∷ cs) s w =
      let first = serve a j revents c s w in
      after_serve-SameQueue s c cs first (serve_all a j events cs) (serve-SameQueue revents c s w)
        (serve_all-SameQueue events cs first.0.3 first.1)

  after_ack-SameQueue :
      (rest : a.World → (Next × Server × List Effect) × a.World) (o : Received) (s : Server)
      (w : a.World)
      → SameQueue s (rest w).0.1
      → SameQueue s (after_ack a j rest o s w).0.1
  unfolding after_ack
  after_ack-SameQueue rest (received []) s w h = h
  after_ack-SameQueue rest (received (b ∷ bytes)) s w h = refl
  after_ack-SameQueue rest (recv_failed e) s w h = fail-SameQueue _ s

  take_ack-SameQueue :
      (fuel : ℕ) (s : Server) (w : a.World) → SameQueue s (take_ack a j fuel s w).0.1
  unfolding take_ack
  take_ack-SameQueue zero s w = refl
  take_ack-SameQueue (suc fuel) s w =
      let o = a.recv s.interrupt_read 1 w in
      after_ack-SameQueue (take_ack a j fuel s) o.0 s o.1 (take_ack-SameQueue fuel s o.1)

  after_watch-SameQueue :
      (t : Server) (watched : List (Option ℕ)) (o : (Next × Server × List Effect) × a.World)
      → SameQueue t o.0.1
      → SameQueue t (watch_after_ack a j watched o).0.2
  after_watch-SameQueue t watched ((Next.again, s, es), w) h =
      unfold watch_next in watch-SameQueue s.new_clients watched s es ∙ h
  after_watch-SameQueue t watched ((Next.leave, s, es), w) h = h
  after_watch-SameQueue t watched ((Next.undefined, s, es), w) h = h
  after_watch-SameQueue t watched ((Next.aborts, s, es), w) h = h
  after_watch-SameQueue t watched ((Next.spins, s, es), w) h = h

  clean_up-SameQueue :
      (t : Server) (o : Round × a.World) → SameQueue t o.0.3 → SameQueue t (clean_up a j o).0.2
  clean_up-SameQueue t ((Next.again, cs, gone, s, es), w) h = invalidate_all-SameQueue gone s ∙ h
  clean_up-SameQueue t ((Next.leave, cs, gone, s, es), w) h = h
  clean_up-SameQueue t ((Next.undefined, cs, gone, s, es), w) h = h
  clean_up-SameQueue t ((Next.aborts, cs, gone, s, es), w) h = h
  clean_up-SameQueue t ((Next.spins, cs, gone, s, es), w) h = h

  abbrev Reading : Type 0
  Reading = (Next × List (Option ℕ) × Server × List Effect) × a.World

  read_polled-SameQueue :
      (fuel : ℕ) (event : ReadEvent) (watched : List (Option ℕ)) (s : Server) (w : a.World)
      → SameQueue s (read_polled a j fuel event watched s w).0.2
  unfolding read_polled refresh
  read_polled-SameQueue fuel (Read.poll_failed e) watched s w = fail-SameQueue _ s
  read_polled-SameQueue fuel Read.none_ready watched s w = refl
  read_polled-SameQueue fuel (Read.ready interrupt events) watched s w =
      if-either (λ (o : Reading). SameQueue s o.0.2) interrupt.gone _ _ refl
        (if-either (λ (o : Reading). SameQueue s o.0.2) interrupt.readable _ _
          (after_watch-SameQueue s watched (take_ack a j fuel s w) (take_ack-SameQueue fuel s w))
          (clean_up-SameQueue s (serve_all a j events watched s w)
            (serve_all-SameQueue events watched s w)))

  pub read_round-SameQueue :
      (fuel : ℕ) (event : ReadEvent) (watched : List (Option ℕ)) (s : Server) (w : a.World)
      → SameQueue s (read_round a j fuel event watched s w).0.2
  unfolding read_round
  read_round-SameQueue fuel event watched s w =
      if-either (λ (o : Reading). SameQueue s o.0.2) s.running _ _
        (read_polled-SameQueue fuel event watched s w) refl

  farewell-SameQueue :
      (id : ℕ) (s : Server) (o : Outcome (Unit {0})) (w : a.World)
      → SameQueue s (after_farewell id s o w).1
  unfolding after_farewell
  farewell-SameQueue id s (done u) w = refl
  farewell-SameQueue id s closed w = refl
  farewell-SameQueue id s (threw (api_error e)) w = refl
  farewell-SameQueue id s (threw parse_error) w = refl
  farewell-SameQueue id s (threw json_error) w = refl
  farewell-SameQueue id s stuck w = refl

  pub unmap-SameQueue :
      (fuel id : ℕ) (r : Response) (s : Server) (w : a.World)
      → SameQueue s (unmap a j fuel id r s w).1
  unfolding unmap
  unmap-SameQueue fuel id r s w =
      let o = write a j fuel (subscript id 0 s.client_map).0 r w in
      farewell-SameQueue id (record s { client_map = (subscript id 0 s.client_map).1 }) o.0 o.1
