-- ===== src/Server/Loops/Read.antt =====
-- `read_loop`. The array `waitfds` has 256 places: the first is the interrupt's, the others are the
-- clients' in the order in which they came. A file descriptor of -1, which `poll` skips, is `none`.
use waterproof_wrapper.Base.{
  Bool, true, false, ℕ, zero, suc, ◌+◌, ◌%◌, ◌^◌, ℤ, List, [], ◌∷◌, ◌++◌, Option, none, some, codes,
  if◌then◌else◌, ltb, length,
}
use waterproof_wrapper.Base.Maps.{insert}
use waterproof_wrapper.Utils.Exceptions.{api_error, parse_error, json_error, coded_error}
use waterproof_wrapper.Platform.{Api, Received, received, recv_failed}
use waterproof_wrapper.Json.{Json}
use waterproof_wrapper.Message.{Request, Verb}
use waterproof_wrapper.Server.Frame.{Outcome, done, closed, threw, stuck, read}
use waterproof_wrapper.Server.State.{Server, Effect, requested, fail, invalidate}
use waterproof_wrapper.Server.Loops.{Next, Revents}

abbrev pub waitfds_size : ℕ
waitfds_size = 256

pub data ReadEvent : Type 0 where
  poll_failed : ℤ → ReadEvent
  none_ready : ReadEvent
  ready : Revents → List Revents → ReadEvent

-- A request is given to the subscribers; a create request gets the next id, which is mapped to the
-- socket. `next_id_` is an `unsigned int`.
unfoldable pub take_verb : Verb → ℕ → Request → Server → Server × List Effect
take_verb Verb.create client request s = (
  record s {
    next_id = (s.next_id + 1) % 2 ^ 32;
    client_map = insert s.next_id client s.client_map;
  },
  requested (record request { instance_id = s.next_id }) ∷ [],
)
take_verb Verb.destroy client request s = (s, requested request ∷ [])
take_verb Verb.forward client request s = (s, requested request ∷ [])
take_verb Verb.stop client request s = (s, requested request ∷ [])

unfoldable pub take_request : ℕ → Request → Server → Server × List Effect
unfolding take_verb
take_request client request s = take_verb request.verb client request s

-- How it goes on, the place or places of clients, the sockets found invalid, the members, and the
-- effects: for one client, and for all of them.
abbrev pub Round : Type 0
Round = Next × List (Option ℕ) × List ℕ × Server × List Effect

abbrev pub Served : Type 0
Served = Next × Option ℕ × List ℕ × Server × List Effect

unfoldable pub after_read : ℕ → Outcome Request → Server → Served
unfolding take_request
after_read client (done request) s =
    let (s', effects) = take_request client request s in (Next.again, some client, [], s', effects)
after_read client closed s = (Next.again, none, client ∷ [], s, [])
after_read client (threw (api_error e)) s = (Next.again, none, client ∷ [], s, [])
after_read client (threw parse_error) s = (Next.again, some client, [], s, [])
after_read client (threw json_error) s = (Next.aborts, some client, [], s, [])
after_read client stuck s = (Next.spins, some client, [], s, [])

-- `for (const auto& socket: invalid_sockets) invalidate(socket);`
unfoldable pub invalidate_all : List ℕ → Server → Server × List Effect
invalidate_all [] s = (s, [])
invalidate_all (client ∷ rest) s =
    let (s', effects) = invalidate client s in
    let (s'', more) = invalidate_all rest s' in (s'', effects ++ more)

-- The client that came first among the new ones is put behind the others. Neither the empty queue nor
-- the full array is tested for.
unfoldable pub watch_client :
    List ℕ → List (Option ℕ) → Server → List Effect → Next × List (Option ℕ) × Server × List Effect
watch_client [] watched s effects = (Next.undefined, watched, s, effects)
watch_client (client ∷ rest) watched s effects =
    if ltb (1 + length watched) waitfds_size
    then (Next.again, watched ++ (some client ∷ []), record s { new_clients = rest }, effects)
    else (Next.undefined, watched, record s { new_clients = rest }, effects)

unfoldable pub watch_next :
    List (Option ℕ) → Server × List Effect → Next × List (Option ℕ) × Server × List Effect
unfolding watch_client
watch_next watched (s, effects) = watch_client s.new_clients watched s effects

module _ (a : Api) (j : Json) where
  open a use {World, recv, format_code}

  -- A client, given whether it is gone and whether it can be read from.
  unfoldable pub serve_client : Bool → Bool → ℕ → Server → World → Served × World
  unfolding after_read
  serve_client true readable client s w = ((Next.again, none, client ∷ [], s, []), w)
  serve_client false true client s w =
      let (o, w') = read a j client w in (after_read client o s, w')
  serve_client false false client s w = ((Next.again, some client, [], s, []), w)

  unfoldable pub serve : Revents → Option ℕ → Server → World → Served × World
  unfolding serve_client
  serve revents none s w = ((Next.again, none, [], s, []), w)
  serve revents (some client) s w = serve_client revents.gone revents.readable client s w

  unfoldable pub after_serve :
      Option ℕ → List (Option ℕ) → Served × World → (Server → World → Round × World) → Round × World
  after_serve c cs ((Next.again, c', invalid, s, effects), w) rest =
      let ((next, cs', more, s', later), w') = rest s w in
      ((next, c' ∷ cs', invalid ++ more, s', effects ++ later), w')
  after_serve c cs ((Next.leave, c', invalid, s, effects), w) rest =
      ((Next.leave, c' ∷ cs, invalid, s, effects), w)
  after_serve c cs ((Next.undefined, c', invalid, s, effects), w) rest =
      ((Next.undefined, c' ∷ cs, invalid, s, effects), w)
  after_serve c cs ((Next.aborts, c', invalid, s, effects), w) rest =
      ((Next.aborts, c' ∷ cs, invalid, s, effects), w)
  after_serve c cs ((Next.spins, c', invalid, s, effects), w) rest =
      ((Next.spins, c' ∷ cs, invalid, s, effects), w)

  -- The clients in turn. Where `poll` says nothing of a client, nothing happened to it.
  unfoldable pub serve_all : List Revents → List (Option ℕ) → Server → World → Round × World
  unfolding serve after_serve
  serve_all events [] s w = ((Next.again, [], [], s, []), w)
  serve_all [] (c ∷ cs) s w = ((Next.again, c ∷ cs, [], s, []), w)
  serve_all (revents ∷ events) (c ∷ cs) s w =
      after_serve c cs (serve revents c s w) (serve_all events cs)

  unfoldable pub after_ack :
      (World → (Next × Server × List Effect) × World)
      → Received
      → Server
      → World
      → (Next × Server × List Effect) × World
  after_ack again (received []) s w = again w
  after_ack again (received (b ∷ bytes)) s w = ((Next.again, s, []), w)
  after_ack again (recv_failed e) s w =
      let (s', effects) =
        fail (coded_error format_code (codes "unable to read from interrupt fd") e) s in
      ((Next.again, s', effects), w)

  -- `while (read == 0)` over the interrupt. An error is reported, and the loop is left.
  unfoldable pub take_ack : ℕ → Server → World → (Next × Server × List Effect) × World
  unfolding after_ack
  take_ack zero s w = ((Next.spins, s, []), w)
  take_ack (suc fuel) s w =
      let (result, w') = recv s.interrupt_read 1 w in after_ack (take_ack fuel s) result s w'

  abbrev pub watch_after_ack :
      List (Option ℕ)
      → (Next × Server × List Effect) × World
      → (Next × List (Option ℕ) × Server × List Effect) × World
  watch_after_ack watched ((Next.again, s, effects), w) = (watch_next watched (s, effects), w)
  watch_after_ack watched ((next, s, effects), w) = ((next, watched, s, effects), w)

  -- A character on the interrupt: a new client.
  unfoldable pub refresh :
      ℕ → List (Option ℕ) → Server → World → (Next × List (Option ℕ) × Server × List Effect) × World
  unfolding take_ack watch_next
  refresh fuel watched s w = watch_after_ack watched (take_ack fuel s w)

  abbrev pub clean_up : Round × World → (Next × List (Option ℕ) × Server × List Effect) × World
  clean_up ((Next.again, watched, invalid, s, effects), w) =
      let (s', more) = invalidate_all invalid s in ((Next.again, watched, s', effects ++ more), w)
  clean_up ((next, watched, invalid, s, effects), w) = ((next, watched, s, effects), w)

  unfoldable pub read_polled :
      ℕ
      → ReadEvent
      → List (Option ℕ)
      → Server
      → World
      → (Next × List (Option ℕ) × Server × List Effect) × World
  unfolding refresh serve_all invalidate_all
  read_polled fuel (poll_failed e) watched s w =
      let (s', effects) =
        fail (coded_error format_code (codes "unable to wait on interrupt/client fds") e) s in
      ((Next.leave, watched, s', effects), w)
  read_polled fuel none_ready watched s w = ((Next.again, watched, s, []), w)
  read_polled fuel (ready interrupt events) watched s w =
      if interrupt.gone
      then ((Next.leave, watched, s, []), w)
      else if interrupt.readable
      then refresh fuel watched s w
      else clean_up (serve_all events watched s w)

  unfoldable pub read_round :
      ℕ
      → ReadEvent
      → List (Option ℕ)
      → Server
      → World
      → (Next × List (Option ℕ) × Server × List Effect) × World
  unfolding read_polled
  read_round fuel event watched s w =
      if s.running then read_polled fuel event watched s w else ((Next.leave, watched, s, []), w)
