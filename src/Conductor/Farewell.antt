-- ===== src/Conductor/Farewell.antt =====
-- A destroy request whose client can be reached.
use waterproof_wrapper.Base.{
  true, [], ◌∷◌, some, ap, ◌∙◌, ℕ, ◌+◌, ◌%◌, ◌^◌, ◌≤◌, ◌≡◌, refl, sym, subst, List, ◌++◌, none,
  Text, length, if◌then◌else◌, ◌==◌,
}
use waterproof_wrapper.Base.Maps
use waterproof_wrapper.Base.Maps.{find, subscript, subscript_found, find-erase}
use waterproof_wrapper.Platform.{Api, IsStream, IsReliable}
use waterproof_wrapper.Json.{Json}
use waterproof_wrapper.Message.{Request, Verb, response_to_json}
use waterproof_wrapper.Server.Frame.{Outcome, done, write}
use waterproof_wrapper.Server.Frame.RoundTrip.{frame, IsShort}
use waterproof_wrapper.Server.Frame.Write.{write-frame}
use waterproof_wrapper.Server.State.{unmap, after_farewell}
use waterproof_wrapper.Conductor.{
  Conductor, Flow, Effect, destruction, handle_request, handle_verb, handle_destroy, erase_worker,
  create_empty_response, unmapped, destroyed, join_threads, after_join,
}
use waterproof_wrapper.Worker.Posix.{Worker}
use waterproof_wrapper.Conductor.Service.Breaks.{farewell}

module _ (a : Api) (stream : IsStream a) (client : ℕ) (j : Json) where
  open stream use {outbox}

  -- The request returns; the instance has no worker and no client any more, and all others have theirs;
  -- its worker is destroyed; and its client has got this message.
  abbrev pub Farewelled :
      Text → ℕ → Worker → Conductor → a.World → (Flow × Conductor × List Effect) × a.World → Type 0
  Farewelled raw id k c w o =
      (o.0.0 ≡ Flow.returns)
      × ((i : ℕ) → find i o.0.1.workers ≡ (if id == i then none else find i c.workers))
      × ((i : ℕ)
          → find i o.0.1.server.client_map ≡ (if id == i then none else find i c.server.client_map))
      × (o.0.2 ≡ destroyed k ∷ [])
      × (outbox client o.1 ≡ outbox client w ++ frame raw)

  -- The conductor without the worker, before the mapping is erased.
  abbrev workerless : ℕ → Conductor → Conductor
  workerless id c = record c {
    next_id = (c.next_id + 1) % 2 ^ 64;
    workers = Maps.erase id c.workers;
  }

  abbrev unmapping_with :
      ℕ
      → Conductor
      → ℕ × List (ℕ × ℕ)
      → Outcome (Unit {0}) × a.World
      → (Flow × Conductor × List Effect) × a.World
  unmapping_with id c found o =
      let left = after_farewell id (record c.server { client_map = found.1 }) o.0 o.1 in
      (
        (
          unmapped left.0,
          record (workerless id c) { server = left.1 },
          destruction (find id c.workers),
        ),
        left.2,
      )

  abbrev unmapping :
      ℕ → Conductor → Outcome (Unit {0}) × a.World → (Flow × Conductor × List Effect) × a.World
  unmapping id c o = unmapping_with id c (client, c.server.client_map) o

  sent-Farewelled :
      (raw : Text) (id : ℕ) (k : Worker) (c : Conductor) (w : a.World)
      (o : Outcome (Unit {0}) × a.World)
      → find id c.workers ≡ some (some k)
      → o.0 ≡ done tt
      → outbox client o.1 ≡ outbox client w ++ frame raw
      → Farewelled raw id k c w (unmapping id c o)
  sent-Farewelled raw id k c w o f e h =
      subst (λ r. Farewelled raw id k c w (unmapping id c (r, o.1))) (sym e)
        (unfold after_farewell in
          (
            refl,
            λ i. find-erase id i c.workers,
            λ i. find-erase id i c.server.client_map,
            ap destruction f,
            h,
          ))

  destroy-Farewelled :
      IsReliable a stream client
      → (fuel : ℕ) (r : Request) (raw : Text) (k : Worker) (c : Conductor) (w : a.World)
      → find r.instance_id c.workers ≡ some (some k)
      → a.threads_end k.id ≡ true
      → find r.instance_id c.server.client_map ≡ some client
      → j.dump (response_to_json j (farewell c.next_id r.instance_id)) ≡ some raw
      → IsShort raw
      → length (frame raw) ≤ fuel
      → Farewelled raw r.instance_id k c w (handle_destroy a j fuel r c w)
  unfolding handle_destroy erase_worker create_empty_response unmap after_join
  destroy-Farewelled reliable fuel r raw k c w f t m d short enough =
      let id = r.instance_id in
      let message = farewell c.next_id id in
      let wrote = write-frame a stream client j reliable fuel message raw w d short enough in
      let joined : join_threads a (find id c.workers) ≡ Flow.returns =
        ap (join_threads a) f
        ∙ unfold join_threads in ap (λ b. if b then Flow.returns else Flow.waits) t in
      let result = λ (found : ℕ × List (ℕ × ℕ)).
        unmapping_with id c found (write a j fuel found.0 message w) in
      subst
        (λ flow. Farewelled raw id k c w (
          after_join flow (record c { workers = Maps.erase id c.workers })
            (destruction (find id c.workers)) w (result (subscript id 0 c.server.client_map))))
        (sym joined)
        (subst (λ found. Farewelled raw id k c w (result found))
          (sym (subscript_found id 0 client c.server.client_map m))
          (sent-Farewelled raw id k c w (write a j fuel client message w) f wrote.0 wrote.1))

  -- A destroy request for an instance that has a worker, whose threads end when they are joined, and that
  -- is mapped to this client, returns: that worker is destroyed, and no other; the instance has no
  -- worker and no client any more, while all others keep theirs; and the client has got the response of
  -- success to it, as one message. On the client's socket no call fails, the response has a JSON text
  -- shorter than 2 ^ 31 bytes, and the loops may run as often as the message has bytes.
  pub handle_destroy-Farewelled :
      IsReliable a stream client
      → (fuel : ℕ) (r : Request) (raw : Text) (k : Worker) (c : Conductor) (w : a.World)
      → r.verb ≡ Verb.destroy
      → find r.instance_id c.workers ≡ some (some k)
      → a.threads_end k.id ≡ true
      → find r.instance_id c.server.client_map ≡ some client
      → j.dump (response_to_json j (farewell c.next_id r.instance_id)) ≡ some raw
      → IsShort raw
      → length (frame raw) ≤ fuel
      → Farewelled raw r.instance_id k c w (handle_request a j fuel r c w)
  unfolding handle_request handle_verb
  handle_destroy-Farewelled reliable fuel r raw k c w v f t m d short enough =
      subst (λ v. Farewelled raw r.instance_id k c w (handle_verb a j fuel v r c w)) (sym v)
        (destroy-Farewelled reliable fuel r raw k c w f t m d short enough)
