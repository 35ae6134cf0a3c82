-- ===== src/Conductor/Issued/Steps.antt =====
-- The ids of the instances over the requests.
use waterproof_wrapper.Base.{
  ℕ, ◌+◌, ◌%◌, ◌^◌, ◌<◌, ◌≤◌, ◌≡◌, refl, sym, ap, subst, arith, List, [], ◌∷◌, ◌++◌, Option, none,
  some, Text, ◌⊎◌, inl, All, All-append,
}
use waterproof_wrapper.Base.Maps
use waterproof_wrapper.Base.Maps.{
  find, subscript, insert, erase, find-erase, find-insert, find-replace, found_or, All-insert,
}
use waterproof_wrapper.Utils.Exceptions.{api_error, parse_error, json_error}
use waterproof_wrapper.Utils.Config.{Configured, configured, config_threw, config}
use waterproof_wrapper.Platform.{Api}
use waterproof_wrapper.Json.{Json}
use waterproof_wrapper.Message.{Request, Verb, Response, Status}
use waterproof_wrapper.Message.Copies.{same, below}
use waterproof_wrapper.Server.Frame.{Outcome, done, closed, threw, stuck, write}
use waterproof_wrapper.Server.State.{Server, unmap, after_farewell}
use waterproof_wrapper.Server.Loops.Ids.{IsFresh}
use waterproof_wrapper.Server.Loops.Grants.{created, creates}
use waterproof_wrapper.Server.Loops.Grants.Threads.{AllBelow}
use waterproof_wrapper.Worker.Posix.{Worker, Started, started, start_threw, child, start}
use waterproof_wrapper.Conductor.{
  Conductor, Flow, Effect, launched, destruction, handle_request, handle_verb, handle_create,
  create_worker, after_start, insert_worker, answer_create, handle_destroy, erase_worker,
  after_join, join_threads, create_empty_response, forward_to, unmapped,
}
use waterproof_wrapper.Conductor.Responses.{create_response}
use waterproof_wrapper.Conductor.Round.{after_front, drain}
use waterproof_wrapper.Conductor.Issued.{
  IssuedWith, Kept, has, has-erase, has-insert, has-replace, erase-All, weaken-All,
}

granted_below : (id n x : ℕ) → same id id + x ≤ below id n → id < n
granted_below id n x h = ground arith

-- An answer to a create request that is under way.
answered-Issued :
    (n id : ℕ) (status : Status) (content : Text) (rs : List Request) (c d : Conductor)
    → id < c.server.next_id
    → ((i : ℕ) → creates i rs + has i d.workers ≤ below i c.server.next_id)
    → d.server ≡ c.server
    → d.out_queue ≡ c.out_queue
    → IssuedWith (rs) c
    → IssuedWith rs (answer_create n id status content d)
unfolding answer_create
answered-Issued n id status content rs c d small counts e q h =
    subst
      (λ (s : Server).
        ((i : ℕ) → creates i rs + has i d.workers ≤ below i s.next_id)
        × AllBelow s.next_id (d.out_queue ++ (create_response n id status content ∷ []))
        × AllBelow s.next_id s.response_queue
        × IsFresh s)
      (sym e)
      (
        counts,
        subst (λ out. AllBelow c.server.next_id (out ++ (create_response n id status content ∷ [])))
            (sym q)
            (All-append (λ (r : Response). r.instance_id < c.server.next_id) c.out_queue
              (create_response n id status content ∷ []) h.1 (small, tt)),
        h.2,
        h.3,
      )

-- A worker that is inserted for a create request.
inserted-Issued :
    (n : ℕ) (content : Text) (k : Worker) (r : Request) (rs : List Request) (c : Conductor)
    (o : Option (Option Worker))
    → r.verb ≡ Verb.create
    → IssuedWith (r ∷ rs) c
    → IssuedWith rs
        (answer_create n r.instance_id Status.success content (insert_worker r.instance_id k c o).0)
unfolding insert_worker
inserted-Issued n content k r rs c none v h =
    let id = r.instance_id in
    answered-Issued n id Status.success content rs c
      (record c { workers = Maps.insert id (some k) c.workers })
      (granted_below id c.server.next_id (creates id rs + has id c.workers)
        (omega (arith, h.0 id, ap (λ v. created id v id) v)))
      (λ i. omega (arith, h.0 i, ap (λ v. created i v id) v, has-insert i id (some k) c.workers))
      refl refl ((λ i. omega (arith, h.0 i)), h.1, h.2, h.3)
inserted-Issued n content k r rs c (some p) v h =
    let id = r.instance_id in
    answered-Issued n id Status.success content rs c c
      (granted_below id c.server.next_id (creates id rs + has id c.workers)
        (omega (arith, h.0 id, ap (λ v. created id v id) v)))
      (λ i. omega (arith, h.0 i)) refl refl ((λ i. omega (arith, h.0 i)), h.1, h.2, h.3)

started-Issued :
    (n : ℕ) (o : Started) (r : Request) (rs : List Request) (c : Conductor)
    → r.verb ≡ Verb.create
    → IssuedWith (r ∷ rs) c
    → Kept (IssuedWith rs) (after_start n r.instance_id o c)
unfolding after_start
started-Issued n (started k) r rs c v h =
    inserted-Issued n [] k r rs c (find r.instance_id c.workers) v h
started-Issued n (start_threw e) r rs c v h =
    let id = r.instance_id in
    answered-Issued n id Status.failure e.what rs c c
      (granted_below id c.server.next_id (creates id rs + has id c.workers)
        (omega (arith, h.0 id, ap (λ v. created id v id) v)))
      (λ i. omega (arith, h.0 i)) refl refl ((λ i. omega (arith, h.0 i)), h.1, h.2, h.3)
started-Issued n child r rs c v h = tt

forward-Issued :
    (id : ℕ) (content : Text) (o : Option (Option Worker)) (r : Request) (rs : List Request)
    (c : Conductor)
    → find id c.workers ≡ o
    → IssuedWith (r ∷ rs) c
    → Kept (IssuedWith rs) (forward_to id content o c)
unfolding forward_to
forward-Issued id content none r rs c e h = tt
forward-Issued id content (some none) r rs c e h = tt
forward-Issued id content (some (some k)) r rs c e h =
    (λ i. omega (arith, h.0 i, has-replace i id _ (some k) c.workers e), h.1, h.2, h.3)

-- What `unmap` leaves.
farewell-Issued :
    {W : Type 0} (id : ℕ) (rs : List Request) (d : Conductor) (s : Server) (o : Outcome (Unit {0}))
    (w : W) (effects : List Effect)
    → IssuedWith rs (record d { server = record s { client_map = [] } })
    → All (λ (e : ℕ × ℕ). (e.0 ≡ id) ⊎ (e.0 < s.next_id)) s.client_map
    → let left = after_farewell id s o w in
      Kept (IssuedWith rs) (unmapped left.0, record d { server = left.1 }, effects)
unfolding after_farewell
farewell-Issued id rs d s (done tt) w effects h m = (h.0, h.1, h.2, erase-All _ id s.client_map m)
farewell-Issued id rs d s (threw (api_error e)) w effects h m =
    (h.0, h.1, h.2, erase-All _ id s.client_map m)
farewell-Issued id rs d s (threw parse_error) w effects h m = tt
farewell-Issued id rs d s (threw json_error) w effects h m = tt
farewell-Issued id rs d s closed w effects h m = tt
farewell-Issued id rs d s stuck w effects h m = tt

joined-Kept :
    {W : Type 0} (P : Conductor → Type 0) (flow : Flow) (c : Conductor) (effects : List Effect)
    (w : W) (rest : (Flow × Conductor × List Effect) × W)
    → Kept P rest.0
    → Kept P (after_join flow c effects w rest).0
unfolding after_join
joined-Kept P Flow.returns c effects w rest h = h
joined-Kept P Flow.undefined c effects w rest h = tt
joined-Kept P Flow.aborts c effects w rest h = tt
joined-Kept P Flow.becomes_child c effects w rest h = tt
joined-Kept P Flow.waits c effects w rest h = tt

module _ (a : Api) (j : Json) where
  create-Issued :
      (n : ℕ) (o : Configured) (r : Request) (rs : List Request) (c : Conductor) (w : a.World)
      → r.verb ≡ Verb.create
      → IssuedWith (r ∷ rs) c
      → Kept (IssuedWith rs) (create_worker a j n r.instance_id o c w).0
  unfolding create_worker
  create-Issued n (config_threw e) r rs c w v h = tt
  create-Issued n (configured conf) r rs c w v h = joined-Kept (IssuedWith rs) _ _ _ _ _ (
      flow (after_start n r.instance_id (start a r.instance_id w).0.0 c)
        (started-Issued n (start a r.instance_id w).0.0 r rs c v h))
    where
      flow :
          (o : Flow × Conductor × List Effect)
          → Kept (IssuedWith rs) o
          → Kept (IssuedWith rs) (o.0, o.1, launched r.instance_id conf ∷ o.2)
      flow (Flow.returns, c, es) h = h
      flow (Flow.undefined, c, es) h = tt
      flow (Flow.aborts, c, es) h = tt
      flow (Flow.becomes_child, c, es) h = tt
      flow (Flow.waits, c, es) h = tt

  verb-Issued :
      (fuel : ℕ) (v : Verb) (r : Request) (rs : List Request) (c : Conductor) (w : a.World)
      → r.verb ≡ v
      → IssuedWith (r ∷ rs) c
      → Kept (IssuedWith rs) (handle_verb a j fuel v r c w).0
  unfolding handle_verb handle_create handle_destroy erase_worker create_empty_response unmap
      subscript
  verb-Issued fuel Verb.create r rs c w e h =
      create-Issued c.next_id (config j r.content) r rs
        (record c { next_id = (c.next_id + 1) % 2 ^ 64 }) w e h
  verb-Issued fuel Verb.destroy r rs c w e h =
      let id = r.instance_id in
      let d : Conductor = record c {
        next_id = (c.next_id + 1) % 2 ^ 64;
        workers = Maps.erase id c.workers;
      } in
      let found = subscript id 0 c.server.client_map in
      let response : Response = record (create_response c.next_id id Status.success []) {
        verb = Verb.destroy;
      } in
      let o = write a j fuel found.0 response w in
      joined-Kept (IssuedWith rs) (join_threads a (find id c.workers)) _ _ _ _ (
        farewell-Issued id rs d (record c.server { client_map = found.1 }) o.0 o.1
          (destruction (find id c.workers))
          (λ i. omega (arith, h.0 i, has-erase i r.instance_id c.workers), h.1, h.2, tt)
          (All-insert _ r.instance_id 0 c.server.client_map (inl refl) (
            weaken-All (λ (e : ℕ × ℕ). e.0 < c.server.next_id) r.instance_id c.server.client_map
              h.3)))
  verb-Issued fuel Verb.forward r rs c w e h =
      forward-Issued r.instance_id r.content (find r.instance_id c.workers) r rs c refl h
  verb-Issued fuel Verb.stop r rs c w e h = (λ i. omega (arith, h.0 i), h.1, h.2, h.3)

  front-Kept :
      (P Q : Conductor → Type 0) (first rest : (Flow × Conductor × List Effect) × a.World)
      → Kept P first.0
      → (P first.0.1 → Kept Q rest.0)
      → Kept Q (after_front first rest).0
  unfolding after_front
  front-Kept P Q ((Flow.returns, c, es), w) ((Flow.returns, d, fs), v) h g = g h
  front-Kept P Q ((Flow.returns, c, es), w) ((Flow.undefined, d, fs), v) h g = tt
  front-Kept P Q ((Flow.returns, c, es), w) ((Flow.aborts, d, fs), v) h g = tt
  front-Kept P Q ((Flow.returns, c, es), w) ((Flow.becomes_child, d, fs), v) h g = tt
  front-Kept P Q ((Flow.returns, c, es), w) ((Flow.waits, d, fs), v) h g = tt
  front-Kept P Q ((Flow.undefined, c, es), w) rest h g = tt
  front-Kept P Q ((Flow.aborts, c, es), w) rest h g = tt
  front-Kept P Q ((Flow.becomes_child, c, es), w) rest h g = tt
  front-Kept P Q ((Flow.waits, c, es), w) rest h g = tt

  -- The requests in turn.
  abbrev pub Drained : Conductor → Type 0
  Drained c = IssuedWith [] c × (c.in_queue ≡ [])

  pub drain-Issued :
      (fuel : ℕ) (rs : List Request) (c : Conductor) (w : a.World)
      → IssuedWith rs c
      → Kept Drained (drain a j fuel rs c w).0
  unfolding drain handle_request
  drain-Issued fuel [] c w h = (h, refl)
  drain-Issued fuel (r ∷ rs) c w h =
      let d : Conductor = record c { in_queue = r ∷ rs } in
      let first = handle_verb a j fuel r.verb r d w in
      front-Kept (IssuedWith rs) Drained first (drain a j fuel rs first.0.1 first.1)
        (verb-Issued fuel r.verb r rs d w refl h) (drain-Issued fuel rs first.0.1 first.1)
