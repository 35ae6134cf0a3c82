-- ===== src/Server/Loops/Grants.antt =====
-- The ids of the create requests that the threads of the server give to the subscribers.
pub mod Threads
use waterproof_wrapper.Base.{
  ℕ, suc, ◌+◌, ◌%◌, ◌^◌, ◌<◌, ◌≤◌, ◌≡◌, refl, sym, ap, arith, Bool, true, false, List, [], ◌∷◌,
  ◌++◌, length, Option, none, some,
}
use waterproof_wrapper.Utils.Exceptions.{ApiError, api_error, parse_error, json_error}
use waterproof_wrapper.Platform.{Api}
use waterproof_wrapper.Json.{Json}
use waterproof_wrapper.Message.{Request, Verb}
use waterproof_wrapper.Message.Copies.{same, below, below-suc}
use waterproof_wrapper.Server.Frame.{Outcome, done, closed, threw, stuck, read}
use waterproof_wrapper.Server.State.{
  Server, Effect, requested, failed, invalidated, fail, close, close_all, invalidate,
  invalidate_loop,
}
use waterproof_wrapper.Server.Loops.{Next, Revents}
use waterproof_wrapper.Server.Loops.Read.{
  Served, Round, take_verb, take_request, after_read, serve_client, serve, serve_all, after_serve,
  invalidate_all,
}
use waterproof_wrapper.Server.Loops.Ids.{
  IsFresh, verb-HandsOutOne, serve-HandsOutOne, invalidate-IsFresh,
}

-- How often an id is that of a create request among these.
abbrev pub created : ℕ → Verb → ℕ → ℕ
created i Verb.create id = same i id
created i Verb.destroy id = 0
created i Verb.forward id = 0
created i Verb.stop id = 0

abbrev pub creates : ℕ → List Request → ℕ
creates i [] = 0
creates i (r ∷ rs) = created i r.verb r.instance_id + creates i rs

abbrev pub granted : ℕ → List Effect → ℕ
granted i [] = 0
granted i (requested r ∷ es) = created i r.verb r.instance_id + granted i es
granted i (failed e ∷ es) = granted i es
granted i (invalidated o ∷ es) = granted i es
granted i (Effect.notify ∷ es) = granted i es
granted i (Effect.woke ∷ es) = granted i es
granted i (Effect.close n ∷ es) = granted i es

pub granted-append :
    (i : ℕ) (es fs : List Effect) → granted i (es ++ fs) ≡ granted i es + granted i fs
granted-append i [] fs = omega arith
granted-append i (requested r ∷ es) fs = omega (arith, granted-append i es fs)
granted-append i (failed e ∷ es) fs = granted-append i es fs
granted-append i (invalidated o ∷ es) fs = granted-append i es fs
granted-append i (Effect.notify ∷ es) fs = granted-append i es fs
granted-append i (Effect.woke ∷ es) fs = granted-append i es fs
granted-append i (Effect.close n ∷ es) fs = granted-append i es fs

-- A step that grants each id once at most, none that was granted before, and only such as are below the
-- next id then; the mapped ids are below it.
abbrev pub Grants : Server → Server → List Effect → Type 0
Grants s s' es = IsFresh s' × ((i : ℕ) → granted i es + below i s.next_id ≤ below i s'.next_id)

pub Grants-none : (s : Server) → IsFresh s → Grants s s []
Grants-none s h = (h, λ i. omega arith)

pub then-Grants :
    (s t u : Server) (es fs : List Effect) → Grants s t es → Grants t u fs → Grants s u (es ++ fs)
then-Grants s t u es fs p q = (q.0, λ i. omega (arith, granted-append i es fs, p.1 i, q.1 i))

-- The next id does not fall.
pub Grants-rises : (s s' : Server) (es : List Effect) → Grants s s' es → s.next_id ≤ s'.next_id
Grants-rises s s' es h = rises _ s.next_id s'.next_id (h.1 s'.next_id)
  where
    rises : (g n m : ℕ) → g + below m n ≤ below m m → n ≤ m
    rises g n m h = ground arith

pub fail-Grants : (e : ApiError) (s : Server) → IsFresh s → Grants s (fail e s).0 (fail e s).1
unfolding fail close_all
fail-Grants e s h = (h, λ i. omega arith)

loop-granted : (i client : ℕ) (m : List (ℕ × ℕ)) → granted i (invalidate_loop client m).1 ≡ 0
unfolding invalidate_loop
loop-granted i client [] = refl
loop-granted i client ((id, c) ∷ m) = ground (arith, loop-granted i client m)

pub invalidate-Grants :
    (client : ℕ) (s : Server) → IsFresh s → Grants s (invalidate client s).0 (invalidate client s).1
invalidate-Grants client s h = (
  invalidate-IsFresh client s h,
  λ i.
      unfold invalidate close_all in
      omega (
        arith,
        granted-append i (invalidate_loop client s.client_map).1 (close client ∷ []),
        loop-granted i client s.client_map,
      ),
)

pub invalidate_all-Grants :
    (gone : List ℕ) (s : Server)
    → IsFresh s
    → Grants s (invalidate_all gone s).0 (invalidate_all gone s).1
unfolding invalidate_all
invalidate_all-Grants [] s h = Grants-none s h
invalidate_all-Grants (client ∷ rest) s h =
    let first = invalidate client s in
    let more = invalidate_all rest first.0 in
    let step = invalidate-Grants client s h in
    then-Grants s first.0 more.0 first.1 more.1 step (invalidate_all-Grants rest first.0 step.0)

created-same : (i id : ℕ) (v : Verb) → created i v id ≤ same i id
created-same i id Verb.create = omega arith
created-same i id Verb.destroy = omega arith
created-same i id Verb.forward = omega arith
created-same i id Verb.stop = omega arith

verb-Grants :
    (v : Verb) (client : ℕ) (r : Request) (s : Server)
    → r.verb ≡ v
    → s.next_id + 1 < 2 ^ 32
    → IsFresh s
    → Grants s (take_verb v client r s).0 (take_verb v client r s).1
unfolding take_verb
verb-Grants Verb.create client r s e small h =
    let n : (s.next_id + 1) % 2 ^ 32 ≡ suc s.next_id = omega (arith, small) in
    (
      (verb-HandsOutOne Verb.create client r s small h).0,
      λ i. omega (arith, created-same i s.next_id r.verb, below-suc i s.next_id, ap (below i) n),
    )
verb-Grants Verb.destroy client r s e small h =
    (h, λ i. omega (arith, ap (λ v. created i v r.instance_id) e))
verb-Grants Verb.forward client r s e small h =
    (h, λ i. omega (arith, ap (λ v. created i v r.instance_id) e))
verb-Grants Verb.stop client r s e small h =
    (h, λ i. omega (arith, ap (λ v. created i v r.instance_id) e))

read-Grants :
    (client : ℕ) (o : Outcome Request) (s : Server)
    → s.next_id + 1 < 2 ^ 32
    → IsFresh s
    → Grants s (after_read client o s).3 (after_read client o s).4
unfolding after_read take_request
read-Grants client (done r) s small h = verb-Grants r.verb client r s refl small h
read-Grants client closed s small h = Grants-none s h
read-Grants client (threw (api_error e)) s small h = Grants-none s h
read-Grants client (threw parse_error) s small h = Grants-none s h
read-Grants client (threw json_error) s small h = Grants-none s h
read-Grants client stuck s small h = Grants-none s h

module _ (a : Api) (j : Json) where
  client-Grants :
      (gone readable : Bool) (client : ℕ) (s : Server) (w : a.World)
      → s.next_id + 1 < 2 ^ 32
      → IsFresh s
      → let o = (serve_client a j gone readable client s w).0 in Grants s o.3 o.4
  unfolding serve_client
  client-Grants true readable client s w small h = Grants-none s h
  client-Grants false true client s w small h = read-Grants client (read a j client w).0 s small h
  client-Grants false false client s w small h = Grants-none s h

  serve-Grants :
      (revents : Revents) (c : Option ℕ) (s : Server) (w : a.World)
      → s.next_id + 1 < 2 ^ 32
      → IsFresh s
      → let o = (serve a j revents c s w).0 in Grants s o.3 o.4
  unfolding serve
  serve-Grants revents none s w small h = Grants-none s h
  serve-Grants revents (some client) s w small h =
      client-Grants revents.gone revents.readable client s w small h

  after_serve-Grants :
      (t : Server) (c : Option ℕ) (cs : List (Option ℕ)) (first : Served × a.World)
      (rest : Server → a.World → Round × a.World)
      → Grants t first.0.3 first.0.4
      → (let o = rest first.0.3 first.1 in Grants first.0.3 o.0.3 o.0.4)
      → let o = after_serve a j c cs first rest in Grants t o.0.3 o.0.4
  unfolding after_serve
  after_serve-Grants t c cs ((Next.again, c', i, s, es), w) rest p q =
      let o = rest s w in then-Grants t s o.0.3 es o.0.4 p q
  after_serve-Grants t c cs ((Next.leave, c', i, s, es), w) rest p q = p
  after_serve-Grants t c cs ((Next.undefined, c', i, s, es), w) rest p q = p
  after_serve-Grants t c cs ((Next.aborts, c', i, s, es), w) rest p q = p
  after_serve-Grants t c cs ((Next.spins, c', i, s, es), w) rest p q = p

  pub serve_all-Grants :
      (events : List Revents) (cs : List (Option ℕ)) (s : Server) (w : a.World)
      → s.next_id + length cs < 2 ^ 32
      → IsFresh s
      → let o = (serve_all a j events cs s w).0 in Grants s o.3 o.4
  unfolding serve_all
  serve_all-Grants events [] s w small h = Grants-none s h
  serve_all-Grants [] (c ∷ cs) s w small h = Grants-none s h
  serve_all-Grants (revents ∷ events) (c ∷ cs) s w small h =
      let first = serve a j revents c s w in
      let step = serve-HandsOutOne a j revents c s w (omega (arith, small)) h in
      after_serve-Grants s c cs first (serve_all a j events cs)
        (serve-Grants revents c s w (omega (arith, small)) h)
        (serve_all-Grants events cs first.0.3 first.1 (omega (arith, small, step.1)) step.0)
