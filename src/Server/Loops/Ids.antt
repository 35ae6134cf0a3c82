-- ===== src/Server/Loops/Ids.antt =====
-- The instance ids that the read thread hands out.
use waterproof_wrapper.Base.{
  ℕ, ◌+◌, ◌%◌, ◌^◌, ◌<◌, ◌≤◌, ◌≡◌, sym, subst, arith, Bool, true, false, List, [], ◌∷◌, Option,
  none, some, if◌then◌else◌, ◌==◌, All, Bool-cases, inl, inr, length,
}
use waterproof_wrapper.Base.Maps.{find, insert, All-insert}
use waterproof_wrapper.Utils.Exceptions.{api_error, parse_error, json_error}
use waterproof_wrapper.Platform.{Api}
use waterproof_wrapper.Json.{Json}
use waterproof_wrapper.Message.{Request, Verb}
use waterproof_wrapper.Server.Frame.{Outcome, done, closed, threw, stuck, read}
use waterproof_wrapper.Server.State.{Server, Effect, requested, invalidate}
use waterproof_wrapper.Server.State.Invalidate.{others, invalidate_lem}
use waterproof_wrapper.Server.Loops.{Next, Revents}
use waterproof_wrapper.Server.Loops.Read.{
  Served, Round, take_verb, take_request, after_read, serve_client, serve, serve_all, after_serve,
  invalidate_all,
}

-- The ids that are mapped were handed out before.
abbrev pub IsFresh : Server → Type 0
IsFresh s = All (λ (e : ℕ × ℕ). e.0 < s.next_id) s.client_map

pub All-later :
    (n m : ℕ) (es : List (ℕ × ℕ)) → n ≤ m → All (λ e. e.0 < n) es → All (λ e. e.0 < m) es
All-later n m [] h a = tt
All-later n m (e ∷ es) h a = (omega (arith, h, a.0), All-later n m es h a.1)

-- A step that keeps the ids fresh and hands out one at most.
abbrev pub HandsOutOne : Server → Server → Type 0
HandsOutOne s s' = IsFresh s' × (s'.next_id ≤ s.next_id + 1)

same : (s : Server) → IsFresh s → HandsOutOne s s
same s h = (h, omega arith)

-- What a create request comes to: the subscribers get it with a new id, which is mapped to the client
-- and was not mapped before, and the other mappings stay.
abbrev pub Assigned : ℕ → Request → Server → Server × List Effect → Type 0
Assigned client r s (s', effects) =
    (effects ≡ requested (record r { instance_id = s.next_id }) ∷ [])
    × (find s.next_id s.client_map ≡ none)
    × ((i : ℕ)
        → find i s'.client_map ≡ (if s.next_id == i then some client else find i s.client_map))

pub verb-HandsOutOne :
    (v : Verb) (client : ℕ) (r : Request) (s : Server)
    → s.next_id + 1 < 2 ^ 32
    → IsFresh s
    → HandsOutOne s (take_verb v client r s).0
unfolding take_verb
verb-HandsOutOne Verb.create client r s small h =
    let e : (s.next_id + 1) % 2 ^ 32 ≡ s.next_id + 1 = omega (arith, small) in
    (
      subst (λ n. All (λ (e : ℕ × ℕ). e.0 < n) (insert s.next_id client s.client_map)) (sym e)
          (All-insert _ s.next_id client s.client_map (omega arith)
            (All-later s.next_id (s.next_id + 1) s.client_map (omega arith) h)),
      omega (arith, e),
    )
verb-HandsOutOne Verb.destroy client r s small h = same s h
verb-HandsOutOne Verb.forward client r s small h = same s h
verb-HandsOutOne Verb.stop client r s small h = same s h

read-HandsOutOne :
    (client : ℕ) (o : Outcome Request) (s : Server)
    → s.next_id + 1 < 2 ^ 32
    → IsFresh s
    → HandsOutOne s (after_read client o s).3
unfolding after_read take_request
read-HandsOutOne client (done r) s small h = verb-HandsOutOne r.verb client r s small h
read-HandsOutOne client closed s small h = same s h
read-HandsOutOne client (threw (api_error e)) s small h = same s h
read-HandsOutOne client (threw parse_error) s small h = same s h
read-HandsOutOne client (threw json_error) s small h = same s h
read-HandsOutOne client stuck s small h = same s h

others-All :
    (client n : ℕ) (es : List (ℕ × ℕ))
    → All (λ (e : ℕ × ℕ). e.0 < n) es
    → All (λ (e : ℕ × ℕ). e.0 < n) (others client es)
others-All client n [] h = tt
others-All client n ((i, c) ∷ es) h = elim (Bool-cases (c == client)) [
  | inl e ↦ rw e (others-All client n es h.1)
  | inr e ↦ rw e (h.0, others-All client n es h.1)
]

-- Invalidating a client keeps the mapped ids below the next one.
pub invalidate-IsFresh : (client : ℕ) (s : Server) → IsFresh s → IsFresh (invalidate client s).0
invalidate-IsFresh client s h =
    subst IsFresh (sym (invalidate_lem client s).0) (others-All client s.next_id s.client_map h)

module _ (a : Api) (j : Json) where
  client-HandsOutOne :
      (gone readable : Bool) (client : ℕ) (s : Server) (w : a.World)
      → s.next_id + 1 < 2 ^ 32
      → IsFresh s
      → HandsOutOne s (serve_client a j gone readable client s w).0.3
  unfolding serve_client
  client-HandsOutOne true readable client s w small h = same s h
  client-HandsOutOne false true client s w small h =
      read-HandsOutOne client (read a j client w).0 s small h
  client-HandsOutOne false false client s w small h = same s h

  pub serve-HandsOutOne :
      (revents : Revents) (c : Option ℕ) (s : Server) (w : a.World)
      → s.next_id + 1 < 2 ^ 32
      → IsFresh s
      → HandsOutOne s (serve a j revents c s w).0.3
  unfolding serve
  serve-HandsOutOne revents none s w small h = same s h
  serve-HandsOutOne revents (some client) s w small h =
      client-HandsOutOne revents.gone revents.readable client s w small h

  after_serve-IsFresh :
      (c : Option ℕ) (cs : List (Option ℕ)) (first : Served × a.World)
      (rest : Server → a.World → Round × a.World)
      → IsFresh first.0.3
      → IsFresh (rest first.0.3 first.1).0.3
      → IsFresh (after_serve a j c cs first rest).0.3
  unfolding after_serve
  after_serve-IsFresh c cs ((Next.again, c', i, s, es), w) rest p q = q
  after_serve-IsFresh c cs ((Next.leave, c', i, s, es), w) rest p q = p
  after_serve-IsFresh c cs ((Next.undefined, c', i, s, es), w) rest p q = p
  after_serve-IsFresh c cs ((Next.aborts, c', i, s, es), w) rest p q = p
  after_serve-IsFresh c cs ((Next.spins, c', i, s, es), w) rest p q = p

  serve_all-IsFresh :
      (events : List Revents) (cs : List (Option ℕ)) (s : Server) (w : a.World)
      → s.next_id + length cs < 2 ^ 32
      → IsFresh s
      → IsFresh (serve_all a j events cs s w).0.3
  unfolding serve_all
  serve_all-IsFresh events [] s w small h = h
  serve_all-IsFresh [] (c ∷ cs) s w small h = h
  serve_all-IsFresh (revents ∷ events) (c ∷ cs) s w small h =
      let first = serve a j revents c s w in
      let step = serve-HandsOutOne revents c s w (omega (arith, small)) h in
      after_serve-IsFresh c cs first (serve_all a j events cs) step.0
        (serve_all-IsFresh events cs first.0.3 first.1 (omega (arith, small, step.1)) step.0)

invalidate_all-IsFresh :
    (gone : List ℕ) (s : Server) → IsFresh s → IsFresh (invalidate_all gone s).0
unfolding invalidate_all
invalidate_all-IsFresh [] s h = h
invalidate_all-IsFresh (client ∷ rest) s h =
    invalidate_all-IsFresh rest (invalidate client s).0 (invalidate-IsFresh client s h)

module _ (a : Api) (j : Json) where
  -- A pass of the read thread over its clients, and the invalidation of any sockets behind it, keep
  -- every mapped id below the next one, if the ids are so before and do not run out in the pass.
  pub serve_all-invalidate_all-IsFresh :
      (events : List Revents) (cs : List (Option ℕ)) (gone : List ℕ) (s : Server) (w : a.World)
      → s.next_id + length cs < 2 ^ 32
      → IsFresh s
      → IsFresh (invalidate_all gone (serve_all a j events cs s w).0.3).0
  serve_all-invalidate_all-IsFresh events cs gone s w small h =
      invalidate_all-IsFresh gone _ (serve_all-IsFresh a j events cs s w small h)
