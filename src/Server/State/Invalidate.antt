-- ===== src/Server/State/Invalidate.antt =====
-- What `invalidate` does to the members of the server, and what it tells the subscribers.
use waterproof_wrapper.Base.{
  ℕ, ◌+◌, ◌≡◌, ◌≢◌, refl, ap, arith, Bool-cases, inl, inr, Option, List, [], ◌∷◌, ◌++◌, map, length,
  some, if◌then◌else◌, ◌==◌, All, ==_refl, ne→==,
}
use waterproof_wrapper.Server.State.{
  Server, invalidated, close, close_all, first_id, invalidate_loop, invalidate, remove_client,
}

-- The entries of other clients, in order.
abbrev pub others : ℕ → List (ℕ × ℕ) → List (ℕ × ℕ)
others client [] = []
others client ((id, c) ∷ m) = if c == client then others client m else (id, c) ∷ others client m

invalidate_loop-others :
    (client : ℕ) (m : List (ℕ × ℕ)) → (invalidate_loop client m).0 ≡ others client m
unfolding invalidate_loop
invalidate_loop-others client [] = refl
invalidate_loop-others client ((id, c) ∷ m) = ground (arith, invalidate_loop-others client m)

-- The members and the effects behind `invalidate`, by the parts it is made of.
pub invalidate_lem :
    (client : ℕ) (s : Server)
    → ((invalidate client s).0 ≡ record s {
      clients = remove_client client s.clients;
      client_map = others client s.client_map;
    })
      × ((invalidate client s).1 ≡ (invalidate_loop client s.client_map).1 ++ (close client ∷ []))
unfolding invalidate close_all
invalidate_lem client s = (rw (invalidate_loop-others client s.client_map), refl)

remove_client-first :
    (client : ℕ) (front back : List ℕ)
    → All (λ c. c ≢ client) front
    → remove_client client (front ++ (client ∷ back)) ≡ front ++ back
unfolding remove_client
remove_client-first client [] back h = rw (==_refl client) refl
remove_client-first client (c ∷ front) back h =
    rw (ne→== c client h.0) (ap (λ cs. c ∷ cs) (remove_client-first client front back h.1))

loop_tells :
    (client : ℕ) (m : List (ℕ × ℕ))
    → (told : List (Option ℕ)) × ((invalidate_loop client m).1 ≡ map invalidated told)
      × (length told + length (others client m) ≡ length m)
unfolding invalidate_loop
loop_tells client [] = ([], refl, refl)
loop_tells client ((id, c) ∷ m) =
    let (told, e, n) = loop_tells client m in
    elim (Bool-cases (c == client)) [
      | inl p ↦ (
        first_id m ∷ told,
        rw p (ap (λ es. invalidated (first_id m) ∷ es) e),
        rw p (omega (arith, n)),
      )
      | inr p ↦ (told, rw p e, rw p (omega (arith, n)))
    ]

-- When a client that is in the client list is invalidated, its first place in that list goes and every
-- other place stays; the mappings of the client go and those of the others stay, in order; no other
-- member changes. The subscribers are told once for each mapping that goes, and then, last, the client's
-- socket is closed.
pub invalidate_removes :
    (client : ℕ) (front back : List ℕ) (s : Server)
    → s.clients ≡ front ++ (client ∷ back)
    → All (λ c. c ≢ client) front
    → ((invalidate client s).0
        ≡ record s { clients = front ++ back; client_map = others client s.client_map })
      × ((told : List (Option ℕ)) × ((invalidate client s).1
            ≡ map invalidated told ++ (close client ∷ []))
          × (length told + length (others client s.client_map) ≡ length s.client_map))
invalidate_removes client front back s e h =
    let (state, effects) = invalidate_lem client s in
    let (told, tells, n) = loop_tells client s.client_map in
    (
      rw (state, e, remove_client-first client front back h) refl,
      (told, rw (effects, tells) refl, n),
    )

abbrev pub Elsewhere : ℕ → List (ℕ × ℕ) → Type 0
Elsewhere client = All (λ e. e.1 ≢ client)

loop-Elsewhere :
    (client : ℕ) (m : List (ℕ × ℕ)) → Elsewhere client m → (invalidate_loop client m).1 ≡ []
unfolding invalidate_loop
loop-Elsewhere client [] h = refl
loop-Elsewhere client ((id, c) ∷ m) h = rw (ne→== c client h.0) (loop-Elsewhere client m h.1)

loop_one :
    (client id : ℕ) (front back : List (ℕ × ℕ))
    → Elsewhere client front
    → Elsewhere client back
    → (invalidate_loop client (front ++ ((id, client) ∷ back))).1 ≡ invalidated (first_id back) ∷ []
unfolding invalidate_loop
loop_one client id [] back hf hb = rw (==_refl client, loop-Elsewhere client back hb)
loop_one client id ((i, c) ∷ front) back hf hb =
    rw (ne→== c client hf.0) (loop_one client id front back hf.1 hb)

-- When a client that has one instance is invalidated, and another instance, which another client owns,
-- stands behind it in the map, the subscribers are told of that other instance, once and of nothing else,
-- and then the socket is closed.
pub invalidate_tells_next :
    (client id next owner : ℕ) (front back : List (ℕ × ℕ)) (s : Server)
    → s.client_map ≡ front ++ ((id, client) ∷ (next, owner) ∷ back)
    → Elsewhere client front
    → Elsewhere client ((next, owner) ∷ back)
    → (invalidate client s).1 ≡ invalidated (some next) ∷ close client ∷ []
unfolding invalidate close_all
invalidate_tells_next client id next owner front back s e hf hb =
    rw (e, loop_one client id front ((next, owner) ∷ back) hf hb)
