-- ===== src/Base/Maps.antt =====
-- A `std::map` with unsigned keys, as the list of its entries in the order of the keys.
use Prim.Native.Nat.{ℕ, ◌<◌}
use mathlib.Core.Path.{◌≡◌, refl, ap, sym, ◌∙◌}
use mathlib.Core.Logic.{inl, inr}
use mathlib.Core.Bool.{Bool, true, false}
use mathlib.Core.Option.{Option, none, some}
use mathlib.Core.List.{List, [], ◌∷◌}
use native.Mathlib.Omega.{arith}
use waterproof_wrapper.Base.Tests.{◌==◌, ltb, Bool-cases, ==→eq, ==_refl, ne→==, if◌then◌else◌}
use waterproof_wrapper.Base.Lists.{All}

module _ {ℓ} {V : Type ℓ} where
  unfoldable pub find : ℕ → List (ℕ × V) → Option V
  find k [] = none
  find k ((i, v) ∷ m) = if i == k then some v else find k m

  -- `erase(key)`.
  unfoldable pub erase : ℕ → List (ℕ × V) → List (ℕ × V)
  erase k [] = []
  erase k ((i, v) ∷ m) = if i == k then erase k m else (i, v) ∷ erase k m

  -- A new entry at its place in the order.
  unfoldable pub place : ℕ → V → List (ℕ × V) → List (ℕ × V)
  place k v [] = (k, v) ∷ []
  place k v ((i, w) ∷ m) = if ltb k i then (k, v) ∷ (i, w) ∷ m else (i, w) ∷ place k v m

  abbrev unless_found : Option V → List (ℕ × V) → List (ℕ × V) → List (ℕ × V)
  unless_found none m m' = m'
  unless_found (some v) m m' = m

  -- `insert(make_pair(key, value))`, which leaves an entry that is there.
  unfoldable pub insert : ℕ → V → List (ℕ × V) → List (ℕ × V)
  unfolding find place
  insert k v m = unless_found (find k m) m (place k v m)

  -- `map[key]`: the value, and the map with the entry, made with the default if it was not there.
  abbrev pub found_or : V → Option V → V
  found_or d none = d
  found_or d (some v) = v

  unfoldable pub subscript : ℕ → V → List (ℕ × V) → V × List (ℕ × V)
  unfolding find insert
  subscript k d m = (found_or d (find k m), insert k d m)

  pub find-erase :
      (k j : ℕ) (m : List (ℕ × V)) → find j (erase k m) ≡ (if k == j then none else find j m)
  unfolding find erase
  find-erase k j [] = ground arith
  find-erase k j ((i, v) ∷ m) = ground (arith, find-erase k j m)

  pub find-place :
      (k j : ℕ) (v : V) (m : List (ℕ × V))
      → find k m ≡ none
      → find j (place k v m) ≡ (if k == j then some v else find j m)
  unfolding find place
  find-place k j v [] h = refl
  find-place k j v ((i, w) ∷ m) h = ground (arith, find-place k j v m)

  pub find-insert :
      (k j : ℕ) (v : V) (m : List (ℕ × V))
      → find j (insert k v m) ≡ (if k == j then some (found_or v (find k m)) else find j m)
  unfolding insert
  find-insert k j v m = go (find k m) refl
    where
      go :
          (o : Option V)
          → find k m ≡ o
          → find j (unless_found o m (place k v m))
            ≡ (if k == j then some (found_or v o) else find j m)
      go none e = find-place k j v m e
      go (some w) e = elim (Bool-cases (k == j)) [
        | inl h ↦ rw h (ap (λ i. find i m) (sym (==→eq k j h)) ∙ e)
        | inr h ↦ rw h
      ]

  -- A value put in the place of another.
  pub find-replace :
      (k j : ℕ) (v : V) (m : List (ℕ × V))
      → find j (insert k v (erase k m)) ≡ (if k == j then some v else find j m)
  find-replace k j v m =
      find-insert k j v (erase k m)
      ∙ ap (λ o. if k == j then some (found_or v o) else find j (erase k m))
          (find-erase k k m ∙ ap (λ b. if b then none else find k m) (==_refl k))
      ∙ last (k == j) (find-erase k j m)
    where
      last :
          (b : Bool)
          → find j (erase k m) ≡ (if b then none else find j m)
          → (if b then some v else find j (erase k m)) ≡ (if b then some v else find j m)
      last true e = refl
      last false e = e

  pub All-place {κ} :
      (P : ℕ × V → Type κ) (k : ℕ) (v : V) (m : List (ℕ × V))
      → P (k, v)
      → All P m
      → All P (place k v m)
  unfolding place
  All-place P k v [] p h = (p, tt)
  All-place P k v ((i, w) ∷ m) p h = elim (Bool-cases (ltb k i)) [
    | inl e ↦ rw e (p, h)
    | inr e ↦ rw e (h.0, All-place P k v m p h.1)
  ]

  pub All-insert {κ} :
      (P : ℕ × V → Type κ) (k : ℕ) (v : V) (m : List (ℕ × V))
      → P (k, v)
      → All P m
      → All P (insert k v m)
  unfolding insert
  All-insert P k v m p h = either (find k m)
    where
      either : (o : Option V) → All P (unless_found o m (place k v m))
      either none = All-place P k v m p h
      either (some w) = h

  -- A key above all the keys is not there.
  pub find-above : (k : ℕ) (m : List (ℕ × V)) → All (λ e. e.0 < k) m → find k m ≡ none
  unfolding find
  find-above k [] h = refl
  find-above k ((i, v) ∷ m) h = rw (ne→== i k (omega (arith, h.0))) (find-above k m h.1)

  -- `map[key]` of a key that is there.
  pub subscript_found :
      (k : ℕ) (d v : V) (m : List (ℕ × V)) → find k m ≡ some v → subscript k d m ≡ (v, m)
  unfolding subscript insert
  subscript_found k d v m h = rw h refl
