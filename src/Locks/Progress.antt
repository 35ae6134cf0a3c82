-- ===== src/Locks/Progress.antt =====
-- Who may go on among threads that lock in order.
use waterproof_wrapper.Base.{
  ℕ, zero, suc, ◌+◌, ◌<◌, ◌≤◌, ◌≡◌, refl, subst, ap, ◌∙◌, arith, Bool, true, false, not, ◌||◌, List,
  [], ◌∷◌, ◌⊎◌, inl, inr, All, length, Bool-cases, ==→eq, ◌==◌,
}
use waterproof_wrapper.Locks.{Act, locks, unlocks, joins, Thread, holds, is_held, may}
use waterproof_wrapper.Locks.Order.{rank, Ordered, IsOrdered}

abbrev pub In : Thread → List Thread → Type 0
In t [] = ⊥
In t (u ∷ us) = (u ≡ t) ⊎ In t us

-- How much the threads have to do.
abbrev pub work : List Thread → ℕ
work [] = 0
work (t ∷ ts) = length t.rest + work ts

pub In-Ordered : (t : Thread) (ts : List Thread) → In t ts → IsOrdered ts → Ordered t.held t.rest
In-Ordered t [] i h = absurd i
In-Ordered t (u ∷ us) (inl e) h = subst (λ u. Ordered u.held u.rest) e h.0
In-Ordered t (u ∷ us) (inr i) h = In-Ordered t us i h.1

or_cases : (a b : Bool) → (a || b) ≡ true → (a ≡ true) ⊎ (b ≡ true)
or_cases true b h = inl refl
or_cases false b h = inr h

-- A mutex that is held has a holder.
holder :
    (m : ℕ) (ts : List Thread)
    → is_held m ts ≡ true
    → (t : Thread) × In t ts × (holds m t.held ≡ true)
unfolding is_held
holder m [] h = cc
holder m (t ∷ ts) h = elim (or_cases (holds m t.held) (is_held m ts) h) [
  | inl e ↦ (t, inl refl, e)
  | inr e ↦ let (u, i, k) = holder m ts e in (u, inr i, k)
]

-- A mutex that is locked comes behind one that is held.
behind :
    (m n : ℕ) (held : List ℕ)
    → holds m held ≡ true
    → All (λ k. rank k < rank n) held
    → rank m < rank n
unfolding holds
behind m n [] h k = cc
behind m n (x ∷ held) h k = elim (or_cases (x == m) (holds m held) h) [
  | inl e ↦ subst (λ x. rank x < rank n) (==→eq x m e) k.0
  | inr e ↦ behind m n held e k.1
]

-- Who holds a mutex has something to do.
busy :
    (m : ℕ) (held : List ℕ) (rest : List Act)
    → Ordered held rest
    → holds m held ≡ true
    → 0 < length rest
busy m held [] o h =
    let none_held : holds m [] ≡ true = subst (λ ns. holds m ns ≡ true) o h in unfold holds in cc
busy m held (act ∷ rest) o h = omega arith

rank_lt : (m : ℕ) → rank m < 4
rank_lt zero = omega arith
rank_lt (suc zero) = omega arith
rank_lt (suc (suc zero)) = omega arith
rank_lt (suc (suc (suc m))) = omega arith

-- A thread that may go on.
abbrev pub Goes : List Thread → Type 0
Goes ts = (t : Thread) × In t ts × (may ts t.rest ≡ true)

-- A mutex that the thread locks next is so far behind.
abbrev Ahead : ℕ → List Act → Type 0
Ahead fuel rest = (n : ℕ) (acts : List Act) → rest ≡ locks n ∷ acts → 4 ≤ fuel + rank n

ahead :
    (fuel m : ℕ) (held : List ℕ) (rest : List Act)
    → Ordered held rest
    → holds m held ≡ true
    → 4 ≤ suc fuel + rank m
    → Ahead fuel rest
ahead fuel m held rest o h enough n acts e =
    let o' : Ordered held (locks n ∷ acts) = subst (Ordered held) e o in
    omega (arith, enough, behind m n held h o'.0)

-- Who holds the mutex that a thread waits for may go on, or waits for one further behind.
pub climb :
    (fuel : ℕ) (ts : List Thread) (t : Thread) (rest : List Act)
    → IsOrdered ts
    → In t ts
    → t.rest ≡ rest
    → Ordered t.held rest
    → 0 < length rest
    → Ahead fuel rest
    → Goes ts
unfolding may
climb fuel ts t [] h i e o busy_now far = absurd (omega arith)
climb fuel ts t (unlocks m ∷ acts) h i e o busy_now far = (t, i, ap (may ts) e)
climb fuel ts t (joins k ∷ acts) h i e o busy_now far = absurd o
climb zero ts t (locks m ∷ acts) h i e o busy_now far =
    absurd (omega (arith, far m acts refl, rank_lt m))
climb (suc fuel) ts t (locks m ∷ acts) h i e o busy_now far = elim (Bool-cases (is_held m ts)) [
  | inl held ↦
      let (u, j, k) = holder m ts held in
      let o' = In-Ordered u ts j h in
      climb fuel ts u u.rest h j refl o' (busy m u.held u.rest o' k)
        (ahead fuel m u.held u.rest o' k (far m acts refl))
  | inr free ↦ (t, i, ap (may ts) e ∙ ap not free)
]
