-- ===== src/Message/Copies.antt =====
-- How often an id stands in a list of responses.
use waterproof_wrapper.Base.{ℕ, suc, ◌+◌, ◌≡◌, arith, List, [], ◌∷◌, ◌++◌, if◌then◌else◌, ltb, ◌==◌}
use waterproof_wrapper.Message.{Response}

abbrev pub same : ℕ → ℕ → ℕ
same i n = if i == n then 1 else 0

abbrev pub copies : ℕ → List Response → ℕ
copies i [] = 0
copies i (r ∷ rs) = same i r.id + copies i rs

-- 1 for an id below `n`, and 0 for another one.
abbrev pub below : ℕ → ℕ → ℕ
below i n = if ltb i n then 1 else 0

pub below-suc : (i n : ℕ) → below i (suc n) ≡ below i n + same i n
below-suc i n = ground arith

pub copies-append :
    (i : ℕ) (rs qs : List Response) → copies i (rs ++ qs) ≡ copies i rs + copies i qs
copies-append i [] qs = omega arith
copies-append i (r ∷ rs) qs = omega (arith, copies-append i rs qs)
