-- ===== src/Server/Queue/Schedule.antt =====
-- The order in which the queue of responses is emptied, when nothing is put in meanwhile: the loop of
-- `server::write_loop` takes the greatest response each time.
use mathlib.Core.List.{Perm}
use mathlib.Core.List.Perm
use waterproof_wrapper.Base.{
  ℕ, zero, suc, ◌≤◌, ◌≡◌, refl, arith, List, [], ◌∷◌, Option, none, some, length, All, Bool-cases,
  inl, inr,
}
use waterproof_wrapper.Message.{Response, response_lt}
use waterproof_wrapper.Server.Queue.{greatest, pop}
use waterproof_wrapper.Server.Queue.Laws.{greatest-perm, greatest-All, All-Urgent, Urgent}

unfoldable pub and_rest :
    (List Response → List Response) → Option (Response × List Response) → List Response
and_rest rest none = []
and_rest rest (some (top, others)) = top ∷ rest others

-- What so many rounds take, in order.
unfoldable pub emptied : ℕ → List Response → List Response
unfolding and_rest pop
emptied zero rs = []
emptied (suc n) rs = and_rest (emptied n) (pop rs)

-- What a schedule of responses is: all of them, each as often as it was there, and each before those
-- that are less urgent.
abbrev pub Sorted : List Response → Type 0
Sorted [] = Unit
Sorted (r ∷ rs) = All (Urgent r) rs × Sorted rs

abbrev pub IsSchedule : List Response → List Response → Type 0
IsSchedule rs out = Perm rs out × Sorted out

greatest-keeps :
    (P : Response → Type 0) (best : Response) (rs : List Response)
    → All P (best ∷ rs)
    → All P ((greatest best rs).0 ∷ (greatest best rs).1)
unfolding greatest
greatest-keeps P best [] h = h
greatest-keeps P best (r ∷ rs) h = elim (Bool-cases (response_lt best r)) [
  | inl e ↦ let (top, others) = greatest-keeps P r rs (h.1.0, h.1.1) in rw e (top, (h.0, others))
  | inr e ↦ let (top, others) = greatest-keeps P best rs (h.0, h.1.1) in rw e (top, (h.1.0, others))
]

greatest-length : (best : Response) (rs : List Response) → length (greatest best rs).1 ≡ length rs
unfolding greatest
greatest-length best [] = refl
greatest-length best (r ∷ rs) = elim (Bool-cases (response_lt best r)) [
  | inl e ↦ rw e (omega (arith, greatest-length r rs))
  | inr e ↦ rw e (omega (arith, greatest-length best rs))
]

emptied-keeps :
    (P : Response → Type 0) (n : ℕ) (rs : List Response) → All P rs → All P (emptied n rs)
unfolding emptied pop and_rest
emptied-keeps P zero rs h = tt
emptied-keeps P (suc n) [] h = tt
emptied-keeps P (suc n) (r ∷ rs) h =
    let (top, others) = greatest-keeps P r rs h in (top, emptied-keeps P n (greatest r rs).1 others)

-- As many rounds as there are responses take each of them once, the most urgent first: each before all
-- that have a lower priority, or the same priority and a higher id.
pub emptied-IsSchedule : (n : ℕ) (rs : List Response) → length rs ≤ n → IsSchedule rs (emptied n rs)
unfolding emptied pop and_rest
emptied-IsSchedule zero [] h = (Perm.nil, tt)
emptied-IsSchedule zero (r ∷ rs) h = absurd (omega arith)
emptied-IsSchedule (suc n) [] h = (Perm.nil, tt)
emptied-IsSchedule (suc n) (r ∷ rs) h =
    let later = emptied-IsSchedule n (greatest r rs).1 (omega (arith, h, greatest-length r rs)) in
    (
      Perm.trans (greatest-perm r rs) (Perm.cons (greatest r rs).0 later.0),
      (
        emptied-keeps (Urgent (greatest r rs).0) n (greatest r rs).1
            (All-Urgent _ _ (greatest-All r rs).1),
        later.1,
      ),
    )
