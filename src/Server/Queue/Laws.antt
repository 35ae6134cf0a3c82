-- ===== src/Server/Queue/Laws.antt =====
-- What `pop` takes off the queue of responses.
use mathlib.Core.List.{Perm}
use mathlib.Core.List.Perm
use waterproof_wrapper.Base.{
  ◌≤◌, ◌≡◌, refl, sym, subst, arith, Bool, true, false, List, [], ◌∷◌, none, some, if◌then◌else◌,
  All, Bool-cases, inl, inr, ◌⊎◌, int_ltb,
}
use waterproof_wrapper.Message.{Response, response_lt}
use waterproof_wrapper.Message.Order.{
  response_lt-IsStrictTotal, response_lt_trans, response_lt_cotrans, int_trichotomy,
}
use waterproof_wrapper.Server.Queue.{greatest, pop}

pub greatest-perm :
    (best : Response) (rs : List Response)
    → Perm (best ∷ rs) ((greatest best rs).0 ∷ (greatest best rs).1)
unfolding greatest
greatest-perm best [] = Perm.refl (best ∷ [])
greatest-perm best (r ∷ rs) = elim (Bool-cases (response_lt best r)) [
  | inl e ↦ rw e (
      Perm.trans (Perm.cons best (greatest-perm r rs))
        (Perm.swap (greatest r rs).0 best (greatest r rs).1))
  | inr e ↦ rw e (
      Perm.trans (Perm.swap r best rs) (
        Perm.trans (Perm.cons r (greatest-perm best rs))
          (Perm.swap (greatest best rs).0 r (greatest best rs).1)))
]

abbrev pub NotBelow : Response → Response → Type 0
NotBelow top r = response_lt top r ≡ false

NotBelow-of_lt : (top a b : Response) → NotBelow top b → response_lt a b ≡ true → NotBelow top a
NotBelow-of_lt top a b h e = elim (Bool-cases (response_lt top a)) [
  | inl p ↦ cc (response_lt_trans top a b p e)
  | inr p ↦ p
]

NotBelow-of_not_lt :
    (top a b : Response) → NotBelow top a → response_lt a b ≡ false → NotBelow top b
NotBelow-of_not_lt top a b h e = elim (Bool-cases (response_lt top b)) [
  | inl p ↦ elim (response_lt_cotrans top a b p) [ inl q ↦ cc | inr q ↦ cc ]
  | inr p ↦ p
]

-- The claim for a list whose first response is greater than the best so far if `b` holds.
abbrev Chosen : Response → Response → List Response → Bool → Type 0
Chosen best r rs b =
    let g = greatest (if b then r else best) rs in
    All (NotBelow g.0) (best ∷ (if b then best else r) ∷ g.1)

-- Nothing that is left is greater than the one that was taken.
pub greatest-All :
    (best : Response) (rs : List Response)
    → All (NotBelow (greatest best rs).0) (best ∷ (greatest best rs).1)
unfolding greatest
greatest-All best [] = ((response_lt-IsStrictTotal best best best).0, tt)
greatest-All best (r ∷ rs) = elim (Bool-cases (response_lt best r)) [
  | inl e ↦
      let (h, hs) = greatest-All r rs in
      let below = NotBelow-of_lt (greatest r rs).0 best r h e in
      subst (Chosen best r rs) (sym e) (below, (below, hs))
  | inr e ↦
      let (h, hs) = greatest-All best rs in
      subst (Chosen best r rs) (sym e) (h, (NotBelow-of_not_lt (greatest best rs).0 best r h e, hs))
]

-- The first is sent before the second: it has a higher priority, or the same one and no higher id.
abbrev pub Urgent : Response → Response → Type 0
Urgent top r =
    (int_ltb r.priority top.priority ≡ true) ⊎ ((r.priority ≡ top.priority) × (top.id ≤ r.id))

NotBelow-Urgent : (top r : Response) → NotBelow top r → Urgent top r
unfolding response_lt
NotBelow-Urgent top r h = ground (arith, int_trichotomy r.priority top.priority)

pub All-Urgent : (top : Response) (rs : List Response) → All (NotBelow top) rs → All (Urgent top) rs
All-Urgent top [] h = tt
All-Urgent top (r ∷ rs) h = (NotBelow-Urgent top r h.0, All-Urgent top rs h.1)

-- `pop` fails on the empty queue only. Otherwise it splits off one response, leaves the others, and
-- each of those has a lower priority, or the same priority and an id that is not lower.
pub pop-IsGreatest :
    (rs : List Response)
    → ((rs ≡ []) × (pop rs ≡ none))
      ⊎ ((top : Response) × (others : List Response) × (pop rs ≡ some (top, others))
          × Perm rs (top ∷ others)
          × All (Urgent top) others)
unfolding pop
pop-IsGreatest [] = inl (refl, refl)
pop-IsGreatest (r ∷ rs) = inr (
  (greatest r rs).0,
  (greatest r rs).1,
  refl,
  greatest-perm r rs,
  All-Urgent _ _ (greatest-All r rs).1,
)
