-- ===== src/Message/Order.antt =====
-- The order of responses: by priority, and among equals the older id is the larger response.
use waterproof_wrapper.Base.{
  ◌<◌, ◌≡◌, ◌≢◌, ◌⊎◌, inl, inr, ◌↔◌, sym, subst, ◌∙◌, arith, true, false, ℤ, pos, negsuc, int_ltb,
  Bool-cases,
}
use waterproof_wrapper.Message.{Response, response_lt, response_gt}

-- The order that the comment on `operator<` describes.
abbrev pub Smaller : Response → Response → Type 0
Smaller a b = (int_ltb a.priority b.priority ≡ true) ⊎ ((a.priority ≡ b.priority) × (b.id < a.id))

pub int_trichotomy : (m n : ℤ) → int_ltb m n ≡ false → int_ltb n m ≡ false → m ≡ n
int_trichotomy (pos m) (pos n) p q = ground arith
int_trichotomy (pos m) (negsuc n) p q = ground arith
int_trichotomy (negsuc m) (pos n) p q = ground arith
int_trichotomy (negsuc m) (negsuc n) p q = ground arith

int_ltb_irrefl : (m : ℤ) → int_ltb m m ≡ false
int_ltb_irrefl (pos m) = ground arith
int_ltb_irrefl (negsuc m) = ground arith

int_ltb_asymm : (m n : ℤ) → int_ltb m n ≡ true → int_ltb n m ≡ false
int_ltb_asymm (pos m) (pos n) p = ground arith
int_ltb_asymm (pos m) (negsuc n) p = ground arith
int_ltb_asymm (negsuc m) (pos n) p = ground arith
int_ltb_asymm (negsuc m) (negsuc n) p = ground arith

int_ltb_trans : (l m n : ℤ) → int_ltb l m ≡ true → int_ltb m n ≡ true → int_ltb l n ≡ true
int_ltb_trans (pos l) (pos m) (pos n) p q = ground arith
int_ltb_trans (pos l) (pos m) (negsuc n) p q = ground arith
int_ltb_trans (pos l) (negsuc m) n p q = ground arith
int_ltb_trans (negsuc l) (pos m) (pos n) p q = ground arith
int_ltb_trans (negsuc l) (pos m) (negsuc n) p q = ground arith
int_ltb_trans (negsuc l) (negsuc m) (pos n) p q = ground arith
int_ltb_trans (negsuc l) (negsuc m) (negsuc n) p q = ground arith

-- `operator<` holds exactly if the left response has the lower priority, or an equal priority and
-- the higher id.
pub response_lt_iff : (a b : Response) → (response_lt a b ≡ true) ↔ Smaller a b
unfolding response_lt
response_lt_iff a b = (
  λ h. ground (arith, int_trichotomy a.priority b.priority),
  λ h. ground (arith, int_ltb_irrefl a.priority),
)

-- `operator<` is transitive.
pub response_lt_trans :
    (a b c : Response) → response_lt a b ≡ true → response_lt b c ≡ true → response_lt a c ≡ true
response_lt_trans a b c p q =
    (response_lt_iff a c).1 (join ((response_lt_iff a b).0 p) ((response_lt_iff b c).0 q))
  where
    join : Smaller a b → Smaller b c → Smaller a c
    join (inl p) (inl q) = inl (int_ltb_trans a.priority b.priority c.priority p q)
    join (inl p) (inr (e, q)) = inl (subst (λ m. int_ltb a.priority m ≡ true) e p)
    join (inr (e, p)) (inl q) = inl (subst (λ m. int_ltb m c.priority ≡ true) (sym e) q)
    join (inr (e, p)) (inr (e', q)) = inr (e ∙ e', omega arith)

-- `operator<` is a strict order in which any two responses with different ids compare, one way by
-- `operator<` or the other way by `operator>`, and never both ways.
pub response_lt-IsStrictTotal :
    (a b c : Response)
    → (response_lt a a ≡ false)
      × (response_lt a b ≡ true → response_lt b c ≡ true → response_lt a c ≡ true)
      × (response_lt a b ≡ true → response_gt a b ≡ false)
      × (a.id ≢ b.id → (response_lt a b ≡ true) ⊎ (response_gt a b ≡ true))
unfolding response_gt
response_lt-IsStrictTotal a b c = (
  ground (arith, int_ltb_irrefl a.priority),
  response_lt_trans a b c,
  λ h. ground (arith, int_ltb_asymm a.priority b.priority),
  λ h. ground (arith, int_trichotomy a.priority b.priority),
)

int_ltb_cotrans : (l m n : ℤ) → int_ltb l n ≡ true → (int_ltb l m ≡ true) ⊎ (int_ltb m n ≡ true)
int_ltb_cotrans (pos l) (pos m) (pos n) p = ground arith
int_ltb_cotrans (pos l) (pos m) (negsuc n) p = ground arith
int_ltb_cotrans (pos l) (negsuc m) (pos n) p = ground arith
int_ltb_cotrans (pos l) (negsuc m) (negsuc n) p = ground arith
int_ltb_cotrans (negsuc l) (pos m) n p = ground arith
int_ltb_cotrans (negsuc l) (negsuc m) (pos n) p = ground arith
int_ltb_cotrans (negsuc l) (negsuc m) (negsuc n) p = ground arith

pub response_lt_cotrans :
    (a b c : Response)
    → response_lt a c ≡ true
    → (response_lt a b ≡ true) ⊎ (response_lt b c ≡ true)
unfolding response_lt
response_lt_cotrans a b c p = ground (
  arith,
  int_ltb_cotrans a.priority b.priority c.priority,
  int_trichotomy a.priority b.priority,
  int_trichotomy b.priority c.priority,
)

-- Of two responses with different ids exactly one is below the other: either `operator<` holds and
-- `operator>` does not, or `operator>` holds and `operator<` does not.
pub response_lt-trichotomy :
    (a b : Response)
    → a.id ≢ b.id
    → ((response_lt a b ≡ true) × (response_gt a b ≡ false))
      ⊎ ((response_lt a b ≡ false) × (response_gt a b ≡ true))
unfolding response_gt
response_lt-trichotomy a b h = elim (Bool-cases (response_lt a b)) [
  | inl p ↦ inl (p, (response_lt-IsStrictTotal a b a).2 p)
  | inr p ↦ inr (p, elim ((response_lt-IsStrictTotal a b a).3 h) [ inl q ↦ cc | inr q ↦ q ])
]
