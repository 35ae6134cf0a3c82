-- ===== src/Json/Fields.antt =====
-- Reading a member of an object that the wrapper wrote.
use waterproof_wrapper.Base.{
  ◌≡◌, List, [], ◌∷◌, Option, none, some, Text, text_eq, text_eq→eq, if◌then◌else◌, Bool-cases, inl,
  inr, true, subst, ◌∙◌, text_eq_refl,
}
use waterproof_wrapper.Json.{Json, IsJson}

-- The first member with the key.
abbrev pub member : {V : Type 0} → Text → List (Text × V) → Option V
member k [] = none
member k ((k', v) ∷ fs) = if text_eq k' k then some v else member k fs

module _ (j : Json) (laws : IsJson j) where
  pub at-object :
      (fs : List (Text × j.Value)) (k : Text) (v : j.Value)
      → member k fs ≡ some v
      → j.at (j.object fs) k ≡ some v
  at-object [] k v h = cc
  at-object ((k', w) ∷ fs) k v h = elim (Bool-cases (text_eq k' k)) [
    | inl e ↦ rw (text_eq→eq k' k e) (laws.at_first k w fs ∙ (rw e at h))
    | inr e ↦
        laws.at_later k k' w fs (λ p. cc (e, subst (λ s. text_eq k' s ≡ true) p (text_eq_refl k')))
        ∙ at-object fs k v (rw e at h)
  ]
