-- ===== src/Json/Toy.antt =====
-- A small value that meets the assumptions on nlohmann::json: a document is its own text, a list of
-- numbers, in which every key and every value of an object stands behind its length.
use waterproof_wrapper.Base.{
  ℕ, zero, suc, ◌≤◌, Bool, true, false, ◌≡◌, ◌≢◌, refl, ap, arith, List, [], ◌∷◌, ◌++◌, Option,
  none, some, Text, text_eq, text_eq_refl, text_eq_miss, if◌then◌else◌, length, take, drop,
  take-append, drop-append, length-drop, length-append,
}
use waterproof_wrapper.Json.{Json, IsJson, place_from}

unfoldable pub entries : List (Text × Text) → Text
entries [] = []
entries ((k, v) ∷ fs) = length k ∷ (k ++ (length v ∷ (v ++ entries fs)))

choose : Bool → Text → (Text → Option Text) → Option Text
choose hit [] later = none
choose hit (m ∷ r) later = if hit then some (take m r) else later (drop m r)

find : ℕ → Text → Text → Option Text
unfolding choose
find zero k t = none
find (suc f) k [] = none
find (suc f) k (n ∷ t) = choose (text_eq (take n t) k) (drop n t) (find f k)

choose_agree :
    (hit : Bool) (t : Text) (g h : Text → Option Text)
    → ((u : Text) → length u ≤ length t → g u ≡ h u)
    → choose hit t g ≡ choose hit t h
unfolding choose
choose_agree hit [] g h e = refl
choose_agree true (m ∷ r) g h e = refl
choose_agree false (m ∷ r) g h e = e (drop m r) (omega (arith, length-drop m r))

find_enough : (f g : ℕ) (k t : Text) → length t ≤ f → length t ≤ g → find f k t ≡ find g k t
unfolding find
find_enough zero zero k t p q = refl
find_enough zero (suc g) k [] p q = refl
find_enough (suc f) zero k [] p q = refl
find_enough (suc f) (suc g) k [] p q = refl
find_enough zero (suc g) k (n ∷ t) p q = absurd (omega arith)
find_enough (suc f) zero k (n ∷ t) p q = absurd (omega arith)
find_enough (suc f) (suc g) k (n ∷ t) p q =
    choose_agree _ (drop n t) (find f k) (find g k)
      λ u h. find_enough f g k u (omega (arith, length-drop n t)) (omega (arith, length-drop n t))

toy_at : Text → Text → Option Text
toy_at [] k = none
toy_at (c ∷ t) k = find (length t) k t

toy_text : Text → Option Text
toy_text [] = none
toy_text (c ∷ t) = some t

toy_unsigned : Text → Option ℕ
toy_unsigned (c ∷ n ∷ t) = some n
toy_unsigned (c ∷ []) = none
toy_unsigned [] = none

toy_texts : Text → Option (List Text)
toy_texts [] = some []
toy_texts (c ∷ t) = some (t ∷ [])

toy_place : List Text → Text → ℕ
toy_place names [] = 0
toy_place names (c ∷ t) = place_from 0 names t

unfoldable pub toy : Json
unfolding entries find toy_at toy_text toy_unsigned toy_texts toy_place
toy = record {
  Value = Text;
  parse = some;
  dump = some;
  object = λ fs. 2 ∷ entries fs;
  at = toy_at;
  of_text = λ t. 1 ∷ t;
  of_unsigned = λ n. 0 ∷ n ∷ [];
  get_text = toy_text;
  get_unsigned = toy_unsigned;
  get_texts = toy_texts;
  enum_place = toy_place;
}

toy_at_first :
    (k v : Text) (fs : List (Text × Text)) → toy_at (2 ∷ entries ((k, v) ∷ fs)) k ≡ some v
unfolding toy_at entries find
toy_at_first k v fs =
    rw
      (
        take-append k (length v ∷ (v ++ entries fs)),
        drop-append k (length v ∷ (v ++ entries fs)),
        text_eq_refl k,
      )
      (ap some (take-append v (entries fs)))

toy_at_later :
    (k k' v : Text) (fs : List (Text × Text))
    → k' ≢ k
    → toy_at (2 ∷ entries ((k', v) ∷ fs)) k ≡ toy_at (2 ∷ entries fs) k
unfolding toy_at entries find
toy_at_later k k' v fs h =
    let body : Text = length v ∷ (v ++ entries fs) in
    rw (take-append k' body, drop-append k' body, text_eq_miss k' k h, drop-append v (entries fs))
      (find_enough _ _ k (entries fs)
        (omega (arith, length-append k' body, length-append v (entries fs))) (omega arith))

pub toy-IsJson : IsJson toy
unfolding toy toy_text toy_unsigned toy_place
toy-IsJson = record {
  parse-dump = λ v t h. ground arith;
  at_first = toy_at_first;
  at_later = toy_at_later;
  get_text-of_text = λ t. refl;
  get_unsigned-of_unsigned = λ n h. refl;
  enum_place-of_text = λ names t. refl;
}
