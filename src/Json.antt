-- ===== src/Json.antt =====
-- nlohmann::json, which the wrapper takes from outside the repository: the operations that it calls
-- are the fields of `Json`, and what it relies on of them are the fields of `IsJson`. `none` stands
-- for an exception: `parse_error` in `parse`, `out_of_range` or `type_error` in the rest.
pub mod Fields
pub mod Toy
use waterproof_wrapper.Base.{
  ℕ, zero, suc, ◌^◌, ◌<◌, ◌≡◌, ◌≢◌, List, [], ◌∷◌, Option, none, some, Text, text_eq, if◌then◌else◌,
}

pub record Json : Type 1 where
  pub Value : Type 0
  pub parse : Text → Option Value
  pub dump : Value → Option Text
  -- `json{{key, value}, …}`, `j.at(key)`.
  pub object : List (Text × Value) → Value
  pub at : Value → Text → Option Value
  -- Conversions from and to `std::string`, `unsigned int` and `std::vector<std::string>`.
  pub of_text : Text → Value
  pub of_unsigned : ℕ → Value
  pub get_text : Value → Option Text
  pub get_unsigned : Value → Option ℕ
  pub get_texts : Value → Option (List Text)
  -- NLOHMANN_JSON_SERIALIZE_ENUM: the place of a value in the table of an enumeration's names.
  pub enum_place : List Text → Value → ℕ

-- Where a name stands in a table: at 0, too, if it is not there.
abbrev pub place_from : ℕ → List Text → Text → ℕ
place_from i [] t = 0
place_from i (s ∷ ss) t = if text_eq s t then i else place_from (suc i) ss t

pub record IsJson (j : Json) : Type 0 where
  pub parse-dump : (v : j.Value) (t : Text) → j.dump v ≡ some t → j.parse t ≡ some v
  pub at_first :
      (k : Text) (v : j.Value) (fs : List (Text × j.Value))
      → j.at (j.object ((k, v) ∷ fs)) k ≡ some v
  pub at_later :
      (k k' : Text) (v : j.Value) (fs : List (Text × j.Value))
      → k' ≢ k
      → j.at (j.object ((k', v) ∷ fs)) k ≡ j.at (j.object fs) k
  pub get_text-of_text : (t : Text) → j.get_text (j.of_text t) ≡ some t
  pub get_unsigned-of_unsigned : (n : ℕ) → n < 2 ^ 32 → j.get_unsigned (j.of_unsigned n) ≡ some n
  -- A value that is no name of the table stands for the first entry.
  pub enum_place-of_text :
      (names : List Text) (t : Text) → j.enum_place names (j.of_text t) ≡ place_from 0 names t
