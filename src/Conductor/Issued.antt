-- ===== src/Conductor/Issued.antt =====
-- The ids of the instances in the conductor and in the server.
pub mod Steps
use waterproof_wrapper.Base.{
  ℕ, ◌+◌, ◌%◌, ◌^◌, ◌<◌, ◌≤◌, ◌≡◌, refl, sym, ap, subst, ◌∙◌, arith, Bool, true, false, List, [],
  ◌∷◌, ◌++◌, Option, none, some, Text, ◌⊎◌, inl, inr, if◌then◌else◌, ◌==◌, ==_refl, ==→eq,
  Bool-cases, All, All-append,
}
use waterproof_wrapper.Base.Maps
use waterproof_wrapper.Base.Maps.{
  find, subscript, insert, erase, find-erase, find-insert, find-replace, found_or, All-insert,
}
use waterproof_wrapper.Utils.Exceptions.{api_error, parse_error, json_error}
use waterproof_wrapper.Utils.Config.{Configured, configured, config_threw, config}
use waterproof_wrapper.Platform.{Api}
use waterproof_wrapper.Json.{Json}
use waterproof_wrapper.Message.{Request, Verb, Response, Status}
use waterproof_wrapper.Message.Copies.{same, below}
use waterproof_wrapper.Server.Frame.{Outcome, done, closed, threw, stuck, write}
use waterproof_wrapper.Server.State.{Server, unmap, after_farewell}
use waterproof_wrapper.Server.Loops.Ids.{IsFresh}
use waterproof_wrapper.Server.Loops.Grants.{created, creates}
use waterproof_wrapper.Server.Loops.Grants.Threads.{AllBelow}
use waterproof_wrapper.Worker.Posix.{Worker, Started, started, start_threw, child, start}
use waterproof_wrapper.Conductor.{
  Conductor, Flow, Effect, handle_request, handle_verb, handle_create, create_worker, after_start,
  insert_worker, answer_create, handle_destroy, erase_worker, create_empty_response, forward_to,
  unmapped,
}
use waterproof_wrapper.Conductor.Responses.{create_response}
use waterproof_wrapper.Conductor.Round.{after_front, drain}

-- 1 for an id with an entry, and 0 for another one.
abbrev pub present {ℓ} : {V : Type ℓ} → Option V → ℕ
present none = 0
present (some v) = 1

abbrev pub has {ℓ} : {V : Type ℓ} → ℕ → List (ℕ × V) → ℕ
has i m = present (find i m)

-- With these create requests under way: each id is that of one create request or of one entry of the
-- workers at most, and was granted; so were the ids of the responses and the mapped ids.
abbrev pub IssuedWith : List Request → Conductor → Type 0
IssuedWith rs c =
    ((i : ℕ) → creates i rs + has i c.workers ≤ below i c.server.next_id)
    × AllBelow c.server.next_id c.out_queue
    × AllBelow c.server.next_id c.server.response_queue
    × IsFresh c.server

abbrev pub Issued : Conductor → Type 0
Issued c = IssuedWith c.in_queue c

-- What holds of the conductor after a step that returns.
abbrev pub Kept : (Conductor → Type 0) → Flow × Conductor × List Effect → Type 0
Kept P (Flow.returns, c, es) = P c
Kept P (Flow.undefined, c, es) = Unit
Kept P (Flow.aborts, c, es) = Unit
Kept P (Flow.becomes_child, c, es) = Unit
Kept P (Flow.waits, c, es) = Unit

-- The entries.
module _ {ℓ} {V : Type ℓ} where
  present_if : (b : Bool) (o p : Option V) → present (if b then o else p) ≤ present o + present p
  present_if true o p = omega arith
  present_if false o p = omega arith

  pub has-erase : (i k : ℕ) (m : List (ℕ × V)) → has i (Maps.erase k m) ≤ has i m
  has-erase i k m =
      omega (arith, ap present (find-erase k i m), present_if (k == i) none (find i m))

  inserted_if :
      (i k : ℕ) (v : V) (o : Option V)
      → present (if k == i then some v else o) ≤ same i k + present o
  inserted_if i k v none = ground arith
  inserted_if i k v (some w) = ground arith

  pub has-insert : (i k : ℕ) (v : V) (m : List (ℕ × V)) → has i (insert k v m) ≤ same i k + has i m
  has-insert i k v m =
      omega (
        arith,
        ap present (find-insert k i v m),
        inserted_if i k (found_or v (find k m)) (find i m),
      )

  replaced_if :
      (i k : ℕ) (v w : V) (m : List (ℕ × V))
      → find k m ≡ some w
      → present (if k == i then some v else find i m) ≡ has i m
  replaced_if i k v w m e = elim (Bool-cases (k == i)) [
    | inl h ↦ rw h (sym (ap (λ i. has i m) (sym (==→eq k i h)) ∙ ap present e))
    | inr h ↦ rw h refl
  ]

  pub has-replace :
      (i k : ℕ) (v w : V) (m : List (ℕ × V))
      → find k m ≡ some w
      → has i (insert k v (Maps.erase k m)) ≡ has i m
  has-replace i k v w m e = ap present (find-replace k i v m) ∙ replaced_if i k v w m e

-- An entry that is erased need not have been granted.
pub erase-All :
    (P : ℕ × ℕ → Type 0) (k : ℕ) (m : List (ℕ × ℕ))
    → All (λ (e : ℕ × ℕ). (e.0 ≡ k) ⊎ P e) m
    → All P (erase k m)
unfolding erase
erase-All P k [] h = tt
erase-All P k ((i, v) ∷ m) h = elim (Bool-cases (i == k)) [
  | inl e ↦ rw e (erase-All P k m h.1)
  | inr e ↦ rw e (kept e h.0, erase-All P k m h.1)
]
  where
    kept : (i == k) ≡ false → (i ≡ k) ⊎ P (i, v) → P (i, v)
    kept e (inl p) = absurd (ground arith)
    kept e (inr q) = q

pub weaken-All :
    (P : ℕ × ℕ → Type 0) (k : ℕ) (m : List (ℕ × ℕ))
    → All P m
    → All (λ (e : ℕ × ℕ). (e.0 ≡ k) ⊎ P e) m
weaken-All P k [] h = tt
weaken-All P k (e ∷ m) h = (inr h.0, weaken-All P k m h.1)
