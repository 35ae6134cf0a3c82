-- ===== src/Locks/Finish.antt =====
-- Threads that lock in order.
use waterproof_wrapper.Base.{
  Holds, ℕ, zero, suc, ◌<◌, ◌≤◌, ◌≡◌, refl, sym, subst, ap, ◌∙◌, arith, Bool, true, false, List, [],
  ◌∷◌, Option, none, some, ◌⊎◌, inl, inr, All, length, ==_refl, if◌then◌else◌, ◌==◌,
}
use waterproof_wrapper.Locks.{
  Act, locks, unlocks, joins, Task, Thread, start, may, release, after, put, step_in, step, play,
  and_go,
}
use waterproof_wrapper.Locks.Order.{Ordered, KeepsWorkers, IsOrdered, start-IsOrdered}
use waterproof_wrapper.Locks.Progress.{In, work, In-Ordered, climb}

-- The number of a thread that may go on.
steps :
    (all : List Thread) (t : Thread) (ts : List Thread)
    → In t ts
    → may all t.rest ≡ true
    → (n : ℕ) × (ts' : List Thread) × (step_in all n ts ≡ some ts')
unfolding step_in
steps all t [] i h = absurd i
steps all t (u ∷ us) (inl e) h = (
  0,
  after u.rest u ∷ us,
  ap (λ b. if b then some (after u.rest u ∷ us) else none)
      (ap (λ (u : Thread). may all u.rest) e ∙ h),
)
steps all t (u ∷ us) (inr i) h =
    let (n, ts', e) = steps all t us i h in (suc n, u ∷ ts', ap (put u) e)

-- A step.
release-Ordered :
    (m : ℕ) (held : List ℕ) (acts : List Act)
    → Ordered held (unlocks m ∷ acts)
    → Ordered (release m held) acts
release-Ordered m [] acts o = absurd o
release-Ordered m (n ∷ held) acts o =
    subst (λ b. Ordered (if b then held else n ∷ release m held) acts)
      (sym (subst (λ m. (n == m) ≡ true) o.0 (==_refl n))) o.1

after-Ordered :
    (all : List Thread) (t : Thread) (rest : List Act)
    → Ordered t.held rest
    → may all rest ≡ true
    → let t' = after rest t in Ordered t'.held t'.rest × (suc (length t'.rest) ≡ length rest)
unfolding after may
after-Ordered all t [] o h = cc
after-Ordered all t (locks m ∷ acts) o h = (o.1, omega arith)
after-Ordered all t (unlocks m ∷ acts) o h = (release-Ordered m t.held acts o, omega arith)
after-Ordered all t (joins i ∷ acts) o h = absurd o

abbrev Stepped : List Thread → List Thread → Type 0
Stepped ts ts' = IsOrdered ts' × (suc (work ts') ≡ work ts)

if-Holds :
    (P : List Thread → Type 0) (b : Bool) (ts : List Thread)
    → (b ≡ true → P ts)
    → Holds P (if b then some ts else none)
if-Holds P true ts h = h refl
if-Holds P false ts h = tt

put-Holds :
    (P Q : List Thread → Type 0) (t : Thread) (o : Option (List Thread))
    → Holds P o
    → ((ts : List Thread) → P ts → Q (t ∷ ts))
    → Holds Q (put t o)
put-Holds P Q t none h f = tt
put-Holds P Q t (some ts) h f = f ts h

step-Stepped :
    (all : List Thread) (n : ℕ) (ts : List Thread)
    → IsOrdered ts
    → Holds (Stepped ts) (step_in all n ts)
unfolding step_in
step-Stepped all zero [] h = tt
step-Stepped all (suc n) [] h = tt
step-Stepped all zero (t ∷ ts) h =
    if-Holds (Stepped (t ∷ ts)) (may all t.rest) (after t.rest t ∷ ts)
      λ e. let (o, l) = after-Ordered all t t.rest h.0 e in ((o, h.1), omega (arith, l))
step-Stepped all (suc n) (t ∷ ts) h =
    put-Holds (Stepped ts) (Stepped (t ∷ ts)) t (step_in all n ts) (step-Stepped all n ts h.1)
      λ us s. ((h.0, s.0), omega (arith, s.1))

zero_or : (n : ℕ) → (n ≡ 0) ⊎ (0 < n)
zero_or zero = inl refl
zero_or (suc n) = inr (omega arith)

unfinished : (ts : List Thread) → 0 < work ts → (t : Thread) × In t ts × (0 < length t.rest)
unfinished [] h = absurd (omega arith)
unfinished (t ∷ ts) h = elim (zero_or (length t.rest)) [
  | inl e ↦ let (u, i, k) = unfinished ts (omega (arith, h, e)) in (u, inr i, k)
  | inr k ↦ (t, inl refl, k)
]

-- Further turns after which all threads have done what they had to do.
abbrev pub Finishes : List Thread → Type 0
Finishes ts = (turns : List ℕ) × (ts' : List Thread) × (play turns ts ≡ some ts') × (work ts' ≡ 0)

finish : (k : ℕ) (ts : List Thread) → work ts ≤ k → IsOrdered ts → Finishes ts
unfolding play step
finish zero ts small h = ([], ts, refl, omega arith)
finish (suc k) ts small h = elim (zero_or (work ts)) [
  | inl e ↦ ([], ts, refl, e)
  | inr e ↦
      let (t, i, b) = unfinished ts e in
      let (u, j, m) =
        climb 4 ts t t.rest h i refl (In-Ordered t ts i h) b (λ n acts p. omega arith) in
      let (n, ts₁, s) = steps ts u ts j m in
      let after_step : Stepped ts ts₁ = subst (Holds (Stepped ts)) s (step-Stepped ts n ts h) in
      let (turns, ts', p, z) = finish k ts₁ (omega (arith, after_step.1)) after_step.0 in
      (n ∷ turns, ts', ap (λ o. and_go o (play turns)) s ∙ p, z)
]

played : (turns : List ℕ) (ts : List Thread) → IsOrdered ts → Holds IsOrdered (play turns ts)
unfolding play step
played [] ts h = h
played (n ∷ turns) ts h = go (step_in ts n ts) (step-Stepped ts n ts h) (played turns)
  where
    go :
        (o : Option (List Thread))
        → Holds (Stepped ts) o
        → ((us : List Thread) → IsOrdered us → Holds IsOrdered (play turns us))
        → Holds IsOrdered (and_go o (play turns))
    go none s f = tt
    go (some us) s f = f us s.0

-- The threads of the program never block one another as long as no worker is destroyed. Any threads that
-- do any tasks of the program, each in any order, among which no destroy request, no failure of a
-- worker and no loss of a client that has a worker stands, have been let go on in any turns: whatever
-- they hold then, there are further turns after which all have done what they had to do.
pub play_start-Finishes :
    (all : List (Option ℕ × List Task)) (turns : List ℕ)
    → All (λ (t : Option ℕ × List Task). All KeepsWorkers t.1) all
    → Holds Finishes (play turns (start all))
play_start-Finishes all turns k =
    go (play turns (start all)) (played turns (start all) (start-IsOrdered all k))
  where
    go : (o : Option (List Thread)) → Holds IsOrdered o → Holds Finishes o
    go none h = tt
    go (some ts) h = finish (work ts) ts (omega arith) h
