-- ===== src/Platform/Setup/Balance.antt =====
-- Accounting for the resources of a constructor: rules for each of its steps.
use waterproof_wrapper.Base.{
  ℕ, ◌+◌, ◌≡◌, refl, arith, List, [], ◌∷◌, ◌++◌, ℤ, Text, ◌==◌, if◌then◌else◌,
}
use waterproof_wrapper.Platform.Setup.{
  Resource, address, socket, handle, library, Act, acquired, released, Result, ok, threw, undefined,
  Called, call_ok, call_failed, Opened, opened, open_failed, Setup, then_do, ◌>>=◌, ◌>>◌, pure,
  releases, release, after_call, check, after_open, open_or, after_asking, asked,
}

-- 1 if the two are the same resource.
unfoldable pub one : Resource → Resource → ℕ
one (address m) (address n) = if m == n then 1 else 0
one (socket m) (socket n) = if m == n then 1 else 0
one (handle m) (handle n) = if m == n then 1 else 0
one library library = 1
one _ _ = 0

-- How often a resource stands in a list, is acquired, and is released.
abbrev pub total : Resource → List Resource → ℕ
total x [] = 0
total x (r ∷ rs) = one r x + total x rs

unfoldable pub gained : Resource → List Act → ℕ
gained x [] = 0
gained x (acquired r ∷ es) = one r x + gained x es
gained x (released r ∷ es) = gained x es

unfoldable pub lost : Resource → List Act → ℕ
lost x [] = 0
lost x (acquired r ∷ es) = lost x es
lost x (released r ∷ es) = one r x + lost x es

pub gained-append :
    (x : Resource) (es fs : List Act) → gained x (es ++ fs) ≡ gained x es + gained x fs
unfolding gained
gained-append x [] fs = omega arith
gained-append x (acquired r ∷ es) fs = omega (arith, gained-append x es fs)
gained-append x (released r ∷ es) fs = gained-append x es fs

pub lost-append : (x : Resource) (es fs : List Act) → lost x (es ++ fs) ≡ lost x es + lost x fs
unfolding lost
lost-append x [] fs = omega arith
lost-append x (acquired r ∷ es) fs = lost-append x es fs
lost-append x (released r ∷ es) fs = omega (arith, lost-append x es fs)

total-append : (x : Resource) (rs qs : List Resource) → total x (rs ++ qs) ≡ total x rs + total x qs
total-append x [] qs = omega arith
total-append x (r ∷ rs) qs = omega (arith, total-append x rs qs)

pub gained-releases : (x : Resource) (rs : List Resource) → gained x (releases rs) ≡ 0
unfolding gained releases
gained-releases x [] = refl
gained-releases x (r ∷ rs) = gained-releases x rs

pub lost-releases : (x : Resource) (rs : List Resource) → lost x (releases rs) ≡ total x rs
unfolding lost releases
lost-releases x [] = refl
lost-releases x (r ∷ rs) = omega (arith, lost-releases x rs)

-- The same resources, as often.
abbrev pub SameAs : List Resource → List Resource → Type 0
SameAs rs qs = (x : Resource) → total x rs ≡ total x qs

-- A part of a constructor that begins with `rs` held. If it goes on, `kept` are held; if it throws, it
-- has released all that was held, and `twice` once more.
abbrev pub Settled :
    {A : Type 0}
    → List Resource
    → List Resource
    → (A → List Resource)
    → Result A × List Act
    → Type 0
Settled rs twice kept (ok a, es) =
    (x : Resource) → total x rs + gained x es ≡ lost x es + total x (kept a)
Settled rs twice kept (threw e, es) =
    (x : Resource) → total x rs + gained x es + total x twice ≡ lost x es
Settled rs twice kept (undefined, es) = Unit {0}

pub record Balanced {W A : Type 0} (rs twice : List Resource) (kept : A → List Resource)
    (m : Setup W A) : Type 0 where
  pub settled : (w : W) → Settled rs twice kept (m w).0

after_then :
    {W A B : Type 0} (rs twice : List Resource) (kept : A → List Resource)
    (last : B → List Resource) (o : (Result A × List Act) × W) (f : A → Setup W B)
    → Settled rs twice kept o.0
    → ((a : A) (w : W) → Settled (kept a) twice last (f a w).0)
    → Settled rs twice last (then_do o f).0
unfolding then_do
after_then {W = W} {B = B} rs twice kept last ((ok a, es), w) f h k = joined (f a w) (k a w)
  where
    joined :
        (o : (Result B × List Act) × W)
        → Settled (kept a) twice last o.0
        → Settled rs twice last (o.0.0, es ++ o.0.1)
    joined ((ok b, fs), v) g =
        λ x. omega (arith, h x, g x, gained-append x es fs, lost-append x es fs)
    joined ((threw e, fs), v) g =
        λ x. omega (arith, h x, g x, gained-append x es fs, lost-append x es fs)
    joined ((undefined, fs), v) g = tt
after_then rs twice kept last ((threw e, es), w) f h k = h
after_then rs twice kept last ((undefined, es), w) f h k = tt

-- One part behind the other.
pub Balanced-bind :
    {W A B : Type 0} {rs twice : List Resource} {kept : A → List Resource}
    {last : B → List Resource} {m : Setup W A} {f : A → Setup W B}
    → Balanced rs twice kept m
    → ((a : A) → Balanced (kept a) twice last (f a))
    → Balanced rs twice last (m >>= f)
unfolding ◌>>=◌
Balanced-bind {rs = rs} {twice} {kept} {last} {m} {f} b c = record {
  settled = λ w. after_then rs twice kept last (m w) f (b.settled w) (λ a. (c a).settled);
}

pub Balanced-seq :
    {W B : Type 0} {rs twice qs : List Resource} {last : B → List Resource} {m : Setup W (Unit {0})}
    {k : Setup W B}
    → Balanced rs twice (λ _. qs) m
    → Balanced qs twice last k
    → Balanced rs twice last (m >> k)
unfolding ◌>>◌
Balanced-seq b c = Balanced-bind b (λ _. c)

-- A branch that releases these resources and throws.
pub thrown :
    (rs twice cleanup : List Resource)
    → SameAs (rs ++ twice) cleanup
    → (x : Resource)
    → total x rs + gained x (releases cleanup) + total x twice ≡ lost x (releases cleanup)
thrown rs twice cleanup h x =
    omega (arith, h x, total-append x rs twice, gained-releases x cleanup, lost-releases x cleanup)

after_call-Settled :
    {W : Type 0} (rs twice cleanup : List Resource) (format_code : Text → ℤ → Text) (message : Text)
    (o : Called × W)
    → SameAs (rs ++ twice) cleanup
    → Settled rs twice (λ _. rs) (after_call format_code message cleanup o).0
unfolding after_call gained lost
after_call-Settled rs twice cleanup format_code message (call_ok, w) h = λ x. omega arith
after_call-Settled rs twice cleanup format_code message (call_failed e, w) h =
    thrown rs twice cleanup h

after_open-Settled :
    {W : Type 0} (rs twice cleanup : List Resource) (format_code : Text → ℤ → Text)
    (kind : ℕ → Resource) (message : Text) (o : Opened × W)
    → SameAs (rs ++ twice) cleanup
    → Settled rs twice (λ n. kind n ∷ rs) (after_open format_code kind message cleanup o).0
unfolding after_open gained lost
after_open-Settled rs twice cleanup format_code kind message (opened n, w) h = λ x. omega arith
after_open-Settled rs twice cleanup format_code kind message (open_failed e, w) h =
    thrown rs twice cleanup h

-- A call whose branch releases what is held, and `twice` once more.
pub check-Balanced :
    {W : Type 0} {rs twice : List Resource} (format_code : Text → ℤ → Text) (call : W → Called × W)
    (message : Text) (cleanup : List Resource)
    → SameAs (rs ++ twice) cleanup
    → Balanced rs twice (λ _. rs) (check format_code call message cleanup)
unfolding check
check-Balanced {rs = rs} {twice} format_code call message cleanup h = record {
  settled = λ w. after_call-Settled rs twice cleanup format_code message (call w) h;
}

pub open_or-Balanced :
    {W : Type 0} {rs twice : List Resource} (format_code : Text → ℤ → Text) (kind : ℕ → Resource)
    (call : W → Opened × W) (message : Text) (cleanup : List Resource)
    → SameAs (rs ++ twice) cleanup
    → Balanced rs twice (λ n. kind n ∷ rs) (open_or format_code kind call message cleanup)
unfolding open_or
open_or-Balanced {rs = rs} {twice} format_code kind call message cleanup h = record {
  settled = λ w. after_open-Settled rs twice cleanup format_code kind message (call w) h;
}

pub release-Balanced :
    {W : Type 0} {rs qs twice : List Resource} (cleanup : List Resource)
    → SameAs rs (cleanup ++ qs)
    → Balanced {W = W} rs twice (λ _. qs) (release cleanup)
unfolding release
release-Balanced {rs = rs} {qs} cleanup h = record {
  settled = λ w x.
      omega
        (arith, h x, total-append x cleanup qs, gained-releases x cleanup, lost-releases x cleanup);
}

pub pure-Balanced :
    {W A : Type 0} {rs twice : List Resource} (kept : A → List Resource) (a : A)
    → SameAs rs (kept a)
    → Balanced {W = W} rs twice kept (pure a)
unfolding pure gained lost
pure-Balanced kept a h = record { settled = λ w x. omega (arith, h x) }

after_asking-Settled :
    {W : Type 0} (rs twice cleanup : List Resource) (format_code : Text → ℤ → Text) (message : Text)
    (o : Opened × W)
    → SameAs (rs ++ twice) cleanup
    → Settled rs twice (λ _. rs) (after_asking format_code message cleanup o).0
unfolding after_asking gained lost
after_asking-Settled rs twice cleanup format_code message (opened n, w) h = λ x. omega arith
after_asking-Settled rs twice cleanup format_code message (open_failed e, w) h =
    thrown rs twice cleanup h

pub asked-Balanced :
    {W : Type 0} {rs twice : List Resource} (format_code : Text → ℤ → Text) (call : W → Opened × W)
    (message : Text) (cleanup : List Resource)
    → SameAs (rs ++ twice) cleanup
    → Balanced rs twice (λ _. rs) (asked format_code call message cleanup)
unfolding asked
asked-Balanced {rs = rs} {twice} format_code call message cleanup h = record {
  settled = λ w. after_asking-Settled rs twice cleanup format_code message (call w) h;
}
