-- ===== src/Platform/Setup.antt =====
-- The constructors of `server` and of the Windows worker: calls of the platform in a row, each of which
-- may fail. A call that fails releases what its branch names, and throws. What a constructor acquires
-- and releases is a list of acts, in order.
pub mod Balance
use waterproof_wrapper.Base.{ℕ, ℤ, List, [], ◌∷◌, ◌++◌, Text, ==_refl, ◌==◌, if◌then◌else◌}
use waterproof_wrapper.Utils.Exceptions.{ApiError, coded_error}

-- An address list of `getaddrinfo`, a socket or file descriptor, a handle, and the WinSock library.
pub data Resource : Type 0 where
  address socket handle : ℕ → Resource
  library : Resource

pub data Act : Type 0 where
  acquired released : Resource → Act

-- What a constructor comes to. `undefined` is undefined behaviour.
pub data Result (A : Type 0) : Type 0 where
  ok : A → Result A
  threw : ApiError → Result A
  undefined : Result A

-- What a call gives: it succeeds, or fails with an error number.
pub data Called : Type 0 where
  call_ok : Called
  call_failed : ℤ → Called

-- What a call gives that opens something.
pub data Opened : Type 0 where
  opened : ℕ → Opened
  open_failed : ℤ → Opened

abbrev pub Setup : Type 0 → Type 0 → Type 0
Setup W A = W → (Result A × List Act) × W

unfoldable pub then_do :
    {W A B : Type 0} → (Result A × List Act) × W → (A → Setup W B) → (Result B × List Act) × W
then_do ((ok a, es), w) f = let ((r, es'), w') = f a w in ((r, es ++ es'), w')
then_do ((threw e, es), w) f = ((threw e, es), w)
then_do ((undefined, es), w) f = ((undefined, es), w)

infixl 5 ◌>>=◌ ◌>>◌
unfoldable pub ◌>>=◌ : {W A B : Type 0} → Setup W A → (A → Setup W B) → Setup W B
unfolding then_do
◌>>=◌ m f w = then_do (m w) f

unfoldable pub ◌>>◌ : {W B : Type 0} → Setup W (Unit {0}) → Setup W B → Setup W B
unfolding ◌>>=◌
m >> k = m >>= λ _. k

unfoldable pub pure : {W A : Type 0} → A → Setup W A
pure a w = ((ok a, []), w)

-- The releases of a branch, in order.
unfoldable pub releases : List Resource → List Act
releases [] = []
releases (r ∷ rs) = released r ∷ releases rs

unfoldable pub release : {W : Type 0} → List Resource → Setup W (Unit {0})
unfolding releases
release rs w = ((ok tt, releases rs), w)

module _ (format_code : Text → ℤ → Text) where
  -- A branch that releases these resources and throws.
  abbrev pub failing : {A W : Type 0} → Text → List Resource → ℤ → W → (Result A × List Act) × W
  failing message rs e w = ((threw (coded_error format_code message e), releases rs), w)

  unfoldable pub after_call :
      {W : Type 0} → Text → List Resource → Called × W → (Result (Unit {0}) × List Act) × W
  unfolding releases
  after_call message rs (call_ok, w) = ((ok tt, []), w)
  after_call message rs (call_failed e, w) = failing message rs e w

  -- `if (call(…) fails) { release rs; throw api_error(message, error); }`.
  unfoldable pub check : {W : Type 0} → (W → Called × W) → Text → List Resource → Setup W (Unit {0})
  unfolding after_call
  check call message rs w = after_call message rs (call w)

  unfoldable pub after_open :
      {W : Type 0} → (ℕ → Resource) → Text → List Resource → Opened × W → (Result ℕ × List Act) × W
  unfolding releases
  after_open kind message rs (opened n, w) = ((ok n, acquired (kind n) ∷ []), w)
  after_open kind message rs (open_failed e, w) = failing message rs e w

  -- The same for a call that opens something.
  unfoldable pub open_or :
      {W : Type 0} → (ℕ → Resource) → (W → Opened × W) → Text → List Resource → Setup W ℕ
  unfolding after_open
  open_or kind call message rs w = after_open kind message rs (call w)

  -- A call that gives a number, and holds nothing.
  unfoldable pub after_asking :
      {W : Type 0} → Text → List Resource → Opened × W → (Result ℕ × List Act) × W
  unfolding releases
  after_asking message rs (opened n, w) = ((ok n, []), w)
  after_asking message rs (open_failed e, w) = failing message rs e w

  unfoldable pub asked : {W : Type 0} → (W → Opened × W) → Text → List Resource → Setup W ℕ
  unfolding after_asking
  asked call message rs w = after_asking message rs (call w)
