-- ===== src/Exec.antt =====
-- Code that changes a state and may throw: exceptions as values.
pub mod Runs
pub mod Agreement
pub mod Budget
use currency_converter_demo.Base.{Option, none, some, ◌≡◌, refl, Bool, true, false, Str}

-- backend/src/domain/Errors.h: the subclasses of `DomainException`, each with its message. The last
-- stands for any other `std::exception`, with what `what()` says.
pub data Exception : Type 0 where
  invalid_argument : Str → Exception
  currency_not_found : Str → Exception
  external_api_unavailable : Str → Exception
  external_api_unexpected_response : Str → Exception
  std_exception : Str → Exception

-- A value, an exception, or undefined behaviour.
pub data Outcome {ℓ} (A : Type ℓ) : Type ℓ where
  ok : A → Outcome A
  throw : Exception → Outcome A
  fault : Outcome A

-- What the state was changed to before an exception stays.
abbrev pub Exec {ℓ κ} : Type ℓ → Type κ → Type (ℓ ⊔ κ)
Exec S A = S → Outcome A × S

module _ {ℓ κ} {S : Type ℓ} {A : Type κ} where
  unfoldable pub return : A → Exec S A
  return a s = (ok a, s)

  unfoldable pub raise : Exception → Exec S A
  raise e s = (throw e, s)

  unfoldable pub lift : Outcome A → Exec S A
  lift r s = (r, s)

  abbrev pub continue {μ} : {B : Type μ} → Outcome A × S → (A → Exec S B) → Outcome B × S
  continue (ok a, s) f = f a s
  continue (throw e, s) f = (throw e, s)
  continue (fault, s) f = (fault, s)

infixl 5 ◌>>=◌
-- To unfold this unfolds the other actions too.
unfoldable pub ◌>>=◌ {ℓ κ μ} :
    {S : Type ℓ} {A : Type κ} {B : Type μ} → Exec S A → (A → Exec S B) → Exec S B
unfolding return raise lift
◌>>=◌ m f s = continue (m s) f

infixl 5 ◌>>◌
abbrev pub ◌>>◌ {ℓ μ} : {S : Type ℓ} {B : Type μ} → Exec S (Unit {0}) → Exec S B → Exec S B
m >> n = m >>= λ _. n

module _ {ℓ κ} {S : Type ℓ} {A : Type κ} where
  -- `if (!test) throw e;` before the rest.
  unfoldable pub require : Bool → Exception → Exec S A → Exec S A
  unfolding raise
  require true e m = m
  require false e m = raise e

  -- `if (auto cached = ...) return *cached;` before the rest.
  unfoldable pub served : Option A → Exec S A → Exec S A
  unfolding return
  served none m = m
  served (some a) m = return a
