-- ===== src/Exec/Runs.antt =====
-- Contracts of code that changes a state and may throw, and the rules for them, one for each way to
-- build an action.
use currency_converter_demo.Base.{◌≡◌, refl, Bool, true, false, Option, none, some}
use currency_converter_demo.Exec.{
  Exception, Outcome, ok, throw, fault, Exec, return, raise, continue, ◌>>=◌, require, served,
}

-- The run ends without undefined behaviour: by a value and in a state that satisfy `Q`, or by an
-- exception and in a state that satisfy `E`.
abbrev pub Ends {ℓ κ} :
    {S : Type ℓ} {A : Type κ} → (A → S → Type 0) → (Exception → S → Type 0) → Outcome A × S → Type 0
Ends Q E (ok a, s) = Q a s
Ends Q E (throw e, s) = E e s
Ends Q E (fault, s) = ⊥

-- No exception.
abbrev pub Never {ℓ} : {S : Type ℓ} → Exception → S → Type 0
Never e s = ⊥

-- Started in a state that satisfies `P`, the action ends so.
pub record Runs {ℓ κ} {S : Type ℓ} {A : Type κ} (P : S → Type 0) (m : Exec S A) (Q : A → S → Type 0)
    (E : Exception → S → Type 0) : Type ℓ where
  pub at : (s : S) → P s → Ends Q E (m s)

module _ {ℓ κ} {S : Type ℓ} {A : Type κ} where
  Ends-weaken :
      (Q R : A → S → Type 0) (E F : Exception → S → Type 0) (r : Outcome A × S)
      → Ends Q E r
      → ((a : A) (s : S) → Q a s → R a s)
      → ((e : Exception) (s : S) → E e s → F e s)
      → Ends R F r
  Ends-weaken Q R E F (ok a, s) p f g = f a s p
  Ends-weaken Q R E F (throw e, s) p f g = g e s p
  Ends-weaken Q R E F (fault, s) p f g = p

  Ends-continue {μ} :
      {B : Type μ} {R : A → S → Type 0} {Q : B → S → Type 0} {E : Exception → S → Type 0}
      (r : Outcome A × S) (f : A → Exec S B)
      → Ends R E r
      → ((a : A) → Runs (R a) (f a) Q E)
      → Ends Q E (continue r f)
  Ends-continue (ok a, s) f p q = (q a).at s p
  Ends-continue (throw e, s) f p q = p
  Ends-continue (fault, s) f p q = p

module _ {ℓ κ} {S : Type ℓ} {A : Type κ} {P : S → Type 0} {Q : A → S → Type 0}
    {E : Exception → S → Type 0} where
  pub Runs-return : (a : A) → ((s : S) → P s → Q a s) → Runs P (return a) Q E
  unfolding return
  Runs-return a h = record { at = h }

  pub Runs-raise : (e : Exception) → ((s : S) → P s → E e s) → Runs P (raise e) Q E
  unfolding raise
  Runs-raise e h = record { at = h }

  -- What a guard lets through may use that its test passed.
  pub Runs-require :
      (test : Bool) (e : Exception) (m : Exec S A)
      → (test ≡ false → (s : S) → P s → E e s)
      → (test ≡ true → Runs P m Q E)
      → Runs P (require test e m) Q E
  unfolding require
  Runs-require true e m no_test passed = passed refl
  Runs-require false e m failed yes_test = Runs-raise e (failed refl)

  pub Runs-served :
      (o : Option A) (m : Exec S A)
      → ((a : A) → o ≡ some a → (s : S) → P s → Q a s)
      → (o ≡ none → Runs P m Q E)
      → Runs P (served o m) Q E
  unfolding served
  Runs-served none m hit miss = miss refl
  Runs-served (some a) m hit miss = Runs-return a (hit a refl)

  -- A fact that does not depend on the state may be used as a hypothesis.
  pub Runs-given {μ} :
      (X : Type μ) (m : Exec S A) (R : S → Type 0)
      → ((s : S) → R s → P s × X)
      → (X → Runs P m Q E)
      → Runs R m Q E
  Runs-given X m R split h = record { at = λ s r. (h (split s r).1).at s (split s r).0 }

  pub Runs-weaken :
      {m : Exec S A} (R : A → S → Type 0) (F : Exception → S → Type 0)
      → Runs P m Q E
      → ((a : A) (s : S) → Q a s → R a s)
      → ((e : Exception) (s : S) → E e s → F e s)
      → Runs P m R F
  Runs-weaken {m = m} R F h f g = record { at = λ s p. Ends-weaken Q R E F (m s) (h.at s p) f g }

module _ {ℓ κ μ} {S : Type ℓ} {A : Type κ} {B : Type μ} {P : S → Type 0} {R : A → S → Type 0}
    {Q : B → S → Type 0} {E : Exception → S → Type 0} where
  -- The rule for a sequence.
  pub Runs-bind :
      (m : Exec S A) (f : A → Exec S B)
      → Runs P m R E
      → ((a : A) → Runs (R a) (f a) Q E)
      → Runs P (m >>= f) Q E
  unfolding ◌>>=◌
  Runs-bind m f h k = record { at = λ s p. Ends-continue (m s) f (h.at s p) k }
