-- ===== src/Exec/Agreement.antt =====
-- Code that changes a state against a reference without one: what both end by.
use currency_converter_demo.Base.{◌≡◌, refl, sym, ap, ◌∙◌, ◌⊎◌, inl, inr, Bool, true, false, ◌≢◌}
use currency_converter_demo.Exec.{
  Exception, Outcome, ok, throw, fault, Exec, return, raise, lift, continue, ◌>>=◌, require,
}
use currency_converter_demo.Exec.Runs.{
  Runs, Runs-bind, Runs-return, Runs-raise, Runs-given, Runs-weaken,
}

-- How the reference ends.
abbrev pub ending : {A : Type 0} → Exec (Unit {0}) A → Outcome A
ending p = (p tt).0

-- From each state of `I` the action ends in one of `I`, by the value or the exception that the
-- reference ends by, or by an exception that is excused.
abbrev pub Agrees {ℓ} :
    {S : Type ℓ} {A : Type 0}
    → (S → Type 0)
    → (Exception → Type 0)
    → Exec S A
    → Exec (Unit {0}) A
    → Type ℓ
Agrees I Excuse m p =
    Runs I m (λ a t. I t × (ending p ≡ ok a)) (λ e t. I t × ((ending p ≡ throw e) ⊎ Excuse e))

pub ok-injective : {A : Type 0} {a b : A} → ok a ≡ ok b → a ≡ b
ok-injective e = cc

pub throw-injective :
    {A : Type 0} {x y : Exception} → ◌≡◌ {A = Outcome A} (throw x) (throw y) → x ≡ y
throw-injective e = cc

module _ {A B : Type 0} (g : A → Exec (Unit {0}) B) where
  continue-ok : (r : Outcome A × Unit {0}) (a : A) → r.0 ≡ ok a → continue r g ≡ g a tt
  continue-ok (ok b, u) a e = ap (λ x. g x tt) (ok-injective e)
  continue-ok (throw x, u) a e = cc
  continue-ok (fault, u) a e = cc

  continue-throw :
      (r : Outcome A × Unit {0}) (x : Exception) → r.0 ≡ throw x → (continue r g).0 ≡ throw x
  continue-throw (ok b, u) x e = cc
  continue-throw (throw y, u) x e = ap throw (throw-injective e)
  continue-throw (fault, u) x e = cc

  continue-returned :
      (r : Outcome A × Unit {0}) (b : B)
      → (continue r g).0 ≡ ok b
      → (a : A) × (r.0 ≡ ok a) × (ending (g a) ≡ ok b)
  continue-returned (ok a, u) b e = (a, refl, e)
  continue-returned (throw x, u) b e = cc
  continue-returned (fault, u) b e = cc

or_excused : {P Q E : Type 0} → (P → Q) → P ⊎ E → Q ⊎ E
or_excused f (inl p) = inl (f p)
or_excused f (inr e) = inr e

-- How a sequence ends: by the rest if the first part returns, else as the first part.
module _ {A B : Type 0} (p : Exec (Unit {0}) A) (g : A → Exec (Unit {0}) B) where
  pub ending-ok :
      (a : A) (r : Outcome B) → ending p ≡ ok a → ending (g a) ≡ r → ending (p >>= g) ≡ r
  unfolding ◌>>=◌
  ending-ok a r e f = ap (λ x. x.0) (continue-ok g (p tt) a e) ∙ f

  pub ending-throw : (x : Exception) → ending p ≡ throw x → ending (p >>= g) ≡ throw x
  unfolding ◌>>=◌
  ending-throw x e = continue-throw g (p tt) x e

  pub ending-returned :
      (b : B) → ending (p >>= g) ≡ ok b → (a : A) × (ending p ≡ ok a) × (ending (g a) ≡ ok b)
  unfolding ◌>>=◌
  ending-returned b e = continue-returned g (p tt) b e

module _ {ℓ} {S : Type ℓ} {A : Type 0} (I : S → Type 0) (Excuse : Exception → Type 0) where
  pub Agrees-return : (a : A) → Agrees I Excuse (return a) (return a)
  unfolding return
  Agrees-return a = Runs-return a λ s i. (i, refl)

  pub Agrees-raise : (e : Exception) → Agrees I Excuse (raise {A = A} e) (raise e)
  unfolding raise
  Agrees-raise e = Runs-raise e λ s i. (i, inl refl)

  pub Agrees-lift : (r : Outcome A) → r ≢ fault → Agrees I Excuse (lift r) (lift r)
  unfolding lift
  Agrees-lift (ok a) h = record { at = λ s i. (i, refl) }
  Agrees-lift (throw e) h = record { at = λ s i. (i, inl refl) }
  Agrees-lift fault h = absurd (h refl)

  pub Agrees-require :
      (test : Bool) (e : Exception) (m : Exec S A) (p : Exec (Unit {0}) A)
      → (test ≡ true → Agrees I Excuse m p)
      → Agrees I Excuse (require test e m) (require test e p)
  unfolding require
  Agrees-require true e m p h = h refl
  Agrees-require false e m p h = Agrees-raise e

  pub Agrees-bind :
      {B : Type 0} (m : Exec S B) (p : Exec (Unit {0}) B) (f : B → Exec S A)
      (g : B → Exec (Unit {0}) A)
      → Agrees I Excuse m p
      → ((b : B) → ending p ≡ ok b → Agrees I Excuse (f b) (g b))
      → Agrees I Excuse (m >>= f) (p >>= g)
  Agrees-bind m p f g h k =
      Runs-bind _ _
        (Runs-weaken _ _ h (λ b s i. i) (λ e s i. (i.0, or_excused (ending-throw p g e) i.1)))
        λ b.
          Runs-given (ending p ≡ ok b) _ _ (λ s i. i)
            λ same.
              Runs-weaken _ _ (k b same) (λ a s i. (i.0, ending-ok p g b (ok a) same i.1))
                (λ e s i. (i.0, or_excused (ending-ok p g b (throw e) same) i.1))

  pub Agrees-map :
      {B : Type 0} (m : Exec S B) (p : Exec (Unit {0}) B) (f : B → A)
      → Agrees I Excuse m p
      → Agrees I Excuse (m >>= λ b. return (f b)) (p >>= λ b. return (f b))
  Agrees-map m p f h = Agrees-bind m p _ (λ b. return (f b)) h λ b same. Agrees-return (f b)

  -- The reference may be replaced by one that ends as it does.
  pub Agrees-same :
      (m : Exec S A) (p q : Exec (Unit {0}) A)
      → ending p ≡ ending q
      → Agrees I Excuse m p
      → Agrees I Excuse m q
  Agrees-same m p q e h =
      Runs-weaken _ _ h (λ a s i. (i.0, sym e ∙ i.1))
        (λ x s i. (i.0, or_excused (λ same. sym e ∙ same) i.1))
