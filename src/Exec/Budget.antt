-- ===== src/Exec/Budget.antt =====
-- How much a run takes at most, whatever is counted, and the rules for it.
use currency_converter_demo.Base.{ℕ, ◌+◌, ◌≤◌, arith, Bool, true, false, Option, none, some}
use currency_converter_demo.Exec.{
  Exception, Outcome, ok, throw, fault, Exec, return, raise, lift, continue, ◌>>=◌, require, served,
}

-- `Spent n s t`: from `s` to `t` no more than `n` was taken.
pub record IsBudget {S : Type 0} (Spent : ℕ → S → S → Type 0) : Type 0 where
  pub nothing : (n : ℕ) (s : S) → Spent n s s
  pub both : (m n : ℕ) (s t u : S) → Spent m s t → Spent n t u → Spent (m + n) s u
  pub more : (m n : ℕ) (s t : S) → m ≤ n → Spent m s t → Spent n s t

-- The action takes `n` at most, whatever it starts in and however it ends.
pub record Takes {S A : Type 0} (Spent : ℕ → S → S → Type 0) (m : Exec S A) (n : ℕ) : Type 0 where
  pub at : (s : S) → Spent n s (m s).1

module _ {S A : Type 0} (Spent : ℕ → S → S → Type 0) (budget : IsBudget Spent) where
  pub Takes-return : (n : ℕ) (a : A) → Takes Spent (return a) n
  unfolding return
  Takes-return n a = record { at = λ s. budget.nothing n s }

  pub Takes-raise : (n : ℕ) (e : Exception) → Takes Spent (raise {A = A} e) n
  unfolding raise
  Takes-raise n e = record { at = λ s. budget.nothing n s }

  pub Takes-lift : (n : ℕ) (r : Outcome A) → Takes Spent (lift r) n
  unfolding lift
  Takes-lift n r = record { at = λ s. budget.nothing n s }

  pub Takes-require :
      (n : ℕ) (test : Bool) (e : Exception) (m : Exec S A)
      → Takes Spent m n
      → Takes Spent (require test e m) n
  unfolding require
  Takes-require n true e m h = h
  Takes-require n false e m h = Takes-raise n e

  pub Takes-served :
      (n : ℕ) (o : Option A) (m : Exec S A) → Takes Spent m n → Takes Spent (served o m) n
  unfolding served
  Takes-served n none m h = h
  Takes-served n (some a) m h = Takes-return n a

  continued :
      {B : Type 0} (k n : ℕ) (s : S) (r : Outcome B × S) (f : B → Exec S A)
      → Spent k s r.1
      → ((b : B) → Takes Spent (f b) n)
      → Spent (k + n) s (continue r f).1
  continued k n s (ok b, t) f h rest = budget.both k n s t (f b t).1 h ((rest b).at t)
  continued k n s (throw e, t) f h rest = budget.more k (k + n) s t (omega arith) h
  continued k n s (fault, t) f h rest = budget.more k (k + n) s t (omega arith) h

  pub Takes-bind :
      {B : Type 0} (k n : ℕ) (m : Exec S B) (f : B → Exec S A)
      → Takes Spent m k
      → ((b : B) → Takes Spent (f b) n)
      → Takes Spent (m >>= f) (k + n)
  unfolding ◌>>=◌
  Takes-bind k n m f h rest = record { at = λ s. continued k n s (m s) f (h.at s) rest }
