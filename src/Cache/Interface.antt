-- ===== src/Cache/Interface.antt =====
-- `ICache` (backend/src/cache/ICache.h): what the services know of a cache.
use currency_converter_demo.Base.{Option, none, some, Str}
use currency_converter_demo.Exec.{Exec, Exception, served}
use currency_converter_demo.Exec.Runs.{Runs, Never, Runs-return, Runs-weaken}

-- The methods of a cache object that is a part of the state `S`.
pub record ICache (S V : Type 0) : Type 0 where
  pub get : Str → Exec S (Option V)
  pub put : Str → V → Exec S (Unit {0})

-- `Genuine k v`: the value `v` may be stored under `k`. A `get` answers such values only.
abbrev pub Answer {ℓ} : {V : Type 0} → (Str → V → Type ℓ) → Str → Option V → Type ℓ
Answer Genuine k none = Unit
Answer Genuine k (some v) = Genuine k v

-- What the services rely on: neither method throws or faults, both keep the invariant `I` of the
-- state, and only what was put comes back.
pub record IsCache {S V : Type 0} (I : S → Type 0) (Genuine : Str → V → Type 0) (c : ICache S V)
    : Type 0 where
  pub get_keeps : (k : Str) → Runs I (c.get k) (λ o t. I t × Answer Genuine k o) Never
  pub put_keeps : (k : Str) (v : V) → Genuine k v → Runs I (c.put k v) (λ _ t. I t) Never

-- The rule for an answer of the cache: it is genuine, or else the rest runs.
pub Runs-answered :
    {S V : Type 0} {I : S → Type 0} {Q : V → S → Type 0} {E : Exception → S → Type 0}
    (Genuine : Str → V → Type 0) (k : Str) (o : Option V) (m : Exec S V)
    → ((v : V) → Genuine k v → (s : S) → I s → Q v s)
    → Runs I m Q E
    → Runs (λ t. I t × Answer Genuine k o) (served o m) Q E
unfolding served
Runs-answered Genuine k none m hit miss = record { at = λ s p. miss.at s p.0 }
Runs-answered Genuine k (some v) m hit miss = Runs-return v λ s p. hit v p.1 s p.0

-- The rules for the calls of a cache in code that may throw.
module _ {S V : Type 0} {I : S → Type 0} {Genuine : Str → V → Type 0} {c : ICache S V}
    (laws : IsCache I Genuine c) (E : Exception → S → Type 0) where
  pub Runs-get : (k : Str) → Runs I (c.get k) (λ o t. I t × Answer Genuine k o) E
  Runs-get k = Runs-weaken _ _ (laws.get_keeps k) (λ o s p. p) (λ e s p. absurd p)

  pub Runs-put : (k : Str) (v : V) → Genuine k v → Runs I (c.put k v) (λ _ t. I t) E
  Runs-put k v g = Runs-weaken _ _ (laws.put_keeps k v g) (λ u s p. p) (λ e s p. absurd p)
