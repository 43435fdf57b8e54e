-- ===== src/Cache/Spec.antt =====
-- What a `TimeAndSizeBoundedCache` promises, with neither iterators nor a map: a list of entries,
-- most recently used first.
use currency_converter_demo.Base.{
  ℕ, ℤ, if◌then◌else◌, Option, none, some, List, [], ◌∷◌, take, Str, str_dec, ite, ◌+◌,
}
use currency_converter_demo.Cache.Bounded.{Entry, is_expired}

module _ {ℓ} {V : Type ℓ} where
  -- The entry of a key.
  unfoldable pub find : Str → List (Entry V) → Option (Entry V)
  find k [] = none
  find k (e ∷ l) = ite (str_dec e.key k) (some e) (find k l)

  -- The list without it.
  unfoldable pub drop : Str → List (Entry V) → List (Entry V)
  drop k [] = []
  drop k (e ∷ l) = ite (str_dec e.key k) l (e ∷ drop k l)

  -- An entry past its age counts as absent and goes. Any other is moved to the front.
  unfoldable pub lru_get : ℤ → ℕ → Str → List (Entry V) → Option V × List (Entry V)
  lru_get max_age now k l = elim (find k l) [
    | none ↦ (none, l)
    | some e ↦
        if is_expired max_age now e.inserted_at
        then (none, drop k l)
        else (some e.value, e ∷ drop k l)
  ]

  -- The new entry goes to the front, and the `n` most recently used entries stay.
  unfoldable pub lru_put : ℕ → ℕ → Str → V → List (Entry V) → List (Entry V)
  lru_put n now k v l = take n (record { key = k; value = v; inserted_at = now } ∷ drop k l)

  -- The entries stay that are not past their age when the sweep looks at them: `clock i` is the
  -- time at which it looks at the i-th.
  unfoldable pub lru_sweep : ℤ → (ℕ → ℕ) → ℕ → List (Entry V) → List (Entry V)
  lru_sweep max_age clock i [] = []
  lru_sweep max_age clock i (e ∷ l) =
      let rest = lru_sweep max_age clock (i + 1) l in
      if is_expired max_age (clock i) e.inserted_at then rest else e ∷ rest
