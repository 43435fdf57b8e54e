-- ===== src/Cache/Everywhere.antt =====
-- Predicates on every entry of the abstract cache, through its operations.
use currency_converter_demo.Base.{
  if_pos, if_neg, ℕ, zero, suc, ◌+◌, ◌≡◌, some, List, [], ◌∷◌, take, Str, str_dec, arith, All,
  Bool-cases, inl, inr, ℤ, subst,
}
use currency_converter_demo.Cache.Bounded.{Entry, is_expired}
use currency_converter_demo.Cache.Spec.{find, drop, lru_sweep}

module _ {ℓ} {V : Type ℓ} where
  pub drop-All {κ} :
      (P : Entry V → Type κ) (k : Str) (l : List (Entry V)) → All P l → All P (drop k l)
  unfolding drop
  drop-All P k [] h = tt
  drop-All P k (e ∷ l) h = elim (str_dec e.key k) [
    | yes p ↦ rw (if_pos (str_dec e.key k) p) h.1
    | no p ↦ rw (if_neg (str_dec e.key k) p) (h.0, drop-All P k l h.1)
  ]

  pub take-All {κ} :
      (P : Entry V → Type κ) (n : ℕ) (l : List (Entry V)) → All P l → All P (take n l)
  take-All P zero l h = tt
  take-All P (suc n) [] h = tt
  take-All P (suc n) (e ∷ l) h = (h.0, take-All P n l h.1)

  pub lru_sweep-All {κ} :
      (P : Entry V → Type κ) (a : ℤ) (clock : ℕ → ℕ) (i : ℕ) (l : List (Entry V))
      → All P l
      → All P (lru_sweep a clock i l)
  unfolding lru_sweep
  lru_sweep-All P a clock i [] h = tt
  lru_sweep-All P a clock i (e ∷ l) h = elim (Bool-cases (is_expired a (clock i) e.inserted_at)) [
    | inl old ↦ rw (old, lru_sweep) (lru_sweep-All P a clock (i + 1) l h.1)
    | inr young ↦ rw (young, lru_sweep) (h.0, lru_sweep-All P a clock (i + 1) l h.1)
  ]

  pub find-All {κ} :
      (P : Entry V → Type κ) (k : Str) (l : List (Entry V)) (e : Entry V)
      → All P l
      → find k l ≡ some e
      → P e
  unfolding find
  find-All P k [] e h p = cc
  find-All P k (x ∷ l) e h p = elim (str_dec x.key k) [
    | yes same ↦ let q : x ≡ e = ground arith in subst P q h.0
    | no other ↦ find-All P k l e h.1 (ground arith)
  ]
