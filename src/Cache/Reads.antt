-- ===== src/Cache/Reads.antt =====
-- What the abstract cache answers after a `put` and a `get`.
use mathlib.Core.Option.{some-injective}
use currency_converter_demo.Base.{
  subst, ◌∙◌, if_neg, sym, ℕ, zero, suc, ◌+◌, ◌≤◌, ◌<◌, ◌≡◌, refl, ap, ◌≢◌, Option, none, some,
  List, [], ◌∷◌, length, Str, str_dec, arith, false, Bool-cases, ltb, inl, inr, ℤ, take,
  take_of_length-le, Option-cases, length-map,
}
use currency_converter_demo.Cache.Bounded.{Entry, Node, Cache, is_expired, get, put}
use currency_converter_demo.Cache.Spec.{find, drop, lru_get, lru_put}
use currency_converter_demo.Cache.Invariant.{view, DistinctKeys, IsValid}
use currency_converter_demo.Cache.Nodes.{find-none}
use currency_converter_demo.Cache.Refinement.{Refines, get-Refines}
use currency_converter_demo.Cache.Insertion.{put-Refines}

take-nil {κ} : {A : Type κ} (n : ℕ) → take {A = A} n [] ≡ []
take-nil zero = refl
take-nil (suc n) = refl

module _ {ℓ} {V : Type ℓ} where
  -- No key twice.
  abbrev pub Distinct : List (Entry V) → Type ℓ
  Distinct [] = Unit
  Distinct (e ∷ l) = (find e.key l ≡ none) × Distinct l

  pub view-Distinct : (ns : List (Node V)) → DistinctKeys ns → Distinct (view ns)
  view-Distinct [] d = tt
  view-Distinct (n ∷ ns) d = (find-none n.entry.key ns d.0, view-Distinct ns d.1)

  pub find-drop_ne : (k j : Str) (l : List (Entry V)) → j ≢ k → find j (drop k l) ≡ find j l
  unfolding find drop
  find-drop_ne k j [] h = refl
  find-drop_ne k j (e ∷ l) h = ground (arith, find-drop_ne k j l)

  pub length-drop-le : (k : Str) (l : List (Entry V)) → length (drop k l) ≤ length l
  unfolding drop
  length-drop-le k [] = omega arith
  length-drop-le k (e ∷ l) = ground (arith, length-drop-le k l)

  pub length-drop :
      (k : Str) (l : List (Entry V)) → find k l ≢ none → length (drop k l) + 1 ≡ length l
  unfolding find drop
  length-drop k [] h = absurd (h refl)
  length-drop k (e ∷ l) h = ground (arith, length-drop k l)

  -- The key of the least recently used entry.
  unfoldable pub last_key : List (Entry V) → Option Str
  last_key [] = none
  last_key (e ∷ []) = some e.key
  last_key (e ∷ x ∷ l) = last_key (x ∷ l)

  drop_absent : (k : Str) (l : List (Entry V)) → find k l ≡ none → drop k l ≡ l
  unfolding find drop
  drop_absent k [] h = refl
  drop_absent k (e ∷ l) h = ground (arith, drop_absent k l)

  find-take_last :
      (j : Str) (n : ℕ) (l : List (Entry V))
      → length l ≤ n + 1
      → last_key l ≢ some j
      → find j (take n l) ≡ find j l
  unfolding find last_key
  find-take_last j n [] p h = rw (take-nil n)
  find-take_last j zero (e ∷ []) p h = ground arith
  find-take_last j zero (e ∷ x ∷ l) p h = absurd (omega arith)
  find-take_last j (suc n) (e ∷ []) p h = rw (take-nil {A = Entry V} n)
  find-take_last j (suc n) (e ∷ x ∷ l) p h = ground (arith, find-take_last j n (x ∷ l))

  -- When a `put` of the key may push out the key `j`: only if the key is new, the cache is full, and
  -- `j` is the least recently used.
  abbrev pub MayEvict : ℕ → Str → List (Entry V) → Str → Type ℓ
  MayEvict n k l j = (find k l ≡ none) × (n ≤ length l) × (last_key l ≡ some j)

  -- The entries that follow the new one.
  find-kept :
      (n : ℕ) (k : Str) (l : List (Entry V)) (j : Str)
      → length l ≤ suc n
      → j ≢ k
      → ¬ MayEvict (suc n) k l j
      → find j (take n (drop k l)) ≡ find j l
  find-kept n k l j q h m = elim (Option-cases (find k l)) [
    | inr (e, found) ↦
        let short : length (drop k l) ≤ n =
          omega (arith, length-drop k l (λ (p : find k l ≡ none). cc)) in
        rw (take_of_length-le n (drop k l) short) (find-drop_ne k j l h)
    | inl new ↦ rw (drop_absent k l new) (elim (Bool-cases (ltb n (length l))) [
      | inl full ↦ find-take_last j n l (omega arith) (λ e. m (new, ground arith, e))
      | inr room ↦ rw (take_of_length-le n l (ground arith))
    ])
  ]

  find-lru_put_ne :
      (n now : ℕ) (k : Str) (x : V) (l : List (Entry V)) (j : Str)
      → 0 < n
      → length l ≤ n
      → j ≢ k
      → ¬ MayEvict n k l j
      → find j (lru_put n now k x l) ≡ find j l
  unfolding lru_put find
  find-lru_put_ne zero now k x l j p q h m = absurd (omega arith)
  find-lru_put_ne (suc n) now k x l j p q h m =
      rw (if_neg (str_dec k j) (λ e. h (sym e))) (find-kept n k l j q h m)

  find-lru_put_self :
      (n now : ℕ) (k : Str) (x : V) (l : List (Entry V))
      → 0 < n
      → find k (lru_put n now k x l) ≡ some (record { key = k; value = x; inserted_at = now })
  unfolding lru_put find
  find-lru_put_self zero now k x l p = absurd (omega arith)
  find-lru_put_self (suc n) now k x l p = ground arith

module _ {ℓ} {V : Type ℓ} where
  lru_get_found :
      (a : ℤ) (now : ℕ) (k : Str) (l : List (Entry V)) (e : Entry V)
      → find k l ≡ some e
      → is_expired a now e.inserted_at ≡ false
      → (lru_get a now k l).0 ≡ some e.value
  unfolding lru_get
  lru_get_found a now k l e found young = rw (found, lru_get, young)

  pub put_result :
      (c : Cache V) (now : ℕ) (k : Str) (x : V) (d : Cache V)
      → IsValid c
      → put c now k x ≡ some d
      → Refines {A = Unit} c (tt, lru_put c.max_elements now k x (view c.entries)) (tt, d)
  put_result c now k x d v e =
      let spec = lru_put c.max_elements now k x (view c.entries) in
      let (d', ran, r) = put-Refines c now k x v in
      subst (λ y. Refines {A = Unit} c (tt, spec) (tt, y)) (some-injective _ _ (sym ran ∙ e)) r

  -- On a valid cache a `get` that follows a `put` of the key answers the value that was put, if the
  -- entry is not past its age by then.
  pub get-put :
      (c : Cache V) (now later : ℕ) (k : Str) (x : V) (d : Cache V)
      → IsValid c
      → put c now k x ≡ some d
      → is_expired c.max_age later now ≡ false
      → (d' : Cache V) × (get d later k ≡ some (some x, d'))
  get-put c now later k x d v e young =
      let r = put_result c now k x d v e in
      let ((answer, d'), ran, g) = get-Refines d later k r.valid in
      let entry : Entry V = record { key = k; value = x; inserted_at = now } in
      let found : find k (view d.entries) ≡ some entry =
        rw r.entries (find-lru_put_self c.max_elements now k x (view c.entries) v.positive) in
      let hit =
        g.answer
        ∙ lru_get_found d.max_age later k (view d.entries) entry found (rw r.max_age young) in
      (d', ran ∙ ap (λ o. some (o, d')) hit)

  -- A `put` of a valid cache leaves the entry of another key as it was, unless the key is new, the
  -- cache is full, and the other key's entry is the least recently used.
  pub find-put_ne :
      (c : Cache V) (now : ℕ) (k j : Str) (x : V) (d : Cache V)
      → IsValid c
      → put c now k x ≡ some d
      → j ≢ k
      → ¬ MayEvict c.max_elements k (view c.entries) j
      → find j (view d.entries) ≡ find j (view c.entries)
  find-put_ne c now k j x d v e h m =
      let r = put_result c now k x d v e in
      let size : length (view c.entries) ≤ c.max_elements =
        omega (arith, v.bounded, length-map (λ (n : Node V). n.entry) c.entries) in
      rw r.entries (find-lru_put_ne c.max_elements now k x (view c.entries) j v.positive size h m)
