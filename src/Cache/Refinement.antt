-- ===== src/Cache/Refinement.antt =====
-- `get` of `TimeAndSizeBoundedCache` against the abstract cache.
use currency_converter_demo.Base.{
  ℕ, ◌≡◌, refl, Option, none, some, List, ◌∷◌, Str, arith, Option-cases, Bool-cases, inl, inr,
}
use currency_converter_demo.Cache.Bounded.{
  Entry, Node, Cache, deref, is_expired, get, get_at, index_erase,
}
use currency_converter_demo.Cache.Spec.{lru_get}
use currency_converter_demo.Cache.Invariant.{view, locate, IsValid}
use currency_converter_demo.Cache.Nodes.{
  without, view-without, find-none, deref_located, unlink_located, find_key, locate-without,
  without-DistinctKeys, without-DistinctAddrs, without-AddrsBelow, length-without-le,
  length-without, deref-without_located, located_below,
}

module _ {ℓ} {V : Type ℓ} where
  -- What an operation leads to: the abstract cache's answer and entries, in a valid cache of the
  -- same limits.
  pub record Refines {A : Type ℓ} (c : Cache V) (spec : A × List (Entry V)) (r : A × Cache V)
      : Type ℓ where
    pub valid : IsValid r.1
    pub answer : r.0 ≡ spec.0
    pub entries : view r.1.entries ≡ spec.1
    pub max_age : r.1.max_age ≡ c.max_age
    pub max_elements : r.1.max_elements ≡ c.max_elements

  -- The cache without the entry of a key.
  abbrev pub removed : Cache V → Str → Cache V
  removed c k = record c { entries = without k c.entries; index = index_erase c.index k }

  pub removed-IsValid : {c : Cache V} (k : Str) → IsValid c → IsValid (removed c k)
  unfolding index_erase
  removed-IsValid {c} k v = record {
    indexed = λ j. ground (arith, v.indexed j, locate-without k j c.entries v.keys);
    keys = without-DistinctKeys k c.entries v.keys;
    addrs = without-DistinctAddrs k c.entries v.addrs;
    fresh = without-AddrsBelow k c.next_addr c.entries v.fresh;
    bounded = omega (arith, v.bounded, length-without-le k c.entries);
    positive = v.positive;
  }

  -- The cache with the entry of a key in front.
  abbrev touched : Cache V → Str → ℕ → Entry V → Cache V
  touched c k a e = record c { entries = record { addr = a; entry = e } ∷ without k c.entries }

  touched-IsValid :
      {c : Cache V} (k : Str) (a : ℕ) (e : Entry V)
      → IsValid c
      → locate k c.entries ≡ some a
      → e.key ≡ k
      → IsValid (touched c k a e)
  unfolding locate
  touched-IsValid {c} k a e v p q = record {
    indexed = λ j. ground (arith, v.indexed j, locate-without k j c.entries v.keys);
    keys = (
      ground (arith, locate-without k e.key c.entries v.keys),
      without-DistinctKeys k c.entries v.keys,
    );
    addrs =
        (deref-without_located k c.entries a v.addrs p, without-DistinctAddrs k c.entries v.addrs);
    fresh = (
      located_below k c.next_addr c.entries a v.fresh p,
      without-AddrsBelow k c.next_addr c.entries v.fresh,
    );
    bounded = omega (arith, v.bounded, length-without k c.entries a p);
    positive = v.positive;
  }

  deref_front :
      (a : ℕ) (e : Entry V) (rest : List (Node V))
      → deref a (record { addr = a; entry = e } ∷ rest) ≡ some e
  unfolding deref
  deref_front a e rest = ground arith

  get_at-Refines :
      (c : Cache V) (now : ℕ) (k : Str) (a : ℕ)
      → IsValid c
      → locate k c.entries ≡ some a
      → (r : Option V × Cache V) × (get_at c now k a ≡ some r)
        × Refines c (lru_get c.max_age now k (view c.entries)) r
  unfolding get_at lru_get
  get_at-Refines c now k a v p =
      let (e, read, found) = deref_located k c.entries a v.addrs p in
      let erased = unlink_located k c.entries a v.addrs p in
      let same = find_key k (view c.entries) e found in
      let front = deref_front a e (without k c.entries) in
      let dropped = view-without k c.entries in
      elim (Bool-cases (is_expired c.max_age now e.inserted_at)) [
        | inl old ↦ (
          (none, removed c k),
          rw (read, get_at, old, erased),
          record {
            valid = removed-IsValid k v;
            answer = rw (found, lru_get, old);
            entries = rw (found, lru_get, old, dropped);
            max_age = refl;
            max_elements = refl;
          },
        )
        | inr young ↦ (
          (some e.value, touched c k a e),
          rw (read, get_at, young, erased, front),
          record {
            valid = touched-IsValid k a e v p same;
            answer = rw (found, lru_get, young);
            entries = rw (found, lru_get, young, dropped);
            max_age = refl;
            max_elements = refl;
          },
        )
      ]

  -- On a valid cache `get` meets no dangling iterator; it answers what the abstract cache answers,
  -- leaves its entries, and the cache is valid and has the same limits.
  pub get-Refines :
      (c : Cache V) (now : ℕ) (k : Str)
      → IsValid c
      → (r : Option V × Cache V) × (get c now k ≡ some r)
        × Refines c (lru_get c.max_age now k (view c.entries)) r
  unfolding get lru_get
  get-Refines c now k v = elim (Option-cases (locate k c.entries)) [
    | inl p ↦ (
      (none, c),
      rw (v.indexed k, p, get),
      record {
        valid = v;
        answer = rw (find-none k c.entries p, lru_get);
        entries = rw (find-none k c.entries p, lru_get);
        max_age = refl;
        max_elements = refl;
      },
    )
    | inr (a, p) ↦ rw (v.indexed k, p, get) (get_at-Refines c now k a v p)
  ]
