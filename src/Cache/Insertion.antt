-- ===== src/Cache/Insertion.antt =====
-- `put` of `TimeAndSizeBoundedCache`: the old entry of the key goes, the new one is put in front,
-- and the last one goes if there are too many.
use mathlib.Core.Path.{ap₂}
use currency_converter_demo.Base.{
  ℕ, zero, suc, ◌+◌, ◌≤◌, ◌<◌, ◌≡◌, refl, ap, ◌≢◌, none, some, List, [], ◌∷◌, length, take, Str,
  str_dec, ite, arith, Option-cases, Bool-cases, ltb, inl, inr, take_of_length-le, length-map,
  length-take-le, sym, ◌∙◌,
}
use currency_converter_demo.Cache.Bounded.{
  Entry, Node, Cache, deref, back, pop_back, put, drop_old, push_front, evict, index_erase,
}
use currency_converter_demo.Cache.Spec.{lru_put}
use currency_converter_demo.Cache.Invariant.{
  view, locate, DistinctKeys, DistinctAddrs, AddrsBelow, IsValid,
}
use currency_converter_demo.Cache.Nodes.{
  without, view-without, unlink_located, locate-without, deref_of_below, AddrsBelow-suc,
}
use currency_converter_demo.Cache.Refinement.{Refines, removed, removed-IsValid}

module _ {ℓ} {V : Type ℓ} where
  without-none : (k : Str) (ns : List (Node V)) → locate k ns ≡ none → without k ns ≡ ns
  unfolding without locate
  without-none k [] p = refl
  without-none k (n ∷ ns) p = ground (arith, without-none k ns)

  -- After the first step no entry has the key.
  record Dropped (c : Cache V) (k : Str) (d : Cache V) : Type ℓ where
    valid : IsValid d
    absent : locate k d.entries ≡ none
    entries : d.entries ≡ without k c.entries
    max_age : d.max_age ≡ c.max_age
    max_elements : d.max_elements ≡ c.max_elements

  drop_old-Dropped :
      (c : Cache V) (k : Str) → IsValid c → (d : Cache V) × (drop_old c k ≡ some d) × Dropped c k d
  unfolding drop_old
  drop_old-Dropped c k v = elim (Option-cases (locate k c.entries)) [
    | inl p ↦ (
      c,
      rw (v.indexed k, p, drop_old),
      record {
        valid = v;
        absent = p;
        entries = sym (without-none k c.entries p);
        max_age = refl;
        max_elements = refl;
      },
    )
    | inr (a, p) ↦ (
      removed c k,
      rw (v.indexed k, p, drop_old, unlink_located k c.entries a v.addrs p),
      record {
        valid = removed-IsValid k v;
        absent = ground (arith, locate-without k k c.entries v.keys);
        entries = refl;
        max_age = refl;
        max_elements = refl;
      },
    )
  ]

  -- The last node of a list, and the list without it.
  pop_back_lem :
      (n : Node V) (ns : List (Node V))
      → (e : Entry V) × (back (n ∷ ns) ≡ some e)
        × (pop_back (n ∷ ns) ≡ some (take (length ns) (n ∷ ns)))
  unfolding back pop_back
  pop_back_lem n [] = (n.entry, refl, refl)
  pop_back_lem n (m ∷ ns) = let (e, last, rest) = pop_back_lem m ns in (e, last, rw rest)

  locate-back :
      (n : Node V) (ns : List (Node V)) (e : Entry V)
      → back (n ∷ ns) ≡ some e
      → locate e.key (n ∷ ns) ≢ none
  unfolding back locate
  locate-back n [] e b h = ground arith
  locate-back n (m ∷ ns) e b h = ground (arith, locate-back m ns e b)

  locate-pop_back :
      (n : Node V) (ns : List (Node V)) (e : Entry V) (j : Str)
      → DistinctKeys (n ∷ ns)
      → back (n ∷ ns) ≡ some e
      → locate j (take (length ns) (n ∷ ns)) ≡ ite (str_dec j e.key) none (locate j (n ∷ ns))
  unfolding back locate
  locate-pop_back n [] e j d b = ground arith
  locate-pop_back n (m ∷ ns) e j d b =
      ground (arith, locate-pop_back m ns e j d.1 b, locate-back m ns e b)

  deref-take : (a i : ℕ) (ns : List (Node V)) → deref a ns ≡ none → deref a (take i ns) ≡ none
  unfolding deref
  deref-take a zero ns h = refl
  deref-take a (suc i) [] h = refl
  deref-take a (suc i) (n ∷ ns) h = ground (arith, deref-take a i ns)

  locate-take :
      (k : Str) (i : ℕ) (ns : List (Node V)) → locate k ns ≡ none → locate k (take i ns) ≡ none
  unfolding locate
  locate-take k zero ns h = refl
  locate-take k (suc i) [] h = refl
  locate-take k (suc i) (n ∷ ns) h = ground (arith, locate-take k i ns)

  take-DistinctKeys : (i : ℕ) (ns : List (Node V)) → DistinctKeys ns → DistinctKeys (take i ns)
  take-DistinctKeys zero ns d = tt
  take-DistinctKeys (suc i) [] d = tt
  take-DistinctKeys (suc i) (n ∷ ns) d =
      (locate-take n.entry.key i ns d.0, take-DistinctKeys i ns d.1)

  take-DistinctAddrs : (i : ℕ) (ns : List (Node V)) → DistinctAddrs ns → DistinctAddrs (take i ns)
  take-DistinctAddrs zero ns d = tt
  take-DistinctAddrs (suc i) [] d = tt
  take-DistinctAddrs (suc i) (n ∷ ns) d = (deref-take n.addr i ns d.0, take-DistinctAddrs i ns d.1)

  take-AddrsBelow : (m i : ℕ) (ns : List (Node V)) → AddrsBelow m ns → AddrsBelow m (take i ns)
  take-AddrsBelow m zero ns d = tt
  take-AddrsBelow m (suc i) [] d = tt
  take-AddrsBelow m (suc i) (n ∷ ns) d = (d.0, take-AddrsBelow m i ns d.1)

  view-take : (i : ℕ) (ns : List (Node V)) → view (take i ns) ≡ take i (view ns)
  view-take zero ns = refl
  view-take (suc i) [] = refl
  view-take (suc i) (n ∷ ns) = ap (◌∷◌ n.entry) (view-take i ns)

  push_front-IsValid :
      (c : Cache V) (now : ℕ) (k : Str) (x : V) {b : ℕ}
      → IsValid c
      → locate k c.entries ≡ none
      → length c.entries < b
      → IsValid (record (push_front c now k x) { max_elements = b })
  unfolding push_front locate
  push_front-IsValid c now k x v p h = record {
    indexed = λ j. ground (arith, v.indexed j);
    keys = (p, v.keys);
    addrs = (deref_of_below c.next_addr c.entries v.fresh, v.addrs);
    fresh = (omega arith, AddrsBelow-suc c.next_addr c.entries v.fresh);
    bounded = omega arith;
    positive = omega arith;
  }

  pop_back_longer :
      (m : ℕ) (ns : List (Node V))
      → DistinctKeys ns
      → length ns ≡ m + 1
      → (e : Entry V) × (back ns ≡ some e)
        × (pop_back ns ≡ some (take m ns))
        × ((j : Str) → locate j (take m ns) ≡ ite (str_dec j e.key) none (locate j ns))
  pop_back_longer m [] d h = absurd (omega arith)
  pop_back_longer m (n ∷ ns) d h =
      let (e, last, rest) = pop_back_lem n ns in
      let size : length ns ≡ m = omega arith in
      (e, last, rw (← size) rest, λ j. rw (← size) (locate-pop_back n ns e j d last))

  record Evicted (c d : Cache V) : Type ℓ where
    valid : IsValid d
    entries : view d.entries ≡ take c.max_elements (view c.entries)
    max_age : d.max_age ≡ c.max_age
    max_elements : d.max_elements ≡ c.max_elements

  evict-Evicted :
      (c : Cache V)
      → IsValid (record c { max_elements = c.max_elements + 1 })
      → 0 < c.max_elements
      → (d : Cache V) × (evict c ≡ some d) × Evicted c d
  unfolding evict index_erase
  evict-Evicted c v positive = elim (Bool-cases (ltb c.max_elements (length c.entries))) [
    | inl full ↦
        let (e, last, rest, located) =
          pop_back_longer c.max_elements c.entries v.keys (ground (arith, v.bounded)) in
        (
          record c { entries = take c.max_elements c.entries; index = index_erase c.index e.key },
          rw (full, last, rest),
          record {
            valid = record {
              indexed = λ j. rw located (ground (arith, v.indexed j));
              keys = take-DistinctKeys c.max_elements c.entries v.keys;
              addrs = take-DistinctAddrs c.max_elements c.entries v.addrs;
              fresh = take-AddrsBelow c.next_addr c.max_elements c.entries v.fresh;
              bounded = length-take-le c.max_elements c.entries;
              positive = positive;
            };
            entries = view-take c.max_elements c.entries;
            max_age = refl;
            max_elements = refl;
          },
        )
    | inr fits ↦
        let small : length c.entries ≤ c.max_elements = ground arith in
        (
          c,
          rw fits,
          record {
            valid = record {
              indexed = v.indexed;
              keys = v.keys;
              addrs = v.addrs;
              fresh = v.fresh;
              bounded = small;
              positive = positive;
            };
            entries = sym (
                take_of_length-le c.max_elements (view c.entries)
                  (omega (arith, length-map (λ (n : Node V). n.entry) c.entries)));
            max_age = refl;
            max_elements = refl;
          },
        )
  ]

  -- On a valid cache `put` meets no dangling iterator; it leaves the abstract cache's entries, and
  -- the cache is valid and has the same limits.
  pub put-Refines :
      (c : Cache V) (now : ℕ) (k : Str) (x : V)
      → IsValid c
      → (d : Cache V) × (put c now k x ≡ some d)
        × Refines {A = Unit} c (tt, lru_put c.max_elements now k x (view c.entries)) (tt, d)
  unfolding put lru_put push_front
  put-Refines c now k x v =
      let (b, dropped, is_dropped) = drop_old-Dropped c k v in
      let pushed = push_front b now k x in
      let roomy =
        push_front-IsValid b now k x {b = b.max_elements + 1} is_dropped.valid is_dropped.absent
          (omega (arith, is_dropped.valid.bounded)) in
      let (d, evicted, is_evicted) = evict-Evicted pushed roomy is_dropped.valid.positive in
      (
        d,
        rw dropped evicted,
        record {
          valid = is_evicted.valid;
          answer = refl;
          entries =
              is_evicted.entries
              ∙ ap₂ (λ m l. take m (record { key = k; value = x; inserted_at = now } ∷ l))
                  is_dropped.max_elements (ap view is_dropped.entries ∙ view-without k c.entries);
          max_age = is_evicted.max_age ∙ is_dropped.max_age;
          max_elements = is_evicted.max_elements ∙ is_dropped.max_elements;
        },
      )
