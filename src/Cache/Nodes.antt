-- ===== src/Cache/Nodes.antt =====
-- The list operations of `TimeAndSizeBoundedCache` on a list with no key and no address twice, and
-- the iterators that are found through a key.
use currency_converter_demo.Base.{
  ℕ, ◌+◌, ◌≤◌, ◌<◌, ◌≡◌, refl, ◌≢◌, none, some, List, [], ◌∷◌, length, Str, str_dec, ite, arith,
}
use currency_converter_demo.Cache.Bounded.{Entry, Node, deref, unlink}
use currency_converter_demo.Cache.Spec.{find, drop}
use currency_converter_demo.Cache.Invariant.{view, locate, DistinctKeys, DistinctAddrs, AddrsBelow}

module _ {ℓ} {V : Type ℓ} where
  -- `drop` on nodes.
  unfoldable pub without : Str → List (Node V) → List (Node V)
  without k [] = []
  without k (n ∷ ns) = ite (str_dec n.entry.key k) ns (n ∷ without k ns)

  pub view-without : (k : Str) (ns : List (Node V)) → view (without k ns) ≡ drop k (view ns)
  unfolding without drop
  view-without k [] = refl
  view-without k (n ∷ ns) = ground (arith, view-without k ns)

  -- A key that has no iterator has no entry.
  pub find-none : (k : Str) (ns : List (Node V)) → locate k ns ≡ none → find k (view ns) ≡ none
  unfolding locate find
  find-none k [] h = refl
  find-none k (n ∷ ns) h = ground (arith, find-none k ns)

  pub drop-none : (k : Str) (ns : List (Node V)) → locate k ns ≡ none → drop k (view ns) ≡ view ns
  unfolding locate drop
  drop-none k [] h = refl
  drop-none k (n ∷ ns) h = ground (arith, drop-none k ns)

  deref_located-ne :
      (k : Str) (ns : List (Node V)) (a b : ℕ) → deref a ns ≡ none → locate k ns ≡ some b → a ≢ b
  unfolding locate deref
  deref_located-ne k [] a b h p = cc
  deref_located-ne k (n ∷ ns) a b h p = ground (arith, deref_located-ne k ns a b)

  -- The iterator of a key can be dereferenced, and gives the entry of the key.
  pub deref_located :
      (k : Str) (ns : List (Node V)) (a : ℕ)
      → DistinctAddrs ns
      → locate k ns ≡ some a
      → (e : Entry V) × (deref a ns ≡ some e) × (find k (view ns) ≡ some e)
  unfolding locate deref find
  deref_located k [] a d p = cc
  deref_located k (n ∷ ns) a d p = elim (str_dec n.entry.key k) [
    | yes same ↦ (n.entry, ground arith, ground arith)
    | no other ↦
        let q : locate k ns ≡ some a = ground arith in
        let (e, found, listed) = deref_located k ns a d.1 q in
        (e, ground (arith, deref_located-ne k ns n.addr a), ground arith)
  ]

  -- The iterator of a key can be erased, which takes away the entry of the key.
  pub unlink_located :
      (k : Str) (ns : List (Node V)) (a : ℕ)
      → DistinctAddrs ns
      → locate k ns ≡ some a
      → unlink a ns ≡ some (without k ns)
  unfolding locate unlink without
  unlink_located k [] a d p = cc
  unlink_located k (n ∷ ns) a d p =
      ground (arith, unlink_located k ns a, deref_located-ne k ns n.addr a)

  pub find_key : (k : Str) (l : List (Entry V)) (e : Entry V) → find k l ≡ some e → e.key ≡ k
  unfolding find
  find_key k [] e h = cc
  find_key k (x ∷ l) e h = ground (arith, find_key k l e)

  pub locate-without :
      (k j : Str) (ns : List (Node V))
      → DistinctKeys ns
      → locate j (without k ns) ≡ ite (str_dec j k) none (locate j ns)
  unfolding locate without
  locate-without k j [] d = ground arith
  locate-without k j (n ∷ ns) d = ground (arith, locate-without k j ns)

  deref-without :
      (k : Str) (a : ℕ) (ns : List (Node V)) → deref a ns ≡ none → deref a (without k ns) ≡ none
  unfolding deref without
  deref-without k a [] h = refl
  deref-without k a (n ∷ ns) h = ground (arith, deref-without k a ns)

  pub without-DistinctKeys :
      (k : Str) (ns : List (Node V)) → DistinctKeys ns → DistinctKeys (without k ns)
  unfolding without
  without-DistinctKeys k [] d = tt
  without-DistinctKeys k (n ∷ ns) d =
      ground (arith, without-DistinctKeys k ns, locate-without k n.entry.key ns)

  pub without-DistinctAddrs :
      (k : Str) (ns : List (Node V)) → DistinctAddrs ns → DistinctAddrs (without k ns)
  unfolding without
  without-DistinctAddrs k [] d = tt
  without-DistinctAddrs k (n ∷ ns) d =
      ground (arith, without-DistinctAddrs k ns, deref-without k n.addr ns)

  pub without-AddrsBelow :
      (k : Str) (m : ℕ) (ns : List (Node V)) → AddrsBelow m ns → AddrsBelow m (without k ns)
  unfolding without
  without-AddrsBelow k m [] d = tt
  without-AddrsBelow k m (n ∷ ns) d = ground (arith, without-AddrsBelow k m ns)

  pub length-without-le : (k : Str) (ns : List (Node V)) → length (without k ns) ≤ length ns
  unfolding without
  length-without-le k [] = omega arith
  length-without-le k (n ∷ ns) = ground (arith, length-without-le k ns)

  pub length-without :
      (k : Str) (ns : List (Node V)) (a : ℕ)
      → locate k ns ≡ some a
      → length (without k ns) + 1 ≡ length ns
  unfolding without locate
  length-without k [] a h = cc
  length-without k (n ∷ ns) a h = ground (arith, length-without k ns a)

  -- The removed address is free afterwards.
  pub deref-without_located :
      (k : Str) (ns : List (Node V)) (a : ℕ)
      → DistinctAddrs ns
      → locate k ns ≡ some a
      → deref a (without k ns) ≡ none
  unfolding locate deref without
  deref-without_located k [] a d p = refl
  deref-without_located k (n ∷ ns) a d p =
      ground (arith, deref-without_located k ns a, deref_located-ne k ns n.addr a)

  pub located_below :
      (k : Str) (m : ℕ) (ns : List (Node V)) (a : ℕ)
      → AddrsBelow m ns
      → locate k ns ≡ some a
      → a < m
  unfolding locate
  located_below k m [] a h p = cc
  located_below k m (n ∷ ns) a h p = ground (arith, located_below k m ns a)

  pub deref_of_below : (m : ℕ) (ns : List (Node V)) → AddrsBelow m ns → deref m ns ≡ none
  unfolding deref
  deref_of_below m [] h = refl
  deref_of_below m (n ∷ ns) h = ground (arith, deref_of_below m ns)

  pub AddrsBelow-suc : (m : ℕ) (ns : List (Node V)) → AddrsBelow m ns → AddrsBelow (m + 1) ns
  AddrsBelow-suc m [] h = tt
  AddrsBelow-suc m (n ∷ ns) h = (omega arith, AddrsBelow-suc m ns h.1)
