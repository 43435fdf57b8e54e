-- ===== src/Cache/Sweeping.antt =====
-- `sweepExpired` of `TimeAndSizeBoundedCache`.
use currency_converter_demo.Base.{
  ℕ, ◌+◌, ◌≤◌, ◌≡◌, refl, Option, none, some, List, [], ◌∷◌, length, Str, arith, Bool-cases, inl,
  inr, ℤ, sym, ◌∙◌,
}
use currency_converter_demo.Cache.Bounded.{
  Node, Cache, deref, is_expired, sweep_loop, sweep_expired, index_erase,
}
use currency_converter_demo.Cache.Spec.{lru_sweep}
use currency_converter_demo.Cache.Invariant.{
  view, locate, DistinctKeys, DistinctAddrs, AddrsBelow, IsValid,
}
use currency_converter_demo.Cache.Refinement.{Refines}

module _ {ℓ} {V : Type ℓ} (max_age : ℤ) (clock : ℕ → ℕ) where
  -- What the loop does to the rest of the list and to the map, from round `i` on.
  record Swept (i : ℕ) (ns : List (Node V)) (index : Str → Option ℕ) : Type ℓ where
    entries : view (sweep_loop max_age clock i ns index).0 ≡ lru_sweep max_age clock i (view ns)
    shorter : length (sweep_loop max_age clock i ns index).0 ≤ length ns
    absent :
        (j : Str) → locate j ns ≡ none → locate j (sweep_loop max_age clock i ns index).0 ≡ none
    unused : (a : ℕ) → deref a ns ≡ none → deref a (sweep_loop max_age clock i ns index).0 ≡ none
    below : (m : ℕ) → AddrsBelow m ns → AddrsBelow m (sweep_loop max_age clock i ns index).0
    keys : DistinctKeys ns → DistinctKeys (sweep_loop max_age clock i ns index).0
    addrs : DistinctAddrs ns → DistinctAddrs (sweep_loop max_age clock i ns index).0
    others : (j : Str) → locate j ns ≡ none → (sweep_loop max_age clock i ns index).1 j ≡ index j
    indexed :
        DistinctKeys ns
        → (j : Str) (a : ℕ) → locate j ns ≡ some a
        → index j ≡ some a
        → (sweep_loop max_age clock i ns index).1 j
          ≡ locate j (sweep_loop max_age clock i ns index).0

  sweep_loop-Swept : (i : ℕ) (ns : List (Node V)) (index : Str → Option ℕ) → Swept i ns index
  unfolding sweep_loop lru_sweep locate deref
  sweep_loop-Swept i [] index = record {
    entries = refl;
    shorter = omega arith;
    absent = λ j p. refl;
    unused = λ a p. refl;
    below = λ m p. tt;
    keys = λ p. tt;
    addrs = λ p. tt;
    others = λ j p. refl;
    indexed = λ d j a p q. cc;
  }
  sweep_loop-Swept i (n ∷ ns) index =
      elim (Bool-cases (is_expired max_age (clock i) n.entry.inserted_at)) [
        | inl old ↦
            let ih = sweep_loop-Swept (i + 1) ns (index_erase index n.entry.key) in
            record {
              entries = ground (arith, ih.entries);
              shorter = ground (arith, ih.shorter);
              absent = λ j p. ground (arith, ih.absent j);
              unused = λ a p. ground (arith, ih.unused a);
              below = λ m p. ground (arith, ih.below m);
              keys = λ p. ground (arith, ih.keys);
              addrs = λ p. ground (arith, ih.addrs);
              others = λ j p. ground (arith, ih.others j);
              indexed =
                  λ d j a p q. ground (arith, ih.indexed d.1 j a, ih.others j, ih.absent j, d.0);
            }
        | inr young ↦
            let ih = sweep_loop-Swept (i + 1) ns index in
            record {
              entries = ground (arith, ih.entries);
              shorter = ground (arith, ih.shorter);
              absent = λ j p. ground (arith, ih.absent j);
              unused = λ a p. ground (arith, ih.unused a);
              below = λ m p. ground (arith, ih.below m);
              keys = λ p. ground (arith, ih.keys, ih.absent n.entry.key);
              addrs = λ p. ground (arith, ih.addrs, ih.unused n.addr);
              others = λ j p. ground (arith, ih.others j);
              indexed =
                  λ d j a p q. ground (arith, ih.indexed d.1 j a, ih.others j, ih.absent j, d.0);
            }
      ]

module _ {ℓ} {V : Type ℓ} where
  sweep-indexed :
      (c : Cache V) (clock : ℕ → ℕ) (j : Str) (o : Option ℕ)
      → IsValid c
      → locate j c.entries ≡ o
      → (sweep_expired c clock).index j ≡ locate j (sweep_expired c clock).entries
  unfolding sweep_expired
  sweep-indexed c clock j none v p =
      let s = sweep_loop-Swept c.max_age clock 0 c.entries c.index in
      s.others j p ∙ v.indexed j ∙ p ∙ sym (s.absent j p)
  sweep-indexed c clock j (some a) v p =
      let s = sweep_loop-Swept c.max_age clock 0 c.entries c.index in
      s.indexed v.keys j a p (v.indexed j ∙ p)

  -- A sweep of a valid cache leaves the entries that the abstract sweep leaves, for any readings of
  -- the clock, and the cache is valid and has the same limits.
  pub sweep_expired-Refines :
      (c : Cache V) (clock : ℕ → ℕ)
      → IsValid c
      → Refines {A = Unit} c
          (tt, lru_sweep c.max_age clock 0 (view c.entries))
          (tt, sweep_expired c clock)
  unfolding sweep_expired
  sweep_expired-Refines c clock v =
      let s = sweep_loop-Swept c.max_age clock 0 c.entries c.index in
      record {
        valid = record {
          indexed = λ j. sweep-indexed c clock j (locate j c.entries) v refl;
          keys = s.keys v.keys;
          addrs = s.addrs v.addrs;
          fresh = s.below c.next_addr v.fresh;
          bounded = omega (arith, s.shorter, v.bounded);
          positive = v.positive;
        };
        answer = refl;
        entries = s.entries;
        max_age = refl;
        max_elements = refl;
      }
