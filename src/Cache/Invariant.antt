-- ===== src/Cache/Invariant.antt =====
-- The invariant that ties the list of `TimeAndSizeBoundedCache` to its map of iterators.
use currency_converter_demo.Base.{
  ℕ, ◌≤◌, ◌<◌, ◌≡◌, Option, none, some, List, [], ◌∷◌, map, length, Str, str_dec, ite, All,
}
use currency_converter_demo.Cache.Bounded.{Entry, Node, Cache, deref}

module _ {ℓ} {V : Type ℓ} where
  -- The entries in their order: the abstract view.
  abbrev pub view : List (Node V) → List (Entry V)
  view = map (λ n. n.entry)

  -- The address of the first node with the key.
  unfoldable pub locate : Str → List (Node V) → Option ℕ
  locate k [] = none
  locate k (n ∷ ns) = ite (str_dec n.entry.key k) (some n.addr) (locate k ns)

  -- No key twice, and no address twice.
  abbrev pub DistinctKeys : List (Node V) → Type 0
  DistinctKeys [] = Unit
  DistinctKeys (n ∷ ns) = (locate n.entry.key ns ≡ none) × DistinctKeys ns

  abbrev pub DistinctAddrs : List (Node V) → Type ℓ
  DistinctAddrs [] = Unit
  DistinctAddrs (n ∷ ns) = (deref n.addr ns ≡ none) × DistinctAddrs ns

  abbrev pub AddrsBelow : ℕ → List (Node V) → Type 0
  AddrsBelow m = All (λ n. n.addr < m)

-- The map holds an iterator for just the keys of the list, each to the one node of its key; a new
-- address is in use nowhere; the size is in its bound.
pub record IsValid {ℓ} {V : Type ℓ} (c : Cache V) : Type ℓ where
  pub indexed : (k : Str) → c.index k ≡ locate k c.entries
  pub keys : DistinctKeys c.entries
  pub addrs : DistinctAddrs c.entries
  pub fresh : AddrsBelow c.next_addr c.entries
  pub bounded : length c.entries ≤ c.max_elements
  pub positive : 0 < c.max_elements
