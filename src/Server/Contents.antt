-- ===== src/Server/Contents.antt =====
-- What a cache of the server (backend/src/main.cpp) contains after a `get` and a `put`.
use currency_converter_demo.Exec.{Exec}
use currency_converter_demo.Base.{
  sym, subst, ◌≡◌, refl, ◌<◌, zero, suc, Option, none, some, List, ◌∷◌, Str, ℕ, arith, inl, inr,
  Bool-cases, Option-cases, if_pos, str_dec, take,
}
use currency_converter_demo.Exec.Runs.{Never, Runs, Runs-bind}
use currency_converter_demo.Cache.Bounded
use currency_converter_demo.Cache.Bounded.{Entry, Cache, is_expired}
use currency_converter_demo.Cache.Spec.{find, lru_get, lru_put}
use currency_converter_demo.Cache.Invariant.{view, IsValid}
use currency_converter_demo.Cache.Nodes.{find_key}
use currency_converter_demo.Cache.Refinement.{get-Refines}
use currency_converter_demo.Cache.Insertion.{put-Refines}
use currency_converter_demo.Application.Storing.{Kept, IsStore}
use currency_converter_demo.Server.{Server, Slot, cached}
use currency_converter_demo.Server.Slots.{tick-Runs}

-- The cache has an entry of the key, with the value.
abbrev pub Contains : {V : Type 0} → Str → V → Cache V → Type 0
Contains k v c = (e : Entry _) × (find k (view c.entries) ≡ some e) × (e.value ≡ v)

module _ {V : Type 0} where
  get-Contains :
      (c : Cache V) (now : ℕ) (k : Str)
      → IsValid c
      → (r : Option V × Cache V) × (Bounded.get c now k ≡ some r)
        × IsValid r.1
        × Kept (λ k v. Contains k v) k r.0 r.1
  unfolding lru_get find
  get-Contains c now k valid =
      let (r, ran, g) = get-Refines c now k valid in
      let l = view c.entries in
      elim (Option-cases (find k l)) [
        | inl miss ↦ (r, ran, g.valid, rw (g.answer, lru_get, miss) tt)
        | inr (e, found) ↦ elim (Bool-cases (is_expired c.max_age now e.inserted_at)) [
          | inl old ↦ (r, ran, g.valid, rw (g.answer, lru_get, found, old) tt)
          | inr young ↦ (
            r,
            ran,
            g.valid,
            rw (g.answer, lru_get, found, young)
                (
                  e,
                  rw (g.entries, lru_get, found, young)
                      (if_pos (str_dec e.key k) (find_key k l e found) _ _),
                  refl,
                ),
          )
        ]
      ]

  find-take :
      (n : ℕ) (e : Entry V) (l : List (Entry V)) → 0 < n → find e.key (take n (e ∷ l)) ≡ some e
  unfolding find
  find-take zero e l h = absurd (omega arith)
  find-take (suc n) e l h = if_pos (str_dec e.key e.key) refl _ _

  put-Contains :
      (c : Cache V) (now : ℕ) (k : Str) (v : V)
      → IsValid c
      → (d : Cache V) × (Bounded.put c now k v ≡ some d) × IsValid d × Contains k v d
  unfolding lru_put
  put-Contains c now k v valid =
      let (d, ran, g) = put-Refines c now k v valid in
      let e : Entry V = record { key = k; value = v; inserted_at = now } in
      (
        d,
        ran,
        g.valid,
        (e, rw (g.entries, lru_put) (find-take c.max_elements e _ valid.positive), refl),
      )

module _ {W D : Type 0} (I : Server W D → Type 0) (J : W → Type 0)
    (outer : (s : Server W D) → I s → J s.world)
    (changed : (s : Server W D) (w : W) → I s → J w → I (record s { world = w })) where
  Contains-Kept :
      {V : Type 0} (slot : Slot W D V) (s : Server W D) (k : Str) (o : Option V) (c : Cache V)
      → slot.read (slot.write c s) ≡ c
      → Kept (λ k v. Contains k v) k o c
      → Kept (λ k v t. Contains k v (slot.read t)) k o (slot.write c s)
  Contains-Kept slot s k none c same h = tt
  Contains-Kept slot s k (some v) c same h = subst (Contains k v) (sym same) h

  -- The cache of a slot keeps what it is given and what it answers, where the invariant holds a valid
  -- cache and any valid cache may be stored.
  pub cached-IsStore :
      {V : Type 0} (slot : Slot W D V) (steady_now : Exec W ℕ)
      → ((s : Server W D) → I s → IsValid (slot.read s))
      → ((s : Server W D) (c : Cache V) → I s → IsValid c → I (slot.write c s))
      → ((s : Server W D) (c : Cache V) → slot.read (slot.write c s) ≡ c)
      → Runs J steady_now (λ n w. J w) Never
      → IsStore I (λ k v t. Contains k v (slot.read t)) (cached steady_now slot)
  unfolding cached
  cached-IsStore slot steady_now held stored same clock = record {
    get_stores = λ k. Runs-bind _ _ (tick-Runs I J outer changed steady_now clock) λ now. record {
      at = λ s i.
          let (r, ran, valid, kept) = get-Contains (slot.read s) now k (held s i) in
          rw ran (stored s r.1 i valid, Contains-Kept slot s k r.0 r.1 (same s r.1) kept);
    };
    put_stores = λ k v. Runs-bind _ _ (tick-Runs I J outer changed steady_now clock) λ now. record {
      at = λ s i.
          let (d, ran, valid, there) = put-Contains (slot.read s) now k v (held s i) in
          rw ran (stored s d i valid, subst (Contains k v) (sym (same s d)) there);
    };
  }
