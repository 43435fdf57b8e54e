-- ===== src/Server/Slots.antt =====
-- The caches of the server as the services see them.
use currency_converter_demo.Base.{
  ◌≡◌, Option, some, ◌∷◌, Str, All, All-map, ℕ, ℤ, inl, inr, Option-cases, Bool-cases,
}
use currency_converter_demo.Exec.{Exec, Outcome, ok, throw, fault}
use currency_converter_demo.Exec.Runs.{Ends, Runs, Never, Runs-bind, Runs-weaken}
use currency_converter_demo.Cache.Bounded.{Entry, Cache, is_expired, init}
use currency_converter_demo.Cache.Bounded
use currency_converter_demo.Cache.Spec.{find, lru_get, lru_put}
use currency_converter_demo.Cache.Invariant.{view, IsValid}
use currency_converter_demo.Cache.Nodes.{find_key}
use currency_converter_demo.Cache.Refinement.{get-Refines}
use currency_converter_demo.Cache.Insertion.{put-Refines}
use currency_converter_demo.Cache.Sweeping.{sweep_expired-Refines}
use currency_converter_demo.Cache.Everywhere.{lru_sweep-All, drop-All, take-All, find-All}
use currency_converter_demo.Cache.Trace.{init-Tracks}
use currency_converter_demo.Cache.Interface.{IsCache, Answer}
use currency_converter_demo.External.Http.{Http}
use currency_converter_demo.External.Observed.{Seen, IsHttp, IsOpened, IsReceived}
use currency_converter_demo.Server.{Server, Slot, on_world, with_world, cached, world_http}

-- A valid cache in which every value may be stored under its key.
pub record IsGood {V : Type 0} (Genuine : Str → V → Type 0) (c : Cache V) : Type 0 where
  pub valid : IsValid c
  pub genuine : All (λ e. Genuine e.key e.value) (view c.entries)

module _ {V : Type 0} (Genuine : Str → V → Type 0) where
  -- A `get` of such a cache answers a value of the key, and leaves such a cache.
  get-IsGood :
      (c : Cache V) (now : ℕ) (k : Str)
      → IsGood Genuine c
      → (r : Option V × Cache V) × (Bounded.get c now k ≡ some r)
        × IsGood Genuine r.1
        × Answer Genuine k r.0
  unfolding lru_get
  get-IsGood c now k g =
      let (r, ran, h) = get-Refines c now k g.valid in
      let l = view c.entries in
      let rest = drop-All (λ e. Genuine e.key e.value) k l g.genuine in
      elim (Option-cases (find k l)) [
        | inl miss ↦ (
          r,
          ran,
          record { valid = h.valid; genuine = rw (h.entries, lru_get, miss) g.genuine },
          rw (h.answer, lru_get, miss) tt,
        )
        | inr (e, found) ↦
            let here = find-All (λ x. Genuine x.key x.value) k l e g.genuine found in
            elim (Bool-cases (is_expired c.max_age now e.inserted_at)) [
              | inl old ↦ (
                r,
                ran,
                record { valid = h.valid; genuine = rw (h.entries, lru_get, found, old) rest },
                rw (h.answer, lru_get, found, old) tt,
              )
              | inr young ↦ (
                r,
                ran,
                record {
                  valid = h.valid;
                  genuine = rw (h.entries, lru_get, found, young) (here, rest);
                },
                rw (h.answer, lru_get, found, young, ← find_key k l e found) here,
              )
            ]
      ]

  put-IsGood :
      (c : Cache V) (now : ℕ) (k : Str) (v : V)
      → IsGood Genuine c
      → Genuine k v
      → (d : Cache V) × (Bounded.put c now k v ≡ some d) × IsGood Genuine d
  unfolding lru_put
  put-IsGood c now k v g h =
      let (d, ran, r) = put-Refines c now k v g.valid in
      let P = λ (e : Entry V). Genuine e.key e.value in
      let l = view c.entries in
      (
        d,
        ran,
        record {
          valid = r.valid;
          genuine =
              rw (r.entries, lru_put)
                (take-All P c.max_elements (record { key = k; value = v; inserted_at = now } ∷ _)
                  (h, drop-All P k l g.genuine));
        },
      )

-- A sweep takes entries away only.
pub sweep_expired-IsGood :
    {V : Type 0} (Genuine : Str → V → Type 0) (c : Cache V) (clock : ℕ → ℕ)
    → IsGood Genuine c
    → IsGood Genuine (Bounded.sweep_expired c clock)
sweep_expired-IsGood Genuine c clock g =
    let r = sweep_expired-Refines c clock g.valid in
    record {
      valid = r.valid;
      genuine =
          rw r.entries (
            lru_sweep-All (λ e. Genuine e.key e.value) c.max_age clock 0 (view c.entries)
              g.genuine);
    }

-- A new cache is empty.
pub init-IsGood :
    {V : Type 0} (Genuine : Str → V → Type 0) (a : ℤ) (n : ℕ) (c : Cache V)
    → init a n ≡ some c
    → IsGood Genuine c
unfolding find
init-IsGood Genuine a n c e =
    let new = init-Tracks a n c e in
    record { valid = new.valid; genuine = All-map _ _ (λ x p. cc) (view c.entries) new.latest }

-- Where the state's invariant holds the cache, and a good cache may be stored in the slot.
pub record SlotLaws {W D V : Type 0} (I : Server W D → Type 0) (Genuine : Str → V → Type 0)
    (slot : Slot W D V) : Type 0 where
  pub held : (s : Server W D) → I s → IsGood Genuine (slot.read s)
  pub stored : (s : Server W D) (c : Cache V) → I s → IsGood Genuine c → I (slot.write c s)

module _ {W D : Type 0} (I : Server W D → Type 0) (J : W → Type 0)
    (outer : (s : Server W D) → I s → J s.world)
    (changed : (s : Server W D) (w : W) → I s → J w → I (record s { world = w })) where
  with_world-Ends :
      {A : Type 0} (Q : A → Type 0) (s : Server W D) (r : Outcome A × W)
      → I s
      → Ends (λ a w. J w × Q a) Never r
      → Ends (λ a t. I t × Q a) Never (with_world s r)
  with_world-Ends Q s (ok a, w) i h = (changed s w i h.0, h.1)
  with_world-Ends Q s (throw e, w) i h = h
  with_world-Ends Q s (fault, w) i h = h

  -- An action on what is outside leaves the caches as they are.
  pub Runs-on_world :
      {A : Type 0} (m : Exec W A) (Q : A → Type 0)
      → Runs J m (λ a w. J w × Q a) Never
      → Runs I (on_world m) (λ a t. I t × Q a) Never
  unfolding on_world
  Runs-on_world m Q h = record {
    at = λ s i. with_world-Ends Q s (m s.world) i (h.at s.world (outer s i));
  }

  pub tick-Runs :
      (clock : Exec W ℕ)
      → Runs J clock (λ n w. J w) Never
      → Runs I (on_world clock) (λ n t. I t) Never
  tick-Runs clock h =
      Runs-weaken _ _
        (Runs-on_world clock (λ n. Unit {0}) (Runs-weaken _ _ h (λ n w j. (j, tt)) (λ e w p. p)))
        (λ n t p. p.0) (λ e t p. p)

  -- The cache of a slot is what the services rely on.
  pub cached-IsCache :
      {V : Type 0} (Genuine : Str → V → Type 0) (slot : Slot W D V) (steady_now : Exec W ℕ)
      → SlotLaws I Genuine slot
      → Runs J steady_now (λ n w. J w) Never
      → IsCache I Genuine (cached steady_now slot)
  unfolding cached
  cached-IsCache Genuine slot steady_now laws clock = record {
    get_keeps = λ k. Runs-bind _ _ (tick-Runs steady_now clock) λ now. record {
      at = λ s i.
          let (r, ran, good, answer) = get-IsGood Genuine (slot.read s) now k (laws.held s i) in
          rw ran (laws.stored s r.1 i good, answer);
    };
    put_keeps = λ k v g. Runs-bind _ _ (tick-Runs steady_now clock) λ now. record {
      at = λ s i.
          let (d, ran, good) = put-IsGood Genuine (slot.read s) now k v (laws.held s i) g in
          rw ran (laws.stored s d i good);
    };
  }

  -- The HTTP client of the world is one of the server.
  pub world_http-IsHttp :
      (seen : Seen) (http : Http W) → IsHttp J seen http → IsHttp I seen (world_http http)
  unfolding world_http
  world_http-IsHttp seen http laws = record {
    open_keeps =
        λ secure host port. Runs-on_world _ (IsOpened seen) (laws.open_keeps secure host port);
    exchange_keeps = λ r. Runs-on_world _ (IsReceived seen r) (laws.exchange_keeps r);
  }
