-- ===== src/Cache/Trace.antt =====
-- Calls of a `TimeAndSizeBoundedCache`, from any number of threads, in the order in which they hold
-- the mutex: what a `get` may answer, given the calls before it.
use currency_converter_demo.Base.{
  ◌==◌, if_pos, if_neg, ℕ, ◌≡◌, refl, Option, none, some, List, [], ◌∷◌, Str, str_dec, arith, All,
  false, Bool-cases, inl, inr, ℤ, ◌∙◌, subst, Option-cases,
}
use currency_converter_demo.Cache.Bounded.{
  Entry, Cache, is_expired, get, put, sweep_expired, ◌>>=◌, init,
}
use currency_converter_demo.Cache.Spec.{find, drop, lru_get, lru_put}
use currency_converter_demo.Cache.Invariant.{view, locate, IsValid}
use currency_converter_demo.Cache.Nodes.{find_key}
use currency_converter_demo.Cache.Refinement.{get-Refines}
use currency_converter_demo.Cache.Insertion.{put-Refines}
use currency_converter_demo.Cache.Sweeping.{sweep_expired-Refines}
use currency_converter_demo.Cache.Everywhere.{drop-All, take-All, lru_sweep-All, find-All}
use currency_converter_demo.Cache.Reads.{Distinct, view-Distinct}

-- A call, with what the clock shows while it holds the mutex.
pub data Call {ℓ} (V : Type ℓ) : Type ℓ where
  getting : ℕ → Str → Call V
  putting : ℕ → Str → V → Call V
  sweeping : (ℕ → ℕ) → Call V

-- A `put` that was made: its key, its value and its time.
abbrev pub Written {ℓ} : Type ℓ → Type ℓ
Written V = Entry V

module _ {ℓ} {V : Type ℓ} where
  -- One call: its answer (`none` where it has none), and the cache afterwards.
  unfoldable pub step : Cache V → Call V → Option (Option V × Cache V)
  step c (getting now k) = get c now k
  step c (putting now k x) = elim (put c now k x) [ none ↦ none | some d ↦ some (none, d) ]
  step c (sweeping clock) = some (none, sweep_expired c clock)

  -- The writes so far, the latest first.
  abbrev pub note : List (Written V) → Call V → List (Written V)
  note h (getting now k) = h
  note h (putting now k x) = record { key = k; value = x; inserted_at = now } ∷ h
  note h (sweeping clock) = h

  -- What a call may answer after the writes `h`: a `get` the value of the latest write of the key,
  -- if that is not past its age; the others nothing.
  abbrev pub MayAnswer : ℤ → List (Written V) → Call V → Option V → Type ℓ
  MayAnswer a h call none = Unit
  MayAnswer a h (getting now k) (some v) =
      (e : Entry V) × (find k h ≡ some e) × (e.value ≡ v) × (is_expired a now e.inserted_at ≡ false)
  MayAnswer a h (putting now k x) (some v) = some v ≡ none
  MayAnswer a h (sweeping clock) (some v) = some v ≡ none

  -- Every entry is the latest write of its key.
  abbrev pub IsLatest : List (Written V) → List (Entry V) → Type ℓ
  IsLatest h = All (λ e. find e.key h ≡ some e)

  IsLatest-absent :
      (w : Written V) (h : List (Written V)) (l : List (Entry V))
      → find w.key l ≡ none
      → IsLatest h l
      → IsLatest (w ∷ h) l
  unfolding find
  IsLatest-absent w h [] d p = tt
  IsLatest-absent w h (e ∷ l) d p = (ground arith, IsLatest-absent w h l (ground arith) p.1)

  -- After a write of the key the other entries are still the latest of their keys.
  IsLatest-drop :
      (w : Written V) (h : List (Written V)) (l : List (Entry V))
      → Distinct l
      → IsLatest h l
      → IsLatest (w ∷ h) (drop w.key l)
  unfolding find drop
  IsLatest-drop w h [] d p = tt
  IsLatest-drop w h (e ∷ l) d p = elim (str_dec e.key w.key) [
    | yes same ↦
        rw (if_pos (str_dec e.key w.key) same) (IsLatest-absent w h l (rw (← same) d.0) p.1)
    | no other ↦ rw (if_neg (str_dec e.key w.key) other) (ground arith, IsLatest-drop w h l d.1 p.1)
  ]

  -- What holds of the cache after the writes `h`.
  pub record Tracks (a : ℤ) (h : List (Written V)) (c : Cache V) : Type ℓ where
    pub valid : IsValid c
    pub limit : c.max_age ≡ a
    pub latest : IsLatest h (view c.entries)

  lru_get-IsLatest :
      (h : List (Written V)) (a : ℤ) (now : ℕ) (k : Str) (l : List (Entry V))
      → IsLatest h l
      → IsLatest h (lru_get a now k l).1 × MayAnswer a h (getting now k) (lru_get a now k l).0
  unfolding lru_get
  lru_get-IsLatest h a now k l p = elim (Option-cases (find k l)) [
    | inl miss ↦ rw (miss, lru_get) (p, tt)
    | inr (e, found) ↦
        let here = find-All (λ x. find x.key h ≡ some x) k l e p found in
        let rest = drop-All (λ x. find x.key h ≡ some x) k l p in
        elim (Bool-cases (is_expired a now e.inserted_at)) [
          | inl old ↦ rw (found, lru_get, old) (rest, tt)
          | inr young ↦
              rw (found, lru_get, young)
                ((here, rest), (e, rw (← find_key k l e found) here, refl, young))
        ]
  ]

  lru_put-IsLatest :
      (h : List (Written V)) (n now : ℕ) (k : Str) (x : V) (l : List (Entry V))
      → Distinct l
      → IsLatest h l
      → IsLatest (note h (putting now k x)) (lru_put n now k x l)
  unfolding lru_put find
  lru_put-IsLatest h n now k x l d p =
      let w : Written V = record { key = k; value = x; inserted_at = now } in
      take-All (λ e. find e.key (w ∷ h) ≡ some e) n (w ∷ drop k l)
        (ground arith, IsLatest-drop w h l d p)

  abbrev pub Answered : ℤ → List (Written V) → Cache V → Call V → Type ℓ
  Answered a h c call =
      (r : Option V × Cache V) × (step c call ≡ some r)
      × Tracks a (note h call) r.1
      × MayAnswer a h call r.0

  pub step-Answered :
      (a : ℤ) (h : List (Written V)) (c : Cache V) (call : Call V)
      → Tracks a h c
      → Answered a h c call
  unfolding step
  step-Answered a h c (getting now k) t =
      let (r, ran, g) = get-Refines c now k t.valid in
      let (kept, answer) = lru_get-IsLatest h c.max_age now k (view c.entries) t.latest in
      (
        r,
        ran,
        record { valid = g.valid; limit = g.max_age ∙ t.limit; latest = rw g.entries kept },
        rw (g.answer, ← t.limit) answer,
      )
  step-Answered a h c (putting now k x) t =
      let (d, ran, g) = put-Refines c now k x t.valid in
      let kept =
        lru_put-IsLatest h c.max_elements now k x (view c.entries)
          (view-Distinct c.entries t.valid.keys) t.latest in
      (
        (none, d),
        rw (step, ran),
        record { valid = g.valid; limit = g.max_age ∙ t.limit; latest = rw g.entries kept },
        tt,
      )
  step-Answered a h c (sweeping clock) t =
      let g = sweep_expired-Refines c clock t.valid in
      (
        (none, sweep_expired c clock),
        refl,
        record {
          valid = g.valid;
          limit = g.max_age ∙ t.limit;
          latest = rw g.entries (
              lru_sweep-All (λ x. find x.key h ≡ some x) c.max_age clock 0 (view c.entries)
                t.latest);
        },
        tt,
      )

  -- The calls one after the other: their answers, and the cache afterwards.
  unfoldable pub run : Cache V → List (Call V) → Option (List (Option V) × Cache V)
  unfolding step
  run c [] = some ([], c)
  run c (call ∷ calls) = step c call >>= λ r. run r.1 calls >>= λ rest. some (r.0 ∷ rest.0, rest.1)

  abbrev pub notes : List (Written V) → List (Call V) → List (Written V)
  notes h [] = h
  notes h (call ∷ calls) = notes (note h call) calls

  -- Each answer is one that its call may give after the writes before it.
  pub data MayServe (a : ℤ) : List (Written V) → List (Call V) → List (Option V) → Type ℓ where
    finished : {h : List (Written V)} → MayServe a h [] []
    answers :
        {h : List (Written V)} {call : Call V} {x : Option V} {calls : List (Call V)}
        {xs : List (Option V)}
        → MayAnswer a h call x
        → MayServe a (note h call) calls xs
        → MayServe a h (call ∷ calls) (x ∷ xs)

  -- Let a cache be valid, with the age limit `a` and entries that are the latest writes of their keys
  -- in `h`. Then none of a sequence of calls follows a dangling iterator; the cache ends so again,
  -- with the writes of the calls noted, and each `get` answers nothing or the value of the latest
  -- write of its key before it, which is not past its age.
  pub run-MayServe :
      (a : ℤ) (h : List (Written V)) (c : Cache V) (calls : List (Call V))
      → Tracks a h c
      → (r : List (Option V) × Cache V) × (run c calls ≡ some r)
        × Tracks a (notes h calls) r.1
        × MayServe a h calls r.0
  unfolding run
  run-MayServe a h c [] t = (([], c), refl, t, finished)
  run-MayServe a h c (call ∷ calls) t =
      let (r, ran, t', answer) = step-Answered a h c call t in
      let (rest, ran', t'', served) = run-MayServe a (note h call) r.1 calls t' in
      ((r.0 ∷ rest.0, rest.1), rw (ran, ran'), t'', answers answer served)

-- A new cache is valid and empty.
pub init-Tracks {ℓ} : {V : Type ℓ} (a : ℤ) (n : ℕ) (c : Cache V) → init a n ≡ some c → Tracks a [] c
unfolding init locate
init-Tracks {V = V} a n c e = elim (Bool-cases (n == 0)) [
  | inl refused ↦ absurd (ground arith)
  | inr accepted ↦
      let new : Cache V = record {
        max_age = a;
        max_elements = n;
        entries = [];
        index = λ _. none;
        next_addr = 0;
      } in
      let same : new ≡ c = ground arith in
      subst (Tracks a []) same (record {
        valid = record {
          indexed = λ k. refl;
          keys = tt;
          addrs = tt;
          fresh = tt;
          bounded = omega arith;
          positive = ground arith;
        };
        limit = refl;
        latest = tt;
      })
]
