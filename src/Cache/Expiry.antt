-- ===== src/Cache/Expiry.antt =====
-- When an entry of the cache is past its age, and what a sweep and the sweeper's interval make of it.
use currency_converter_demo.Base.{
  ℕ, ◌+◌, ◌-◌, ◌≤◌, ◌<◌, ◌≡◌, some, List, [], ◌∷◌, Str, arith, All, true, false, ℤ, pos, negsuc,
  ◌*◌, ◌↔◌,
}
use currency_converter_demo.Cache.Bounded.{
  Entry, is_expired, minute, sweep_interval, Cache, sweep_expired,
}
use currency_converter_demo.Cache.Spec.{lru_sweep, find}
use currency_converter_demo.Cache.Invariant.{view, IsValid}
use currency_converter_demo.Cache.Sweeping.{sweep_expired-Refines}

-- For an age limit that is not negative an entry is past it when more time than the limit has gone
-- by since it was written; at the limit itself it is still served.
pub is_expired_iff : (m now at : ℕ) → (is_expired (pos m) now at ≡ true) ↔ (m * minute < now - at)
unfolding is_expired
is_expired_iff m now at = ground arith

-- Once past its age, an entry stays so.
pub is_expired_mono :
    (a : ℤ) (now later at : ℕ)
    → now ≤ later
    → is_expired a now at ≡ true
    → is_expired a later at ≡ true
unfolding is_expired
is_expired_mono (pos m) now later at h e = ground arith
is_expired_mono (negsuc m) now later at h e = ground arith

-- All readings of the clock lie between two times.
abbrev pub IsDuring : ℕ → ℕ → (ℕ → ℕ) → Type 0
IsDuring start finish clock = (i : ℕ) → (start ≤ clock i) × (clock i ≤ finish)

abbrev pub AllYoung {ℓ} : {V : Type ℓ} → ℤ → ℕ → List (Entry V) → Type 0
AllYoung max_age now = All (λ e. is_expired max_age now e.inserted_at ≡ false)

module _ {ℓ} {V : Type ℓ} (a : ℤ) (clock : ℕ → ℕ) {start finish : ℕ}
    (d : IsDuring start finish clock) where
  lru_sweep-young : (i : ℕ) (l : List (Entry V)) → AllYoung a start (lru_sweep a clock i l)
  unfolding lru_sweep
  lru_sweep-young i [] = tt
  lru_sweep-young i (e ∷ l) =
      let rest = lru_sweep-young (i + 1) l in
      ground (arith, is_expired_mono a start (clock i) e.inserted_at (d i).0)

  find-lru_sweep :
      (i : ℕ) (l : List (Entry V)) (k : Str) (e : Entry V)
      → find k l ≡ some e
      → is_expired a finish e.inserted_at ≡ false
      → find k (lru_sweep a clock i l) ≡ some e
  unfolding lru_sweep find
  find-lru_sweep i [] k e p h = cc
  find-lru_sweep i (x ∷ l) k e p h = ground (
    arith,
    is_expired_mono a (clock i) finish x.inserted_at (d i).1,
    find-lru_sweep (i + 1) l k e,
  )

-- A sweep of a valid cache between the times `start` and `finish` keeps it valid. Afterwards no
-- entry is in the cache that was past its age at `start`, and every entry that was not past its age
-- at `finish` is still there.
pub sweep_expired_lem {ℓ} :
    {V : Type ℓ} (c : Cache V) (clock : ℕ → ℕ) (start finish : ℕ)
    → IsValid c
    → IsDuring start finish clock
    → IsValid (sweep_expired c clock)
      × AllYoung c.max_age start (view (sweep_expired c clock).entries)
      × ((k : Str) (e : Entry V)
          → find k (view c.entries) ≡ some e
          → is_expired c.max_age finish e.inserted_at ≡ false
          → find k (view (sweep_expired c clock).entries) ≡ some e)
sweep_expired_lem {V = V} c clock start finish v d =
    let r = sweep_expired-Refines c clock v in
    (
      r.valid,
      rw r.entries (lru_sweep-young c.max_age clock d 0 (view c.entries)),
      λ k e p h. rw r.entries (find-lru_sweep c.max_age clock d 0 (view c.entries) k e p h),
    )

-- The sweeper waits at least a minute, and, if the age limit is two minutes or more, at most half
-- the limit.
pub sweep_interval_bounds :
    (m : ℕ)
    → (1 ≤ sweep_interval (pos m))
      × (2 ≤ m → 2 * sweep_interval (pos m) ≤ m)
      × (m ≤ 2 * sweep_interval (pos m) + 1)
unfolding sweep_interval
sweep_interval_bounds m = ground arith
