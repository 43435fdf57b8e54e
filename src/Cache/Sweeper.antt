-- ===== src/Cache/Sweeper.antt =====
-- The threads of a `TimeAndSizeBoundedCache` (backend/src/cache/TimeAndSizeBoundedCache.h): the
-- sweeper, which runs `sweepLoop`, the callers of `get` and `put`, and the owner, which constructs the
-- cache and runs its destructor.
--
-- A step is one access to what the threads share, in any order that the scheduler likes. A section
-- under `mutex_` is one step. Nothing but the sweeper locks `sweeperMutex_`, so that it is never
-- waited for. `wait_for` is the standard's loop: while its predicate fails it blocks, and it tests the
-- predicate again after a time-out, a notification or a spurious wake-up.
pub mod Execution
pub mod Safety
pub mod Stopping
use currency_converter_demo.Base.{ℕ, ◌≡◌, Bool, true, false, Option, none, some, ℤ, List}
use currency_converter_demo.Cache.Bounded.{Cache, init, sweep_expired}
use currency_converter_demo.Cache.Trace.{Call, getting, putting, sweeping, step}

-- Where the sweeper stands.
pub data Sweeper : Type 0 where
  starting : Sweeper  -- before `sweeperMutex_` is locked
  at_loop : Sweeper  -- the test of `while`
  at_wait : Sweeper  -- a test of the predicate of `wait_for`
  before_block : Sweeper  -- the predicate failed, and the thread is not blocked yet
  blocked : Sweeper
  after_wait : Sweeper  -- the `if` after `wait_for`
  at_sweep : Sweeper  -- the call of `sweepExpired`
  finished : Sweeper

-- Where the owner stands: before the destructor, after each of its first two statements, and after
-- the join.
pub data Owner : Type 0 where
  alive stop_stored stop_notified joined : Owner

pub record System {ℓ} (V : Type ℓ) : Type ℓ where
  pub cache : Cache V
  pub stopping : Bool
  pub sweeper : Sweeper
  pub owner : Owner

-- The next place of the sweeper, where that is up to `stopping_` alone.
unfoldable pub advance : Bool → Sweeper → Option Sweeper
advance stopping starting = some at_loop
advance true at_loop = some finished
advance false at_loop = some at_wait
advance true at_wait = some after_wait
advance false at_wait = some before_block
advance stopping before_block = some blocked
advance true after_wait = some finished
advance false after_wait = some at_sweep
advance stopping blocked = none
advance stopping at_sweep = none
advance stopping finished = none

-- `notify_all` wakes the sweeper if it is blocked, and else does nothing.
unfoldable pub notified : Sweeper → Sweeper
notified blocked = at_wait
notified p = p

-- A call of a client, not of the sweeper.
abbrev pub IsClient {ℓ} : {V : Type ℓ} → Call V → Type 0
IsClient (getting now k) = Unit
IsClient (putting now k v) = Unit
IsClient (sweeping clock) = ⊥

module _ {ℓ} {V : Type ℓ} where
  -- The constructor: the cache, and its thread about to run.
  abbrev pub created : Cache V → System V
  created c = record { cache = c; stopping = false; sweeper = starting; owner = alive }

  -- A step of the sweeper, and the call of the cache that it makes, if any.
  pub data SweeperStep (s : System V) : Option (Call V) → System V → Type ℓ where
    advances :
        {p : Sweeper}
        → advance s.stopping s.sweeper ≡ some p
        → SweeperStep s none (record s { sweeper = p })
    times_out : s.sweeper ≡ blocked → SweeperStep s none (record s { sweeper = after_wait })
    wakes : s.sweeper ≡ blocked → SweeperStep s none (record s { sweeper = at_wait })
    sweeps :
        (clock : ℕ → ℕ)
        → s.sweeper ≡ at_sweep
        → SweeperStep s
            (some (sweeping clock))
            (record s { cache = sweep_expired s.cache clock; sweeper = at_loop })

  -- A step of the destructor. It joins the sweeper's thread, which has to end first.
  pub data OwnerStep (s : System V) : System V → Type ℓ where
    stores : s.owner ≡ alive → OwnerStep s (record s { stopping = true; owner = stop_stored })
    notifies :
        s.owner ≡ stop_stored
        → OwnerStep s (record s { sweeper = notified s.sweeper; owner = stop_notified })
    joins :
        s.owner ≡ stop_notified → s.sweeper ≡ finished → OwnerStep s (record s { owner = joined })

  -- A step of any thread, with the call that it makes of the cache and the answer. Clients call the
  -- cache only before its destructor.
  pub data Step (s : System V) : Option (Call V × Option V) → System V → Type ℓ where
    sweeper_acts : {t : System V} → SweeperStep s none t → Step s none t
    sweeper_calls :
        {call : Call V} {t : System V} → SweeperStep s (some call) t → Step s (some (call, none)) t
    owner_acts : {t : System V} → OwnerStep s t → Step s none t
    client_calls :
        {call : Call V} {x : Option V} {c : Cache V}
        → s.owner ≡ alive
        → IsClient call
        → step s.cache call ≡ some (x, c)
        → Step s (some (call, x)) (record s { cache = c })
