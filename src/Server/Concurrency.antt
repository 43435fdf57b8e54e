-- ===== src/Server/Concurrency.antt =====
-- The server with all its threads (backend/src/main.cpp): gRPC serves each call on a thread of its own,
-- and each cache has its sweeper; all of them share the caches and the client.
--
-- A step of a call is one of its accesses: a method of a cache, under the mutex of the cache, a step of
-- the HTTP client, or a reading of the clock. A thread is its call with the states that it has found at
-- its accesses so far, in their order; these decide what it does next, by the code of the call run
-- again with just these states to be found.
pub mod Safety
pub mod Sweeps
pub mod Replies
pub mod Transparency
pub mod Accesses
use currency_converter_demo.Base.{ℕ, ◌≡◌, Option, none, some, List, [], ◌∷◌, ◌++◌, map}
use currency_converter_demo.Exec.{Outcome}
use currency_converter_demo.Cache.Bounded.{sweep_expired}
use currency_converter_demo.Server.{
  Server, Outside, Settings, Slot, currency_slot, latest_rate_slot, history_slot, Rpc, Reply,
}
use currency_converter_demo.Server.Sharing.{Shared, serve_amid}

pub record Thread (W D : Type 0) : Type 0 where
  pub call : Rpc D
  pub seen : List (Server W D)

-- The state that they share, and the threads of the calls.
pub record Threads (W D : Type 0) : Type 0 where
  pub state : Server W D
  pub threads : List (Thread W D)

module _ {W D : Type 0} where
  abbrev pub arrived : Rpc D → Thread W D
  arrived call = record { call = call; seen = [] }

  abbrev pub after_seeing : Thread W D → Server W D → Thread W D
  after_seeing thread s = record thread { seen = thread.seen ++ (s ∷ []) }

  -- The others left this state.
  abbrev pub left : Server W D → Server W D → Server W D
  left s t = s

  -- A sweep of the cache of a slot, for any readings of the clock.
  abbrev pub swept : {V : Type 0} → Slot W D V → (ℕ → ℕ) → Server W D → Server W D
  swept slot clock s = slot.write (sweep_expired (slot.read s) clock) s

module _ {W D : Type 0} (outside : Outside W D) (settings : Settings) where
  -- The call from its start, with the states that it has seen to be found at its accesses; after
  -- these it is left alone.
  unfoldable pub replay : Thread W D → Server W D → Outcome (Reply D) × Shared (Server W D)
  unfolding serve_amid
  replay thread s =
      serve_amid outside settings thread.call
        (record { state = s; others = map left thread.seen; reached = none })

  -- The state that the next access leaves, if it finds the state `s`; `none` if the call has returned.
  unfoldable pub next_access : Thread W D → Server W D → Option (Server W D)
  unfolding replay
  next_access thread s = (replay (after_seeing thread s) s).1.reached

  -- A call arrives, a call makes its next access, or a sweeper sweeps its cache.
  pub data Step (y : Threads W D) : Threads W D → Type 0 where
    arrives : (call : Rpc D) → Step y (record y { threads = y.threads ++ (arrived call ∷ []) })
    accesses :
        (before after : List (Thread W D)) (thread : Thread W D) (s : Server W D)
        → y.threads ≡ before ++ (thread ∷ after)
        → next_access thread y.state ≡ some s
        → Step y (record { state = s; threads = before ++ (after_seeing thread y.state ∷ after) })
    sweeps_currencies :
        (clock : ℕ → ℕ) → Step y (record y { state = swept currency_slot clock y.state })
    sweeps_rates :
        (clock : ℕ → ℕ) → Step y (record y { state = swept latest_rate_slot clock y.state })
    sweeps_series : (clock : ℕ → ℕ) → Step y (record y { state = swept history_slot clock y.state })

  pub data Execution : Threads W D → Threads W D → Type 0 where
    here : {y : Threads W D} → Execution y y
    next : {x y z : Threads W D} → Step x y → Execution y z → Execution x z
