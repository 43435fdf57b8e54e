-- ===== src/Server/Concurrency/Safety.antt =====
-- What every call of the server keeps is kept by all of them together, in whatever order they step.
use currency_converter_demo.Base.{
  ℕ, ◌≡◌, refl, subst, ◌⊎◌, inl, inr, none, some, List, [], ◌∷◌, map, All, All-append, All-map,
  All-split, Option-cases,
}
use currency_converter_demo.Exec.{Outcome, ok, throw, fault}
use currency_converter_demo.Exec.Runs.{Ends, Runs, Never}
use currency_converter_demo.Server.{
  Server, Outside, Settings, currency_slot, latest_rate_slot, history_slot, Rpc, Reply,
}
use currency_converter_demo.Server.Sharing.{serve_amid}
use currency_converter_demo.Server.Interference.{Keeps, Amid, IsReached}
use currency_converter_demo.Server.Concurrency.{
  Thread, Threads, arrived, after_seeing, left, swept, replay, next_access, Step, arrives, accesses,
  sweeps_currencies, sweeps_rates, sweeps_series, Execution, here, next,
}

-- A sweep of any of the caches keeps it.
pub record IsSwept {W D : Type 0} (I : Server W D → Type 0) : Type 0 where
  pub currencies : (clock : ℕ → ℕ) → Keeps I (swept currency_slot clock)
  pub rates : (clock : ℕ → ℕ) → Keeps I (swept latest_rate_slot clock)
  pub series : (clock : ℕ → ℕ) → Keeps I (swept history_slot clock)

-- A result, and a state.
ended :
    {S A : Type 0} (P : S → Type 0) (Q : A → Type 0) (r : Outcome A × S)
    → Ends (λ a t. P t × Q a) Never r
    → (a : A) × (r.0 ≡ ok a) × Q a × P r.1
ended P Q (ok a, t) h = (a, refl, h.1, h.0)
ended P Q (throw e, t) h = absurd h
ended P Q (fault, t) h = absurd h

module _ {W D : Type 0} (outside : Outside W D) (settings : Settings) where
  -- The call can make its next access; or it has returned, by a reply that is right.
  abbrev pub IsServed : (Rpc D → Reply D → Type 0) → Server W D → Thread W D → Type 0
  IsServed Right s thread =
      ((t : Server W D) × (next_access outside settings thread s ≡ some t))
      ⊎ ((next_access outside settings thread s ≡ none)
          × ((r : Reply D) × ((replay outside settings thread s).0 ≡ ok r) × Right thread.call r))

  module _ (I : Server W D → Type 0) (Right : Rpc D → Reply D → Type 0)
      (served : (call : Rpc D)
        → Runs (Amid I) (serve_amid outside settings call) (λ r t. Amid I t × Right call r) Never)
      (sweeps : IsSwept I) where
    -- The state satisfies `I`, and so did each that a thread has found.
    pub record Holds (y : Threads W D) : Type 0 where
      pub state : I y.state
      pub threads : All (λ thread. All I thread.seen) y.threads

    left-Keeps : (seen : List (Server W D)) → All I seen → All (Keeps I) (map left seen)
    left-Keeps [] h = tt
    left-Keeps (s ∷ seen) h = (λ t i. h.0, left-Keeps seen h.1)

    replay-Right :
        (thread : Thread W D) (s : Server W D)
        → I s
        → All I thread.seen
        → let q = replay outside settings thread s in
          (r : Reply D) × (q.0 ≡ ok r) × Right thread.call r × Amid I q.1
    unfolding replay
    replay-Right thread s i h =
        ended (Amid I) (Right thread.call) _
          ((served thread.call).at _ (i, left-Keeps thread.seen h, tt))

    next_access-I :
        (thread : Thread W D) (s t : Server W D)
        → I s
        → All I thread.seen
        → next_access outside settings thread s ≡ some t
        → I t
    unfolding next_access
    next_access-I thread s t i h e =
        let (r, q, right, kept) =
          replay-Right (after_seeing thread s) s i (All-append I thread.seen (s ∷ []) h (i, tt)) in
        subst (IsReached I) e kept.2

    Step-Holds : {y z : Threads W D} → Step outside settings y z → Holds y → Holds z
    Step-Holds {y} (arrives call) h = record {
      state = h.state;
      threads = All-append _ y.threads (arrived call ∷ []) h.threads (tt, tt);
    }
    Step-Holds {y} (accesses before after thread s e ran) h =
        let (p, q) = All-split _ before (thread ∷ after) (subst (All _) e h.threads) in
        record {
          state = next_access-I thread y.state s h.state q.0 ran;
          threads =
              All-append _ before _ p
                (All-append I thread.seen (y.state ∷ []) q.0 (h.state, tt), q.1);
        }
    Step-Holds {y} (sweeps_currencies clock) h = record {
      state = sweeps.currencies clock y.state h.state;
      threads = h.threads;
    }
    Step-Holds {y} (sweeps_rates clock) h = record {
      state = sweeps.rates clock y.state h.state;
      threads = h.threads;
    }
    Step-Holds {y} (sweeps_series clock) h = record {
      state = sweeps.series clock y.state h.state;
      threads = h.threads;
    }

    pub Execution-Holds : {y z : Threads W D} → Execution outside settings y z → Holds y → Holds z
    Execution-Holds here h = h
    Execution-Holds (next step rest) h = Execution-Holds rest (Step-Holds step h)

    Holds-IsServed :
        (s : Server W D) (thread : Thread W D) → I s → All I thread.seen → IsServed Right s thread
    Holds-IsServed s thread i h = elim (Option-cases (next_access outside settings thread s)) [
      | inl over ↦ let (r, q, right, kept) = replay-Right thread s i h in inr (over, (r, q, right))
      | inr more ↦ inl more
    ]

    -- From any state of the invariant on, with no call under way, each call is served.
    pub Execution-IsServed :
        {s : Server W D} {z : Threads W D}
        → Execution outside settings (record { state = s; threads = [] }) z
        → I s
        → I z.state × All (IsServed Right z.state) z.threads
    Execution-IsServed {z = z} run i =
        let h = Execution-Holds run (record { state = i; threads = tt }) in
        (
          h.state,
          All-map _ _ (λ thread seen. Holds-IsServed z.state thread h.state seen) z.threads
              h.threads,
        )
