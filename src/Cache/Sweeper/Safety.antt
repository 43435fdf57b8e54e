-- ===== src/Cache/Sweeper/Safety.antt =====
-- Which states the threads of a cache can be in together.
use currency_converter_demo.Base.{◌≡◌, ◌↔◌, ◌≢◌, true, Option, List, arith}
use currency_converter_demo.Cache.Bounded.{Cache}
use currency_converter_demo.Cache.Trace.{Call}
use currency_converter_demo.Cache.Sweeper.{
  finished, alive, joined, System, advance, notified, created, SweeperStep, advances, times_out,
  wakes, sweeps, OwnerStep, stores, notifies, joins, Step, sweeper_acts, sweeper_calls, owner_acts,
  client_calls,
}
use currency_converter_demo.Cache.Sweeper.Execution.{Execution, here, silently, calling}

-- The flag is set just from the destructor on, the sweeper ends only after that, and the join waits
-- for it.
pub record IsConsistent {ℓ} {V : Type ℓ} (s : System V) : Type 0 where
  pub flag : (s.stopping ≡ true) ↔ (s.owner ≢ alive)
  pub stopped : s.sweeper ≡ finished → s.stopping ≡ true
  pub waited : s.owner ≡ joined → s.sweeper ≡ finished

module _ {ℓ} {V : Type ℓ} where
  SweeperStep-IsConsistent :
      {s t : System V} {o : Option (Call V)} → SweeperStep s o t → IsConsistent s → IsConsistent t
  unfolding advance
  SweeperStep-IsConsistent (advances e) h = ground arith
  SweeperStep-IsConsistent (times_out e) h = ground arith
  SweeperStep-IsConsistent (wakes e) h = ground arith
  SweeperStep-IsConsistent (sweeps clock e) h = ground arith

  OwnerStep-IsConsistent : {s t : System V} → OwnerStep s t → IsConsistent s → IsConsistent t
  unfolding notified
  OwnerStep-IsConsistent (stores e) h = ground arith
  OwnerStep-IsConsistent (notifies e) h = ground arith
  OwnerStep-IsConsistent (joins e f) h = ground arith

  Step-IsConsistent :
      {s t : System V} {o : Option (Call V × Option V)}
      → Step s o t
      → IsConsistent s
      → IsConsistent t
  Step-IsConsistent (sweeper_acts m) h = SweeperStep-IsConsistent m h
  Step-IsConsistent (sweeper_calls m) h = SweeperStep-IsConsistent m h
  Step-IsConsistent (owner_acts m) h = OwnerStep-IsConsistent m h
  Step-IsConsistent (client_calls up c e) h = record {
    flag = h.flag;
    stopped = h.stopped;
    waited = h.waited;
  }

  pub Execution-IsConsistent :
      {s t : System V} {calls : List (Call V)} {xs : List (Option V)}
      → Execution s calls xs t
      → IsConsistent s
      → IsConsistent t
  Execution-IsConsistent here h = h
  Execution-IsConsistent (silently m rest) h = Execution-IsConsistent rest (Step-IsConsistent m h)
  Execution-IsConsistent (calling m rest) h = Execution-IsConsistent rest (Step-IsConsistent m h)

  pub created-IsConsistent : (c : Cache V) → IsConsistent (created c)
  created-IsConsistent c = ground arith

  sweeper_quiet : {s t : System V} {o : Option (Call V)} → SweeperStep s o t → s.sweeper ≢ finished
  unfolding advance
  sweeper_quiet (advances e) = λ f. ground arith
  sweeper_quiet (times_out e) = λ f. cc
  sweeper_quiet (wakes e) = λ f. cc
  sweeper_quiet (sweeps clock e) = λ f. cc

  owner_quiet : {s t : System V} → OwnerStep s t → s.owner ≢ joined
  owner_quiet (stores e) = λ f. cc
  owner_quiet (notifies e) = λ f. cc
  owner_quiet (joins e g) = λ f. cc

  Step-joined :
      {s t : System V} {o : Option (Call V × Option V)}
      → Step s o t
      → s.owner ≡ joined
      → s.sweeper ≡ finished
      → ⊥
  Step-joined (sweeper_acts m) j f = sweeper_quiet m f
  Step-joined (sweeper_calls m) j f = sweeper_quiet m f
  Step-joined (owner_acts m) j f = owner_quiet m j
  Step-joined (client_calls up c e) j f = cc

  -- However the threads of a new cache have interleaved: once the destructor has joined the sweeper,
  -- the sweeper has ended and no thread can take a step, so that none touches the members that are
  -- destroyed then; and until the destructor sets the flag the sweeper has not ended.
  pub Execution-joined :
      {c : Cache V} {s : System V} {calls : List (Call V)} {xs : List (Option V)}
      → Execution (created c) calls xs s
      → (s.owner ≡ joined
          → (s.sweeper ≡ finished)
            × ((t : System V) (o : Option (Call V × Option V)) → ¬ Step s o t))
        × (s.owner ≡ alive → s.sweeper ≢ finished)
  Execution-joined {c} run =
      let h = Execution-IsConsistent run (created-IsConsistent c) in
      (λ j. (h.waited j, λ t o m. Step-joined m j (h.waited j)), λ up f. h.flag.0 (h.stopped f) up)
