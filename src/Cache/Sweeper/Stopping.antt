-- ===== src/Cache/Sweeper/Stopping.antt =====
-- The destructor of a cache: how the sweeper's thread comes to its end.
use currency_converter_demo.Base.{
  ℕ, suc, ◌+◌, ◌≤◌, ◌≡◌, refl, ◌≢◌, true, Option, none, List, [], arith, inl, inr, ◌⊎◌, Bool-cases,
}
use currency_converter_demo.Cache.Bounded.{Cache}
use currency_converter_demo.Cache.Trace.{Call}
use currency_converter_demo.Cache.Sweeper.{
  Sweeper, starting, at_loop, at_wait, before_block, blocked, after_wait, at_sweep, finished, Owner,
  alive, stop_stored, stop_notified, joined, System, advance, notified, created, SweeperStep,
  advances, times_out, wakes, sweeps, OwnerStep, stores, notifies, joins, Step, sweeper_acts,
  sweeper_calls, owner_acts, client_calls,
}
use currency_converter_demo.Cache.Sweeper.Execution.{Execution, here, silently, calling}
use currency_converter_demo.Cache.Sweeper.Safety.{Execution-IsConsistent, created-IsConsistent}

-- How many steps the sweeper has left at most once the flag is set, and how many the owner.
abbrev left : Sweeper → ℕ
left before_block = 4
left blocked = 3
left at_wait = 2
left at_sweep = 2
left starting = 2
left at_loop = 1
left after_wait = 1
left finished = 0

abbrev owner_left : Owner → ℕ
owner_left alive = 3
owner_left stop_stored = 2
owner_left stop_notified = 1
owner_left joined = 0

left-le : (p : Sweeper) → left p ≤ 4
left-le p = ground arith

owner_left-le : (w : Owner) → w ≢ alive → owner_left w ≤ 2
owner_left-le w h = ground arith

Sweeper-discrete : Discrete Sweeper
Sweeper-discrete = hlevel

Owner-discrete : Discrete Owner
Owner-discrete = hlevel

module _ {ℓ} {V : Type ℓ} where
  -- The number of steps.
  pub steps :
      {s t : System V} {calls : List (Call V)} {xs : List (Option V)} → Execution s calls xs t → ℕ
  steps here = 0
  steps (silently m rest) = suc (steps rest)
  steps (calling m rest) = suc (steps rest)

  abbrev IsStopping : System V → Type 0
  IsStopping s = (s.stopping ≡ true) × (s.owner ≢ alive)

  SweeperStep-left :
      {s t : System V} {o : Option (Call V)}
      → SweeperStep s o t
      → IsStopping s
      → (left t.sweeper + 1 ≤ left s.sweeper) × IsStopping t × (t.owner ≡ s.owner)
  unfolding advance
  SweeperStep-left (advances e) h = ground arith
  SweeperStep-left (times_out e) h = ground arith
  SweeperStep-left (wakes e) h = ground arith
  SweeperStep-left (sweeps clock e) h = ground arith

  OwnerStep-left :
      {s t : System V}
      → OwnerStep s t
      → IsStopping s
      → (left t.sweeper ≤ left s.sweeper)
        × IsStopping t
        × (owner_left t.owner + 1 ≤ owner_left s.owner)
  unfolding notified
  OwnerStep-left (stores e) h = ground arith
  OwnerStep-left (notifies e) h = ground arith
  OwnerStep-left (joins e f) h = ground arith

  abbrev fuel : System V → ℕ
  fuel s = left s.sweeper + owner_left s.owner

  Step-left :
      {s t : System V} {o : Option (Call V × Option V)}
      → Step s o t
      → IsStopping s
      → (fuel t + 1 ≤ fuel s) × IsStopping t
  Step-left (sweeper_acts m) h = ground (arith, SweeperStep-left m h)
  Step-left (sweeper_calls m) h = ground (arith, SweeperStep-left m h)
  Step-left (owner_acts m) h = ground (arith, OwnerStep-left m h)
  Step-left (client_calls up c e) h = absurd (h.1 up)

  steps-le :
      {s t : System V} {calls : List (Call V)} {xs : List (Option V)} (run : Execution s calls xs t)
      → IsStopping s
      → steps run ≤ fuel s
  unfolding steps
  steps-le here h = omega arith
  steps-le (silently m rest) h =
      let (less, h') = Step-left m h in omega (arith, less, steps-le rest h')
  steps-le (calling m rest) h =
      let (less, h') = Step-left m h in omega (arith, less, steps-le rest h')

  abbrev pub CanStep : System V → Type ℓ
  CanStep s = (o : Option (Call V × Option V)) × (t : System V) × Step s o t

  sweeper_can : (s : System V) (p : Sweeper) → s.sweeper ≡ p → p ≢ finished → CanStep s
  unfolding advance
  sweeper_can s starting e f = (_, _, sweeper_acts (advances {p = at_loop} (ground arith)))
  sweeper_can s at_loop e f = elim (Bool-cases s.stopping) [
    | inl on ↦ (_, _, sweeper_acts (advances {p = finished} (ground arith)))
    | inr off ↦ (_, _, sweeper_acts (advances {p = at_wait} (ground arith)))
  ]
  sweeper_can s at_wait e f = elim (Bool-cases s.stopping) [
    | inl on ↦ (_, _, sweeper_acts (advances {p = after_wait} (ground arith)))
    | inr off ↦ (_, _, sweeper_acts (advances {p = before_block} (ground arith)))
  ]
  sweeper_can s before_block e f = (_, _, sweeper_acts (advances {p = blocked} (ground arith)))
  sweeper_can s blocked e f = (_, _, sweeper_acts (times_out e))
  sweeper_can s after_wait e f = elim (Bool-cases s.stopping) [
    | inl on ↦ (_, _, sweeper_acts (advances {p = finished} (ground arith)))
    | inr off ↦ (_, _, sweeper_acts (advances {p = at_sweep} (ground arith)))
  ]
  sweeper_can s at_sweep e f = (_, _, sweeper_calls (sweeps (λ i. 0) e))
  sweeper_can s finished e f = absurd (f refl)

  owner_can :
      (s : System V) (w : Owner) → s.owner ≡ w → w ≢ joined → s.sweeper ≡ finished → CanStep s
  owner_can s alive e f d = (_, _, owner_acts (stores e))
  owner_can s stop_stored e f d = (_, _, owner_acts (notifies e))
  owner_can s stop_notified e f d = (_, _, owner_acts (joins e d))
  owner_can s joined e f d = absurd (f refl)

  -- Once the destructor of a new cache has set the flag, the threads take six steps more at most, in
  -- whatever order, and until the sweeper is joined there always is a step that one of them can take:
  -- so the destructor ends, provided that time-outs come.
  pub Execution-ends :
      {c : Cache V} {s t : System V} {calls later : List (Call V)} {xs ys : List (Option V)}
      → Execution (created c) calls xs s
      → s.owner ≢ alive
      → (rest : Execution s later ys t) → (steps rest ≤ 6) × ((t.owner ≡ joined) ⊎ CanStep t)
  Execution-ends {c} {s} {t} before down rest =
      let h = Execution-IsConsistent before (created-IsConsistent c) in
      let bound = steps-le rest (h.flag.1 down, down) in
      (
        omega (arith, bound, left-le s.sweeper, owner_left-le s.owner down),
        elim (Sweeper-discrete t.sweeper finished) [
          | no going ↦ inr (sweeper_can t t.sweeper refl going)
          | yes done ↦ elim (Owner-discrete t.owner joined) [
            | yes over ↦ inl over
            | no waiting ↦ inr (owner_can t t.owner refl waiting done)
          ]
        ],
      )

  -- The same cache after the destructor has set the flag and notified, and the sweeper has blocked.
  abbrev pub overslept : System V → System V
  overslept s = record s { stopping = true; sweeper = blocked; owner = stop_notified }

  overslept_steps :
      {u s : System V} {o : Option (Call V × Option V)}
      → Step u o s
      → u.owner ≡ stop_notified
      → u.sweeper ≡ blocked
      → (o ≡ none) × (s.owner ≡ stop_notified) × ((s.sweeper ≡ after_wait) ⊎ (s.sweeper ≡ at_wait))
  unfolding advance
  overslept_steps (sweeper_acts (advances e)) w b = ground arith
  overslept_steps (sweeper_acts (times_out e)) w b = (refl, w, inl refl)
  overslept_steps (sweeper_acts (wakes e)) w b = (refl, w, inr refl)
  overslept_steps (sweeper_calls (sweeps clock e)) w b = cc
  overslept_steps (owner_acts (stores e)) w b = cc
  overslept_steps (owner_acts (notifies e)) w b = cc
  overslept_steps (owner_acts (joins e f)) w b = cc
  overslept_steps (client_calls up c e) w b = cc

  -- The destructor sets the flag without a lock on `sweeperMutex_`, so that the sweeper can miss the
  -- notification. If the sweeper has found the flag unset and is not blocked yet when the destructor
  -- starts, then it can come to be blocked with the flag set and the notification gone; and from
  -- there no step is possible but a time-out of the whole interval or a spurious wake-up, while the
  -- destructor waits in its join.
  pub overslept_lem :
      (s : System V)
      → s.owner ≡ alive
      → s.sweeper ≡ before_block
      → Execution s [] [] (overslept s)
        × ((o : Option (Call V × Option V)) (t : System V)
            → Step (overslept s) o t
            → (o ≡ none)
              × (t.owner ≡ stop_notified)
              × ((t.sweeper ≡ after_wait) ⊎ (t.sweeper ≡ at_wait)))
  unfolding advance notified
  overslept_lem s up before = (
    silently (owner_acts (stores up)) (
        silently (owner_acts (notifies refl))
          (silently (sweeper_acts (advances {p = blocked} (ground arith))) here)),
    λ o t m. overslept_steps m refl refl,
  )
