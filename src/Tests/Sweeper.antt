-- ===== src/Tests/Sweeper.antt =====
-- The threads of a small cache.
use currency_converter_demo.Base.{ℕ, ◌≡◌, refl, ◌≢◌, ◌≤◌, ◌⊎◌, true, Option, none, [], ◌∷◌, pos}
use currency_converter_demo.Cache.Bounded.{Cache, init, get, sweep_expired}
use currency_converter_demo.Cache.Trace.{Call, getting, sweeping, step}
use currency_converter_demo.Cache.Sweeper.{
  at_loop, at_wait, before_block, blocked, after_wait, at_sweep, finished, alive, stop_stored,
  stop_notified, joined, System, advance, notified, created, advances, times_out, sweeps, stores,
  notifies, joins, Step, sweeper_acts, sweeper_calls, owner_acts, client_calls,
}
use currency_converter_demo.Cache.Sweeper.Execution.{Execution, here, silently, calling}
use currency_converter_demo.Cache.Sweeper.Safety.{Execution-joined}
use currency_converter_demo.Cache.Sweeper.Stopping.{
  steps, CanStep, Execution-ends, overslept, overslept_lem,
}

program : Unit {0}
unfolding init advance notified step get sweep_expired
program = tt

abbrev empty : Cache ℕ
empty = record {
  max_age = pos 60;
  max_elements = 2;
  entries = [];
  index = λ _. none;
  next_addr = 0;
}

abbrev new : System ℕ
new = created empty

-- The sweeper gets as far as to wait, and finds the flag unset.
abbrev waiting : System ℕ
waiting = record new { sweeper = before_block }

to_wait : Execution new [] [] waiting
unfolding program
to_wait = silently (sweeper_acts (advances {p = at_loop} refl)) (
    silently (sweeper_acts (advances {p = at_wait} refl))
      (silently (sweeper_acts (advances {p = before_block} refl)) here))

overslept_lem_example :
    Execution waiting [] [] (overslept waiting)
    × ((o : Option (Call ℕ × Option ℕ)) (t : System ℕ)
        → Step (overslept waiting) o t
        → (o ≡ none)
          × (t.owner ≡ stop_notified)
          × ((t.sweeper ≡ after_wait) ⊎ (t.sweeper ≡ at_wait)))
overslept_lem_example = overslept_lem waiting refl refl

-- The flag is set while the sweeper waits for its first step.
abbrev set : System ℕ
set = record new { stopping = true; owner = stop_stored }

to_set : Execution new [] [] set
to_set = silently (owner_acts (stores refl)) here

abbrev over : System ℕ
over = record new { stopping = true; sweeper = finished; owner = joined }

to_over : Execution set [] [] over
unfolding program
to_over = silently (sweeper_acts (advances {p = at_loop} refl)) (
    silently (sweeper_acts (advances {p = finished} refl))
      (silently (owner_acts (notifies refl)) (silently (owner_acts (joins refl refl)) here)))

set_down : set.owner ≢ alive
set_down e = cc

Execution-ends_example : (steps to_over ≤ 6) × ((over.owner ≡ joined) ⊎ CanStep over)
Execution-ends_example = Execution-ends to_set set_down to_over

whole : Execution new [] [] over
whole = silently (owner_acts (stores refl)) to_over

Execution-joined_example :
    (over.owner ≡ joined
      → (over.sweeper ≡ finished)
        × ((t : System ℕ) (o : Option (Call ℕ × Option ℕ)) → ¬ Step over o t))
    × (over.owner ≡ alive → over.sweeper ≢ finished)
Execution-joined_example = Execution-joined whole

-- A time-out, a sweep, and a call of a client while the sweeper goes on.
abbrev clock : ℕ → ℕ
clock i = 7

abbrev swept : System ℕ
swept = record new { sweeper = at_loop }

round : Execution waiting (sweeping clock ∷ getting 9 [] ∷ []) (none ∷ none ∷ []) swept
unfolding program
round = silently (sweeper_acts (advances {p = blocked} refl)) (
    silently (sweeper_acts (times_out refl)) (
      silently (sweeper_acts (advances {p = at_sweep} refl))
        (calling (sweeper_calls (sweeps clock refl)) (calling (client_calls refl tt refl) here))))
