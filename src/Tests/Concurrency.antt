-- ===== src/Tests/Concurrency.antt =====
-- Two calls at a time, and a sweep.
use native.Mathlib.Decide.{ℕ_discrete}
use currency_converter_demo.Base.{
  ℕ, ◌≤◌, ◌≡◌, refl, Option, none, some, [], ◌∷◌, All, length, str_dec,
}
use currency_converter_demo.Exec.{◌>>=◌, require, served}
use currency_converter_demo.External.Payload.{read_currencies, rethrow}
use currency_converter_demo.External.Frankfurter
use currency_converter_demo.External.Frankfurter.{request_for}
use currency_converter_demo.Application.Catalog.{list_currencies}
use currency_converter_demo.Application.Constraints.{get_constraints}
use currency_converter_demo.Cache.Bounded.{get, put}
use currency_converter_demo.Server.{Server, listing, limits, on_world, cached, world_http}
use currency_converter_demo.Server.Sharing.{amid, amid_cache, amid_http}
use currency_converter_demo.Server.Wiring.{Holds}
use currency_converter_demo.Server.Reference.{IsSameReply}
use currency_converter_demo.Server.Transparency.{Serves}
use currency_converter_demo.Server.Concurrency.{
  Thread, Threads, next_access, Execution, here, next, arrives, accesses, sweeps_currencies,
}
use currency_converter_demo.Server.Concurrency.Safety.{IsServed}
use currency_converter_demo.Server.Concurrency.Replies.{IsSharedReply, Execution-IsServed_rightly}
use currency_converter_demo.Server.Concurrency.Transparency.{Execution-IsServed_as_uncached}
use currency_converter_demo.Server.Concurrency.Accesses.{accesses_of, Execution-returns}
use currency_converter_demo.Tests.Sample.{World, Any, seen, outside, settings, world, laws}
use currency_converter_demo.Tests.Services.{server, started}
use currency_converter_demo.Tests.Transparency.{page, today, transparent}

program : Unit {0}
unfolding next_access ◌>>=◌ list_currencies get_constraints amid amid_cache amid_http on_world
    cached world_http get put served require read_currencies rethrow request_for
    Frankfurter.list_currencies str_dec ℕ_discrete
program = tt

abbrev idle : Threads World ℕ
idle = record { state = server; threads = [] }

abbrev IsSome : {A : Type 0} → Option A → Type 0
IsSome none = ⊥
IsSome (some a) = Unit

the : {A : Type 0} (o : Option A) → IsSome o → (a : A) × (o ≡ some a)
the none h = absurd h
the (some a) h = (a, refl)

abbrev asking : Thread World ℕ
asking = record { call = listing; seen = [] }

abbrev reading : Thread World ℕ
reading = record { call = limits; seen = [] }

-- The list of currencies is looked up.
first : (s : Server World ℕ) × (next_access outside settings asking server ≡ some s)
unfolding program
first = the (next_access outside settings asking server) tt

-- Then the other call reads the clock.
second : (s : Server World ℕ) × (next_access outside settings reading first.0 ≡ some s)
unfolding program first the
second = the (next_access outside settings reading first.0) tt

interleaved : (y : Threads World ℕ) × Execution outside settings idle y
interleaved = (
  _,
  next (arrives listing) (
      next (arrives limits) (
        next (accesses [] (reading ∷ []) asking first.0 refl first.1) (
          next
            (accesses (record asking { seen = server ∷ [] } ∷ []) [] reading second.0 refl second.1)
            (next (sweeps_currencies λ i. 0) here)))),
)

Execution-IsServed_rightly_example :
    Holds Any seen outside settings laws interleaved.0.state
    × All
        (IsServed outside settings (IsSharedReply seen outside settings) interleaved.0.state)
        interleaved.0.threads
Execution-IsServed_rightly_example =
    Execution-IsServed_rightly Any seen outside settings laws world server interleaved.0 tt started
      interleaved.1

Execution-IsServed_as_uncached_example :
    Serves Any page today outside settings transparent interleaved.0.state
    × All
        (IsServed outside settings (IsSameReply page today outside settings) interleaved.0.state)
        interleaved.0.threads
Execution-IsServed_as_uncached_example =
    Execution-IsServed_as_uncached Any page today outside settings transparent world server
      interleaved.0 tt started interleaved.1

Execution-returns_example :
    All
      (λ thread.
        (length thread.seen ≤ accesses_of thread.call)
        × (length thread.seen ≡ accesses_of thread.call
            → next_access outside settings thread interleaved.0.state ≡ none))
      interleaved.0.threads
Execution-returns_example = Execution-returns outside settings interleaved.1
