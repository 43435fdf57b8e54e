-- ===== src/Cache/Sweeper/Execution.antt =====
-- Sequences of steps of the threads of a cache, and the calls that the cache sees.
use currency_converter_demo.Base.{Option, none, some, List, [], ◌∷◌}
use currency_converter_demo.Cache.Trace.{Call}
use currency_converter_demo.Cache.Sweeper.{System, Step}

-- A sequence of steps, with the calls of the cache in their order and the answers to them.
pub data Execution {ℓ} {V : Type ℓ}
    : System V → List (Call V) → List (Option V) → System V → Type ℓ where
  here : {s : System V} → Execution s [] [] s
  silently :
      {s t u : System V} {calls : List (Call V)} {xs : List (Option V)}
      → Step s none t
      → Execution t calls xs u
      → Execution s calls xs u
  calling :
      {s t u : System V} {call : Call V} {x : Option V} {calls : List (Call V)}
      {xs : List (Option V)}
      → Step s (some (call, x)) t
      → Execution t calls xs u
      → Execution s (call ∷ calls) (x ∷ xs) u
