-- ===== src/Tests/Program.antt =====
-- The process in the sample world, with no configuration but the defaults.
use native.Mathlib.Decide.{ℕ_discrete}
use currency_converter_demo.Base.{
  ◌≡◌, refl, Bool, true, false, All, List, [], ◌∷◌, ℕ, bytes, str_dec, pos,
}
use currency_converter_demo.Exec.{Outcome, ok, ◌>>=◌}
use currency_converter_demo.Exec.Runs.{Runs}
use currency_converter_demo.External.Http.{value, failed}
use currency_converter_demo.Config.{
  LayeredConfiguration, to_poco_level, logging_file, logging_level, external_api_base_url,
  external_api_timeout, latest_rate_cache_max_age, latest_rate_cache_max_elements,
  history_cache_max_age, history_cache_max_elements, grpc_port,
}
use currency_converter_demo.Config.Files.{load_json_file}
use currency_converter_demo.Server.{Rpc, limits, on_world, serve_all}
use currency_converter_demo.Cache.Bounded.{init}
use currency_converter_demo.Application.Constraints.{get_constraints}
use currency_converter_demo.Main.Process.{
  ExitCode, exit_ok, exit_software, Event, Process, Platform, on_outside, emit, App, handle_help,
}
use currency_converter_demo.Main.Logging.{setup_logging}
use currency_converter_demo.Main.Program.{main}
use currency_converter_demo.Main.Rules.{Answers, PlatformLaws, At}
use currency_converter_demo.Main.Channels.{IsLogging, IsPartial, IsUnloggable, setup_logging-Runs}
use currency_converter_demo.Main.Outcomes.{IsEnd, IsQuiet, Stopped}
use currency_converter_demo.Main.Ending.{main-Runs}
use currency_converter_demo.Tests.Sample.{outside, World, world, Any, seen, laws}

program : Unit {0}
unfolding main handle_help init serve_all str_dec ℕ_discrete to_poco_level load_json_file ◌>>=◌
    on_outside emit logging_file logging_level external_api_base_url external_api_timeout
    latest_rate_cache_max_age latest_rate_cache_max_elements history_cache_max_age
    history_cache_max_elements grpc_port get_constraints on_world
program = tt

abbrev defaults : LayeredConfiguration (Unit {0})
defaults = record {
  get_int = λ c k d. value d;
  get_string = λ c k d. value d;
  set_string = λ c k v. c;
}

-- There is no configuration file, and the log file cannot be opened; the server starts if the flag is
-- set.
abbrev platform : Bool → Platform World (Unit {0})
platform starts = record {
  layers = defaults;
  files = record { read = λ path w. (ok (value tt), w); add = λ c d p. c; prio_default = pos 0 };
  exists = λ path w. (ok (value false), w);
  open_channel = λ c w. (ok (failed (bytes "no such directory")), w);
  set_level = λ l w. (ok (value tt), w);
  show = λ n. bytes "9090";
  build_and_start = λ address w. (ok starts, w);
}

-- What is observed of it.
abbrev answers : Bool → Answers (Unit {0})
answers starts = record {
  Exists = λ path r. r ≡ value false;
  Contains = λ path r. r ≡ value tt;
  Opens = λ c r. r ≡ failed (bytes "no such directory");
  Takes = λ level r. r ≡ value tt;
  Starts = λ address b. b ≡ starts;
}

given : (starts : Bool) → PlatformLaws Any (answers starts) (platform starts)
given starts = record {
  exists_keeps = λ path. record { at = λ s i. (tt, refl) };
  read_keeps = λ path. record { at = λ s i. (tt, refl) };
  open_keeps = λ c. record { at = λ s i. (tt, refl) };
  level_keeps = λ l. record { at = λ s i. (tt, refl) };
  build_keeps = λ a. record { at = λ s i. (tt, refl) };
}

abbrev app : App (Unit {0})
app = record { config = tt; help_requested = false; options_stopped = false; printed = [] }

abbrev new : Process World ℕ
new = record { world = world; events = [] }

abbrev code_of : Outcome ExitCode × Process World ℕ → Outcome ExitCode
code_of r = r.0

abbrev calls : List (Rpc ℕ)
calls = limits ∷ []

served : code_of (main (platform true) outside app calls new) ≡ ok exit_ok
unfolding program
served = refl

not_started : code_of (main (platform false) outside app calls new) ≡ ok exit_software
unfolding program
not_started = refl

helped :
    main (platform true) outside (handle_help (bytes "currency-server") app) calls new
    ≡ (ok exit_ok, new)
unfolding program
helped = refl

main-Runs_example :
    Runs
      (At Any (λ l. l ≡ []))
      (main (platform true) outside app calls)
      (λ code. At Any (IsEnd seen (answers true) (platform true) outside app calls code))
      (λ e s.
        (app.help_requested ≡ false)
        × At Any (All IsQuiet) s
        × Stopped (answers true) (platform true) app.config s)
main-Runs_example =
    main-Runs Any seen (answers true) (platform true) outside (given true) laws app calls

setup_logging-Runs_example :
    Runs
      (At Any (λ (l : List (Event ℕ)). l ≡ []))
      (setup_logging (platform true) tt)
      (λ u. At Any (IsLogging (answers true) (platform true) tt []))
      (λ e s.
        At Any (IsPartial (answers true) (platform true) tt []) s
        × IsUnloggable (answers true) (platform true) tt)
setup_logging-Runs_example =
    setup_logging-Runs Any (answers true) (platform true) (given true) tt []
