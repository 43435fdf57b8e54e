-- ===== src/Main/Process.antt =====
-- The state of the process (backend/src/main.cpp), what it calls of Poco and gRPC, and its options.
use currency_converter_demo.Base.{ℤ, Bool, true, List, ◌∷◌, Str, bytes}
use currency_converter_demo.Exec.{Exec, Outcome, ok}
use currency_converter_demo.External.Http.{Poco}
use currency_converter_demo.Config.{LayeredConfiguration}
use currency_converter_demo.Config.Files.{JsonFiles}
use currency_converter_demo.Server.{Reply}

pub data ExitCode : Type 0 where
  exit_ok exit_software : ExitCode

-- The channels of the log, a file with its properties in the order in which they are set.
pub data Channel : Type 0 where
  console : Channel
  file : Str → List (Str × Str) → Channel

-- A `FormattingChannel` with a `PatternFormatter`, over a `SplitterChannel`.
pub record RootChannel : Type 0 where
  pub pattern : Str
  pub channels : List Channel

-- What the process does that lasts, or that is seen from outside.
pub data Event (D : Type 0) : Type 0 where
  warned : Str → Event D  -- `std::cerr`
  root_channel_set : RootChannel → Event D
  root_level_set : Str → Event D
  ssl_initialized ssl_uninitialized : Event D
  listening : Str → Event D
  answered : List (Reply D) → Event D
  shut_down : Event D

-- The outside, and the events so far, the latest first.
pub record Process (W D : Type 0) : Type 0 where
  pub world : W
  pub events : List (Event D)

-- What is called of Poco and gRPC: a configuration and its files, the test of a file, the opening of
-- a channel and the level of the root logger, whose names Poco checks, `fmt::format("{}", n)`, and
-- `BuildAndStart`, which answers whether there is a server.
pub record Platform (W C : Type 0) : Type 0 where
  pub layers : LayeredConfiguration C
  pub files : JsonFiles W C
  pub exists : Str → Exec W (Poco Bool)
  pub open_channel : Channel → Exec W (Poco (Unit {0}))
  pub set_level : Str → Exec W (Poco (Unit {0}))
  pub show : ℤ → Str
  pub build_and_start : Str → Exec W Bool

module _ {W D : Type 0} where
  abbrev pub with_outside : {A : Type 0} → Process W D → Outcome A × W → Outcome A × Process W D
  with_outside s r = (r.0, record s { world = r.1 })

  -- An action on what is outside.
  unfoldable pub on_outside : {A : Type 0} → Exec W A → Exec (Process W D) A
  on_outside m s = with_outside s (m s.world)

  unfoldable pub emit : Event D → Exec (Process W D) (Unit {0})
  emit e s = (ok tt, record s { events = e ∷ s.events })

-- The help text that `handleHelp` formats.
pub record Help : Type 0 where
  pub command : Str
  pub usage : Str
  pub header : Str

-- The application: its configuration, and what its options have set.
pub record App (C : Type 0) : Type 0 where
  pub config : C
  pub help_requested : Bool
  pub options_stopped : Bool
  pub printed : List Help

-- `handleHelp`, with the name of the command.
unfoldable pub handle_help : {C : Type 0} → Str → App C → App C
handle_help command app = record app {
  help_requested = true;
  options_stopped = true;
  printed =
      record {
        command = command;
        usage = bytes "[OPTIONS]";
        header = bytes "Currency Converter backend -- gRPC server for currency.CurrencyService.";
      }
      ∷ app.printed;
}
