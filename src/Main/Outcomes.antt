-- ===== src/Main/Outcomes.antt =====
-- The ways in which the process (`main` in backend/src/main.cpp) may end, with what it has done by
-- then.
use currency_converter_demo.Base.{
  ◌≡◌, arith, Bool, ◌⊎◌, true, false, List, [], ◌∷◌, ◌++◌, ℤ, Str, bytes,
}
use currency_converter_demo.External.Http.{Poco, value, failed}
use currency_converter_demo.Config.{settings, grpc_port}
use currency_converter_demo.Server.{Outside, Settings, Rpc, Reply}
use currency_converter_demo.Server.Serving.{AreReplies}
use currency_converter_demo.Main.Process.{
  ExitCode, exit_ok, exit_software, Event, warned, root_channel_set, root_level_set,
  ssl_initialized, ssl_uninitialized, listening, answered, shut_down, Process, Platform, App,
}
use currency_converter_demo.Main.Built.{IsUnfit}
use currency_converter_demo.External.Observed.{Seen}
use currency_converter_demo.Main.Program.{not_found}
use currency_converter_demo.Main.Rules.{Answers}
use currency_converter_demo.Main.Channels.{IsLogging, IsUnloggable}

-- The events before the server listens, but for those of SSL.
abbrev pub IsSetup : {D : Type 0} → Event D → Type 0
IsSetup (warned t) = Unit
IsSetup (root_channel_set c) = Unit
IsSetup (root_level_set l) = Unit
IsSetup e = ⊥

-- The server has not listened, and SSL was not given up.
abbrev pub IsQuiet : {D : Type 0} → Event D → Type 0
IsQuiet ssl_initialized = Unit
IsQuiet e = IsSetup e

pub IsSetup-IsQuiet : {D : Type 0} (e : Event D) → IsSetup e → IsQuiet e
IsSetup-IsQuiet e p = ground arith

abbrev pub config_file : {W C : Type 0} → Platform W C → C → Poco Str
config_file platform config =
    platform.layers.get_string config (bytes "app.configFile") (bytes "config/server.default.json")

-- How `main` came by the configuration, with the events of that: a file that is there is layered
-- under what was configured before; if there is none, the configuration stays, with a warning.
pub record IsLoaded {W D C : Type 0} (answers : Answers C) (platform : Platform W C)
    (config loaded : C) (events : List (Event D)) : Type 0 where
  pub path : Str
  pub path_read : config_file platform config ≡ value path
  pub file :
      (answers.Exists path (value false)
        × (loaded ≡ config)
        × (events ≡ warned (not_found path) ∷ []))
      ⊎ (answers.Exists path (value true)
          × ((json : C) × answers.Contains path (value json)
              × (loaded ≡ platform.files.add config json platform.files.prio_default)
              × (events ≡ [])))

-- Why there is no configuration.
abbrev pub IsUnread : {C : Type 0} → Answers C → Str → Type 0
IsUnread answers path =
    ((t : Str) × answers.Exists path (failed t))
    ⊎ ((t : Str) × answers.Exists path (value true) × answers.Contains path (failed t))

-- Why `main` ends by an exception.
pub data Stopped {W D C : Type 0} (answers : Answers C) (platform : Platform W C) (config : C)
    (s : Process W D) : Type 0 where
  no_path : {t : Str} → config_file platform config ≡ failed t → Stopped answers platform config s
  no_file :
      {path : Str}
      → config_file platform config ≡ value path
      → IsUnread answers path
      → Stopped answers platform config s
  no_log :
      {loaded : C} {before : List (Event D)}
      → IsLoaded answers platform config loaded before
      → IsUnloggable answers platform loaded
      → Stopped answers platform config s
  no_server :
      {loaded : C} {before : List (Event D)}
      → IsLoaded answers platform config loaded before
      → IsUnfit (settings platform.layers loaded) s
      → Stopped answers platform config s
  no_port :
      {loaded : C} {before : List (Event D)} {t : Str}
      → IsLoaded answers platform config loaded before
      → grpc_port platform.layers loaded ≡ failed t
      → Stopped answers platform config s

-- A process that has a configuration and a log, has read its settings, and has asked gRPC to start.
pub record IsSetUp {W D C : Type 0} (answers : Answers C) (platform : Platform W C) (config : C)
    (settings : Settings) (address : Str) (started : Bool) (logged : List (Event D)) : Type 0 where
  pub loaded : C
  pub before : List (Event D)
  pub is_loaded : IsLoaded answers platform config loaded before
  pub is_logging : IsLogging answers platform loaded before logged
  pub settings_read :
      currency_converter_demo.Config.settings platform.layers loaded ≡ value settings
  pub port : ℤ
  pub port_read : grpc_port platform.layers loaded ≡ value port
  pub at : address ≡ bytes "0.0.0.0:" ++ platform.show port
  pub answer : answers.Starts address started

-- The way of a process that has served the calls, its events the latest first.
pub record IsServing {W D C : Type 0} (seen : Seen) (answers : Answers C) (platform : Platform W C)
    (outside : Outside W D) (config : C) (calls : List (Rpc D)) (events : List (Event D))
    : Type 0 where
  pub settings : Settings
  pub address : Str
  pub logged : List (Event D)
  pub set_up : IsSetUp answers platform config settings address true logged
  pub replies : List (Reply D)
  pub right : AreReplies seen outside settings calls replies
  pub in_order :
      events
      ≡ ssl_uninitialized
        ∷ shut_down
        ∷ answered replies
        ∷ listening address
        ∷ ssl_initialized
        ∷ logged

-- How a process without the help option has ended.
abbrev pub IsEndOf :
    {W D C : Type 0}
    → Seen
    → Answers C
    → Platform W C
    → Outside W D
    → C
    → List (Rpc D)
    → ExitCode
    → List (Event D)
    → Type 0
IsEndOf seen answers platform outside config calls exit_ok events =
    IsServing seen answers platform outside config calls events
IsEndOf seen answers platform outside config calls exit_software events =
    (settings : Settings) × (address : Str) × (logged : List (Event _)) × IsSetUp answers platform
      config settings address false logged
    × (events ≡ ssl_uninitialized ∷ ssl_initialized ∷ logged)

-- How a process with its exit code has ended.
abbrev pub IsEnd :
    {W D C : Type 0}
    → Seen
    → Answers C
    → Platform W C
    → Outside W D
    → App C
    → List (Rpc D)
    → ExitCode
    → List (Event D)
    → Type 0
IsEnd seen answers platform outside app calls code events =
    ((app.help_requested ≡ true) × (code ≡ exit_ok) × (events ≡ []))
    ⊎ ((app.help_requested ≡ false)
        × IsEndOf seen answers platform outside app.config calls code events)
