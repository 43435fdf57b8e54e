-- ===== src/Main/Program.antt =====
-- `main` (backend/src/main.cpp). The calls that the server gets until the process is told to end are
-- an argument; they are served one after the other.
use currency_converter_demo.Base.{Bool, true, false, List, ◌∷◌, ◌++◌, Str, bytes, if◌then◌else◌}
use currency_converter_demo.Exec.{Exec, Outcome, ok, throw, fault, return, ◌>>=◌, ◌>>◌}
use currency_converter_demo.External.Frankfurter.{escape}
use currency_converter_demo.Config.{grpc_port}
use currency_converter_demo.Config.Files.{load_json_file}
use currency_converter_demo.Server.{Server, Outside, Settings, Rpc, Reply, serve_all}
use currency_converter_demo.Main.Process.{
  ExitCode, exit_ok, exit_software, warned, ssl_initialized, ssl_uninitialized, listening, answered,
  shut_down, Process, Platform, on_outside, emit, App,
}
use currency_converter_demo.Main.Logging.{setup_logging}
use currency_converter_demo.Main.Building.{build}

abbrev pub not_found : Str → Str
not_found path =
    bytes "warning: config file not found (" ++ path ++ bytes "), using built-in defaults"

module _ {W D C : Type 0} (platform : Platform W C) where
  unfoldable pub load_config : C → Str → Exec (Process W D) C
  load_config config path = do
    checked ← on_outside (platform.exists path)
    exists ← escape checked
    if exists
        then (do loaded ← on_outside (load_json_file platform.files config path); escape loaded)
        else (emit (warned (not_found path)) >> return config)

module _ {W D : Type 0} (outside : Outside W D) where
  abbrev pub after_serving :
      Process W D → Outcome (List (Reply D)) × Server W D → Outcome (Unit {0}) × Process W D
  after_serving s (ok replies, t) =
      (ok tt, record { world = t.world; events = answered replies ∷ s.events })
  after_serving s (throw e, t) = (throw e, record s { world = t.world })
  after_serving s (fault, t) = (fault, record s { world = t.world })

  -- From `serverThread` on, until termination is requested.
  unfoldable pub serve_until : Settings → Server W D → List (Rpc D) → Exec (Process W D) (Unit {0})
  unfolding serve_all
  serve_until settings server calls s =
      after_serving s (serve_all outside settings calls (record server { world = s.world }))

  -- The rest of `main` from the test of `server` on.
  unfoldable pub run_server :
      Settings → Server W D → Str → List (Rpc D) → Bool → Exec (Process W D) ExitCode
  unfolding serve_until
  run_server settings server address calls true = do
    emit (listening address)
    serve_until settings server calls
    emit shut_down
    emit ssl_uninitialized
    return exit_ok
  run_server settings server address calls false = emit ssl_uninitialized >> return exit_software

module _ {W D C : Type 0} (platform : Platform W C) (outside : Outside W D) where
  -- `main` without the help option.
  unfoldable pub start_up : C → List (Rpc D) → Exec (Process W D) ExitCode
  unfolding load_config run_server setup_logging build
  start_up own calls = do
    path ← escape (
        platform.layers.get_string own (bytes "app.configFile")
          (bytes "config/server.default.json"))
    config ← load_config platform own path
    setup_logging platform config
    emit ssl_initialized
    built ← build platform.layers config
    port ← escape (grpc_port platform.layers config)
    let address = bytes "0.0.0.0:" ++ platform.show port
    started ← on_outside (platform.build_and_start address)
    run_server outside built.0 built.1 address calls started

  unfoldable pub main : App C → List (Rpc D) → Exec (Process W D) ExitCode
  unfolding start_up
  main app calls = if app.help_requested then return exit_ok else start_up app.config calls
