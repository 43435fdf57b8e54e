-- ===== src/Main/Ending.antt =====
-- How the process ends (`main` in backend/src/main.cpp), and what it has done by then.
use currency_converter_demo.Base.{
  ◌≡◌, refl, Bool, true, ap, All-map, sym, subst, inl, inr, All, some, false, List, [], ◌∷◌, ◌++◌,
  ℤ, Str, bytes,
}
use currency_converter_demo.Exec.{Exec, Exception, ◌>>=◌}
use currency_converter_demo.Exec.Runs.{Runs, Runs-bind, Runs-return, Runs-given, Runs-weaken}
use currency_converter_demo.External.Http.{Poco, value, failed}
use currency_converter_demo.External.Frankfurter.{escape}
use currency_converter_demo.Config.{settings, grpc_port}
use currency_converter_demo.Server.{Server, Outside, Settings, Rpc, start}
use currency_converter_demo.External.Observed.{Seen}
use currency_converter_demo.Server.Wiring.{OutsideLaws}
use currency_converter_demo.Main.Process.{
  ExitCode, exit_ok, exit_software, Event, ssl_initialized, Process, Platform, on_outside, emit,
  App,
}
use currency_converter_demo.Main.Building.{build}
use currency_converter_demo.Main.Program.{run_server, start_up, main}
use currency_converter_demo.Main.Built.{build-Runs}
use currency_converter_demo.Main.Outcomes.{
  IsSetup, IsQuiet, IsSetup-IsQuiet, IsLoaded, config_file, Stopped, no_path, no_file, no_log,
  no_server, no_port, IsSetUp, IsEndOf, IsEnd,
}
use currency_converter_demo.Main.Rules.{
  Answers, PlatformLaws, At, Runs-on_outside, Runs-emit, Runs-escape, Runs-if, Runs-named,
}
use currency_converter_demo.Main.Channels.{IsLogging, IsPartial, warnings_of, setup_logging-Runs}
use currency_converter_demo.Main.Loading.{All-none, load_config-Runs}
use currency_converter_demo.Main.Serving.{HasRun, run_server-Runs}

warnings_of-IsSetup :
    {D : Type 0} (path : Str) (opened : Poco (Unit {0})) (before : List (Event D))
    → All IsSetup before
    → All IsSetup (warnings_of path opened before)
warnings_of-IsSetup path (value u) before setup = setup
warnings_of-IsSetup path (failed t) before setup = (tt, setup)

module _ {W C D : Type 0} (answers : Answers C) (platform : Platform W C) (config : C) where
  loaded-IsSetup :
      (loaded : C) (events : List (Event D))
      → IsLoaded answers platform config loaded events
      → All IsSetup events
  loaded-IsSetup loaded events h = elim h.file [
    | inl p ↦ subst (All _) (sym p.2) (tt, tt)
    | inr p ↦ subst (All _) (sym p.1.3) tt
  ]

  logging-IsSetup :
      (before after : List (Event D))
      → All IsSetup before
      → IsLogging answers platform config before after
      → All IsSetup after
  logging-IsSetup before after setup g =
      subst (All _) (sym g.events) (tt, (tt, warnings_of-IsSetup g.path g.opened before setup))

  partial-IsQuiet :
      (before after : List (Event D))
      → All IsSetup before
      → IsPartial answers platform config before after
      → All IsQuiet after
  partial-IsQuiet before after setup (inl e) =
      subst (All _) (sym e) (All-map _ _ IsSetup-IsQuiet before setup)
  partial-IsQuiet before after setup (inr (path, opened, read, answer, e)) =
      subst (All _) (sym e)
        (tt, All-map _ _ IsSetup-IsQuiet _ (warnings_of-IsSetup path opened before setup))

module _ {W D C : Type 0} (J : W → Type 0) (seen : Seen) (answers : Answers C)
    (platform : Platform W C) (outside : Outside W D) (given : PlatformLaws J answers platform)
    (laws : OutsideLaws J seen outside) (own : C) (calls : List (Rpc D)) where
  abbrev Fails : Exception → Process W D → Type 0
  Fails e s = At J (All IsQuiet) s × Stopped answers platform own s

  abbrev Ended : ExitCode → List (Event D) → Type 0
  Ended = IsEndOf seen answers platform outside own calls

  -- From the setup of SSL on.
  abbrev serve_with : C → Exec (Process W D) ExitCode
  serve_with config = emit ssl_initialized >>= λ u. build platform.layers config >>= λ built.
      escape (grpc_port platform.layers config) >>= λ port.
      on_outside (platform.build_and_start (bytes "0.0.0.0:" ++ platform.show port)) >>= λ started.
      run_server outside built.0 built.1 (bytes "0.0.0.0:" ++ platform.show port) calls started

  HasRun-Ended :
      (st : Settings) (address : Str) (started : Bool) (logged : List (Event D)) (code : ExitCode)
      (events : List (Event D))
      → IsSetUp answers platform own st address started logged
      → HasRun J seen outside st laws calls address (ssl_initialized ∷ logged) started code events
      → Ended code events
  HasRun-Ended st address true logged exit_ok events set_up h = record {
    settings = st;
    address = address;
    logged = logged;
    set_up = set_up;
    replies = h.0;
    right = h.1;
    in_order = h.2;
  }
  HasRun-Ended st address true logged exit_software events set_up h = absurd h
  HasRun-Ended st address false logged exit_ok events set_up h = absurd h
  HasRun-Ended st address false logged exit_software events set_up h =
      (st, address, logged, set_up, h)

  module _ (loaded : C) (before logged : List (Event D))
      (is_loaded : IsLoaded answers platform own loaded before)
      (is_logging : IsLogging answers platform loaded before logged) where
    logged-IsQuiet : (l : List (Event D)) → l ≡ ssl_initialized ∷ logged → All IsQuiet l
    logged-IsQuiet l e =
        let setup =
          logging-IsSetup answers platform loaded before logged
            (loaded-IsSetup answers platform own loaded before is_loaded) is_logging in
        subst (All _) (sym e) (tt, All-map _ _ IsSetup-IsQuiet logged setup)

    -- From the test of the server on.
    started-Runs :
        (st : Settings) (server : Server W D) (port : ℤ) (started : Bool)
        → settings platform.layers loaded ≡ value st
        → (w : W) × (start st w ≡ some server)
        → grpc_port platform.layers loaded ≡ value port
        → answers.Starts (bytes "0.0.0.0:" ++ platform.show port) started
        → Runs
            (At J (λ l. l ≡ ssl_initialized ∷ logged))
            (run_server outside st server (bytes "0.0.0.0:" ++ platform.show port) calls started)
            (λ code. At J (Ended code))
            Fails
    started-Runs st server port started st_read (w, fit) port_read answer =
        Runs-weaken _ _
          (run_server-Runs J seen outside st laws calls w server _ (ssl_initialized ∷ logged)
            started {E = λ e s. ⊥} fit)
          (λ code s p. (
            p.0,
            HasRun-Ended st _ started logged code s.events
                (record {
                  loaded = loaded;
                  before = before;
                  is_loaded = is_loaded;
                  is_logging = is_logging;
                  settings_read = st_read;
                  port = port;
                  port_read = port_read;
                  at = refl;
                  answer = answer;
                })
                p.1,
          ))
          (λ e s p. absurd p)

    serve_with-Runs :
        Runs (At J (λ l. l ≡ logged)) (serve_with loaded) (λ code. At J (Ended code)) Fails
    serve_with-Runs =
        Runs-bind _ _
          (Runs-emit J _ ssl_initialized (λ l. l ≡ ssl_initialized ∷ logged)
            λ l e. ap (◌∷◌ ssl_initialized) e)
          λ u.
            Runs-bind _ _
              (Runs-weaken _ _ (build-Runs J platform.layers loaded (ssl_initialized ∷ logged))
                (λ b s p. p)
                (λ e s p. ((p.0.0, logged-IsQuiet s.events p.0.1), no_server is_loaded p.1)))
              λ built.
                Runs-given
                  ((settings platform.layers loaded ≡ value built.0)
                    × (w : W) × (start built.0 w ≡ some built.1))
                  _ _ (λ s p. (p.0, (p.1, p.2, p.3)))
                  λ fit.
                    Runs-bind _ _
                      (Runs-escape (grpc_port platform.layers loaded)
                        λ t bad s p. ((p.0, logged-IsQuiet s.events p.1), no_port is_loaded bad))
                      λ port.
                        Runs-given (grpc_port platform.layers loaded ≡ value port) _ _ (λ s p. p)
                          λ port_read.
                            Runs-bind _ _ (Runs-on_outside J _ _ _ (given.build_keeps _)) λ started.
                              Runs-given (answers.Starts _ started) _ _ (λ s p. p)
                                λ answer.
                                  started-Runs built.0 built.1 port started fit.0 (fit.1, fit.2)
                                    port_read answer

  start_up-Runs :
      Runs
        (At J (λ l. l ≡ []))
        (start_up platform outside own calls)
        (λ code. At J (Ended code))
        Fails
  unfolding start_up
  start_up-Runs =
      Runs-bind _ _
        (Runs-escape (config_file platform own)
          λ t bad s p. ((p.0, All-none _ s.events p.1), no_path bad))
        λ path.
          Runs-given (config_file platform own ≡ value path) _ _ (λ s p. p)
            λ path_read.
              Runs-bind _ _
                (Runs-weaken _ _ (load_config-Runs J answers platform given own path path_read)
                  (λ c s p. p) (λ e s p. (p.0, no_file path_read p.1)))
                λ loaded. Runs-named J (IsLoaded answers platform own loaded) _ λ before is_loaded.
                  Runs-bind _ _
                    (Runs-weaken _ _ (setup_logging-Runs J answers platform given loaded before)
                      (λ u s p. p)
                      (λ e s p. (
                        (
                          p.0.0,
                          partial-IsQuiet answers platform loaded before s.events
                              (loaded-IsSetup answers platform own loaded before is_loaded) p.0.1,
                        ),
                        no_log is_loaded p.1,
                      )))
                    λ u.
                      Runs-named J (IsLogging answers platform loaded before) _ λ logged is_logging.
                        serve_with-Runs loaded before logged is_loaded is_logging

module _ {W D C : Type 0} (J : W → Type 0) (seen : Seen) (answers : Answers C)
    (platform : Platform W C) (outside : Outside W D) (given : PlatformLaws J answers platform)
    (laws : OutsideLaws J seen outside) where
  -- Let what is called of Poco and gRPC answer what was observed of it, and the HTTP client, the JSON
  -- reader and the clocks keep to their laws. Then a new process ends, by an exit code or an exception.
  -- If help was requested, that is `EXIT_OK`, and the process has done nothing. Else it has layered the
  -- configuration file under its configuration if there is one, and warned if there is none, set up its
  -- log for the answer about the log file, and initialised SSL. If gRPC started at the address of the
  -- port that was read, the code is `EXIT_OK`, and the process has listened there, given every call a
  -- right reply, shut down and given up SSL, in this order; if gRPC did not, it is `EXIT_SOFTWARE`, and
  -- only SSL was given up. If it is an exception, the process has not listened, and there is a reason
  -- among the answers and the settings that it reads.
  pub main-Runs :
      (app : App C) (calls : List (Rpc D))
      → Runs
          (At J (λ l. l ≡ []))
          (main platform outside app calls)
          (λ code. At J (IsEnd seen answers platform outside app calls code))
          (λ e s.
            (app.help_requested ≡ false)
            × At J (All IsQuiet) s
            × Stopped answers platform app.config s)
  unfolding main
  main-Runs app calls =
      Runs-if app.help_requested _ _
        (λ help. Runs-return exit_ok λ s p. (p.0, inl (help, refl, p.1)))
        (λ serve.
          Runs-weaken _ _
            (start_up-Runs J seen answers platform outside given laws app.config calls)
            (λ code s p. (p.0, inr (serve, p.1))) (λ e s p. (serve, p.0, p.1)))
