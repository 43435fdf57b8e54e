-- ===== src/Main/Serving.antt =====
-- The server that `main` (backend/src/main.cpp) runs, from the test of it on.
use currency_converter_demo.Base.{◌≡◌, ap, Bool, some, true, false, List, ◌∷◌, Str}
use currency_converter_demo.Exec.{Exception, Outcome, ok, throw, fault}
use currency_converter_demo.Exec.Runs.{Runs, Ends, Never, Runs-bind, Runs-return}
use currency_converter_demo.External.Observed.{Seen}
use currency_converter_demo.Server.{Server, Outside, Settings, Rpc, Reply, start}
use currency_converter_demo.Server.Wiring.{OutsideLaws, Holds}
use currency_converter_demo.Server.Serving.{AreReplies, serve_all-AreReplies}
use currency_converter_demo.Main.Process.{
  ExitCode, exit_ok, exit_software, Event, ssl_uninitialized, listening, answered, shut_down,
  Process,
}
use currency_converter_demo.Main.Program.{after_serving, serve_until, run_server}
use currency_converter_demo.Server.Startup.{start_world}
use currency_converter_demo.Main.Rules.{At, Runs-emit}

module _ {W D : Type 0} (J : W → Type 0) (seen : Seen) (outside : Outside W D) (st : Settings)
    (laws : OutsideLaws J seen outside) (calls : List (Rpc D)) where
  after_serving-Ends :
      (E : Exception → Process W D → Type 0) (l : List (Event D)) (s : Process W D)
      (r : Outcome (List (Reply D)) × Server W D)
      → s.events ≡ l
      → Ends (λ rs t. Holds J seen outside st laws t × AreReplies seen outside st calls rs) Never r
      → Ends
          (λ u. At J λ l'. (rs : _) × AreReplies seen outside st calls rs × (l' ≡ answered rs ∷ l))
          E
          (after_serving outside s r)
  after_serving-Ends E l s (ok rs, t) e p = (p.0.world, (rs, p.1, ap (◌∷◌ (answered rs)) e))
  after_serving-Ends E l s (throw x, t) e p = absurd p
  after_serving-Ends E l s (fault, t) e p = p

  serve_until-Runs :
      (world : W) (server : Server W D) (l : List (Event D)) {E : Exception → Process W D → Type 0}
      → start st world ≡ some server
      → Runs
          (At J (λ l'. l' ≡ l))
          (serve_until outside st server calls)
          (λ u. At J λ l'. (rs : _) × AreReplies seen outside st calls rs × (l' ≡ answered rs ∷ l))
          E
  unfolding serve_until
  serve_until-Runs world server l {E = E} started = record {
    at = λ s p. after_serving-Ends E l s _ p.1 (
        serve_all-AreReplies J seen outside st laws s.world (record server { world = s.world })
          calls p.0 (start_world st world s.world server started));
  }

  -- What is left of the process, from the events `l` on.
  abbrev pub HasRun : Str → List (Event D) → Bool → ExitCode → List (Event D) → Type 0
  HasRun address l true exit_ok l' =
      (rs : _) × AreReplies seen outside st calls rs
      × (l' ≡ ssl_uninitialized ∷ shut_down ∷ answered rs ∷ listening address ∷ l)
  HasRun address l false exit_software l' = l' ≡ ssl_uninitialized ∷ l
  HasRun address l _ _ l' = ⊥

  pub run_server-Runs :
      (world : W) (server : Server W D) (address : Str) (l : List (Event D)) (is_built : Bool)
      {E : Exception → Process W D → Type 0}
      → start st world ≡ some server
      → Runs
          (At J (λ l'. l' ≡ l))
          (run_server outside st server address calls is_built)
          (λ code. At J (HasRun address l is_built code))
          E
  unfolding run_server
  run_server-Runs world server address l true started =
      Runs-bind _ _
        (Runs-emit J _ (listening address) (λ l'. l' ≡ listening address ∷ l)
          λ l' e. ap (◌∷◌ (listening address)) e)
        λ u. Runs-bind _ _ (serve_until-Runs world server (listening address ∷ l) started) λ u.
          Runs-bind _ _
            (Runs-emit J _ shut_down
              (λ l'.
                (rs : _) × AreReplies seen outside st calls rs
                × (l' ≡ shut_down ∷ answered rs ∷ listening address ∷ l))
              λ l' p. (p.0, p.1, ap (◌∷◌ shut_down) p.2))
            λ u.
              Runs-bind _ _
                (Runs-emit J _ ssl_uninitialized (HasRun address l true exit_ok)
                  λ l' p. (p.0, p.1, ap (◌∷◌ ssl_uninitialized) p.2))
                λ u. Runs-return exit_ok λ s p. p
  run_server-Runs world server address l false started =
      Runs-bind _ _
        (Runs-emit J _ ssl_uninitialized (HasRun address l false exit_software)
          λ l' e. ap (◌∷◌ ssl_uninitialized) e)
        λ u. Runs-return exit_software λ s p. p
