-- ===== src/Main/Loading.antt =====
-- The configuration that `main` (backend/src/main.cpp) goes by.
use currency_converter_demo.Base.{
  Bool, true, false, ap, ◌≡◌, refl, sym, subst, inl, inr, All, List, [], ◌∷◌, Str,
}
use currency_converter_demo.Exec.Runs.{
  Runs, Never, Runs-bind, Runs-return, Runs-raise, Runs-given, Runs-weaken,
}
use currency_converter_demo.External.Http.{Poco, value, failed}
use currency_converter_demo.External.Frankfurter.{escape}
use currency_converter_demo.Config.Files.{load_json_file, layered}
use currency_converter_demo.Main.Process.{Event, warned, Platform}
use currency_converter_demo.Main.Program.{not_found, load_config}
use currency_converter_demo.Main.Outcomes.{IsQuiet, config_file, IsLoaded, IsUnread}
use currency_converter_demo.Main.Rules.{
  Answers, PlatformLaws, At, Runs-on_outside, Runs-emit, Runs-escape, Runs-if,
}

-- A new process has no events.
pub All-none : {D : Type 0} (P : Event D → Type 0) (l : List (Event D)) → l ≡ [] → All P l
All-none P l e = subst (All _) (sym e) tt

module _ {W C : Type 0} (answers : Answers C) (platform : Platform W C) where
  -- What reading a file makes of the configuration.
  abbrev Loads : C → Str → Poco C → Type 0
  Loads config path (value loaded) =
      (json : C) × answers.Contains path (value json)
      × (loaded ≡ platform.files.add config json platform.files.prio_default)
  Loads config path (failed t) = answers.Contains path (failed t)

  layered-Loads :
      (config : C) (path : Str) (json : Poco C)
      → answers.Contains path json
      → Loads config path (layered platform.files config json)
  layered-Loads config path (value json) h = (json, h, refl)
  layered-Loads config path (failed t) h = h

module _ {W C : Type 0} (J : W → Type 0) (answers : Answers C) (platform : Platform W C)
    (given : PlatformLaws J answers platform) (config : C) (path : Str) where
  load_json_file-Runs :
      Runs J
        (load_json_file platform.files config path)
        (λ r w. J w × Loads answers platform config path r)
        Never
  unfolding load_json_file
  load_json_file-Runs =
      Runs-bind _ _ (given.read_keeps path)
        λ json. Runs-return _ λ s p. (p.0, layered-Loads answers platform config path json p.1)

module _ {W D C : Type 0} (J : W → Type 0) (answers : Answers C) (platform : Platform W C)
    (given : PlatformLaws J answers platform) (config : C) (path : Str) where
  Loads-Runs :
      (R : List (Event D) → Type 0) (r : Poco C)
      → Loads answers platform config path r
      → Runs
          (At J R)
          (escape r)
          (λ c s. At J R s × Loads answers platform config path (value c))
          (λ e s. At J R s × ((t : Str) × answers.Contains path (failed t)))
  unfolding escape
  Loads-Runs R (value c) h = Runs-return c λ s p. (p, h)
  Loads-Runs R (failed t) h = Runs-raise _ λ s p. (p, (t, h))

  -- A file that is there is loaded; without one the configuration stays.
  pub load_config-Runs :
      config_file platform config ≡ value path
      → Runs
          (At J (λ (l : List (Event D)). l ≡ []))
          (load_config platform config path)
          (λ c. At J (IsLoaded answers platform config c))
          (λ e s. At J (All IsQuiet) s × IsUnread answers path)
  unfolding load_config
  load_config-Runs path_read =
      Runs-bind _ _ (Runs-on_outside J _ _ _ (given.exists_keeps path)) λ checked.
        Runs-given (answers.Exists path checked) _ _ (λ s p. p)
          λ answer.
            Runs-bind _ _
              (Runs-escape checked λ t bad s p.
                ((p.0, All-none _ s.events p.1), inl (t, subst (answers.Exists path) bad answer)))
              λ exists.
                Runs-given (checked ≡ value exists) _ _ (λ s p. p)
                  λ same.
                    let exists_so : (b : Bool) → exists ≡ b → answers.Exists path (value b) = λ b e.
                      subst (λ b. answers.Exists path (value b)) e
                        (subst (answers.Exists path) same answer) in
                    Runs-if exists _ _
                      (λ is_there.
                        Runs-bind _ _
                          (Runs-on_outside J _ _ _
                            (load_json_file-Runs J answers platform given config path))
                          λ r.
                            Runs-given (Loads answers platform config path r) _ _ (λ s p. p)
                              λ loads.
                                Runs-weaken _ _ (Loads-Runs (λ l. l ≡ []) r loads)
                                  (λ c s p. (
                                    p.0.0,
                                    record {
                                      path = path;
                                      path_read = path_read;
                                      file =
                                          inr
                                            (exists_so true is_there, (p.1.0, p.1.1, p.1.2, p.0.1));
                                    },
                                  ))
                                  (λ e s p. (
                                    (p.0.0, All-none _ s.events p.0.1),
                                    inr (p.1.0, exists_so true is_there, p.1.1),
                                  )))
                      (λ is_missing.
                        Runs-bind _ _
                          (Runs-emit J _ (warned (not_found path))
                            (λ l. l ≡ warned (not_found path) ∷ [])
                            λ l e. ap (◌∷◌ (warned (not_found path))) e)
                          λ u. Runs-return config λ s p. (
                            p.0,
                            record {
                              path = path;
                              path_read = path_read;
                              file = inl (exists_so false is_missing, refl, p.1);
                            },
                          ))
