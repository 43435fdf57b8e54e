-- ===== src/Main/Channels.antt =====
-- What `setupLogging` (backend/src/main.cpp) sets, whether the log file can be opened or not.
use currency_converter_demo.Base.{subst, ◌≡◌, refl, ◌⊎◌, inl, inr, ap, List, [], ◌∷◌, Str}
use currency_converter_demo.Exec.{Exception}
use currency_converter_demo.Exec.Runs.{Runs, Runs-bind, Runs-return, Runs-given, Runs-weaken}
use currency_converter_demo.External.Http.{Poco, value, failed}
use currency_converter_demo.Config.{logging_level, logging_file, to_poco_level}
use currency_converter_demo.Main.Process.{
  Channel, console, Event, warned, root_channel_set, root_level_set, Process, Platform,
}
use currency_converter_demo.Main.Logging.{
  file_channel, not_opened, root_channel, channels_for, set_root_level, setup_logging,
}
use currency_converter_demo.Main.Rules.{
  Answers, PlatformLaws, At, Runs-on_outside, Runs-emit, Runs-escape,
}

-- The channels with a file that was opened, or was not: then the console is left, with a warning.
abbrev pub channels_with : Str → Poco (Unit {0}) → List Channel
channels_with path (value opened) = console ∷ file_channel path ∷ []
channels_with path (failed text) = console ∷ []

abbrev pub warnings_of : {D : Type 0} → Str → Poco (Unit {0}) → List (Event D) → List (Event D)
warnings_of path (value opened) before = before
warnings_of path (failed text) before = warned (not_opened path text) ∷ before

module _ {W C : Type 0} (answers : Answers C) (platform : Platform W C) (config : C) where
  -- The events of a setup that succeeds, the latest first: the channels are those for the answer that
  -- was got for the log file.
  pub record IsLogging {D : Type 0} (before after : List (Event D)) : Type 0 where
    pub path : Str
    pub level : Str
    pub opened : Poco (Unit {0})
    pub file_read : logging_file platform.layers config ≡ value path
    pub answer : answers.Opens (file_channel path) opened
    pub level_read : logging_level platform.layers config ≡ value level
    pub taken : answers.Takes (to_poco_level level) (value tt)
    pub events :
        after
        ≡ root_level_set (to_poco_level level)
          ∷ root_channel_set (root_channel (channels_with path opened))
          ∷ warnings_of path opened before

  -- The events of a setup that fails: none, or the channels are set.
  abbrev pub IsPartial : {D : Type 0} → List (Event D) → List (Event D) → Type 0
  IsPartial before after =
      (after ≡ before)
      ⊎ ((path : Str) × (opened : Poco (Unit {0})) × (logging_file platform.layers config
            ≡ value path)
          × answers.Opens (file_channel path) opened
          × (after
              ≡ root_channel_set (root_channel (channels_with path opened))
                ∷ warnings_of path opened before))

  -- Why a setup fails.
  abbrev LevelFailed : Type 0
  LevelFailed =
      ((t : Str) × (logging_level platform.layers config ≡ failed t))
      ⊎ ((level : Str) × (t : Str) × (logging_level platform.layers config ≡ value level)
          × answers.Takes (to_poco_level level) (failed t))

  abbrev pub IsUnloggable : Type 0
  IsUnloggable = ((t : Str) × (logging_file platform.layers config ≡ failed t)) ⊎ LevelFailed

module _ {W D C : Type 0} (J : W → Type 0) (answers : Answers C) (platform : Platform W C)
    (laws : PlatformLaws J answers platform) (config : C) where
  channels_for-Runs :
      (before : List (Event D)) (path : Str) (opened : Poco (Unit {0}))
      {E : Exception → Process W D → Type 0}
      → Runs
          (At J (λ l. l ≡ before))
          (channels_for platform path opened)
          (λ channels s.
            At J (λ l. l ≡ warnings_of path opened before) s
            × (channels ≡ channels_with path opened))
          E
  unfolding channels_for
  channels_for-Runs before path (value opened) = Runs-return _ λ s p. (p, refl)
  channels_for-Runs before path (failed text) =
      Runs-bind _ _
        (Runs-emit J _ (warned (not_opened path text)) _
          λ l e. ap (◌∷◌ (warned (not_opened path text))) e)
        λ u. Runs-return _ λ s p. (p, refl)

  -- The level that is set is the one that was read, and Poco took it.
  abbrev IsLeveled : List (Event D) → List (Event D) → Type 0
  IsLeveled mid l =
      (level : Str) × (logging_level platform.layers config ≡ value level)
      × answers.Takes (to_poco_level level) (value tt)
      × (l ≡ root_level_set (to_poco_level level) ∷ mid)

  set_root_level-Runs :
      (mid : List (Event D))
      → Runs
          (At J (λ l. l ≡ mid))
          (set_root_level platform config)
          (λ u. At J (IsLeveled mid))
          (λ e s. At J (λ l. l ≡ mid) s × LevelFailed answers platform config)
  unfolding set_root_level
  set_root_level-Runs mid =
      let setting = logging_level platform.layers config in
      Runs-bind _ _ (Runs-escape setting λ t bad s p. (p, inl (t, bad))) λ level.
        let name = to_poco_level level in
        Runs-given (setting ≡ value level) _ _ (λ s p. p)
          λ read. Runs-bind _ _ (Runs-on_outside J _ _ _ (laws.level_keeps name)) λ checked.
            Runs-given (answers.Takes name checked) _ _ (λ s p. p)
              λ answer.
                Runs-bind _ _
                  (Runs-escape checked
                    λ t bad s p. (p, inr (level, t, read, subst (answers.Takes name) bad answer)))
                  λ u.
                    Runs-given (checked ≡ value u) _ _ (λ s p. p)
                      λ fine. Runs-emit J _ (root_level_set name) (IsLeveled mid) λ l e. (
                        level,
                        read,
                        subst (answers.Takes name) fine answer,
                        ap (◌∷◌ (root_level_set name)) e,
                      )

  -- Let Poco answer what was observed of it, be it with a failure. Then the setup of the log sets the
  -- channels of the console and of the log file if Poco answered that this file is open, and warns and
  -- sets the console alone if it answered that it cannot be opened; after that it sets the level that
  -- was read, which Poco took. It fails only if one of its two settings cannot be read, or Poco refused
  -- the level, with nothing set, or the channels as before; never for the file.
  pub setup_logging-Runs :
      (before : List (Event D))
      → Runs
          (At J (λ l. l ≡ before))
          (setup_logging platform config)
          (λ u. At J (IsLogging answers platform config before))
          (λ e s.
            At J (IsPartial answers platform config before) s
            × IsUnloggable answers platform config)
  unfolding setup_logging
  setup_logging-Runs before =
      let file_setting = logging_file platform.layers config in
      Runs-bind _ _ (Runs-escape file_setting λ t bad s p. ((p.0, inl p.1), inl (t, bad))) λ path.
        Runs-given (file_setting ≡ value path) _ _ (λ s p. p)
          λ file_read.
            Runs-bind _ _ (Runs-on_outside J _ _ _ (laws.open_keeps (file_channel path))) λ opened.
              Runs-given (answers.Opens (file_channel path) opened) _ _ (λ s p. p)
                λ answer. Runs-bind _ _ (channels_for-Runs before path opened) λ channels.
                  Runs-given (channels ≡ channels_with path opened) _ _ (λ s p. p)
                    λ with_file.
                      Runs-bind _ _
                        (Runs-emit J _ (root_channel_set (root_channel channels))
                          (λ l.
                            l
                            ≡ root_channel_set (root_channel channels)
                              ∷ warnings_of path opened before)
                          λ l e. ap (◌∷◌ (root_channel_set (root_channel channels))) e)
                        λ u.
                          Runs-weaken _ _ (set_root_level-Runs _)
                            (λ done s p. (
                              p.0,
                              record {
                                path = path;
                                level = p.1.0;
                                opened = opened;
                                file_read = file_read;
                                answer = answer;
                                level_read = p.1.1;
                                taken = p.1.2;
                                events = rw (p.1.3, with_file) refl;
                              },
                            ))
                            (λ e s p. (
                              (
                                p.0.0,
                                inr (path, opened, file_read, answer, rw (p.0.1, with_file) refl),
                              ),
                              inr p.1,
                            ))
