-- ===== src/Main/Built.antt =====
-- What `main` builds, against the settings read as a whole and the start of the server with them.
use currency_converter_demo.Base.{
  List, subst, sym, ◌≡◌, refl, ◌⊎◌, inl, inr, ◌*◌, ◌==◌, Bool-cases, none, some, Str, ℤ, ℕ, pos,
}
use currency_converter_demo.Exec.{Exec, Outcome, ok, throw, fault, ◌>>=◌}
use currency_converter_demo.Exec.Runs.{Runs, Ends}
use currency_converter_demo.Cache.Bounded.{init}
use currency_converter_demo.External.Http.{Poco, value, failed}
use currency_converter_demo.External.Frankfurter.{escape}
use currency_converter_demo.Config.{
  LayeredConfiguration, and_then, settings, external_api_base_url, external_api_timeout,
  latest_rate_cache_max_age, latest_rate_cache_max_elements, history_cache_max_age,
  history_cache_max_elements,
}
use currency_converter_demo.Server.{Server, Settings, start}
use currency_converter_demo.Main.Process.{Event, Process}
use currency_converter_demo.Main.Rules.{At}
use currency_converter_demo.Main.Building.{build, constructed, assembled}

-- The settings, and below the building, as functions of what is read.
abbrev read_from : Poco Str → Poco ℤ → Poco ℤ → Poco ℕ → Poco ℤ → Poco ℕ → Poco Settings
read_from read_url read_timeout read_age read_elements read_history_age read_history_elements =
    and_then read_url λ url. and_then read_timeout λ timeout. and_then read_age λ latest_age.
      and_then read_elements λ latest_elements. and_then read_history_age λ history_age.
        and_then read_history_elements λ history_elements. value (record {
          external_api_base_url = url;
          external_api_timeout = timeout;
          latest_rate_cache_max_age = latest_age;
          latest_rate_cache_max_elements = latest_elements;
          history_cache_max_age = history_age;
          history_cache_max_elements = history_elements;
        })

module _ {W D : Type 0} where
  -- Why a server cannot be built: a setting cannot be read, or the server does not start with them.
  abbrev pub IsUnfit : Poco Settings → Process W D → Type 0
  IsUnfit read s =
      ((t : Str) × (read ≡ failed t))
      ⊎ ((st : Settings) × (read ≡ value st) × (start {D = D} st s.world ≡ none))

  abbrev pub IsBuilt :
      Poco Settings → Process W D → Outcome (Settings × Server W D) × Process W D → Type 0
  IsBuilt read s (ok built, t) =
      (t ≡ s) × (read ≡ value built.0) × (start built.0 s.world ≡ some built.1)
  IsBuilt read s (throw e, t) = (t ≡ s) × IsUnfit read s
  IsBuilt read s (fault, t) = ⊥

  abbrev build_from :
      Poco Str
      → Poco ℤ
      → Poco ℤ
      → Poco ℕ
      → Poco ℤ
      → Poco ℕ
      → Exec (Process W D) (Settings × Server W D)
  build_from read_url read_timeout read_age read_elements read_history_age read_history_elements =
      do
        url ← escape read_url
        timeout ← escape read_timeout
        currencies ← constructed (init (pos (24 * 60)) 8)
        latest_age ← escape read_age
        latest_elements ← escape read_elements
        rates ← constructed (init latest_age latest_elements)
        history_age ← escape read_history_age
        history_elements ← escape read_history_elements
        series ← constructed (init history_age history_elements)
        assembled
            (record {
              external_api_base_url = url;
              external_api_timeout = timeout;
              latest_rate_cache_max_age = latest_age;
              latest_rate_cache_max_elements = latest_elements;
              history_cache_max_age = history_age;
              history_cache_max_elements = history_elements;
            })
            currencies rates series

  build_from-IsBuilt :
      (u : Poco Str) (t a : Poco ℤ) (n : Poco ℕ) (b : Poco ℤ) (m : Poco ℕ) (s : Process W D)
      → IsBuilt (read_from u t a n b m) s (build_from u t a n b m s)
  unfolding build start init ◌>>=◌
  build_from-IsBuilt (failed x) t a n b m s = (refl, inl (x, refl))
  build_from-IsBuilt (value u) (failed x) a n b m s = (refl, inl (x, refl))
  build_from-IsBuilt (value u) (value t) (failed x) n b m s = (refl, inl (x, refl))
  build_from-IsBuilt (value u) (value t) (value a) (failed x) b m s = (refl, inl (x, refl))
  build_from-IsBuilt (value u) (value t) (value a) (value n) (failed x) m s =
      elim (Bool-cases (n == 0)) [
        | inl zero_size ↦ rw zero_size (refl, inl (x, refl))
        | inr positive ↦ rw positive (refl, inl (x, refl))
      ]
  build_from-IsBuilt (value u) (value t) (value a) (value n) (value b) (failed x) s =
      elim (Bool-cases (n == 0)) [
        | inl zero_size ↦ rw zero_size (refl, inl (x, refl))
        | inr positive ↦ rw positive (refl, inl (x, refl))
      ]
  build_from-IsBuilt (value u) (value t) (value a) (value n) (value b) (value m) s =
      elim (Bool-cases (n == 0)) [
        | inl zero_size ↦ rw zero_size (refl, inr (_, refl, rw zero_size refl))
        | inr positive ↦ elim (Bool-cases (m == 0)) [
          | inl none_left ↦
              rw (positive, none_left) (refl, inr (_, refl, rw (positive, none_left) refl))
          | inr both ↦ rw (positive, both) (refl, refl, rw (positive, both) refl)
        ]
      ]

module _ {W D C : Type 0} (layers : LayeredConfiguration C) (config : C) where
  -- Though `main` reads the settings one by one between the constructors, it gets through exactly if
  -- all settings can be read and the server starts with them, and then it has built that server;
  -- otherwise an exception ends it.
  pub build-IsBuilt : (s : Process W D) → IsBuilt (settings layers config) s (build layers config s)
  unfolding build settings
  build-IsBuilt s =
      build_from-IsBuilt (external_api_base_url layers config) (external_api_timeout layers config)
        (latest_rate_cache_max_age layers config) (latest_rate_cache_max_elements layers config)
        (history_cache_max_age layers config) (history_cache_max_elements layers config) s

module _ {W D C : Type 0} (J : W → Type 0) (layers : LayeredConfiguration C) (config : C) where
  abbrev Built : List (Event D) → Outcome (Settings × Server W D) × Process W D → Type 0
  Built l =
      Ends
        (λ b t.
          At J (λ l'. l' ≡ l) t
          × (settings layers config ≡ value b.0)
          × (w : W) × (start b.0 w ≡ some b.1))
        (λ e t. At J (λ l'. l' ≡ l) t × IsUnfit (settings layers config) t)

  Built-Ends :
      (l : List (Event D)) (s : Process W D) (r : Outcome (Settings × Server W D) × Process W D)
      → At J (λ l'. l' ≡ l) s
      → IsBuilt (settings layers config) s r
      → Built l r
  Built-Ends l s (ok b, t) p h = (subst (At J (λ l'. l' ≡ l)) (sym h.0) p, h.1, s.world, h.2)
  Built-Ends l s (throw e, t) p h = (
    subst (At J (λ l'. l' ≡ l)) (sym h.0) p,
    subst (IsUnfit (settings layers config)) (sym h.0) h.1,
  )
  Built-Ends l s (fault, t) p h = h

  pub build-Runs :
      (l : List (Event D))
      → Runs
          (At J (λ l'. l' ≡ l))
          (build layers config)
          (λ (b : Settings × Server W D) t.
            At J (λ l'. l' ≡ l) t
            × (settings layers config ≡ value b.0)
            × (w : W) × (start b.0 w ≡ some b.1))
          (λ e t. At J (λ l'. l' ≡ l) t × IsUnfit (settings layers config) t)
  build-Runs l = record {
    at = λ s p. Built-Ends l s (build layers config s) p (build-IsBuilt layers config s);
  }
