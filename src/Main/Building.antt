-- ===== src/Main/Building.antt =====
-- The client and the caches that `main` (backend/src/main.cpp) builds, in the order in which it reads
-- their settings.
use currency_converter_demo.Base.{◌*◌, pos, Option, none, some, List, bytes}
use currency_converter_demo.Exec.{Exec, ok, return, raise, ◌>>=◌, std_exception}
use currency_converter_demo.Domain.{Currency, ExchangeRate}
use currency_converter_demo.Cache.Bounded.{Cache, init}
use currency_converter_demo.External.Frankfurter.{escape}
use currency_converter_demo.Config.{
  LayeredConfiguration, external_api_base_url, external_api_timeout, latest_rate_cache_max_age,
  latest_rate_cache_max_elements, history_cache_max_age, history_cache_max_elements,
}
use currency_converter_demo.Server.{Server, Settings}
use currency_converter_demo.Main.Process.{Process}

-- The exception of a cache's constructor.
unfoldable pub constructed : {S V : Type 0} → Option (Cache V) → Exec S (Cache V)
constructed (some c) = return c
constructed none = raise (std_exception (bytes "max_elements must be > 0"))

module _ {W D : Type 0} where
  abbrev pub assembled :
      Settings
      → Cache (List Currency)
      → Cache (ExchangeRate D)
      → Cache (List (ExchangeRate D))
      → Exec (Process W D) (Settings × Server W D)
  assembled settings currencies rates series s = (
    ok (
      settings,
      record {
        world = s.world;
        currency_cache = currencies;
        latest_rate_cache = rates;
        history_cache = series;
      },
    ),
    s,
  )

module _ {W D C : Type 0} (layers : LayeredConfiguration C) (config : C) where
  -- The settings of the client and of the caches, and the state of the server.
  unfoldable pub build : Exec (Process W D) (Settings × Server W D)
  unfolding escape constructed
  build = do
    url ← escape (external_api_base_url layers config)
    timeout ← escape (external_api_timeout layers config)
    currencies ← constructed (init (pos (24 * 60)) 8)
    latest_age ← escape (latest_rate_cache_max_age layers config)
    latest_elements ← escape (latest_rate_cache_max_elements layers config)
    rates ← constructed (init latest_age latest_elements)
    history_age ← escape (history_cache_max_age layers config)
    history_elements ← escape (history_cache_max_elements layers config)
    series ← constructed (init history_age history_elements)
    assembled
        (record {
          external_api_base_url = url;
          external_api_timeout = timeout;
          latest_rate_cache_max_age = latest_age;
          latest_rate_cache_max_elements = latest_elements;
          history_cache_max_age = history_age;
          history_cache_max_elements = history_elements;
        })
        currencies rates series
