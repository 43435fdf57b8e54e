-- ===== src/Server/Wiring.antt =====
-- The objects of the server (backend/src/main.cpp) against the laws that the services rely on.
use currency_converter_demo.Exec.Runs.{Runs, Never}
use currency_converter_demo.External.Json.{IsMap}
use currency_converter_demo.External.Provider.{Upstream, IsProvider}
use currency_converter_demo.External.Observed.{Seen, IsHttp, IsListed, Listed-IsListed}
use currency_converter_demo.External.Service.{provider-IsProvider}
use currency_converter_demo.Application.Listing.{IsCatalog, CatalogLaws}
use currency_converter_demo.Application.Rates.{IsCachedRate, PlainCodes, ConversionLaws}
use currency_converter_demo.Application.Series.{IsCachedSeries, HistoryLaws}
use currency_converter_demo.Server.{
  Server, Outside, Settings, on_world, world_http, client, catalog, conversion, history,
}
use currency_converter_demo.Server.Calls.{upstream}
use currency_converter_demo.Server.Slots.{world_http-IsHttp, Runs-on_world}
use currency_converter_demo.Server.Holding.{
  Holding, changed, currency_slot-IsCache, latest_rate_slot-IsCache, history_slot-IsCache,
}

-- What is assumed of the outside: the laws of the HTTP client and of the JSON reader, clocks that
-- can be read, a system clock that shows what was seen of it, and that no currency code of a list
-- that the server sends has the byte `|`.
pub record OutsideLaws {W D : Type 0} (J : W → Type 0) (seen : Seen) (outside : Outside W D)
    : Type 0 where
  pub http : IsHttp J seen outside.http
  pub map : IsMap outside.json
  pub steady : Runs J outside.steady_now (λ n w. J w) Never
  pub system : Runs J outside.system_now (λ n w. J w × seen.Now n) Never
  pub plain : PlainCodes (IsListed seen outside.json)

module _ {W D : Type 0} (J : W → Type 0) (seen : Seen) (outside : Outside W D) (settings : Settings)
    (laws : OutsideLaws J seen outside) where
  abbrev up : Upstream D
  up = upstream seen outside settings

  -- The invariant of the server: its caches are valid, and each value is one that upstream gave
  -- for its key.
  abbrev pub Holds : Server W D → Type 0
  Holds = Holding J (IsCatalog up.Listed) (IsCachedRate up) (IsCachedSeries up)

  abbrev keeps : (s : Server W D) (w : W) → Holds s → J w → Holds (record s { world = w })
  keeps = changed J (IsCatalog up.Listed) (IsCachedRate up) (IsCachedSeries up)

  abbrev outside_of : (s : Server W D) → Holds s → J s.world
  outside_of s h = h.world

  pub client-IsHttp : IsHttp Holds seen (world_http outside.http)
  client-IsHttp = world_http-IsHttp Holds J outside_of keeps seen outside.http laws.http

  client-IsProvider : IsProvider Holds up (client outside settings)
  unfolding world_http
  client-IsProvider =
      provider-IsProvider Holds seen (world_http outside.http) outside.json _ client-IsHttp laws.map

  pub catalog-CatalogLaws : CatalogLaws Holds up (catalog outside settings)
  catalog-CatalogLaws = record {
    provider = client-IsProvider;
    cache =
        currency_slot-IsCache J (IsCatalog up.Listed) (IsCachedRate up) (IsCachedSeries up)
          outside.steady_now laws.steady;
  }

  pub system_clock-Runs :
      Runs Holds (on_world outside.system_now) (λ n t. Holds t × seen.Now n) Never
  system_clock-Runs = Runs-on_world Holds J outside_of keeps outside.system_now seen.Now laws.system

  -- What upstream listed has codes without the byte `|`.
  pub plain_codes : PlainCodes up.Listed
  plain_codes = λ l h. laws.plain l (Listed-IsListed seen outside.http.parse_uri outside.json _ l h)

  pub conversion-ConversionLaws : ConversionLaws Holds up (conversion outside settings)
  conversion-ConversionLaws = record {
    provider = client-IsProvider;
    rates =
        latest_rate_slot-IsCache J (IsCatalog up.Listed) (IsCachedRate up) (IsCachedSeries up)
          outside.steady_now laws.steady;
    catalog = catalog-CatalogLaws;
    clock = system_clock-Runs;
    plain = plain_codes;
  }

  pub history-HistoryLaws : HistoryLaws Holds up (history outside settings)
  history-HistoryLaws = record {
    provider = client-IsProvider;
    series =
        history_slot-IsCache J (IsCatalog up.Listed) (IsCachedRate up) (IsCachedSeries up)
          outside.steady_now laws.steady;
    catalog = catalog-CatalogLaws;
    clock = system_clock-Runs;
    plain = plain_codes;
  }
