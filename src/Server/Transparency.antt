-- ===== src/Server/Transparency.antt =====
-- The server (backend/src/main.cpp) against the one without caches: the caches are not to be seen in
-- the replies.
pub mod Replies
use currency_converter_demo.Base.{◌/◌, ◌≡◌, Str}
use currency_converter_demo.Exec.Runs.{Runs, Never, Runs-weaken}
use currency_converter_demo.External.Http.{Request}
use currency_converter_demo.External.Fixed.{
  fixed_http, IsFixed, IsPage, IsUnreached, list_currencies-Agrees, latest_rate-Agrees,
  history-Agrees,
}
use currency_converter_demo.Application.Transparency.{
  PlainList, IsFetchedList, IsProviderOf, CatalogTransparency,
}
use currency_converter_demo.Application.Transparency.Rates.{
  IsDay, IsFetchedRate, ConversionTransparency,
}
use currency_converter_demo.Application.Transparency.Series.{IsFetchedSeries, HistoryTransparency}
use currency_converter_demo.External.Provider.{IExchangeRateProvider}
use currency_converter_demo.Server.{
  Server, Outside, Settings, world_http, client, catalog, conversion, history, constraints,
  currency_slot, latest_rate_slot, history_slot,
}
use currency_converter_demo.Server.Slots.{Runs-on_world}
use currency_converter_demo.Server.Holding.{
  Holding, changed, currency_slot-IsCache, latest_rate_slot-IsCache, history_slot-IsCache,
}
use currency_converter_demo.Server.Reference.{fixed_client}

-- What is assumed of the outside: upstream answers a request always by the same page or not at all,
-- clocks that can be read, all the calls on one day, and no currency code with the byte `|` in the
-- list that is fetched.
pub record SteadyOutside {W D : Type 0} (J : W → Type 0) (page : Request → Str) (today : Str)
    (outside : Outside W D) (settings : Settings) : Type 0 where
  pub http : IsFixed J page outside.http
  pub steady : Runs J outside.steady_now (λ n w. J w) Never
  pub system :
      Runs J outside.system_now
        (λ n w. J w × (outside.format_date (n / 86_400_000_000_000) ≡ today))
        Never
  pub plain : PlainList (fixed_client page today outside settings)

module _ {W D : Type 0} (J : W → Type 0) (page : Request → Str) (today : Str)
    (outside : Outside W D) (settings : Settings)
    (laws : SteadyOutside J page today outside settings) where
  abbrev q : IExchangeRateProvider (Unit {0}) D
  q = fixed_client page today outside settings

  -- Each cached value is the one that a fetch answers now.
  abbrev pub Serves : Server W D → Type 0
  Serves = Holding J (IsFetchedList q) (IsFetchedRate q) (IsFetchedSeries q)

  abbrev keeps : (s : Server W D) (w : W) → Serves s → J w → Serves (record s { world = w })
  keeps = changed J (IsFetchedList q) (IsFetchedRate q) (IsFetchedSeries q)

  abbrev outside_of : (s : Server W D) → Serves s → J s.world
  outside_of s h = h.world

  pub client-IsFixed : IsFixed Serves page (world_http outside.http)
  unfolding world_http
  client-IsFixed = record {
    open_keeps = λ secure host port.
        Runs-weaken _ _
          (Runs-on_world Serves J outside_of keeps _ (λ o. Unit {0})
            (Runs-weaken _ _ (laws.http.open_keeps secure host port) (λ o w j. (j, tt))
              (λ e w p. p)))
          (λ o t p. p.0) (λ e t p. p);
    exchange_keeps =
        λ r. Runs-on_world Serves J outside_of keeps _ (IsPage page r) (laws.http.exchange_keeps r);
  }

  client-IsProviderOf : IsProviderOf Serves IsUnreached (client outside settings) q
  unfolding world_http fixed_http
  client-IsProviderOf =
      let http = world_http outside.http in
      record {
        list_agrees = list_currencies-Agrees Serves page http outside.json _ client-IsFixed;
        latest_agrees = latest_rate-Agrees Serves page http outside.json _ client-IsFixed;
        history_agrees = history-Agrees Serves page http outside.json _ client-IsFixed;
      }

  pub system_clock-IsDay : IsDay Serves (constraints outside settings) today
  system_clock-IsDay =
      Runs-on_world Serves J outside_of keeps outside.system_now
        (λ n. outside.format_date (n / 86_400_000_000_000) ≡ today) laws.system

  pub catalog-Transparent : CatalogTransparency Serves IsUnreached (catalog outside settings) q
  catalog-Transparent = record {
    provider = client-IsProviderOf;
    cache =
        currency_slot-IsCache J (IsFetchedList q) (IsFetchedRate q) (IsFetchedSeries q)
          outside.steady_now laws.steady;
  }

  pub conversion-Transparent :
      ConversionTransparency Serves IsUnreached (conversion outside settings) q today
  conversion-Transparent = record {
    catalog = catalog-Transparent;
    fetch = client-IsProviderOf.latest_agrees;
    rates =
        latest_rate_slot-IsCache J (IsFetchedList q) (IsFetchedRate q) (IsFetchedSeries q)
          outside.steady_now laws.steady;
    day = system_clock-IsDay;
    plain = laws.plain;
  }

  pub history-Transparent :
      HistoryTransparency Serves IsUnreached (history outside settings) q today
  history-Transparent = record {
    catalog = catalog-Transparent;
    fetch = client-IsProviderOf.history_agrees;
    series =
        history_slot-IsCache J (IsFetchedList q) (IsFetchedRate q) (IsFetchedSeries q)
          outside.steady_now laws.steady;
    day = system_clock-IsDay;
    plain = laws.plain;
  }
