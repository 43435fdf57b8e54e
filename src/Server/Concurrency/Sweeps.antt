-- ===== src/Server/Concurrency/Sweeps.antt =====
-- The sweepers of the caches of the server.
use currency_converter_demo.Base.{List, Str}
use currency_converter_demo.Domain.{Currency, ExchangeRate}
use currency_converter_demo.Server.Slots.{sweep_expired-IsGood}
use currency_converter_demo.Server.Holding.{Holding}
use currency_converter_demo.Server.Concurrency.Safety.{IsSwept}

-- A sweep leaves valid caches, with values that may be under their keys.
pub Holding-IsSwept :
    {W D : Type 0} (J : W → Type 0) (OfList : Str → List Currency → Type 0)
    (OfRate : Str → ExchangeRate D → Type 0) (OfSeries : Str → List (ExchangeRate D) → Type 0)
    → IsSwept (Holding J OfList OfRate OfSeries)
Holding-IsSwept J OfList OfRate OfSeries = record {
  currencies = λ clock s h. record {
    world = h.world;
    currencies = sweep_expired-IsGood OfList s.currency_cache clock h.currencies;
    rates = h.rates;
    series = h.series;
  };
  rates = λ clock s h. record {
    world = h.world;
    currencies = h.currencies;
    rates = sweep_expired-IsGood OfRate s.latest_rate_cache clock h.rates;
    series = h.series;
  };
  series = λ clock s h. record {
    world = h.world;
    currencies = h.currencies;
    rates = h.rates;
    series = sweep_expired-IsGood OfSeries s.history_cache clock h.series;
  };
}
