-- ===== src/Application/History.antt =====
-- `HistoryService` (backend/src/application/HistoryService.h and .cpp).
use currency_converter_demo.Base.{Bool, not, ◌||◌, List, ◌∷◌, ◌++◌, Str, str_lt, bytes}
use currency_converter_demo.Exec.{
  Exec, return, served, require, ◌>>=◌, ◌>>◌, invalid_argument, currency_not_found,
}
use currency_converter_demo.Domain.{ExchangeRate, Constraints}
use currency_converter_demo.Domain.TextUtil.{to_upper}
use currency_converter_demo.Domain.DateRange.{DateRange}
use currency_converter_demo.Cache.Interface.{ICache}
use currency_converter_demo.External.Provider.{IExchangeRateProvider}
use currency_converter_demo.Application.Constraints.{ConstraintsService, get_constraints}
use currency_converter_demo.Application.Catalog.{CurrencyCatalogService, is_known_currency}
use currency_converter_demo.Application.Conversion.{unknown_source, unknown_target}

pub record HistoryService (S D : Type 0) : Type 0 where
  pub provider : IExchangeRateProvider S D
  pub history_cache : ICache S (List (ExchangeRate D))
  pub catalog : CurrencyCatalogService S D
  pub constraints : ConstraintsService S D

-- The constructor.
abbrev pub history_service :
    {S D : Type 0}
    → IExchangeRateProvider S D
    → ICache S (List (ExchangeRate D))
    → CurrencyCatalogService S D
    → ConstraintsService S D
    → HistoryService S D
history_service provider history_cache catalog constraints = record {
  provider = provider;
  history_cache = history_cache;
  catalog = catalog;
  constraints = constraints;
}

-- The key of a series: `{}|{}|{}|{}`.
unfoldable pub history_key : Str → Str → DateRange → Str
history_key source target range =
    source ++ (b'|' ∷ target ++ (b'|' ∷ range.start_date ++ (b'|' ∷ range.end_date)))

unfoldable pub bad_range : {D : Type 0} → Constraints D → Str
bad_range c =
    bytes "date range must fall within [" ++ c.min_date ++ bytes ", " ++ c.max_date ++ bytes "]"

unfoldable pub range_accepted : {D : Type 0} → Constraints D → DateRange → Bool
range_accepted c range =
    not (str_lt range.start_date c.min_date || str_lt c.max_date range.end_date)

module _ {S D : Type 0} (self : HistoryService S D) where
  -- The series of a query, from the cache or else from the provider.
  unfoldable pub resolve_series : Str → Str → DateRange → Exec S (List (ExchangeRate D))
  resolve_series source target range = do
    cached ← self.history_cache.get (history_key source target range)
    served cached do
      points ← self.provider.history source target range
      self.history_cache.put (history_key source target range) points
      return points

  -- What follows the checks of the codes.
  unfoldable pub check_range : Str → Str → DateRange → Exec S (List (ExchangeRate D))
  unfolding get_constraints
  check_range source target range = do
    constraints ← get_constraints self.constraints
    require (range_accepted constraints range) (invalid_argument (bad_range constraints))
        (resolve_series source target range)

  unfoldable pub get_history : Str → Str → DateRange → Exec S (List (ExchangeRate D))
  get_history source_currency target_currency range = do
    let source = to_upper source_currency
    let target = to_upper target_currency
    source_known ← is_known_currency self.catalog source
    require source_known (currency_not_found (unknown_source source)) do
      target_known ← is_known_currency self.catalog target
      require target_known (currency_not_found (unknown_target target))
          (check_range source target range)
