-- ===== src/Application/Uncached.antt =====
-- The services without their caches, over a provider that has no state: what the services with caches
-- are compared to. They are the same methods, over other interfaces.
use currency_converter_demo.Base.{none, Str}
use currency_converter_demo.Exec.{return}
use currency_converter_demo.Double.{Double}
use currency_converter_demo.Cache.Interface.{ICache}
use currency_converter_demo.External.Provider.{IExchangeRateProvider}
use currency_converter_demo.Application.Constraints.{ConstraintsService}
use currency_converter_demo.Application.Catalog.{CurrencyCatalogService, currency_catalog_service}
use currency_converter_demo.Application.Conversion.{ConversionService, conversion_service}
use currency_converter_demo.Application.History.{HistoryService, history_service}

-- A cache that holds nothing.
unfoldable pub no_cache : {S V : Type 0} → ICache S V
unfolding return
no_cache = record { get = λ k. return none; put = λ k v. return tt }

module _ {D : Type 0} (provider : IExchangeRateProvider (Unit {0}) D) where
  abbrev pub uncached_catalog : CurrencyCatalogService (Unit {0}) D
  uncached_catalog = currency_catalog_service provider no_cache

  module _ (constraints : ConstraintsService (Unit {0}) D) where
    abbrev pub uncached_conversion : ConversionService (Unit {0}) D
    uncached_conversion = conversion_service provider no_cache uncached_catalog constraints

    abbrev pub uncached_history : HistoryService (Unit {0}) D
    uncached_history = history_service provider no_cache uncached_catalog constraints

-- The constraints on one day.
abbrev pub constraints_on : {D : Type 0} → Double D → Str → ConstraintsService (Unit {0}) D
constraints_on double today = record {
  double = double;
  system_now = return 0;
  format_date = λ days. today;
}
