-- ===== src/Application/Catalog.antt =====
-- `CurrencyCatalogService` (backend/src/application/CurrencyCatalogService.h and .cpp).
use currency_converter_demo.Base.{
  Bool, not, true, false, List, [], ◌∷◌, any, ite, Str, str_dec, bytes,
}
use currency_converter_demo.Exec.{
  Exec, return, require, served, ◌>>=◌, ◌>>◌, external_api_unexpected_response,
}
use currency_converter_demo.Domain.{Currency}
use currency_converter_demo.Domain.TextUtil.{to_upper}
use currency_converter_demo.Cache.Interface.{ICache}
use currency_converter_demo.External.Provider.{IExchangeRateProvider}

pub record CurrencyCatalogService (S D : Type 0) : Type 0 where
  pub provider : IExchangeRateProvider S D
  pub cache : ICache S (List Currency)

-- The constructor.
abbrev pub currency_catalog_service :
    {S D : Type 0}
    → IExchangeRateProvider S D
    → ICache S (List Currency)
    → CurrencyCatalogService S D
currency_catalog_service provider cache = record { provider = provider; cache = cache }

abbrev pub cache_key : Str
cache_key = bytes "currencies"

unfoldable pub has_code : Str → Currency → Bool
has_code code c = ite (str_dec c.code code) true false

unfoldable pub is_empty : List Currency → Bool
is_empty [] = true
is_empty (c ∷ l) = false

module _ {S D : Type 0} (self : CurrencyCatalogService S D) where
  -- What follows the fetch.
  unfoldable pub store_currencies : List Currency → Exec S (List Currency)
  unfolding is_empty
  store_currencies currencies =
      require (not (is_empty currencies))
        (external_api_unexpected_response (bytes "frankfurter.dev returned an empty currency list"))
        do self.cache.put cache_key currencies; return currencies

  unfoldable pub list_currencies : Exec S (List Currency)
  unfolding store_currencies
  list_currencies = do
    cached ← self.cache.get cache_key
    served cached do currencies ← self.provider.list_currencies; store_currencies currencies

  unfoldable pub is_known_currency : Str → Exec S Bool
  unfolding list_currencies has_code
  is_known_currency code = do
    let normalized = to_upper code
    currencies ← list_currencies
    return (any (has_code normalized) currencies)
