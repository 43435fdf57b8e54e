-- ===== src/Application/Conversion.antt =====
-- `ConversionService` (backend/src/application/ConversionService.h and .cpp).
use currency_converter_demo.Base.{Bool, true, false, not, ◌||◌, ◌∷◌, ◌++◌, ite, Str, str_dec, bytes}
use currency_converter_demo.Exec.{
  Exec, return, served, require, ◌>>=◌, ◌>>◌, invalid_argument, currency_not_found,
}
use currency_converter_demo.Domain.{ExchangeRate, ConversionResult, Constraints}
use currency_converter_demo.Domain.TextUtil.{to_upper}
use currency_converter_demo.Double.{Double}
use currency_converter_demo.Cache.Interface.{ICache}
use currency_converter_demo.External.Provider.{IExchangeRateProvider}
use currency_converter_demo.Application.Constraints.{ConstraintsService, get_constraints}
use currency_converter_demo.Application.Catalog.{CurrencyCatalogService, is_known_currency}

pub record ConversionService (S D : Type 0) : Type 0 where
  pub provider : IExchangeRateProvider S D
  pub latest_rate_cache : ICache S (ExchangeRate D)
  pub catalog : CurrencyCatalogService S D
  pub constraints : ConstraintsService S D

-- The constructor.
abbrev pub conversion_service :
    {S D : Type 0}
    → IExchangeRateProvider S D
    → ICache S (ExchangeRate D)
    → CurrencyCatalogService S D
    → ConstraintsService S D
    → ConversionService S D
conversion_service provider latest_rate_cache catalog constraints = record {
  provider = provider;
  latest_rate_cache = latest_rate_cache;
  catalog = catalog;
  constraints = constraints;
}

unfoldable pub unknown_source : Str → Str
unknown_source code = bytes "unknown source currency '" ++ code ++ bytes "'"

unfoldable pub unknown_target : Str → Str
unknown_target code = bytes "unknown target currency '" ++ code ++ bytes "'"

unfoldable pub bad_amount : {D : Type 0} → Double D → Constraints D → Str
bad_amount double c =
    bytes "amount must be between "
    ++ double.show c.min_amount
    ++ bytes " and "
    ++ double.show c.max_amount

-- The key of a rate: `{}|{}`.
unfoldable pub pair_key : Str → Str → Str
pair_key source target = source ++ (b'|' ∷ target)

unfoldable pub same_code : Str → Str → Bool
same_code a b = ite (str_dec a b) true false

module _ {D : Type 0} where
  unfoldable pub amount_accepted : Double D → Constraints D → D → Bool
  amount_accepted double c amount = not (
      not (double.is_finite amount)
      || double.lt amount c.min_amount
      || double.gt amount c.max_amount)

module _ {S D : Type 0} (self : ConversionService S D) where
  -- The rate of a pair, from the cache or else from the provider.
  unfoldable pub resolve_rate : Str → Str → Exec S (ExchangeRate D)
  resolve_rate source target = do
    cached ← self.latest_rate_cache.get (pair_key source target)
    served cached do
      rate ← self.provider.latest_rate source target
      self.latest_rate_cache.put (pair_key source target) rate
      return rate

  -- What follows the checks.
  unfoldable pub apply_rate : Str → Str → D → Exec S (ConversionResult D)
  apply_rate source target amount = do
    rate ← resolve_rate source target
    return (record {
      source_amount = amount;
      converted_amount = self.constraints.double.mul amount rate.rate;
      exchange_rate = rate.rate;
      rate_date = rate.date;
    })

  -- What follows the checks of the codes.
  unfoldable pub check_request : Str → Str → D → Exec S (ConversionResult D)
  unfolding get_constraints
  check_request source target amount =
      require (not (same_code source target))
        (invalid_argument (bytes "source_currency and target_currency must differ"))
        do
          constraints ← get_constraints self.constraints
          require (amount_accepted self.constraints.double constraints amount)
              (invalid_argument (bad_amount self.constraints.double constraints))
              (apply_rate source target amount)

  unfoldable pub convert : Str → Str → D → Exec S (ConversionResult D)
  convert source_currency target_currency amount = do
    let source = to_upper source_currency
    let target = to_upper target_currency
    source_known ← is_known_currency self.catalog source
    require source_known (currency_not_found (unknown_source source)) do
      target_known ← is_known_currency self.catalog target
      require target_known (currency_not_found (unknown_target target))
          (check_request source target amount)
