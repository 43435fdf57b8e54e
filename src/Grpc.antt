-- ===== src/Grpc.antt =====
-- `CurrencyServiceImpl` (backend/src/grpc/CurrencyServiceImpl.h and .cpp), with the messages of
-- proto/currency.proto. The log lines, and the clock readings for them, are left out.
pub mod Replies
pub mod Agreeing
pub mod Accesses
use currency_converter_demo.Base.{List, [], ◌++◌, map, Str, bytes}
use currency_converter_demo.Exec.{
  Outcome, ok, throw, fault, Exec, Exception, return, lift, ◌>>=◌, invalid_argument,
  currency_not_found, external_api_unavailable, external_api_unexpected_response, std_exception,
}
use currency_converter_demo.Domain.{Currency, ExchangeRate}
use currency_converter_demo.Domain.DateRange.{make}
use currency_converter_demo.Application.Constraints.{ConstraintsService, get_constraints}
use currency_converter_demo.Application.Catalog
use currency_converter_demo.Application.Catalog.{CurrencyCatalogService}
use currency_converter_demo.Application.Conversion.{ConversionService, convert}
use currency_converter_demo.Application.History.{HistoryService, get_history}

pub record CurrencyInfo : Type 0 where
  pub code : Str
  pub full_name : Str

pub record CurrencyListResponse : Type 0 where
  pub currencies : List CurrencyInfo

pub record ConvertRequest (D : Type 0) : Type 0 where
  pub source_currency : Str
  pub target_currency : Str
  pub amount : D

pub record ConvertResponse (D : Type 0) : Type 0 where
  pub source_amount : D
  pub converted_amount : D
  pub exchange_rate : D
  pub rate_date : Str

pub record HistoryRequest : Type 0 where
  pub source_currency : Str
  pub target_currency : Str
  pub start_date : Str
  pub end_date : Str

pub record HistoryPoint (D : Type 0) : Type 0 where
  pub date : Str
  pub rate : D

pub record HistoryResponse (D : Type 0) : Type 0 where
  pub source_currency : Str
  pub target_currency : Str
  pub points : List (HistoryPoint D)

pub record ConstraintsResponse (D : Type 0) : Type 0 where
  pub min_amount : D
  pub max_amount : D
  pub min_date : Str
  pub max_date : Str

-- The codes of gRPC that the service uses. A status that is not OK has a message.
pub data StatusCode : Type 0 where
  ok_code invalid_argument_code not_found_code unavailable_code internal_code : StatusCode

pub record Status : Type 0 where
  pub code : StatusCode
  pub message : Str

abbrev pub status : StatusCode → Str → Status
status code message = record { code = code; message = message }

unfoldable pub to_status : Exception → Status
to_status (invalid_argument what) = status invalid_argument_code what
to_status (currency_not_found what) = status not_found_code what
to_status (external_api_unavailable what) = status unavailable_code what
to_status (external_api_unexpected_response what) =
    status internal_code (bytes "internal server error")
to_status (std_exception what) = status internal_code (bytes "internal server error")

-- `handle`: the work fills the response, and an exception leaves it as it is.
unfoldable pub caught {ℓ} : {S : Type ℓ} {R : Type 0} → R → Outcome R × S → Outcome (Status × R) × S
unfolding to_status
caught response (ok filled, s) = (ok (status ok_code [], filled), s)
caught response (throw e, s) = (ok (to_status e, response), s)
caught response (fault, s) = (fault, s)

unfoldable pub handle {ℓ} : {S : Type ℓ} {R : Type 0} → R → Exec S R → Exec S (Status × R)
unfolding caught
handle response work s = caught response (work s)

pub record CurrencyServiceImpl (S D : Type 0) : Type 0 where
  pub catalog : CurrencyCatalogService S D
  pub conversion : ConversionService S D
  pub history : HistoryService S D
  pub constraints : ConstraintsService S D

-- The constructor.
abbrev pub currency_service_impl :
    {S D : Type 0}
    → CurrencyCatalogService S D
    → ConversionService S D
    → HistoryService S D
    → ConstraintsService S D
    → CurrencyServiceImpl S D
currency_service_impl catalog conversion history constraints = record {
  catalog = catalog;
  conversion = conversion;
  history = history;
  constraints = constraints;
}

unfoldable pub currency_info : Currency → CurrencyInfo
currency_info c = record { code = c.code; full_name = c.full_name }

unfoldable pub history_point : {D : Type 0} → ExchangeRate D → HistoryPoint D
history_point r = record { date = r.date; rate = r.rate }

module _ {S D : Type 0} (self : CurrencyServiceImpl S D) where
  unfoldable pub list_currencies_rpc : CurrencyListResponse → Exec S (Status × CurrencyListResponse)
  unfolding handle currency_info
  list_currencies_rpc response = handle response do
    currencies ← Catalog.list_currencies self.catalog
    return (record { currencies = response.currencies ++ map currency_info currencies })

  unfoldable pub convert_rpc :
      ConvertRequest D → ConvertResponse D → Exec S (Status × ConvertResponse D)
  unfolding handle
  convert_rpc request response = handle response do
    result ← convert self.conversion request.source_currency request.target_currency request.amount
    return (record {
      source_amount = result.source_amount;
      converted_amount = result.converted_amount;
      exchange_rate = result.exchange_rate;
      rate_date = result.rate_date;
    })

  unfoldable pub get_history_rpc :
      HistoryRequest → HistoryResponse D → Exec S (Status × HistoryResponse D)
  unfolding handle history_point
  get_history_rpc request response = handle response do
    range ← lift (make request.start_date request.end_date)
    points ← get_history self.history request.source_currency request.target_currency range
    return (record {
      source_currency = request.source_currency;
      target_currency = request.target_currency;
      points = response.points ++ map history_point points;
    })

  unfoldable pub get_constraints_rpc :
      ConstraintsResponse D → Exec S (Status × ConstraintsResponse D)
  unfolding handle
  get_constraints_rpc response = handle response do
    constraints ← get_constraints self.constraints
    return (record {
      min_amount = constraints.min_amount;
      max_amount = constraints.max_amount;
      min_date = constraints.min_date;
      max_date = constraints.max_date;
    })
