-- ===== src/External/Frankfurter.antt =====
-- `FrankfurterClient` (backend/src/external/FrankfurterClient.h and .cpp). The durations that it logs
-- are left out.
use currency_converter_demo.Base.{
  ℕ, ◌+◌, ◌*◌, ◌/◌, ◌%◌, ℤ, pos, negsuc, sub_ℕ, true, false, List, [], ◌∷◌, ◌++◌, if◌then◌else◌,
  ◌==◌, ite, Str, str_dec, bytes,
}
use currency_converter_demo.Exec.{
  Exec, return, raise, lift, ◌>>=◌, external_api_unavailable, std_exception,
}
use currency_converter_demo.Domain.{Currency, ExchangeRate}
use currency_converter_demo.Domain.DateRange.{DateRange}
use currency_converter_demo.External.Http.{Poco, value, failed, Uri, Request, Response, Http}
use currency_converter_demo.External.Json.{Json}
use currency_converter_demo.External.Payload.{rethrow, read_currencies, read_latest, read_history}
use currency_converter_demo.External.Provider.{IExchangeRateProvider}

-- Division of a signed number by a positive one, towards zero, and its remainder.
unfoldable pub quot : ℤ → ℕ → ℤ
quot (pos n) k = pos (n / k)
quot (negsuc n) k = sub_ℕ 0 ((n + 1) / k)

unfoldable pub rem : ℤ → ℕ → ℤ
rem (pos n) k = pos (n % k)
rem (negsuc n) k = sub_ℕ 0 ((n + 1) % k)

unfoldable pub times : ℤ → ℕ → ℤ
times (pos n) k = pos (n * k)
times (negsuc n) k = sub_ℕ 0 ((n + 1) * k)

pub record FrankfurterClient : Type 0 where
  pub base_url : Str
  pub timeout : ℤ

-- The constructor.
abbrev pub frankfurter_client : Str → ℤ → FrankfurterClient
frankfurter_client base_url timeout = record { base_url = base_url; timeout = timeout }

unfoldable pub or_root : Str → Str
or_root [] = bytes "/"
or_root (c ∷ s) = c ∷ s

unfoldable pub request_for : FrankfurterClient → Uri → Request
unfolding quot rem times or_root
request_for self uri = record {
  is_secure = ite (str_dec uri.scheme (bytes "https")) true false;
  host = uri.host;
  port = uri.port;
  seconds = quot self.timeout 1000;
  microseconds = times (rem self.timeout 1000) 1000;
  path = or_root uri.path_and_query;
  user_agent = bytes "currency-converter-backend/1.0";
}

-- A `Poco::Exception` outside a `try` block goes on as it is.
unfoldable pub escape {ℓ} : {S : Type ℓ} {A : Type 0} → Poco A → Exec S A
escape (value a) = return a
escape (failed t) = raise (std_exception t)

module _ {S : Type 0} (http : Http S) where
  -- The `catch` blocks of `get`, and its test of the status.
  unfoldable pub body_of : Poco Response → Exec S Str
  body_of (failed t) =
      raise (external_api_unavailable (bytes "could not reach frankfurter.dev: " ++ t))
  body_of (value response) =
      if response.status == 200
      then return response.body
      else raise (
          external_api_unavailable
            (bytes "frankfurter.dev returned HTTP " ++ http.show response.status))

  unfoldable pub get : FrankfurterClient → Str → Exec S Str
  unfolding escape body_of
  get self path = do
    uri ← escape (http.parse_uri (self.base_url ++ path))
    let request = request_for self uri
    opened ← http.open_session request.is_secure request.host request.port
    session ← escape opened
    reply ← http.exchange request
    body_of reply

  module _ {D : Type 0} (json : Json D) (self : FrankfurterClient) where
    unfoldable pub list_currencies : Exec S (List Currency)
    unfolding get
    list_currencies = do
      body ← get self (bytes "/v1/currencies")
      lift (rethrow (bytes "/v1/currencies") (read_currencies json body))

    unfoldable pub latest_rate : Str → Str → Exec S (ExchangeRate D)
    unfolding get
    latest_rate source target = do
      body ← get self (bytes "/v1/latest?base=" ++ source ++ bytes "&symbols=" ++ target)
      lift (rethrow (bytes "/v1/latest") (read_latest json source target body))

    unfoldable pub history : Str → Str → DateRange → Exec S (List (ExchangeRate D))
    unfolding get
    history source target range = do
      body ← get self (
          bytes "/v1/"
          ++ range.start_date
          ++ bytes ".."
          ++ range.end_date
          ++ bytes "?base="
          ++ source
          ++ bytes "&symbols="
          ++ target)
      lift (rethrow (bytes "/v1/{start}..{end}") (read_history json source target range body))

    abbrev pub provider : IExchangeRateProvider S D
    provider = record {
      list_currencies = list_currencies;
      latest_rate = latest_rate;
      history = history;
    }
