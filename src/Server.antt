-- ===== src/Server.antt =====
-- The composition root (backend/src/main.cpp): the client of the upstream service, the three caches
-- and the services over them, all parts of one state; and the calls that it serves.
pub mod Slots
pub mod Startup
pub mod Holding
pub mod Wiring
pub mod Calls
pub mod Serving
pub mod Repeats
pub mod Contents
pub mod Storing
pub mod Sharing
pub mod Interference
pub mod Reference
pub mod Concurrency
pub mod Transparency
use currency_converter_demo.Base.{
  ◌*◌, ℕ, ℤ, pos, Option, none, some, List, [], ◌∷◌, Str, true, false,
}
use currency_converter_demo.Exec.{Outcome, ok, throw, fault, Exec, return, ◌>>=◌}
use currency_converter_demo.Double.{Double}
use currency_converter_demo.Domain.{Currency, ExchangeRate}
use currency_converter_demo.Cache.Bounded
use currency_converter_demo.Cache.Bounded.{Cache, init}
use currency_converter_demo.Cache.Interface.{ICache}
use currency_converter_demo.External.Http.{Poco, Uri, Request, Response, Http}
use currency_converter_demo.External.Json.{Json}
use currency_converter_demo.External.Provider.{IExchangeRateProvider}
use currency_converter_demo.External.Frankfurter.{frankfurter_client, provider}
use currency_converter_demo.Application.Constraints.{ConstraintsService}
use currency_converter_demo.Application.Catalog.{CurrencyCatalogService, currency_catalog_service}
use currency_converter_demo.Application.Conversion.{ConversionService, conversion_service}
use currency_converter_demo.Application.History.{HistoryService, history_service}
use currency_converter_demo.Grpc.{
  CurrencyServiceImpl, currency_service_impl, Status, CurrencyListResponse, ConvertRequest,
  ConvertResponse, HistoryRequest, HistoryResponse, ConstraintsResponse, list_currencies_rpc,
  convert_rpc, get_history_rpc, get_constraints_rpc,
}

-- The state of the process: what is outside of it, and its caches.
pub record Server (W D : Type 0) : Type 0 where
  pub world : W
  pub currency_cache : Cache (List Currency)
  pub latest_rate_cache : Cache (ExchangeRate D)
  pub history_cache : Cache (List (ExchangeRate D))

-- What is outside: the HTTP client, the JSON reader, `double`s, and the clocks.
pub record Outside (W D : Type 0) : Type 1 where
  pub http : Http W
  pub json : Json D
  pub double : Double D
  pub steady_now : Exec W ℕ
  pub system_now : Exec W ℕ
  pub format_date : ℕ → Str

-- The settings that `main` reads.
pub record Settings : Type 0 where
  pub external_api_base_url : Str
  pub external_api_timeout : ℤ
  pub latest_rate_cache_max_age : ℤ
  pub latest_rate_cache_max_elements : ℕ
  pub history_cache_max_age : ℤ
  pub history_cache_max_elements : ℕ

-- A cache as a part of the state.
pub record Slot (W D V : Type 0) : Type 0 where
  pub read : Server W D → Cache V
  pub write : Cache V → Server W D → Server W D

module _ {W D : Type 0} where
  abbrev pub with_world : {A : Type 0} → Server W D → Outcome A × W → Outcome A × Server W D
  with_world s r = (r.0, record s { world = r.1 })

  -- An action on what is outside.
  unfoldable pub on_world : {A : Type 0} → Exec W A → Exec (Server W D) A
  on_world m s = with_world s (m s.world)

  abbrev pub after_get :
      {V : Type 0}
      → Slot W D V
      → Server W D
      → Option (Option V × Cache V)
      → Outcome (Option V) × Server W D
  after_get slot s none = (fault, s)
  after_get slot s (some (o, c)) = (ok o, slot.write c s)

  abbrev pub after_put :
      {V : Type 0} → Slot W D V → Server W D → Option (Cache V) → Outcome (Unit {0}) × Server W D
  after_put slot s none = (fault, s)
  after_put slot s (some c) = (ok tt, slot.write c s)

  -- A `TimeAndSizeBoundedCache` as an `ICache`: its methods read the steady clock.
  unfoldable pub cached : {V : Type 0} → Exec W ℕ → Slot W D V → ICache (Server W D) V
  unfolding on_world
  cached steady_now slot = record {
    get = λ key.
        on_world steady_now >>= λ now s. after_get slot s (Bounded.get (slot.read s) now key);
    put = λ key value.
        on_world steady_now >>= λ now s. after_put slot s (Bounded.put (slot.read s) now key value);
  }

  abbrev pub currency_slot : Slot W D (List Currency)
  currency_slot = record {
    read = λ s. s.currency_cache;
    write = λ c s. record s { currency_cache = c };
  }

  abbrev pub latest_rate_slot : Slot W D (ExchangeRate D)
  latest_rate_slot = record {
    read = λ s. s.latest_rate_cache;
    write = λ c s. record s { latest_rate_cache = c };
  }

  abbrev pub history_slot : Slot W D (List (ExchangeRate D))
  history_slot = record {
    read = λ s. s.history_cache;
    write = λ c s. record s { history_cache = c };
  }

  unfoldable pub world_http : Http W → Http (Server W D)
  unfolding on_world
  world_http http = record {
    parse_uri = http.parse_uri;
    open_session = λ secure host port. on_world (http.open_session secure host port);
    exchange = λ request. on_world (http.exchange request);
    show = http.show;
  }

  abbrev pub assembled :
      W
      → Option (Cache (List Currency))
      → Option (Cache (ExchangeRate D))
      → Option (Cache (List (ExchangeRate D)))
      → Option (Server W D)
  assembled world (some currencies) (some rates) (some series) = some (record {
    world = world;
    currency_cache = currencies;
    latest_rate_cache = rates;
    history_cache = series;
  })
  assembled world _ _ _ = none

  -- The caches of `main`. `none` is the exception of a constructor, which ends the process.
  unfoldable pub start : Settings → W → Option (Server W D)
  unfolding init
  start settings world =
      assembled world (init (pos (24 * 60)) 8)
        (init settings.latest_rate_cache_max_age settings.latest_rate_cache_max_elements)
        (init settings.history_cache_max_age settings.history_cache_max_elements)

  -- The objects of `main`, and how they refer to each other.
  module _ (outside : Outside W D) (settings : Settings) where
    abbrev pub client : IExchangeRateProvider (Server W D) D
    client =
        provider (world_http outside.http) outside.json
          (frankfurter_client settings.external_api_base_url settings.external_api_timeout)

    abbrev pub catalog : CurrencyCatalogService (Server W D) D
    catalog = currency_catalog_service client (cached outside.steady_now currency_slot)

    abbrev pub constraints : ConstraintsService (Server W D) D
    constraints = record {
      double = outside.double;
      system_now = on_world outside.system_now;
      format_date = outside.format_date;
    }

    abbrev pub conversion : ConversionService (Server W D) D
    conversion =
        conversion_service client (cached outside.steady_now latest_rate_slot) catalog constraints

    abbrev pub history : HistoryService (Server W D) D
    history = history_service client (cached outside.steady_now history_slot) catalog constraints

    abbrev pub service : CurrencyServiceImpl (Server W D) D
    service = currency_service_impl catalog conversion history constraints

-- A call, and the reply to it: its status and its response.
pub data Rpc (D : Type 0) : Type 0 where
  listing : Rpc D
  converting : ConvertRequest D → Rpc D
  charting : HistoryRequest → Rpc D
  limits : Rpc D

pub data Reply (D : Type 0) : Type 0 where
  listed : Status × CurrencyListResponse → Reply D
  converted : Status × ConvertResponse D → Reply D
  charted : Status × HistoryResponse D → Reply D
  limited : Status × ConstraintsResponse D → Reply D

-- The response that gRPC hands to a method has default values; `zero` is that of a `double`.
abbrev pub no_conversion : {D : Type 0} → D → ConvertResponse D
no_conversion zero = record {
  source_amount = zero;
  converted_amount = zero;
  exchange_rate = zero;
  rate_date = [];
}

abbrev pub no_history : {D : Type 0} → HistoryResponse D
no_history = record { source_currency = []; target_currency = []; points = [] }

abbrev pub no_constraints : {D : Type 0} → D → ConstraintsResponse D
no_constraints zero = record { min_amount = zero; max_amount = zero; min_date = []; max_date = [] }

-- A call of the service, which may be over a state of any type.
unfoldable pub serve_by : {S D : Type 0} → CurrencyServiceImpl S D → D → Rpc D → Exec S (Reply D)
unfolding list_currencies_rpc convert_rpc get_history_rpc get_constraints_rpc
serve_by self zero listing = do
  r ← list_currencies_rpc self (record { currencies = [] })
  return (listed r)
serve_by self zero (converting request) = do
  r ← convert_rpc self request (no_conversion zero)
  return (converted r)
serve_by self zero (charting request) = do
  r ← get_history_rpc self request no_history
  return (charted r)
serve_by self zero limits = do
  r ← get_constraints_rpc self (no_constraints zero)
  return (limited r)

module _ {W D : Type 0} (outside : Outside W D) (settings : Settings) where
  unfoldable pub serve : Rpc D → Exec (Server W D) (Reply D)
  unfolding serve_by
  serve = serve_by (service outside settings) (outside.double.of_hundredths 0)

  -- Calls one after the other.
  unfoldable pub serve_all : List (Rpc D) → Exec (Server W D) (List (Reply D))
  unfolding serve
  serve_all [] = return []
  serve_all (call ∷ calls) = do r ← serve call; rest ← serve_all calls; return (r ∷ rest)
