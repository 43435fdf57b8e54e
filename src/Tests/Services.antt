-- ===== src/Tests/Services.antt =====
-- The server, the services and the client in the sample world.
use native.Mathlib.Decide.{ℕ_discrete}
use currency_converter_demo.Base.{
  ◌+◌, ◌*◌, ◌<◌, negsuc, pos_part, neg_part, ◌≡◌, refl, none, some, List, [], ◌∷◌, bytes, str_dec,
  str_lt, pos, ℕ, ◌≢◌, true,
}
use currency_converter_demo.Exec.Runs.{Ends, Runs, Never}
use currency_converter_demo.Domain.TextUtil.{to_upper}
use currency_converter_demo.Domain.DateRange.{DateRange, is_iso_date}
use currency_converter_demo.External.Provider.{Upstream, IsProvider, Failed}
use currency_converter_demo.External.Frankfurter.{provider}
use currency_converter_demo.External.Observed.{observed}
use currency_converter_demo.External.Service.{provider-IsProvider}
use currency_converter_demo.Application.Catalog.{list_currencies}
use currency_converter_demo.Application.Conversion.{convert}
use currency_converter_demo.Application.History.{get_history}
use currency_converter_demo.Application.Listing.{list_currencies-Runs}
use currency_converter_demo.Application.Rates.{IsConverted, Refusal, convert-Runs}
use currency_converter_demo.Application.Series.{IsHistory, HistoryRefusal, get_history-Runs}
use currency_converter_demo.Cache.Bounded.{init}
use currency_converter_demo.Grpc.{ConvertRequest, HistoryRequest}
use currency_converter_demo.Server.{
  Server, start, catalog, conversion, history, constraints, Rpc, listing, converting, charting,
  limits, serve_all,
}
use currency_converter_demo.Server.Calls.{upstream}
use currency_converter_demo.Server.Wiring.{
  Holds, catalog-CatalogLaws, conversion-ConversionLaws, history-HistoryLaws,
}
use currency_converter_demo.Server.Serving.{AreReplies, serve_all-AreReplies}
use currency_converter_demo.External.Http.{Uri}
use currency_converter_demo.External.Frankfurter.{FrankfurterClient, request_for}
use currency_converter_demo.External.Timeouts.{request_for-timeout}
use currency_converter_demo.Tests.Sample.{
  json, http, outside, settings, World, world, Any, seen, laws,
}

program : Unit {0}
unfolding start serve_all init str_dec ℕ_discrete str_lt to_upper is_iso_date
program = tt

-- The server as it starts.
abbrev pub server : Server World ℕ
server = record {
  world = world;
  currency_cache = record {
    max_age = pos 1440;
    max_elements = 8;
    entries = [];
    index = λ _. none;
    next_addr = 0;
  };
  latest_rate_cache = record {
    max_age = pos 60;
    max_elements = 2;
    entries = [];
    index = λ _. none;
    next_addr = 0;
  };
  history_cache = record {
    max_age = pos 60;
    max_elements = 2;
    entries = [];
    index = λ _. none;
    next_addr = 0;
  };
}

pub started : start settings world ≡ some server
unfolding program
started = refl

abbrev pub ten_euros : ConvertRequest ℕ
ten_euros = record { source_currency = bytes "eur"; target_currency = bytes "usd"; amount = 1000 }

abbrev new_year : HistoryRequest
new_year = record {
  source_currency = bytes "EUR";
  target_currency = bytes "USD";
  start_date = bytes "2024-01-02";
  end_date = bytes "2024-01-03";
}

abbrev pub calls : List (Rpc ℕ)
calls = listing ∷ converting ten_euros ∷ converting ten_euros ∷ charting new_year ∷ limits ∷ []

-- What the client of the server was given.
abbrev up : Upstream ℕ
up = upstream seen outside settings

abbrev Valid : Server World ℕ → Type 0
Valid = Holds Any seen outside settings laws

serve_all-AreReplies_example :
    Ends
      (λ rs t. Valid t × AreReplies seen outside settings calls rs)
      Never
      (serve_all outside settings calls server)
serve_all-AreReplies_example =
    serve_all-AreReplies Any seen outside settings laws world server calls tt started

convert-Runs_example :
    Runs Valid
      (convert (conversion outside settings) (bytes "eur") (bytes "usd") 1000)
      (λ r t.
        Valid t
        × IsConverted up
            (conversion outside settings)
            (to_upper (bytes "eur"))
            (to_upper (bytes "usd"))
            1000
            r)
      (λ e t.
        Valid t
        × Refusal up
            (conversion outside settings)
            (to_upper (bytes "eur"))
            (to_upper (bytes "usd"))
            1000
            e)
convert-Runs_example =
    convert-Runs Valid up (conversion outside settings)
      (conversion-ConversionLaws Any seen outside settings laws) (bytes "eur") (bytes "usd") 1000

abbrev january : DateRange
january = record { start_date = bytes "2024-01-02"; end_date = bytes "2024-01-31" }

january_iso : is_iso_date january.start_date ≡ true
unfolding program
january_iso = refl

get_history-Runs_example :
    Runs Valid
      (get_history (history outside settings) (bytes "EUR") (bytes "usd") january)
      (λ l t.
        Valid t
        × IsHistory up
            (constraints outside settings)
            (to_upper (bytes "EUR"))
            (to_upper (bytes "usd"))
            january
            l)
      (λ e t.
        Valid t
        × HistoryRefusal up
            (constraints outside settings)
            (to_upper (bytes "EUR"))
            (to_upper (bytes "usd"))
            january
            e)
get_history-Runs_example =
    get_history-Runs Valid up (history outside settings)
      (history-HistoryLaws Any seen outside settings laws) (bytes "EUR") (bytes "usd") january
      january_iso

list_currencies-Runs_example :
    Runs Valid
      (list_currencies (catalog outside settings))
      (λ l t. Valid t × up.Listed l × (l ≢ []))
      (Failed Valid up)
list_currencies-Runs_example =
    list_currencies-Runs Valid up (catalog outside settings)
      (catalog-CatalogLaws Any seen outside settings laws)

abbrev frankfurter : FrankfurterClient
frankfurter = record { base_url = []; timeout = pos 5000 }

provider-IsProvider_example :
    IsProvider Any (observed seen http.parse_uri json frankfurter) (provider http json frankfurter)
provider-IsProvider_example = provider-IsProvider Any seen http json frankfurter laws.http laws.map

abbrev self : FrankfurterClient
self = record { base_url = []; timeout = negsuc 1500 }

abbrev uri : Uri
uri = record { scheme = bytes "https"; host = bytes "api.test"; port = 443; path_and_query = [] }

request_for-timeout_example :
    let r = request_for self uri in
    (1_000_000 * pos_part r.seconds + pos_part r.microseconds ≡ 1000 * pos_part self.timeout)
    × (1_000_000 * neg_part r.seconds + neg_part r.microseconds ≡ 1000 * neg_part self.timeout)
    × (pos_part r.microseconds < 1_000_000)
    × (neg_part r.microseconds < 1_000_000)
request_for-timeout_example = request_for-timeout self uri
