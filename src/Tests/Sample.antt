-- ===== src/Tests/Sample.antt =====
-- A small world to run the server in: an upstream service with two currencies, a reader for its
-- bodies, and clocks that go on a second with each reading. A `double` is a number of hundredths.
use native.Mathlib.Decide.{ℕ_discrete}
use currency_converter_demo.Base.{
  subst, ap, refl, ℕ, ◌+◌, ◌*◌, ◌/◌, ltb, ◌≡◌, inl, inr, ◌⊎◌, true, Option, none, some, List, [],
  ◌∷◌, All, Str, bytes, str_dec, ite, pos, arith,
}
use currency_converter_demo.Exec.{Exec, ok}
use currency_converter_demo.Double.{Double}
use currency_converter_demo.Domain.{Currency}
use currency_converter_demo.External.Http.{Poco, value, failed, Http}
use currency_converter_demo.External.Observed.{Seen}
use currency_converter_demo.External.Json.{Json, IsMap, DistinctNames}
use currency_converter_demo.External.Payload.{done, read_currencies}
use currency_converter_demo.External.Dates.{done-injective}
use currency_converter_demo.Application.Keys.{NoBar}
use currency_converter_demo.Server.{Outside, Settings}
use currency_converter_demo.Server.Wiring.{OutsideLaws}

-- The objects in the bodies, and the values in them.
pub data Page : Type 0 where
  currencies latest latest_rates series series_rates first_day second_day : Page

pub data Value : Type 0 where
  text : Str → Value
  page : Page → Value

abbrev entries : Page → List (Str × Value)
entries currencies =
    (bytes "EUR", text (bytes "Euro")) ∷ (bytes "USD", text (bytes "US Dollar")) ∷ []
entries series_rates =
    (bytes "2024-01-03", page second_day) ∷ (bytes "2024-01-02", page first_day) ∷ []
entries _ = []

abbrev to_string : Value → Poco Str
to_string (text t) = value t
to_string (page p) = failed (bytes "not a string")

abbrev extract : Value → Poco (Option Page)
extract (text t) = failed (bytes "bad cast")
extract (page p) = value (some p)

abbrev get_object : Page → Str → Option Page
get_object latest name = some latest_rates
get_object series name = some series_rates
get_object _ name = none

abbrev get_double : Page → Str → Poco ℕ
get_double latest_rates name = value 108
get_double first_day name = value 109
get_double second_day name = value 110
get_double _ name = failed (bytes "no number")

abbrev parse : Str → Poco Value
parse body = ite (str_dec body (bytes "currencies")) (value (page currencies)) (
    ite (str_dec body (bytes "latest")) (value (page latest))
      (ite (str_dec body (bytes "series")) (value (page series)) (failed (bytes "no JSON"))))

abbrev pub json : Json ℕ
json = record {
  Var = Value;
  Object = Page;
  parse = parse;
  extract = extract;
  entries = entries;
  to_string = to_string;
  get_string = λ p name. value (bytes "2024-01-03");
  get_object = get_object;
  get_double = get_double;
  has = λ p name. true;
}

pub record World : Type 0 where
  pub requests : ℕ
  pub seconds : ℕ

abbrev pub body_for : Str → Str
body_for path =
    ite (str_dec path (bytes "/v1/currencies")) (bytes "currencies") (
      ite (str_dec path (bytes "/v1/latest?base=EUR&symbols=USD")) (bytes "latest")
        (bytes "series"))

abbrev pub http : Http World
http = record {
  parse_uri = λ t.
      value (record {
        scheme = bytes "https";
        host = bytes "api.test";
        port = 443;
        path_and_query = t;
      });
  open_session = λ secure host port w. (ok (value tt), w);
  exchange = λ request w. (
    ok (value (record { status = 200; body = body_for request.path })),
    record w { requests = w.requests + 1 },
  );
  show = λ n. [];
}

abbrev second : ℕ
second = 1_000_000_000

-- It reads a clock that stood still in the world's own seconds.
abbrev tick : Exec World ℕ
tick w = (ok (w.seconds * second), record w { seconds = w.seconds + 1 })

abbrev pub double : Double ℕ
double = record {
  is_finite = λ x. true;
  lt = λ x y. ltb x y;
  gt = λ x y. ltb y x;
  mul = λ x y. x * y / 100;
  of_hundredths = λ n. n;
  show = λ n. [];
}

abbrev pub outside : Outside World ℕ
outside = record {
  http = http;
  json = json;
  double = double;
  steady_now = tick;
  system_now = tick;
  format_date = λ days. bytes "2024-06-01";
}

abbrev pub settings : Settings
settings = record {
  external_api_base_url = [];
  external_api_timeout = pos 5000;
  latest_rate_cache_max_age = pos 60;
  latest_rate_cache_max_elements = 2;
  history_cache_max_age = pos 60;
  history_cache_max_elements = 2;
}

abbrev pub world : World
world = record { requests = 0; seconds = 0 }

-- Nothing is asked of the world.
abbrev pub Any : World → Type 0
Any w = Unit

abbrev IsBody : Str → Type 0
IsBody b = (b ≡ bytes "currencies") ⊎ ((b ≡ bytes "latest") ⊎ (b ≡ bytes "series"))

body_for-IsBody : (path : Str) → IsBody (body_for path)
body_for-IsBody path = ground arith

-- The response to a request has the body of its path, no failure is reported, and the clock shows whole seconds.
abbrev pub seen : Seen
seen = record {
  Received = λ request response. response ≡ record { status = 200; body = body_for request.path };
  Troubled = λ t. ⊥;
  Now = λ n. (k : ℕ) × (n ≡ k * second);
}

abbrev Refuted : {P : Type 0} → Dec P → Type 0
Refuted (yes p) = ⊥
Refuted (no p) = Unit

pub refuted : {P : Type 0} (d : Dec P) → Refuted d → ¬ P
refuted (yes p) h = absurd h
refuted (no p) h = p

entries-DistinctNames : (o : Page) → DistinctNames (entries o)
unfolding str_dec ℕ_discrete
entries-DistinctNames currencies =
    ((refuted (str_dec (bytes "USD") (bytes "EUR")) tt, tt), (tt, tt))
entries-DistinctNames series_rates =
    ((refuted (str_dec (bytes "2024-01-02") (bytes "2024-01-03")) tt, tt), (tt, tt))
entries-DistinctNames latest = tt
entries-DistinctNames latest_rates = tt
entries-DistinctNames series = tt
entries-DistinctNames first_day = tt
entries-DistinctNames second_day = tt

json-IsMap : IsMap json
json-IsMap = record { distinct = entries-DistinctNames }

unfoldable pub two_currencies : List Currency
two_currencies =
    record { code = bytes "EUR"; full_name = bytes "Euro" }
    ∷ record { code = bytes "USD"; full_name = bytes "US Dollar" }
    ∷ []

pub two_currencies-NoBar : All (λ c. NoBar c.code) two_currencies
unfolding two_currencies
two_currencies-NoBar = (
  (λ e. omega arith, (λ e. omega arith, (λ e. omega arith, tt))),
  ((λ e. omega arith, (λ e. omega arith, (λ e. omega arith, tt))), tt),
)

read_again :
    {body : Str} (known : Str) (l : List Currency)
    → body ≡ known
    → read_currencies json body ≡ done l
    → read_currencies json known ≡ done l
read_again known l p e = subst (λ b. read_currencies json b ≡ done l) p e

plain_list :
    (body : Str) (l : List Currency)
    → IsBody body
    → read_currencies json body ≡ done l
    → All (λ c. NoBar c.code) l
unfolding read_currencies str_dec two_currencies ℕ_discrete
plain_list body l (inl p) e =
    subst (All _) (done-injective (read_again (bytes "currencies") l p e)) two_currencies-NoBar
plain_list body l (inr (inl p)) e =
    subst (All _) (done-injective (read_again (bytes "latest") l p e)) tt
plain_list body l (inr (inr p)) e =
    subst (All _) (done-injective (read_again (bytes "series") l p e)) tt

pub laws : OutsideLaws Any seen outside
laws = record {
  http = record {
    open_keeps = λ secure host port. record { at = λ s i. (tt, tt) };
    exchange_keeps = λ r. record { at = λ s i. (tt, refl) };
  };
  map = json-IsMap;
  steady = record { at = λ s i. tt };
  system = record { at = λ s i. (tt, (s.seconds, refl)) };
  plain = λ l (request, response, received, read).
      plain_list (body_for request.path) l (body_for-IsBody request.path)
        (read_again (body_for request.path) l (ap (λ r. r.body) received) read);
}
