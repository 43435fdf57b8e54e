-- ===== src/Config.antt =====
-- `AppConfig` (backend/src/config), and the override of a setting from the command line
-- (`handleDefine` in backend/src/main.cpp). Poco's layered configuration is a parameter of the model.
pub mod Define
pub mod Files
use currency_converter_demo.Base.{
  ℕ, ◌-◌, ◌+◌, ◌^◌, ℤ, pos, negsuc, Option, none, some, [], ◌∷◌, ◌++◌, if◌then◌else◌, ◌==◌, Str,
  bytes, str_dec, ite,
}
use currency_converter_demo.External.Http.{Poco, value, failed}
use currency_converter_demo.Server.{Settings}

-- What is called of a configuration: a default stands in for a key that is missing, and a number
-- that cannot be read is a `Poco::Exception`.
pub record LayeredConfiguration (C : Type 0) : Type 0 where
  pub get_int : C → Str → ℤ → Poco ℤ
  pub get_string : C → Str → Str → Poco Str
  pub set_string : C → Str → Str → C

-- `static_cast<std::size_t>` of an `int`.
unfoldable pub to_size : ℤ → ℕ
to_size (pos n) = n
to_size (negsuc n) = 2 ^ 64 - (n + 1)

abbrev pub and_then : {A B : Type 0} → Poco A → (A → Poco B) → Poco B
and_then (value a) f = f a
and_then (failed t) f = failed t

infixl 5 ◌>>=◌
abbrev ◌>>=◌ : {A B : Type 0} → Poco A → (A → Poco B) → Poco B
m >>= f = and_then m f

module _ {C : Type 0} (layers : LayeredConfiguration C) (config : C) where
  unfoldable pub grpc_port : Poco ℤ
  grpc_port = layers.get_int config (bytes "server.grpc_port") (pos 9090)

  unfoldable pub external_api_base_url : Poco Str
  external_api_base_url =
      layers.get_string config (bytes "external_api.base_url") (bytes "https://api.frankfurter.dev")

  unfoldable pub external_api_timeout : Poco ℤ
  external_api_timeout = layers.get_int config (bytes "external_api.timeout_ms") (pos 5000)

  unfoldable pub history_cache_max_age : Poco ℤ
  history_cache_max_age = layers.get_int config (bytes "cache.history.max_age_minutes") (pos 1440)

  unfoldable pub history_cache_max_elements : Poco ℕ
  unfolding to_size
  history_cache_max_elements = do
    n ← layers.get_int config (bytes "cache.history.max_elements") (pos 5000)
    value (to_size n)

  unfoldable pub latest_rate_cache_max_age : Poco ℤ
  latest_rate_cache_max_age =
      layers.get_int config (bytes "cache.latest_rate.max_age_minutes") (pos 15)

  unfoldable pub latest_rate_cache_max_elements : Poco ℕ
  unfolding to_size
  latest_rate_cache_max_elements = do
    n ← layers.get_int config (bytes "cache.latest_rate.max_elements") (pos 500)
    value (to_size n)

  unfoldable pub logging_level : Poco Str
  logging_level = layers.get_string config (bytes "logging.level") (bytes "information")

  unfoldable pub logging_file : Poco Str
  logging_file =
      layers.get_string config (bytes "logging.file") (bytes "/var/log/currency-server/backend.log")

  -- The settings in the order in which `main` reads them for its client and its caches.
  unfoldable pub settings : Poco Settings
  unfolding external_api_base_url external_api_timeout latest_rate_cache_max_age
      latest_rate_cache_max_elements history_cache_max_age history_cache_max_elements
  settings = do
    url ← external_api_base_url
    timeout ← external_api_timeout
    latest_age ← latest_rate_cache_max_age
    latest_elements ← latest_rate_cache_max_elements
    history_age ← history_cache_max_age
    history_elements ← history_cache_max_elements
    value (record {
      external_api_base_url = url;
      external_api_timeout = timeout;
      latest_rate_cache_max_age = latest_age;
      latest_rate_cache_max_elements = latest_elements;
      history_cache_max_age = history_age;
      history_cache_max_elements = history_elements;
    })

-- `toPocoLevel`
unfoldable pub to_poco_level : Str → Str
to_poco_level level = ite (str_dec level (bytes "off")) (bytes "none") level

-- `value.find('=')`, and the texts before and after it.
unfoldable pub split_define : Str → Option (Str × Str)
split_define [] = none
split_define (c ∷ s) =
    let rest = split_define s in
    if c == b'=' then some ([], s) else elim rest [ none ↦ none | some p ↦ some (c ∷ p.0, p.1) ]

-- `handleDefine`
unfoldable pub handle_define : {C : Type 0} → LayeredConfiguration C → C → Str → Poco C
unfolding split_define
handle_define layers config define = elim (split_define define) [
  | none ↦ failed (bytes "--define expects KEY=VALUE, got: " ++ define)
  | some p ↦ value (layers.set_string config p.0 p.1)
]
