-- ===== src/External/Http.antt =====
-- What `FrankfurterClient` calls of Poco's URI and HTTP client. They are parameters of the model.
use currency_converter_demo.Base.{ℕ, ℤ, Str, Bool}
use currency_converter_demo.Exec.{Exec}

-- A value, or a `Poco::Exception` with its text.
pub data Poco (A : Type 0) : Type 0 where
  value : A → Poco A
  failed : Str → Poco A

pub record Uri : Type 0 where
  pub scheme : Str
  pub host : Str
  pub port : ℕ
  pub path_and_query : Str

-- One exchange: the session with its time limit in seconds and microseconds, and the request.
pub record Request : Type 0 where
  pub is_secure : Bool
  pub host : Str
  pub port : ℕ
  pub seconds : ℤ
  pub microseconds : ℤ
  pub path : Str
  pub user_agent : Str

pub record Response : Type 0 where
  pub status : ℕ
  pub body : Str

pub record Http (S : Type 0) : Type 0 where
  pub parse_uri : Str → Poco Uri
  -- the session is opened; outside the `try` of the client
  pub open_session : Bool → Str → ℕ → Exec S (Poco (Unit {0}))
  -- `sendRequest`, `receiveResponse` and the copy of the body
  pub exchange : Request → Exec S (Poco Response)
  -- `fmt::format("{}", n)`
  pub show : ℕ → Str
