-- ===== src/External/Fixed.antt =====
-- `FrankfurterClient` over an upstream service that answers a request always by the same page, or not
-- at all.
use currency_converter_demo.Base.{
  ◌≡◌, refl, sym, ◌≢◌, ◌++◌, ℕ, Bool, Str, Bool-cases, inl, inr, ◌==◌, arith,
}
use currency_converter_demo.Exec.{
  Exec, Exception, ok, fault, return, lift, ◌>>=◌, invalid_argument, currency_not_found,
  external_api_unavailable, external_api_unexpected_response, std_exception,
}
use currency_converter_demo.Exec.Runs.{Runs, Never, Runs-bind, Runs-return, Runs-raise, Runs-weaken}
use currency_converter_demo.Exec.Agreement.{
  Agrees, ending, Agrees-return, Agrees-raise, Agrees-lift, Agrees-bind,
}
use currency_converter_demo.Domain.DateRange.{DateRange}
use currency_converter_demo.External.Http.{Poco, value, failed, Request, Response, Http}
use currency_converter_demo.External.Json.{Json}
use currency_converter_demo.External.Payload.{
  Attempt, done, poco, unexpected, rethrow, read_currencies, read_latest, read_history,
}
use currency_converter_demo.External.Frankfurter.{
  FrankfurterClient, request_for, escape, body_of, get, list_currencies, latest_rate, history,
}

-- The HTTP client that reaches upstream at each try, and gets the page of the request.
unfoldable pub fixed_http : {S : Type 0} → (Request → Str) → Http S → Http (Unit {0})
unfolding return
fixed_http page http = record {
  parse_uri = http.parse_uri;
  open_session = λ secure host port. return (value tt);
  exchange = λ request. return (value (record { status = 200; body = page request }));
  show = http.show;
}

-- What comes back is the page of the request, if it is a page.
abbrev pub IsPage : (Request → Str) → Request → Poco Response → Type 0
IsPage page request (value r) = r.status ≡ 200 → r.body ≡ page request
IsPage page request (failed t) = Unit

-- Any try may fail; one that does not gives the page.
pub record IsFixed {S : Type 0} (I : S → Type 0) (page : Request → Str) (http : Http S)
    : Type 0 where
  pub open_keeps :
      (secure : Bool) (host : Str) (port : ℕ)
      → Runs I (http.open_session secure host port) (λ o t. I t) Never
  pub exchange_keeps : (r : Request) → Runs I (http.exchange r) (λ o t. I t × IsPage page r o) Never

-- The exceptions of a try that did not reach upstream, or got a status that is not OK.
abbrev pub IsUnreached : Exception → Type 0
IsUnreached (invalid_argument m) = ⊥
IsUnreached (currency_not_found m) = ⊥
IsUnreached (external_api_unavailable m) = Unit
IsUnreached (external_api_unexpected_response m) = ⊥
IsUnreached (std_exception m) = Unit

rethrow_ends : {A : Type 0} (name : Str) (m : Attempt A) → rethrow name m ≢ fault
unfolding rethrow
rethrow_ends name (done a) e = cc
rethrow_ends name (poco t) e = cc
rethrow_ends name (unexpected t) e = cc

module _ {S D : Type 0} (I : S → Type 0) (page : Request → Str) (http : Http S) (json : Json D)
    (self : FrankfurterClient) (laws : IsFixed I page http) where
  abbrev fixed : Http (Unit {0})
  fixed = fixed_http page http

  escape-Agrees : {A : Type 0} (p : Poco A) → Agrees I IsUnreached (escape p) (escape p)
  unfolding escape
  escape-Agrees (value a) = Agrees-return I IsUnreached a
  escape-Agrees (failed t) = Agrees-raise I IsUnreached (std_exception t)

  escape-Runs : (o : Poco (Unit {0})) → Runs I (escape o) (λ u t. I t) (λ e t. I t × IsUnreached e)
  unfolding escape
  escape-Runs (value u) = Runs-return u λ s i. i
  escape-Runs (failed t) = Runs-raise _ λ s i. (i, tt)

  body_of-Runs :
      (r : Request) (o : Poco Response)
      → Runs
          (λ t. I t × IsPage page r o)
          (body_of http o)
          (λ body t. I t × (page r ≡ body))
          (λ e t. I t × IsUnreached e)
  unfolding body_of
  body_of-Runs r (failed t) = Runs-raise _ λ s p. (p.0, tt)
  body_of-Runs r (value reply) = elim (Bool-cases (reply.status == 200)) [
    | inl fine ↦ rw (fine, body_of) (Runs-return reply.body λ s p. (p.0, sym (p.1 (ground arith))))
    | inr bad ↦ rw (bad, body_of) (Runs-raise _ λ s p. (p.0, tt))
  ]

  -- The session and the exchange, over any client.
  abbrev exchanged : {T : Type 0} → Http T → Request → Exec T Str
  exchanged h r = h.open_session r.is_secure r.host r.port >>= λ opened.
      escape opened >>= λ session. h.exchange r >>= λ reply. body_of h reply

  ending-exchanged : (r : Request) → ending (exchanged fixed r) ≡ ok (page r)
  unfolding fixed_http escape body_of ◌>>=◌
  ending-exchanged r = refl

  exchanged-Agrees : (r : Request) → Agrees I IsUnreached (exchanged http r) (exchanged fixed r)
  exchanged-Agrees r =
      Runs-bind {R = λ o t. I t} _ _
        (Runs-weaken _ _ (laws.open_keeps _ _ _) (λ o s i. i) (λ e s p. absurd p))
        λ opened.
          Runs-bind {R = λ u t. I t} _ _
            (Runs-weaken _ _ (escape-Runs opened) (λ u s i. i) (λ e s p. (p.0, inr p.1)))
            λ session.
              Runs-bind _ _
                (Runs-weaken _ _ (laws.exchange_keeps r) (λ o s i. i) (λ e s p. absurd p))
                λ reply.
                  Runs-weaken _ _ (body_of-Runs r reply)
                    (λ body s p. (p.0, rw (ending-exchanged r, p.1) refl)) (λ e s p. (p.0, inr p.1))

  get-Agrees : (path : Str) → Agrees I IsUnreached (get http self path) (get fixed self path)
  unfolding get fixed_http
  get-Agrees path =
      Agrees-bind I IsUnreached _ (escape (http.parse_uri (self.base_url ++ path))) _
        (λ uri. exchanged fixed (request_for self uri)) (escape-Agrees _)
        λ uri same. exchanged-Agrees (request_for self uri)

  read-Agrees :
      {A : Type 0} (path name : Str) (read : Str → Attempt A)
      → Agrees I IsUnreached
          (get http self path >>= λ body. lift (rethrow name (read body)))
          (get fixed self path >>= λ body. lift (rethrow name (read body)))
  read-Agrees path name read =
      Agrees-bind I IsUnreached _ (get fixed self path) _ _ (get-Agrees path)
        λ body same. Agrees-lift I IsUnreached _ (rethrow_ends name (read body))

  pub list_currencies-Agrees :
      Agrees I IsUnreached (list_currencies http json self) (list_currencies fixed json self)
  unfolding list_currencies
  list_currencies-Agrees = read-Agrees _ _ (read_currencies json)

  pub latest_rate-Agrees :
      (source target : Str)
      → Agrees I IsUnreached
          (latest_rate http json self source target)
          (latest_rate fixed json self source target)
  unfolding latest_rate
  latest_rate-Agrees source target = read-Agrees _ _ (read_latest json source target)

  pub history-Agrees :
      (source target : Str) (range : DateRange)
      → Agrees I IsUnreached
          (history http json self source target range)
          (history fixed json self source target range)
  unfolding history
  history-Agrees source target range = read-Agrees _ _ (read_history json source target range)
