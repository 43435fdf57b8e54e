-- ===== src/External/Observed.antt =====
-- What is observed of the server that `FrankfurterClient` asks, and what upstream has given by that.
use currency_converter_demo.Base.{sym, ◌≢◌, ◌⊎◌, subst, ℕ, ◌≡◌, Bool, List, Str, bytes, ◌++◌}
use currency_converter_demo.Exec.Runs.{Runs, Never}
use currency_converter_demo.Domain.{Currency, ExchangeRate}
use currency_converter_demo.Domain.DateRange.{DateRange}
use currency_converter_demo.External.Http.{Poco, value, failed, Uri, Request, Response, Http}
use currency_converter_demo.External.Json.{Json}
use currency_converter_demo.External.Payload.{done, read_currencies, read_latest, read_history}
use currency_converter_demo.External.Frankfurter.{FrankfurterClient, request_for}
use currency_converter_demo.External.Provider.{Upstream}

-- What was observed of the outside: the responses that the server sent for a request, the texts of the
-- failures that the HTTP client reported, and the times that the system clock has shown.
pub record Seen : Type 1 where
  pub Received : Request → Response → Type 0
  pub Troubled : Str → Type 0
  pub Now : ℕ → Type 0

-- The response was sent by the server for the request, or the failure was reported.
abbrev pub IsReceived : Seen → Request → Poco Response → Type 0
IsReceived seen request (value r) = seen.Received request r
IsReceived seen request (failed t) = seen.Troubled t

abbrev pub IsOpened : Seen → Poco (Unit {0}) → Type 0
IsOpened seen (value u) = Unit
IsOpened seen (failed t) = seen.Troubled t

-- What is assumed of the HTTP client: it reports a failure as a `Poco::Exception`, keeps the
-- invariant, and every response that it gives was sent by the server for the request, and every
-- failure was reported, which is what `seen` says.
pub record IsHttp {S : Type 0} (I : S → Type 0) (seen : Seen) (http : Http S) : Type 0 where
  pub open_keeps :
      (secure : Bool) (host : Str) (port : ℕ)
      → Runs I (http.open_session secure host port) (λ o t. I t × IsOpened seen o) Never
  pub exchange_keeps :
      (r : Request) → Runs I (http.exchange r) (λ o t. I t × IsReceived seen r o) Never

-- The body was sent, with the status 200, for the request of the client for the path.
abbrev pub Answered : Seen → (Str → Poco Uri) → FrankfurterClient → Str → Str → Type 0
Answered seen parse_uri self path body =
    (uri : Uri) × (response : Response) × (parse_uri (self.base_url ++ path) ≡ value uri)
    × seen.Received (request_for self uri) response
    × (response.status ≡ 200)
    × (response.body ≡ body)

-- The path of the latest rate of a pair, and that of a history.
abbrev pub latest_path : Str → Str → Str
latest_path source target = bytes "/v1/latest?base=" ++ source ++ bytes "&symbols=" ++ target

abbrev pub history_path : Str → Str → DateRange → Str
history_path source target range =
    bytes "/v1/"
    ++ range.start_date
    ++ bytes ".."
    ++ range.end_date
    ++ bytes "?base="
    ++ source
    ++ bytes "&symbols="
    ++ target

-- What was sent for a question, and cannot be read as an answer to it.
abbrev pub Unreadable :
    {D : Type 0} → Seen → (Str → Poco Uri) → Json D → FrankfurterClient → Str → Type 0
Unreadable {D} seen parse_uri json self body =
    (Answered seen parse_uri self (bytes "/v1/currencies") body
      × (¬ ((l : List Currency) × (read_currencies json body ≡ done l))))
    ⊎ (((source : Str) × (target : Str) × Answered seen parse_uri self (latest_path source target)
            body
          × (¬ ((r : ExchangeRate D) × (read_latest json source target body ≡ done r))))
        ⊎ ((source : Str) × (target : Str) × (range : DateRange) × Answered seen parse_uri self
              (history_path source target range) body
            × (¬ (
                (l : List (ExchangeRate D)) × (read_history json source target range body
                  ≡ done l)))))

-- Why a request fails: its URI cannot be parsed, the HTTP client reported a failure, the status is
-- another, or the body cannot be read.
abbrev pub Unanswered : {D : Type 0} → Seen → (Str → Poco Uri) → Json D → FrankfurterClient → Type 0
Unanswered seen parse_uri json self =
    ((path : Str) × (t : Str) × (parse_uri (self.base_url ++ path) ≡ failed t))
    ⊎ (((t : Str) × seen.Troubled t)
        ⊎ (((request : Request) × (response : Response) × seen.Received request response
              × (response.status ≢ 200))
            ⊎ ((body : Str) × Unreadable seen parse_uri json self body)))

-- What upstream gave: what can be read from the bodies that it sent for just the question.
abbrev pub observed :
    {D : Type 0} → Seen → (Str → Poco Uri) → Json D → FrankfurterClient → Upstream D
observed seen parse_uri json self = record {
  Listed = λ l.
      (body : Str) × Answered seen parse_uri self (bytes "/v1/currencies") body
      × (read_currencies json body ≡ done l);
  Quoted = λ source target r.
      (body : Str) × Answered seen parse_uri self (latest_path source target) body
      × (read_latest json source target body ≡ done r);
  Charted = λ source target range l.
      (body : Str) × Answered seen parse_uri self (history_path source target range) body
      × (read_history json source target range body ≡ done l);
  Failing = Unanswered seen parse_uri json self;
  Now = seen.Now;
}

-- A list that could be read from a body that the server sent.
abbrev pub IsListed : {D : Type 0} → Seen → Json D → List Currency → Type 0
IsListed seen json l =
    (request : Request) × (response : Response) × seen.Received request response
    × (read_currencies json response.body ≡ done l)

-- A list of currencies that upstream gave is one.
pub Listed-IsListed :
    {D : Type 0} (seen : Seen) (parse_uri : Str → Poco Uri) (json : Json D)
    (self : FrankfurterClient) (l : List Currency)
    → (observed seen parse_uri json self).Listed l
    → IsListed seen json l
Listed-IsListed seen parse_uri json self l
      (body, (uri, response, parsed, received, fine, same), e) =
    (
      request_for self uri,
      response,
      received,
      subst (λ b. read_currencies json b ≡ done l) (sym same) e,
    )
