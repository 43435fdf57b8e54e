-- ===== src/External/Service.antt =====
-- `FrankfurterClient` against the laws of a provider, over any HTTP client and any JSON reader.
use currency_converter_demo.External.Observed.{
  Seen, IsReceived, IsOpened, IsHttp, Answered, latest_path, history_path, Unreadable, observed,
}
use currency_converter_demo.Base.{
  ◌≢◌, subst, ◌≡◌, refl, Option, none, some, List, Str, bytes, Bool-cases, inl, inr, ◌==◌, ◌++◌,
  arith,
}
use currency_converter_demo.Exec.{lift}
use currency_converter_demo.Exec.Runs.{
  Runs, Runs-bind, Runs-return, Runs-raise, Runs-weaken, Runs-given,
}
use currency_converter_demo.Domain.{ExchangeRate}
use currency_converter_demo.Domain.DateRange.{DateRange}
use currency_converter_demo.External.Http.{Poco, value, failed, Uri, Request, Response, Http}
use currency_converter_demo.External.Json.{Json, IsMap}
use currency_converter_demo.External.Payload.{
  Attempt, done, poco, unexpected, call, deref, rethrow, parse_object, points_from, series_in,
  rate_in, points_from, series_in, read_latest, read_history,
}
use currency_converter_demo.External.Dates.{>>=-eq-done, done-injective, points_from-IsSeriesOf}
use currency_converter_demo.External.Frankfurter.{
  FrankfurterClient, request_for, escape, body_of, get, list_currencies, latest_rate, history,
  provider,
}
use currency_converter_demo.External.Provider.{Upstream, IsProvider, IsRateOf, IsSeriesOf, Failed}

module _ {S D : Type 0} (I : S → Type 0) (seen : Seen) (http : Http S) (json : Json D)
    (self : FrankfurterClient) (laws : IsHttp I seen http) (map : IsMap json) where
  abbrev up : Upstream D
  up = observed seen http.parse_uri json self

  opened-Runs :
      (o : Poco (Unit {0})) → IsOpened seen o → Runs I (escape o) (λ u t. I t) (Failed I up)
  unfolding escape
  opened-Runs (value a) h = Runs-return a λ s i. i
  opened-Runs (failed t) h = Runs-raise _ λ s i. (i, (tt, inl (inr (inl (t, h)))))

  parsed-Runs :
      (path : Str) (p : Poco Uri)
      → http.parse_uri (self.base_url ++ path) ≡ p
      → Runs I (escape p) (λ uri t. I t × (p ≡ value uri)) (Failed I up)
  unfolding escape
  parsed-Runs path (value uri) e = Runs-return uri λ s i. (i, refl)
  parsed-Runs path (failed t) e = Runs-raise _ λ s i. (i, (tt, inl (inl (path, t, e))))

  -- The body of a response with the status 200.
  abbrev IsBodyFor : Request → Str → Type 0
  IsBodyFor request body =
      (response : Response) × seen.Received request response
      × (response.status ≡ 200)
      × (response.body ≡ body)

  body_of-Runs :
      (request : Request) (o : Poco Response)
      → IsReceived seen request o
      → Runs I (body_of http o) (λ body t. I t × IsBodyFor request body) (Failed I up)
  unfolding body_of
  body_of-Runs request (failed t) h = Runs-raise _ λ s i. (i, (tt, inl (inr (inl (t, h)))))
  body_of-Runs request (value r) h = elim (Bool-cases (r.status == 200)) [
    | inl fine ↦
        let ok : r.status ≡ 200 = ground arith in
        rw (fine, body_of) (Runs-return r.body λ s i. (i, (r, h, ok, refl)))
    | inr bad ↦
        let other : r.status ≢ 200 = λ e. ground arith in
        rw (bad, body_of)
          (Runs-raise _ λ s i. (i, (tt, inl (inr (inr (inl (request, r, h, other)))))))
  ]

  abbrev ReceivedFor : Str → Str → Type 0
  ReceivedFor = Answered seen http.parse_uri self

  -- A request gives a body that the server sent for it, or fails by an upstream failure.
  get-Runs :
      (path : Str)
      → Runs I (get http self path) (λ body t. I t × ReceivedFor path body) (Failed I up)
  unfolding get
  get-Runs path =
      let parsed = http.parse_uri (self.base_url ++ path) in
      Runs-bind _ _ (parsed-Runs path parsed refl) λ uri.
        Runs-given (parsed ≡ value uri) _ _ (λ s p. p)
          λ same.
            Runs-bind _ _ (Runs-weaken _ _ (laws.open_keeps _ _ _) (λ o s i. i) (λ e s p. absurd p))
              λ opened.
                Runs-given (IsOpened seen opened) _ _ (λ s p. p)
                  λ answer. Runs-bind {R = λ u t. I t} _ _ (opened-Runs opened answer) λ u.
                    let request = request_for self uri in
                    Runs-bind _ _
                      (Runs-weaken _ _ (laws.exchange_keeps request) (λ o s i. i)
                        (λ e s p. absurd p))
                      λ o.
                        Runs-given (IsReceived seen request o) _ _ (λ s p. p)
                          λ received.
                            Runs-weaken _ _ (body_of-Runs request o received)
                              (λ body s (i, (r, h, fine, e)). (i, (uri, r, same, h, fine, e)))
                              (λ e s p. p)

  -- What is read from a body is right if each value that the block can end by is, and a body from which
  -- nothing can be read is a reason to fail.
  lift-Runs :
      {A : Type 0} (name body : Str) (m : Attempt A) (Q : A → Type 0)
      → ((a : A) → m ≡ done a → Q a)
      → ((¬ ((a : A) × (m ≡ done a))) → Unreadable seen http.parse_uri json self body)
      → Runs I (lift (rethrow name m)) (λ a t. I t × Q a) (Failed I up)
  unfolding lift rethrow
  lift-Runs name body (done a) Q h bad = record { at = λ s i. (i, h a refl) }
  lift-Runs name body (poco t) Q h bad = record {
    at = λ s i. (i, (tt, inl (inr (inr (inr (body, bad λ (a, e). cc))))));
  }
  lift-Runs name body (unexpected t) Q h bad = record {
    at = λ s i. (i, (tt, inl (inr (inr (inr (body, bad λ (a, e). cc))))));
  }

  rate_in-IsRateOf :
      (source target date : Str) (rates : Option json.Object) (r : ExchangeRate D)
      → rate_in json source target date rates ≡ done r
      → IsRateOf source target r
  unfolding rate_in
  rate_in-IsRateOf source target date none r e = cc
  rate_in-IsRateOf source target date (some rates) r e = ground arith

  read_latest-IsRateOf :
      (source target body : Str) (r : ExchangeRate D)
      → read_latest json source target body ≡ done r
      → IsRateOf source target r
  unfolding read_latest
  read_latest-IsRateOf source target body r e =
      let (p, parsed, e1) = >>=-eq-done (parse_object json body) _ e in
      let (object, here, e2) = >>=-eq-done (deref p) _ e1 in
      let (date, dated, e3) = >>=-eq-done (call (json.get_string object (bytes "date"))) _ e2 in
      rate_in-IsRateOf source target date (json.get_object object (bytes "rates")) r e3

  series_in-IsSeriesOf :
      (source target : Str) (range : DateRange) (rates : Option json.Object)
      (l : List (ExchangeRate D))
      → series_in json source target range rates ≡ done l
      → IsSeriesOf source target range.start_date range.end_date l
  unfolding series_in
  series_in-IsSeriesOf source target range none l e = cc
  series_in-IsSeriesOf source target range (some rates) l e =
      let (points, read, e1) =
        >>=-eq-done (points_from json source target range (json.entries rates)) _ e in
      subst (IsSeriesOf source target range.start_date range.end_date) (done-injective e1) (
        points_from-IsSeriesOf json source target range (json.entries rates) points read
          (map.distinct rates))

  read_history-IsSeriesOf :
      (source target : Str) (range : DateRange) (body : Str) (l : List (ExchangeRate D))
      → read_history json source target range body ≡ done l
      → IsSeriesOf source target range.start_date range.end_date l
  unfolding read_history
  read_history-IsSeriesOf source target range body l e =
      let (p, parsed, e1) = >>=-eq-done (parse_object json body) _ e in
      let (object, here, e2) = >>=-eq-done (deref p) _ e1 in
      series_in-IsSeriesOf source target range (json.get_object object (bytes "rates")) l e2

  -- Over an HTTP client and a JSON reader that keep to their laws, the client keeps to the laws of
  -- a provider: its answer is read from a body that the server sent, with the status 200, for the
  -- request of just the question; a rate is one of the pair, the points of a series are of the
  -- pair, inside the range and in the order of their dates; every call keeps the invariant and
  -- fails by an upstream failure only, and only if a URI cannot be parsed, the HTTP client
  -- reported a failure, the server sent another status, or a body that it sent cannot be read as
  -- an answer to its question.
  pub provider-IsProvider :
      IsProvider I (observed seen http.parse_uri json self) (provider http json self)
  unfolding list_currencies latest_rate history
  provider-IsProvider = record {
    list_keeps = Runs-bind _ _ (get-Runs _) λ body.
        Runs-given (ReceivedFor (bytes "/v1/currencies") body) _ _ (λ s p. p)
          λ received.
            lift-Runs _ body _ _ (λ l e. (body, received, e)) (λ none. inl (received, none));
    latest_keeps = λ source target. Runs-bind _ _ (get-Runs _) λ body.
        Runs-given (ReceivedFor (latest_path source target) body) _ _ (λ s p. p)
          λ received.
            Runs-weaken _ _
              (lift-Runs _ body _ (λ r. IsRateOf source target r × up.Quoted source target r)
                (λ r e. (read_latest-IsRateOf source target body r e, (body, received, e)))
                (λ none. inr (inl (source, target, received, none))))
              (λ r s p. (p.0, p.1.0, p.1.1)) (λ e s p. p);
    history_keeps = λ source target range. Runs-bind _ _ (get-Runs _) λ body.
        Runs-given (ReceivedFor (history_path source target range) body) _ _ (λ s p. p)
          λ received.
            Runs-weaken _ _
              (lift-Runs _ body _
                (λ l.
                  IsSeriesOf source target range.start_date range.end_date l
                  × up.Charted source target range l)
                (λ l e. (read_history-IsSeriesOf source target range body l e, (body, received, e)))
                (λ none. inr (inr (source, target, range, received, none))))
              (λ l s p. (p.0, p.1.0, p.1.1)) (λ e s p. p);
  }
