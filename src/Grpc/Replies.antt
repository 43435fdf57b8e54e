-- ===== src/Grpc/Replies.antt =====
-- What a client of `CurrencyServiceImpl` (backend/src/grpc) is told: statuses and responses.
use mathlib.Core.Path.{ap₂}
use currency_converter_demo.Base.{◌≡◌, refl, ◌≢◌, ◌⊎◌, inl, inr, ◌++◌, List, [], map, Str, bytes}
use currency_converter_demo.Exec.{
  Outcome, ok, throw, fault, Exec, Exception, lift, invalid_argument, currency_not_found,
  external_api_unavailable, external_api_unexpected_response, std_exception,
}
use currency_converter_demo.Exec.Runs.{
  Ends, Runs, Never, Runs-bind, Runs-return, Runs-weaken, Runs-given,
}
use currency_converter_demo.Domain.{Currency, ExchangeRate, ConversionResult}
use currency_converter_demo.Domain.DateRange.{DateRange, make}
use currency_converter_demo.Domain.DateOrder.{IsoDate-is_iso_date, IsRange, Made, make-Made}
use currency_converter_demo.Domain.TextUtil.{to_upper}
use currency_converter_demo.External.Provider.{Upstream, Failed}
use currency_converter_demo.Application.Constraints.{ConstraintsService, min_amount, max_amount}
use currency_converter_demo.Application.Bounds.{declared, IsToday, get_constraints-IsToday}
use currency_converter_demo.Application.Listing.{CatalogLaws, list_currencies-Runs}
use currency_converter_demo.Application.Rates.{ConversionLaws, IsConverted, Refusal, convert-Runs}
use currency_converter_demo.Application.Series.{
  HistoryLaws, IsHistory, HistoryRefusal, get_history-Runs,
}
use currency_converter_demo.Grpc.{
  CurrencyListResponse, ConvertRequest, ConvertResponse, HistoryRequest, HistoryResponse, ok_code,
  internal_code, Status, status, to_status, caught, handle, CurrencyServiceImpl, currency_info,
  history_point, list_currencies_rpc, convert_rpc, get_history_rpc, get_constraints_rpc,
  ConstraintsResponse,
}

-- The text of an exception.
abbrev pub what : Exception → Str
what (invalid_argument t) = t
what (currency_not_found t) = t
what (external_api_unavailable t) = t
what (external_api_unexpected_response t) = t
what (std_exception t) = t

-- No exception becomes OK. The status tells the exception's own text to the client exactly if it is
-- not INTERNAL, and an INTERNAL status has one text for all.
pub to_status_lem :
    (e : Exception)
    → ((to_status e).code ≢ ok_code)
      × ((to_status e).code ≢ internal_code → (to_status e).message ≡ what e)
      × ((to_status e).code ≡ internal_code → (to_status e).message ≡ bytes "internal server error")
unfolding to_status
to_status_lem (invalid_argument t) = (λ e. cc, λ n. refl, λ e. cc)
to_status_lem (currency_not_found t) = (λ e. cc, λ n. refl, λ e. cc)
to_status_lem (external_api_unavailable t) = (λ e. cc, λ n. refl, λ e. cc)
to_status_lem (external_api_unexpected_response t) = (λ e. cc, λ n. absurd (n refl), λ e. refl)
to_status_lem (std_exception t) = (λ e. cc, λ n. absurd (n refl), λ e. refl)

-- OK with a response that satisfies `Q`, or the status of an exception that satisfies `E` with the
-- response as it was.
abbrev pub Replied :
    {S R : Type 0} → (R → S → Type 0) → (Exception → S → Type 0) → R → Status × R → S → Type 0
Replied Q E response reply t =
    ((reply.0 ≡ status ok_code []) × Q reply.1 t)
    ⊎ ((e : Exception) × E e t × (reply.0 ≡ to_status e) × (reply.1 ≡ response))

module _ {S R : Type 0} where
  caught-Ends :
      (Q : R → S → Type 0) (E : Exception → S → Type 0) (response : R) (r : Outcome R × S)
      → Ends Q E r
      → Ends (Replied Q E response) Never (caught response r)
  unfolding caught
  caught-Ends Q E response (ok a, s) h = inl (refl, h)
  caught-Ends Q E response (throw e, s) h = inr (e, h, refl, refl)
  caught-Ends Q E response (fault, s) h = h

  -- No exception leaves `handle`.
  pub Runs-handle :
      {P : S → Type 0} {Q : R → S → Type 0} {E : Exception → S → Type 0} (response : R)
      (work : Exec S R)
      → Runs P work Q E
      → Runs P (handle response work) (Replied Q E response) Never
  unfolding handle
  Runs-handle {Q = Q} {E = E} response work h = record {
    at = λ s p. caught-Ends Q E response (work s) (h.at s p);
  }

-- The response of a result.
abbrev pub convert_response : {D : Type 0} → ConversionResult D → ConvertResponse D
convert_response result = record {
  source_amount = result.source_amount;
  converted_amount = result.converted_amount;
  exchange_rate = result.exchange_rate;
  rate_date = result.rate_date;
}

-- The response of a day.
abbrev pub constraints_response :
    {S D : Type 0} → ConstraintsService S D → Str → ConstraintsResponse D
constraints_response self today = record {
  min_amount = min_amount self;
  max_amount = max_amount self;
  min_date = bytes "1999-01-04";
  max_date = today;
}

-- Why `GetHistory` fails: the dates are no range, or as the service refuses.
abbrev pub HistoryRpcRefusal :
    {S D : Type 0} → Upstream D → ConstraintsService S D → HistoryRequest → Exception → Type 0
HistoryRpcRefusal up self request e =
    ((m : Str) × (e ≡ invalid_argument m) × (¬ IsRange request.start_date request.end_date))
    ⊎ (IsRange request.start_date request.end_date
        × HistoryRefusal up self (to_upper request.source_currency)
            (to_upper request.target_currency)
            (record { start_date = request.start_date; end_date = request.end_date }) e)

module _ {S D : Type 0} (I : S → Type 0) (up : Upstream D) (self : CurrencyServiceImpl S D) where
  -- `ListCurrencies` answers a list that upstream gave, not empty and in its order, or fails by an
  -- upstream failure; the invariant is kept in both cases.
  pub list_currencies_rpc-Runs :
      CatalogLaws I up self.catalog
      → (response : CurrencyListResponse)
      → Runs I
          (list_currencies_rpc self response)
          (Replied
            (λ r t.
              I t
              × ((l : List Currency) × up.Listed l
                  × (l ≢ [])
                  × (r.currencies ≡ response.currencies ++ map currency_info l)))
            (Failed I up)
            response)
          Never
  unfolding list_currencies_rpc
  list_currencies_rpc-Runs laws response = Runs-handle response _ (
      Runs-bind _ _ (list_currencies-Runs I up self.catalog laws)
        λ l. Runs-return _ λ s p. (p.0, (l, p.1, p.2, refl)))

  -- `Convert` is always answered. OK comes with a right result, and any other status with the reason
  -- that it stands for; the invariant is kept in all cases.
  pub convert_rpc-Runs :
      ConversionLaws I up self.conversion
      → (request : ConvertRequest D) (response : ConvertResponse D)
      → let source = to_upper request.source_currency in
        let target = to_upper request.target_currency in
        Runs I
          (convert_rpc self request response)
          (Replied
            (λ r t.
              I t
              × ((result : ConversionResult D) × IsConverted up self.conversion source target
                    request.amount result
                  × (r ≡ convert_response result)))
            (λ e t. I t × Refusal up self.conversion source target request.amount e)
            response)
          Never
  unfolding convert_rpc
  convert_rpc-Runs laws request response = Runs-handle response _ (
      Runs-bind _ _
        (convert-Runs I up self.conversion laws request.source_currency request.target_currency
          request.amount)
        λ result. Runs-return _ λ s p. (p.0, (result, p.1, refl)))

  Made-Ends :
      (request : HistoryRequest) (r : Outcome DateRange) (t : S)
      → I t
      → Made request.start_date request.end_date r
      → Ends
          (λ r t. I t × Made request.start_date request.end_date (ok r))
          (λ e t. I t × HistoryRpcRefusal up self.history.constraints request e)
          (r, t)
  Made-Ends request (ok r) t i h = (i, h)
  Made-Ends request (throw (invalid_argument m)) t i h = (i, inl (m, refl, h))
  Made-Ends request (throw (currency_not_found m)) t i h = absurd h
  Made-Ends request (throw (external_api_unavailable m)) t i h = absurd h
  Made-Ends request (throw (external_api_unexpected_response m)) t i h = absurd h
  Made-Ends request (throw (std_exception m)) t i h = absurd h
  Made-Ends request fault t i h = absurd h

  lift-make-Runs :
      (request : HistoryRequest)
      → Runs I
          (lift (make request.start_date request.end_date))
          (λ r t. I t × Made request.start_date request.end_date (ok r))
          (λ e t. I t × HistoryRpcRefusal up self.history.constraints request e)
  unfolding lift
  lift-make-Runs request = record {
    at = λ s i.
        Made-Ends request (make request.start_date request.end_date) s i
          (make-Made request.start_date request.end_date);
  }

  same_range :
      (request : HistoryRequest) (r : DateRange)
      → Made request.start_date request.end_date (ok r)
      → r ≡ record { start_date = request.start_date; end_date = request.end_date }
  same_range request r h = ap₂ (λ s e. record { start_date = s; end_date = e }) h.0 h.1

  -- `GetHistory` is always answered. OK comes with a series of the pair inside the range of the
  -- request, point for point and in order, after what the response held; any other status comes with
  -- the reason that it stands for; the invariant is kept in all cases.
  pub get_history_rpc-Runs :
      HistoryLaws I up self.history
      → (request : HistoryRequest) (response : HistoryResponse D)
      → let source = to_upper request.source_currency in
        let target = to_upper request.target_currency in
        Runs I
          (get_history_rpc self request response)
          (Replied
            (λ r t.
              I t
              × ((r.source_currency ≡ request.source_currency)
                  × (r.target_currency ≡ request.target_currency)
                  × ((points : List (ExchangeRate D)) × IsHistory up self.history.constraints source
                        target
                        (record { start_date = request.start_date; end_date = request.end_date })
                        points
                      × (r.points ≡ response.points ++ map history_point points))))
            (λ e t. I t × HistoryRpcRefusal up self.history.constraints request e)
            response)
          Never
  unfolding get_history_rpc
  get_history_rpc-Runs laws request response = Runs-handle response _ (
      Runs-bind _ _ (lift-make-Runs request) λ range.
        Runs-given (Made request.start_date request.end_date (ok range)) _ _ (λ s p. p)
          λ made.
            Runs-bind
              {R = λ points t.
                I t
                × IsHistory up self.history.constraints (to_upper request.source_currency)
                    (to_upper request.target_currency)
                    (record { start_date = request.start_date; end_date = request.end_date })
                    points}
              _ _
              (Runs-weaken _ _
                (get_history-Runs I up self.history laws request.source_currency
                  request.target_currency range (rw made.0 (IsoDate-is_iso_date _ made.2.0)))
                (λ points s p. (p.0, rw (← same_range request range made) p.1))
                (λ e s p. (p.0, inr (made.2, rw (← same_range request range made) p.1))))
              λ points. Runs-return _ λ s p. (p.0, (refl, refl, (points, p.1, refl))))

  -- `GetConstraints` always answers OK, with the bounds of the service, the first date with data and
  -- the day of a time that the clock has shown.
  pub get_constraints_rpc-Runs :
      Runs I self.constraints.system_now (λ n t. I t × up.Now n) Never
      → (response : ConstraintsResponse D)
      → Runs I
          (get_constraints_rpc self response)
          (Replied
            (λ r t.
              I t
              × ((today : Str) × IsToday up.Now self.constraints today
                  × (r ≡ constraints_response self.constraints today)))
            (λ e t. ⊥)
            response)
          Never
  unfolding get_constraints_rpc
  get_constraints_rpc-Runs clock response = Runs-handle response _ (
      Runs-bind _ _ (get_constraints-IsToday I (λ e t. ⊥) up.Now self.constraints clock) λ c.
        Runs-given
          ((today : Str) × IsToday up.Now self.constraints today
            × (c ≡ declared self.constraints today))
          _ _ (λ s p. p) λ d. Runs-return _ λ s i. (i, (d.0, d.1, rw d.2 refl)))
