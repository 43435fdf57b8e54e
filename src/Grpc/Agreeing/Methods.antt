-- ===== src/Grpc/Agreeing/Methods.antt =====
-- The methods of `CurrencyServiceImpl` (backend/src/grpc) over services with caches and over services
-- without.
use currency_converter_demo.Base.{◌≡◌, List, ◌++◌, map, Str, ◌≢◌, subst, true}
use currency_converter_demo.Exec.{Exception, Outcome, ok, fault, return, lift, ◌>>=◌}
use currency_converter_demo.Exec.Runs.{Runs, Never}
use currency_converter_demo.Exec.Agreement.{ending, Agrees-lift, Agrees-map, Agrees-bind}
use currency_converter_demo.Domain.{Currency, ExchangeRate, Constraints}
use currency_converter_demo.Domain.DateRange.{DateRange, make, is_iso_date}
use currency_converter_demo.Domain.DateOrder.{IsoDate-is_iso_date, Made, make-Made}
use currency_converter_demo.External.Provider.{IExchangeRateProvider}
use currency_converter_demo.Application.Catalog
use currency_converter_demo.Application.Conversion.{convert}
use currency_converter_demo.Application.History.{get_history}
use currency_converter_demo.Application.Constraints.{ConstraintsService, get_constraints}
use currency_converter_demo.Application.Uncached.{
  uncached_catalog, uncached_conversion, uncached_history, constraints_on,
}
use currency_converter_demo.Application.Transparency.{CatalogTransparency, list_currencies-Agrees}
use currency_converter_demo.Application.Transparency.Rates.{
  IsDay, get_constraints-Agrees, ConversionTransparency, convert-Agrees,
}
use currency_converter_demo.Application.Transparency.Series.{
  HistoryTransparency, get_history-Agrees,
}
use currency_converter_demo.Grpc.{
  CurrencyServiceImpl, currency_service_impl, ConvertRequest, ConvertResponse, HistoryRequest,
  HistoryResponse, CurrencyListResponse, ConstraintsResponse, currency_info, history_point,
  list_currencies_rpc, convert_rpc, get_history_rpc, get_constraints_rpc,
}
use currency_converter_demo.Grpc.Replies.{convert_response}
use currency_converter_demo.Grpc.Agreeing.{SameOr, handle-SameOr}

ending-lift : {A : Type 0} (r : Outcome A) (a : A) → ending (lift r) ≡ ok a → r ≡ ok a
unfolding lift
ending-lift r a e = e

iso_start :
    (request : HistoryRequest) (r : DateRange)
    → Made request.start_date request.end_date (ok r)
    → is_iso_date r.start_date ≡ true
iso_start request r h = rw h.0 (IsoDate-is_iso_date _ h.2.0)

-- The responses that the methods fill.
abbrev filled_list : CurrencyListResponse → List Currency → CurrencyListResponse
filled_list response l = record { currencies = response.currencies ++ map currency_info l }

abbrev filled_history :
    {D : Type 0} → HistoryRequest → HistoryResponse D → List (ExchangeRate D) → HistoryResponse D
filled_history request response points = record {
  source_currency = request.source_currency;
  target_currency = request.target_currency;
  points = response.points ++ map history_point points;
}

abbrev filled_constraints : {D : Type 0} → Constraints D → ConstraintsResponse D
filled_constraints c = record {
  min_amount = c.min_amount;
  max_amount = c.max_amount;
  min_date = c.min_date;
  max_date = c.max_date;
}

-- The service without caches.
abbrev pub uncached_service :
    {D : Type 0}
    → IExchangeRateProvider (Unit {0}) D
    → ConstraintsService (Unit {0}) D
    → CurrencyServiceImpl (Unit {0}) D
uncached_service q constraints =
    currency_service_impl (uncached_catalog q) (uncached_conversion q constraints)
      (uncached_history q constraints) constraints

module _ {S D : Type 0} (I : S → Type 0) (Excuse : Exception → Type 0)
    (self : CurrencyServiceImpl S D) (q : IExchangeRateProvider (Unit {0}) D) (today : Str) where
  pub list_currencies_rpc-SameOr :
      (constraints : ConstraintsService (Unit {0}) D)
      → CatalogTransparency I Excuse self.catalog q
      → (response : CurrencyListResponse)
      → Runs I
          (list_currencies_rpc self response)
          (λ reply t.
            I t
            × SameOr Excuse response
                (list_currencies_rpc (uncached_service q constraints) response)
                reply)
          Never
  unfolding list_currencies_rpc
  list_currencies_rpc-SameOr constraints laws response =
      let listing = Catalog.list_currencies (uncached_catalog q) in
      handle-SameOr response I Excuse _ (listing >>= λ l. return (filled_list response l)) (
        Agrees-map I Excuse _ listing (filled_list response)
          (list_currencies-Agrees I Excuse self.catalog q laws))

  pub convert_rpc-SameOr :
      ConversionTransparency I Excuse self.conversion q today
      → (request : ConvertRequest D) (response : ConvertResponse D)
      → Runs I
          (convert_rpc self request response)
          (λ reply t.
            I t
            × SameOr Excuse response
                (convert_rpc
                  (uncached_service q (constraints_on self.conversion.constraints.double today))
                  request
                  response)
                reply)
          Never
  unfolding convert_rpc
  convert_rpc-SameOr laws request response =
      let conversion =
        convert (uncached_conversion q (constraints_on self.conversion.constraints.double today))
          request.source_currency request.target_currency request.amount in
      handle-SameOr response I Excuse _ (conversion >>= λ r. return (convert_response r)) (
        Agrees-map I Excuse _ conversion convert_response (
          convert-Agrees I Excuse self.conversion q today laws request.source_currency
            request.target_currency request.amount))

  Made-ends : (s e : Str) (r : Outcome DateRange) → Made s e r → r ≢ fault
  Made-ends s e r h no_end = subst (Made s e) no_end h

  pub get_history_rpc-SameOr :
      HistoryTransparency I Excuse self.history q today
      → (request : HistoryRequest) (response : HistoryResponse D)
      → Runs I
          (get_history_rpc self request response)
          (λ reply t.
            I t
            × SameOr Excuse response
                (get_history_rpc
                  (uncached_service q (constraints_on self.history.constraints.double today))
                  request
                  response)
                reply)
          Never
  unfolding get_history_rpc
  get_history_rpc-SameOr laws request response =
      let built = make request.start_date request.end_date in
      let made = make-Made request.start_date request.end_date in
      let charting = λ (range : DateRange).
        get_history (uncached_history q (constraints_on self.history.constraints.double today))
          request.source_currency request.target_currency range in
      let rest =
        λ (range : DateRange). charting range >>= λ l. return (filled_history request response l) in
      handle-SameOr response I Excuse _ (lift built >>= rest) (
        Agrees-bind I Excuse _ (lift built) _ rest
          (Agrees-lift I Excuse built (Made-ends _ _ _ made))
          λ range same. Agrees-map I Excuse _ (charting range) (filled_history request response) (
            get_history-Agrees I Excuse self.history q today laws request.source_currency
              request.target_currency range
              (iso_start request range (subst (Made _ _) (ending-lift _ _ same) made))))

  pub get_constraints_rpc-SameOr :
      IsDay I self.constraints today
      → (response : ConstraintsResponse D)
      → Runs I
          (get_constraints_rpc self response)
          (λ reply t.
            I t
            × SameOr
                (λ e. ⊥)
                response
                (get_constraints_rpc
                  (uncached_service q (constraints_on self.constraints.double today))
                  response)
                reply)
          Never
  unfolding get_constraints_rpc
  get_constraints_rpc-SameOr day response =
      let reading = get_constraints (constraints_on self.constraints.double today) in
      handle-SameOr response I (λ e. ⊥) _ (reading >>= λ c. return (filled_constraints c))
        (Agrees-map I (λ e. ⊥) _ reading filled_constraints
          (get_constraints-Agrees I (λ e. ⊥) self.constraints today day))
