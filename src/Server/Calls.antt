-- ===== src/Server/Calls.antt =====
-- What a call of the service (backend/src/grpc/CurrencyServiceImpl.cpp) is answered, over any state.
use currency_converter_demo.Base.{◌≡◌, List, [], map, Str, ◌≢◌, ◌⊎◌, inl, inr}
use currency_converter_demo.Exec.{Exception}
use currency_converter_demo.Exec.Runs.{Runs, Never, Runs-bind, Runs-return}
use currency_converter_demo.Domain.{Currency, ExchangeRate, ConversionResult}
use currency_converter_demo.Domain.TextUtil.{to_upper}
use currency_converter_demo.External.Provider.{Upstream, IsFailure}
use currency_converter_demo.Application.Constraints.{ConstraintsService}
use currency_converter_demo.Application.Bounds.{IsToday}
use currency_converter_demo.Application.Rates.{IsConverted, Refusal}
use currency_converter_demo.Application.Series.{IsHistory}
use currency_converter_demo.Grpc.{
  CurrencyServiceImpl, Status, status, to_status, ok_code, currency_info, history_point,
  ConvertRequest, ConvertResponse, CurrencyListResponse, HistoryRequest, HistoryResponse,
}
use currency_converter_demo.Grpc.Replies.{
  Replied, convert_response, constraints_response, HistoryRpcRefusal, list_currencies_rpc-Runs,
  convert_rpc-Runs, get_history_rpc-Runs, get_constraints_rpc-Runs,
}
use currency_converter_demo.Application.Conversion.{ConversionService}
use currency_converter_demo.Application.Listing.{CatalogLaws}
use currency_converter_demo.Application.Rates.{ConversionLaws}
use currency_converter_demo.Application.Series.{HistoryLaws}
use currency_converter_demo.External.Frankfurter.{frankfurter_client}
use currency_converter_demo.External.Observed.{Seen, observed}
use currency_converter_demo.Server.{
  Outside, Settings, Rpc, listing, converting, charting, limits, Reply, listed, converted, charted,
  limited, serve_by, no_conversion, no_history,
}

-- What upstream gave the client of `main`, and what its clock has shown.
abbrev pub upstream : {W D : Type 0} → Seen → Outside W D → Settings → Upstream D
upstream seen outside settings =
    observed seen outside.http.parse_uri outside.json
      (frankfurter_client settings.external_api_base_url settings.external_api_timeout)

-- OK with a right response, or the status of an exception for which there is a reason, with the
-- response as gRPC handed it over.
abbrev pub RightOr : {R : Type 0} → (R → Type 0) → (Exception → Type 0) → R → Status × R → Type 0
RightOr Q E untouched reply =
    ((reply.0 ≡ status ok_code []) × Q reply.1)
    ⊎ ((e : Exception) × E e × (reply.0 ≡ to_status e) × (reply.1 ≡ untouched))

-- The currencies of a list that upstream gave, in its order; not an empty one.
abbrev pub IsListing : (List Currency → Type 0) → CurrencyListResponse → Type 0
IsListing known r = (l : List Currency) × known l × (l ≢ []) × (r.currencies ≡ map currency_info l)

-- A right result of the request.
abbrev IsConversion :
    {S D : Type 0}
    → Upstream D
    → ConversionService S D
    → ConvertRequest D
    → ConvertResponse D
    → Type 0
IsConversion up self request r =
    (result : ConversionResult _) × IsConverted up self (to_upper request.source_currency)
      (to_upper request.target_currency) request.amount result
    × (r ≡ convert_response result)

-- The codes of the request as they came, and the points of the series that upstream gave for the
-- pair and the range.
abbrev IsCharted :
    {S D : Type 0}
    → Upstream D
    → ConstraintsService S D
    → HistoryRequest
    → HistoryResponse D
    → Type 0
IsCharted up self request r =
    (r.source_currency ≡ request.source_currency)
    × (r.target_currency ≡ request.target_currency)
    × ((points : List (ExchangeRate _)) × IsHistory up self (to_upper request.source_currency)
          (to_upper request.target_currency)
          (record { start_date = request.start_date; end_date = request.end_date }) points
        × (r.points ≡ map history_point points))

-- Whether a reply of a service is right for its call.
abbrev pub IsReplyBy :
    {S D : Type 0} → Upstream D → CurrencyServiceImpl S D → D → Rpc D → Reply D → Type 0
IsReplyBy up self zero listing (listed reply) =
    RightOr (IsListing up.Listed) (IsFailure up) (record { currencies = [] }) reply
IsReplyBy up self zero (converting request) (converted reply) =
    let source = to_upper request.source_currency in
    let target = to_upper request.target_currency in
    RightOr (IsConversion up self.conversion request)
      (Refusal up self.conversion source target request.amount) (no_conversion zero) reply
IsReplyBy up self zero (charting request) (charted reply) =
    RightOr (IsCharted up self.history.constraints request)
      (HistoryRpcRefusal up self.history.constraints request) no_history reply
IsReplyBy up self zero limits (limited reply) =
    (reply.0 ≡ status ok_code [])
    × ((today : Str) × IsToday up.Now self.constraints today
        × (reply.1 ≡ constraints_response self.constraints today))
IsReplyBy up self zero _ _ = ⊥

module _ {S D : Type 0} (I : S → Type 0) (up : Upstream D) (self : CurrencyServiceImpl S D)
    (zero : D) where
  Replied-RightOr :
      {R : Type 0} (Q : R → Type 0) (E : Exception → Type 0) (response : R) (reply : Status × R)
      (t : S)
      → Replied (λ r t. I t × Q r) (λ e t. I t × E e) response reply t
      → I t × RightOr Q E response reply
  Replied-RightOr Q E response reply t (inl p) = (p.1.0, inl (p.0, p.1.1))
  Replied-RightOr Q E response reply t (inr (e, p, q, q')) = (p.0, inr (e, p.1, q, q'))

  unfailing :
      {R : Type 0} (Q : R → Type 0) (response : R) (reply : Status × R) (t : S)
      → Replied (λ r t. I t × Q r) (λ e t. ⊥) response reply t
      → I t × ((reply.0 ≡ status ok_code []) × Q reply.1)
  unfailing Q response reply t (inl p) = (p.1.0, (p.0, p.1.1))
  unfailing Q response reply t (inr (e, p, q, q')) = absurd p

  -- A service whose objects keep to their laws answers every call rightly.
  pub serve_by-Runs :
      CatalogLaws I up self.catalog
      → ConversionLaws I up self.conversion
      → HistoryLaws I up self.history
      → Runs I self.constraints.system_now (λ n t. I t × up.Now n) Never
      → (call : Rpc D)
      → Runs I (serve_by self zero call) (λ r t. I t × IsReplyBy up self zero call r) Never
  unfolding serve_by
  serve_by-Runs catalog_laws conversion_laws history_laws clock listing =
      Runs-bind _ _ (list_currencies_rpc-Runs I _ self catalog_laws _)
        λ r. Runs-return _ λ s p. Replied-RightOr (IsListing up.Listed) _ _ r s p
  serve_by-Runs catalog_laws conversion_laws history_laws clock (converting request) =
      Runs-bind _ _ (convert_rpc-Runs I _ self conversion_laws request (no_conversion zero)) λ r.
        Runs-return _ λ s p. Replied-RightOr (IsConversion up self.conversion request) _ _ r s p
  serve_by-Runs catalog_laws conversion_laws history_laws clock (charting request) =
      Runs-bind _ _ (get_history_rpc-Runs I _ self history_laws request no_history) λ r.
        Runs-return _
          λ s p. Replied-RightOr (IsCharted up self.history.constraints request) _ _ r s p
  serve_by-Runs catalog_laws conversion_laws history_laws clock limits =
      Runs-bind _ _ (get_constraints_rpc-Runs I up self clock _) λ r. Runs-return _ λ s p.
        unfailing
          (λ r.
            (today : Str) × IsToday up.Now self.constraints today
            × (r ≡ constraints_response self.constraints today))
          _ r s p
