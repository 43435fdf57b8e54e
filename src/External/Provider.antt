-- ===== src/External/Provider.antt =====
-- `IExchangeRateProvider` (backend/src/external/IExchangeRateProvider.h).
use currency_converter_demo.Base.{ℕ, ◌≡◌, ◌⊎◌, List, Str, true, false, [], ◌∷◌, All, str_lt}
use currency_converter_demo.Exec.{
  Exec, Exception, external_api_unavailable, external_api_unexpected_response, std_exception,
  invalid_argument, currency_not_found,
}
use currency_converter_demo.Exec.Runs.{Runs}
use currency_converter_demo.Domain.{Currency, ExchangeRate}
use currency_converter_demo.Domain.DateRange.{DateRange}

pub record IExchangeRateProvider (S D : Type 0) : Type 0 where
  pub list_currencies : Exec S (List Currency)
  pub latest_rate : Str → Str → Exec S (ExchangeRate D)
  pub history : Str → Str → DateRange → Exec S (List (ExchangeRate D))

-- The exceptions of an upstream failure.
abbrev pub IsUpstream : Exception → Type 0
IsUpstream (invalid_argument m) = ⊥
IsUpstream (currency_not_found m) = ⊥
IsUpstream (external_api_unavailable m) = Unit
IsUpstream (external_api_unexpected_response m) = Unit
IsUpstream (std_exception m) = Unit

-- A rate of the pair.
abbrev pub IsRateOf : {D : Type 0} → Str → Str → ExchangeRate D → Type 0
IsRateOf source target r = (r.base ≡ source) × (r.quote ≡ target)

-- Dates in order, none twice.
abbrev pub Ascending : {D : Type 0} → List (ExchangeRate D) → Type 0
Ascending [] = Unit
Ascending (r ∷ rs) = All (λ q. str_lt r.date q.date ≡ true) rs × Ascending rs

-- The points of a series of the pair, inside the range and in the order of their dates.
abbrev pub IsSeriesOf : {D : Type 0} → Str → Str → Str → Str → List (ExchangeRate D) → Type 0
IsSeriesOf source target start end points =
    All
      (λ r.
        (r.base ≡ source)
        × (r.quote ≡ target)
        × (str_lt r.date start ≡ false)
        × (str_lt end r.date ≡ false))
      points
    × Ascending points

-- What was observed of the outside: the lists of currencies that upstream gave, the rates that it gave
-- for a pair, the series that it gave for a query, that a request to it failed, and the times that the
-- system clock has shown.
pub record Upstream (D : Type 0) : Type 1 where
  pub Listed : List Currency → Type 0
  pub Quoted : Str → Str → ExchangeRate D → Type 0
  pub Charted : Str → Str → DateRange → List (ExchangeRate D) → Type 0
  pub Failing : Type 0
  pub Now : ℕ → Type 0

-- An exception of an upstream failure, for which there is a reason: a request failed, or upstream gave an
-- empty list of currencies.
abbrev pub IsFailure : {D : Type 0} → Upstream D → Exception → Type 0
IsFailure up e = IsUpstream e × (up.Failing ⊎ up.Listed [])

-- The call ends by such an exception, with the invariant kept.
abbrev pub Failed {ℓ} :
    {S : Type ℓ} {D : Type 0} → (S → Type 0) → Upstream D → Exception → S → Type 0
Failed I up e t = I t × IsFailure up e

-- What the services rely on: the invariant is kept, the answer is the one that upstream gave to just
-- this question, and an exception is one of the upstream failures.
pub record IsProvider {S D : Type 0} (I : S → Type 0) (up : Upstream D)
    (p : IExchangeRateProvider S D) : Type 0 where
  pub list_keeps : Runs I p.list_currencies (λ l t. I t × up.Listed l) (Failed I up)
  pub latest_keeps :
      (source target : Str)
      → Runs I
          (p.latest_rate source target)
          (λ r t. I t × IsRateOf source target r × up.Quoted source target r)
          (Failed I up)
  pub history_keeps :
      (source target : Str) (range : DateRange)
      → Runs I
          (p.history source target range)
          (λ l t.
            I t
            × IsSeriesOf source target range.start_date range.end_date l
            × up.Charted source target range l)
          (Failed I up)
