-- ===== src/Application/Hits.antt =====
-- The services over caches that hold what is asked for: which calls of upstream are left.
use currency_converter_demo.Base.{◌≡◌, refl, any, List, Option, some, Str}
use currency_converter_demo.Exec.{
  Exec, Exception, invalid_argument, currency_not_found, external_api_unavailable,
  external_api_unexpected_response, std_exception, served, ◌>>=◌, require,
}
use currency_converter_demo.Exec.Runs.{
  Runs, Never, Runs-bind, Runs-return, Runs-require, Runs-given, Runs-weaken,
}
use currency_converter_demo.Domain.{Currency, ExchangeRate}
use currency_converter_demo.Domain.TextUtil.{to_upper}
use currency_converter_demo.Domain.DateRange.{DateRange}
use currency_converter_demo.Cache.Interface.{ICache}
use currency_converter_demo.Application.Bounds.{get_constraints-Runs}
use currency_converter_demo.Application.Catalog.{
  CurrencyCatalogService, cache_key, has_code, list_currencies, is_known_currency,
}
use currency_converter_demo.Application.Conversion.{
  ConversionService, pair_key, resolve_rate, apply_rate, check_request, convert,
}
use currency_converter_demo.Application.History.{
  HistoryService, history_key, resolve_series, check_range, get_history,
}

-- An exception that the services throw for a bad request.
abbrev pub IsOwn : Exception → Type 0
IsOwn (invalid_argument m) = Unit
IsOwn (currency_not_found m) = Unit
IsOwn (external_api_unavailable m) = ⊥
IsOwn (external_api_unexpected_response m) = ⊥
IsOwn (std_exception m) = ⊥

-- In every state of the invariant the cache answers `v` for the key, and keeps the invariant.
pub record IsHit {S V : Type 0} (I : S → Type 0) (c : ICache S V) (k : Str) (v : V) : Type 0 where
  pub answers : Runs I (c.get k) (λ o t. I t × (o ≡ some v)) Never

abbrev pub Refused {ℓ} : {S : Type ℓ} → (S → Type 0) → Exception → S → Type 0
Refused I e t = I t × IsOwn e

module _ {S : Type 0} (I : S → Type 0) where
  served-Runs :
      {V : Type 0} (v : V) (o : Option V) (m : Exec S V)
      → o ≡ some v
      → Runs I (served o m) (λ r t. I t × (r ≡ v)) (Refused I)
  unfolding served
  served-Runs v o m e = rw (e, served) (Runs-return v λ s i. (i, refl))

  hit-Runs :
      {V : Type 0} {c : ICache S V} (k : Str) (v : V) (m : Exec S V)
      → IsHit I c k v
      → Runs I (c.get k >>= λ o. served o m) (λ r t. I t × (r ≡ v)) (Refused I)
  hit-Runs k v m hit =
      Runs-bind _ _ (Runs-weaken _ _ hit.answers (λ o s p. p) (λ e s p. absurd p))
        λ o. Runs-given (o ≡ some v) _ _ (λ s p. p) λ e. served-Runs v o m e

  module _ {D : Type 0} (self : CurrencyCatalogService S D) (l : List Currency)
      (listed : IsHit I self.cache cache_key l) where
    known-Runs :
        (code : Str)
        → Runs I
            (is_known_currency self code)
            (λ b t. I t × (b ≡ any (has_code (to_upper code)) l))
            (Refused I)
    unfolding is_known_currency list_currencies
    known-Runs code =
        Runs-bind _ _ (hit-Runs cache_key l _ listed)
          λ l'. Runs-given (l' ≡ l) _ _ (λ s p. p) λ e. Runs-return _ λ s i. (i, rw e refl)

  -- What both services start with: the codes are looked up, and then the rest runs.
  codes-Runs :
      {D R : Type 0} (catalog : CurrencyCatalogService S D) (l : List Currency)
      (source target : Str) (no_source no_target : Str) (rest : Exec S R) (Q : R → S → Type 0)
      → IsHit I catalog.cache cache_key l
      → Runs I rest Q (Refused I)
      → Runs I
          (is_known_currency catalog source >>= λ b. require b (currency_not_found no_source) (
            is_known_currency catalog target >>= λ b'.
            require b' (currency_not_found no_target) rest))
          Q
          (Refused I)
  codes-Runs catalog l source target no_source no_target rest Q listed done =
      Runs-bind {R = λ b t. I t} _ _
        (Runs-weaken _ _ (known-Runs catalog l listed source) (λ b s p. p.0) (λ e s p. p))
        λ b.
          Runs-require b _ _ (λ f s i. (i, tt))
            (λ yes_source.
              Runs-bind {R = λ b t. I t} _ _
                (Runs-weaken _ _ (known-Runs catalog l listed target) (λ b s p. p.0) (λ e s p. p))
                λ b'. Runs-require b' _ _ (λ f s i. (i, tt)) (λ yes_target. done))

  -- Where the caches hold the list of currencies and the rate of the pair, and reading the clock
  -- keeps the invariant, the provider is not called: any invariant is kept that the caches and the
  -- clock keep, whatever the provider does to it. The result is by the rate that the cache holds,
  -- and a failure is a refusal of the request.
  pub convert-hit :
      {D : Type 0} (self : ConversionService S D) (source target : Str) (amount : D)
      (l : List Currency) (r : ExchangeRate D)
      → IsHit I self.catalog.cache cache_key l
      → IsHit I self.latest_rate_cache (pair_key (to_upper source) (to_upper target)) r
      → Runs I self.constraints.system_now (λ n t. I t) Never
      → Runs I
          (convert self source target amount)
          (λ result t.
            I t
            × (result ≡ record {
              source_amount = amount;
              converted_amount = self.constraints.double.mul amount r.rate;
              exchange_rate = r.rate;
              rate_date = r.date;
            }))
          (Refused I)
  unfolding convert check_request apply_rate resolve_rate
  convert-hit self source target amount l r listed held clock =
      codes-Runs self.catalog l (to_upper source) (to_upper target) _ _ _ _ listed (
        Runs-require _ _ _ (λ same s i. (i, tt))
          λ other.
            Runs-bind {R = λ c t. I t} _ _
              (Runs-weaken _ _ (get_constraints-Runs I (Refused I) self.constraints clock)
                (λ c s p. p.0) (λ e s p. p))
              λ c.
                Runs-require _ _ _ (λ out s i. (i, tt))
                  λ fits.
                    Runs-bind _ _ (hit-Runs (pair_key (to_upper source) (to_upper target)) r _ held)
                      λ q. Runs-return _ λ s p. (p.0, rw p.1 refl))

  -- The same for a query of the history, with the series that the cache holds.
  pub get_history-hit :
      {D : Type 0} (self : HistoryService S D) (source target : Str) (range : DateRange)
      (l : List Currency) (points : List (ExchangeRate D))
      → IsHit I self.catalog.cache cache_key l
      → IsHit I self.history_cache (history_key (to_upper source) (to_upper target) range) points
      → Runs I self.constraints.system_now (λ n t. I t) Never
      → Runs I
          (get_history self source target range)
          (λ answer t. I t × (answer ≡ points))
          (Refused I)
  unfolding get_history check_range resolve_series
  get_history-hit self source target range l points listed held clock =
      codes-Runs self.catalog l (to_upper source) (to_upper target) _ _ _ _ listed (
        Runs-bind {R = λ c t. I t} _ _
          (Runs-weaken _ _ (get_constraints-Runs I (Refused I) self.constraints clock)
            (λ c s p. p.0) (λ e s p. p))
          λ c.
            Runs-require _ _ _ (λ out s i. (i, tt))
              λ fits.
                hit-Runs (history_key (to_upper source) (to_upper target) range) points _ held)
