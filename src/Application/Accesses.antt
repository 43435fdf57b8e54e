-- ===== src/Application/Accesses.antt =====
-- The services: how often a call of them uses its caches, its provider and the clock.
use currency_converter_demo.Base.{ℕ, Str}
use currency_converter_demo.Exec.{Exec, return, served, ◌>>=◌}
use currency_converter_demo.Exec.Budget.{
  IsBudget, Takes, Takes-return, Takes-bind, Takes-require, Takes-served,
}
use currency_converter_demo.Domain.DateRange.{DateRange}
use currency_converter_demo.Cache.Interface.{ICache}
use currency_converter_demo.External.Accesses.{IsTwoSteps}
use currency_converter_demo.Application.Constraints.{
  ConstraintsService, get_constraints, today_iso_date,
}
use currency_converter_demo.Application.Catalog.{
  CurrencyCatalogService, store_currencies, list_currencies, is_known_currency,
}
use currency_converter_demo.Application.Conversion.{
  ConversionService, convert, check_request, apply_rate, resolve_rate,
}
use currency_converter_demo.Application.History.{
  HistoryService, get_history, check_range, resolve_series,
}

-- Each method of the cache takes one.
pub record IsCacheStep {S V : Type 0} (Spent : ℕ → S → S → Type 0) (c : ICache S V) : Type 0 where
  pub getting : (k : Str) → Takes Spent (c.get k) 1
  pub putting : (k : Str) (v : V) → Takes Spent (c.put k v) 1

module _ {S : Type 0} (Spent : ℕ → S → S → Type 0) (budget : IsBudget Spent) where
  -- To get a value, or else to fetch it in two and to put it.
  resolved-Takes :
      {V : Type 0} (c : ICache S V) (k : Str) (fetch : Exec S V)
      → IsCacheStep Spent c
      → Takes Spent fetch 2
      → Takes Spent (c.get k >>= λ o. served o (fetch >>= λ v. c.put k v >>= λ u. return v)) 4
  resolved-Takes c k fetch steps fetched = Takes-bind Spent budget 1 3 _ _ (steps.getting k) λ o.
      Takes-served Spent budget 3 o _ (
        Takes-bind Spent budget 2 1 _ _ fetched λ v.
          Takes-bind Spent budget 1 0 _ _ (steps.putting k v) λ u. Takes-return Spent budget 0 v)

module _ {S D : Type 0} (Spent : ℕ → S → S → Type 0) (budget : IsBudget Spent) where
  module _ (self : CurrencyCatalogService S D) (fetch : IsTwoSteps Spent self.provider)
      (steps : IsCacheStep Spent self.cache) where
    pub list_currencies-Takes : Takes Spent (list_currencies self) 4
    unfolding list_currencies store_currencies
    list_currencies-Takes = Takes-bind Spent budget 1 3 _ _ (steps.getting _) λ o.
        Takes-served Spent budget 3 o _ (
          Takes-bind Spent budget 2 1 _ _ fetch.listing λ l. Takes-require Spent budget 1 _ _ _ (
            Takes-bind Spent budget 1 0 _ _ (steps.putting _ l) λ u. Takes-return Spent budget 0 l))

    pub is_known_currency-Takes : (code : Str) → Takes Spent (is_known_currency self code) 4
    unfolding is_known_currency
    is_known_currency-Takes code =
        Takes-bind Spent budget 4 0 _ _ list_currencies-Takes λ l. Takes-return Spent budget 0 _

  pub get_constraints-Takes :
      (self : ConstraintsService S D)
      → Takes Spent self.system_now 1
      → Takes Spent (get_constraints self) 1
  unfolding get_constraints today_iso_date
  get_constraints-Takes self clock =
      Takes-bind Spent budget 1 0 _ _
        (Takes-bind Spent budget 1 0 _ _ clock λ n. Takes-return Spent budget 0 _)
        λ today. Takes-return Spent budget 0 _

  -- Four for each code, one for the clock, and four for the rate.
  pub convert-Takes :
      (self : ConversionService S D)
      → IsTwoSteps Spent self.provider
      → IsTwoSteps Spent self.catalog.provider
      → IsCacheStep Spent self.catalog.cache
      → IsCacheStep Spent self.latest_rate_cache
      → Takes Spent self.constraints.system_now 1
      → (source target : Str) (amount : D) → Takes Spent (convert self source target amount) 13
  unfolding convert check_request apply_rate resolve_rate
  convert-Takes self fetch list_fetch list_steps steps clock source target amount =
      let known = is_known_currency-Takes self.catalog list_fetch list_steps in
      Takes-bind Spent budget 4 9 _ _ (known _) λ b. Takes-require Spent budget 9 b _ _ (
        Takes-bind Spent budget 4 5 _ _ (known _) λ b'. Takes-require Spent budget 5 b' _ _ (
          Takes-require Spent budget 5 _ _ _ (
            Takes-bind Spent budget 1 4 _ _ (get_constraints-Takes self.constraints clock) λ c.
              Takes-require Spent budget 4 _ _ _ (
                Takes-bind Spent budget 4 0 _ _
                  (resolved-Takes Spent budget self.latest_rate_cache _ _ steps (fetch.rate _ _))
                  λ r. Takes-return Spent budget 0 _))))

  pub get_history-Takes :
      (self : HistoryService S D)
      → IsTwoSteps Spent self.provider
      → IsTwoSteps Spent self.catalog.provider
      → IsCacheStep Spent self.catalog.cache
      → IsCacheStep Spent self.history_cache
      → Takes Spent self.constraints.system_now 1
      → (source target : Str) (range : DateRange)
      → Takes Spent (get_history self source target range) 13
  unfolding get_history check_range resolve_series
  get_history-Takes self fetch list_fetch list_steps steps clock source target range =
      let known = is_known_currency-Takes self.catalog list_fetch list_steps in
      Takes-bind Spent budget 4 9 _ _ (known _) λ b. Takes-require Spent budget 9 b _ _ (
        Takes-bind Spent budget 4 5 _ _ (known _) λ b'. Takes-require Spent budget 5 b' _ _ (
          Takes-bind Spent budget 1 4 _ _ (get_constraints-Takes self.constraints clock) λ c.
            Takes-require Spent budget 4 _ _ _
              (resolved-Takes Spent budget self.history_cache _ _ steps (fetch.series _ _ _))))
