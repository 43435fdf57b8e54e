-- ===== src/Grpc/Accesses.antt =====
-- `CurrencyServiceImpl`: what a method of it takes.
use currency_converter_demo.Base.{ℕ}
use currency_converter_demo.Exec.{Outcome, ok, throw, fault, Exec}
use currency_converter_demo.Exec.Budget.{IsBudget, Takes, Takes-return, Takes-bind, Takes-lift}
use currency_converter_demo.External.Accesses.{IsTwoSteps}
use currency_converter_demo.Application.Accesses.{
  IsCacheStep, list_currencies-Takes, convert-Takes, get_history-Takes, get_constraints-Takes,
}
use currency_converter_demo.Grpc.{
  CurrencyServiceImpl, ConvertRequest, HistoryRequest, caught, handle, list_currencies_rpc,
  convert_rpc, get_history_rpc, get_constraints_rpc, CurrencyListResponse, ConvertResponse,
  HistoryResponse, ConstraintsResponse,
}

module _ {S : Type 0} (Spent : ℕ → S → S → Type 0) where
  caught-Spent :
      {R : Type 0} (n : ℕ) (s : S) (response : R) (r : Outcome R × S)
      → Spent n s r.1
      → Spent n s (caught response r).1
  unfolding caught
  caught-Spent n s response (ok a, t) h = h
  caught-Spent n s response (throw e, t) h = h
  caught-Spent n s response (fault, t) h = h

  handle-Takes :
      {R : Type 0} (n : ℕ) (response : R) (work : Exec S R)
      → Takes Spent work n
      → Takes Spent (handle response work) n
  unfolding handle
  handle-Takes n response work h = record { at = λ s. caught-Spent n s response (work s) (h.at s) }

-- Each use that the objects of the service make of their caches and of the clock takes one, and each
-- call of a provider two.
pub record IsServiceStep {S D : Type 0} (Spent : ℕ → S → S → Type 0)
    (self : CurrencyServiceImpl S D) : Type 0 where
  pub listing : IsTwoSteps Spent self.catalog.provider
  pub lists : IsCacheStep Spent self.catalog.cache
  pub conversion : IsTwoSteps Spent self.conversion.provider
  pub conversion_listing : IsTwoSteps Spent self.conversion.catalog.provider
  pub conversion_lists : IsCacheStep Spent self.conversion.catalog.cache
  pub rates : IsCacheStep Spent self.conversion.latest_rate_cache
  pub conversion_clock : Takes Spent self.conversion.constraints.system_now 1
  pub history : IsTwoSteps Spent self.history.provider
  pub history_listing : IsTwoSteps Spent self.history.catalog.provider
  pub history_lists : IsCacheStep Spent self.history.catalog.cache
  pub series : IsCacheStep Spent self.history.history_cache
  pub history_clock : Takes Spent self.history.constraints.system_now 1
  pub clock : Takes Spent self.constraints.system_now 1

module _ {S D : Type 0} (Spent : ℕ → S → S → Type 0) (budget : IsBudget Spent)
    (self : CurrencyServiceImpl S D) (steps : IsServiceStep Spent self) where
  pub list_currencies_rpc-Takes :
      (response : CurrencyListResponse) → Takes Spent (list_currencies_rpc self response) 4
  unfolding list_currencies_rpc
  list_currencies_rpc-Takes response = handle-Takes Spent 4 response _ (
      Takes-bind Spent budget 4 0 _ _
        (list_currencies-Takes Spent budget self.catalog steps.listing steps.lists)
        λ l. Takes-return Spent budget 0 _)

  pub convert_rpc-Takes :
      (request : ConvertRequest D) (response : ConvertResponse D)
      → Takes Spent (convert_rpc self request response) 13
  unfolding convert_rpc
  convert_rpc-Takes request response = handle-Takes Spent 13 response _ (
      Takes-bind Spent budget 13 0 _ _
        (convert-Takes Spent budget self.conversion steps.conversion steps.conversion_listing
          steps.conversion_lists steps.rates steps.conversion_clock _ _ _)
        λ r. Takes-return Spent budget 0 _)

  pub get_history_rpc-Takes :
      (request : HistoryRequest) (response : HistoryResponse D)
      → Takes Spent (get_history_rpc self request response) 13
  unfolding get_history_rpc
  get_history_rpc-Takes request response = handle-Takes Spent 13 response _ (
      Takes-bind Spent budget 0 13 _ _ (Takes-lift Spent budget 0 _) λ range.
        Takes-bind Spent budget 13 0 _ _
          (get_history-Takes Spent budget self.history steps.history steps.history_listing
            steps.history_lists steps.series steps.history_clock _ _ range)
          λ l. Takes-return Spent budget 0 _)

  pub get_constraints_rpc-Takes :
      (response : ConstraintsResponse D) → Takes Spent (get_constraints_rpc self response) 1
  unfolding get_constraints_rpc
  get_constraints_rpc-Takes response = handle-Takes Spent 1 response _ (
      Takes-bind Spent budget 1 0 _ _
        (get_constraints-Takes Spent budget self.constraints steps.clock)
        λ c. Takes-return Spent budget 0 _)
