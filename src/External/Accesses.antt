-- ===== src/External/Accesses.antt =====
-- `FrankfurterClient`: the steps of the HTTP client that a call of it takes.
use currency_converter_demo.Base.{ℕ, ◌==◌, Bool, Str, Bool-cases, inl, inr}
use currency_converter_demo.Exec.Budget.{
  IsBudget, Takes, Takes-return, Takes-raise, Takes-lift, Takes-bind,
}
use currency_converter_demo.Domain.DateRange.{DateRange}
use currency_converter_demo.External.Http.{Poco, value, failed, Request, Response, Http}
use currency_converter_demo.External.Json.{Json}
use currency_converter_demo.External.Provider.{IExchangeRateProvider}
use currency_converter_demo.External.Frankfurter.{
  FrankfurterClient, escape, body_of, get, list_currencies, latest_rate, history, provider,
}

-- Each step of the client takes one.
pub record IsHttpStep {S : Type 0} (Spent : ℕ → S → S → Type 0) (http : Http S) : Type 0 where
  pub opening :
      (secure : Bool) (host : Str) (port : ℕ) → Takes Spent (http.open_session secure host port) 1
  pub exchanging : (r : Request) → Takes Spent (http.exchange r) 1

-- Each call of the provider takes two at most.
pub record IsTwoSteps {S D : Type 0} (Spent : ℕ → S → S → Type 0) (p : IExchangeRateProvider S D)
    : Type 0 where
  pub listing : Takes Spent p.list_currencies 2
  pub rate : (source target : Str) → Takes Spent (p.latest_rate source target) 2
  pub series :
      (source target : Str) (range : DateRange) → Takes Spent (p.history source target range) 2

module _ {S D : Type 0} (Spent : ℕ → S → S → Type 0) (budget : IsBudget Spent) (http : Http S)
    (json : Json D) (self : FrankfurterClient) (steps : IsHttpStep Spent http) where
  escape-Takes : {A : Type 0} (p : Poco A) → Takes Spent (escape p) 0
  unfolding escape
  escape-Takes (value a) = Takes-return Spent budget 0 a
  escape-Takes (failed t) = Takes-raise Spent budget 0 _

  body_of-Takes : (o : Poco Response) → Takes Spent (body_of http o) 0
  unfolding body_of
  body_of-Takes (failed t) = Takes-raise Spent budget 0 _
  body_of-Takes (value r) = elim (Bool-cases (r.status == 200)) [
    | inl fine ↦ rw (fine, body_of) (Takes-return Spent budget 0 r.body)
    | inr bad ↦ rw (bad, body_of) (Takes-raise Spent budget 0 _)
  ]

  get-Takes : (path : Str) → Takes Spent (get http self path) 2
  unfolding get
  get-Takes path = Takes-bind Spent budget 0 2 _ _ (escape-Takes _) λ uri.
      Takes-bind Spent budget 1 1 _ _ (steps.opening _ _ _) λ opened.
        Takes-bind Spent budget 0 1 _ _ (escape-Takes opened)
          λ session. Takes-bind Spent budget 1 0 _ _ (steps.exchanging _) body_of-Takes

  pub provider-IsTwoSteps : IsTwoSteps Spent (provider http json self)
  unfolding list_currencies latest_rate history
  provider-IsTwoSteps = record {
    listing = Takes-bind Spent budget 2 0 _ _ (get-Takes _) λ body. Takes-lift Spent budget 0 _;
    rate = λ s t. Takes-bind Spent budget 2 0 _ _ (get-Takes _) λ body. Takes-lift Spent budget 0 _;
    series =
        λ s t r. Takes-bind Spent budget 2 0 _ _ (get-Takes _) λ body. Takes-lift Spent budget 0 _;
  }
