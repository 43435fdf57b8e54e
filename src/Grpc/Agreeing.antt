-- ===== src/Grpc/Agreeing.antt =====
-- `handle` (backend/src/grpc/CurrencyServiceImpl.cpp) over work that agrees with a reference.
pub mod Methods
use currency_converter_demo.Base.{
  ◌≡◌, refl, ap, ◌⊎◌, inl, inr, List, [], ◌++◌, map, Str, ◌≢◌, subst, true,
}
use currency_converter_demo.Exec.{Exec, Exception, Outcome, ok, throw, fault, return, lift, ◌>>=◌}
use currency_converter_demo.Exec.Runs.{Runs, Never, Runs-weaken}
use currency_converter_demo.Exec.Agreement.{
  Agrees, ending, Agrees-lift, Agrees-map, Agrees-bind, ok-injective, throw-injective,
}
use currency_converter_demo.Domain.{Currency, ExchangeRate, Constraints}
use currency_converter_demo.Domain.DateRange.{DateRange, make, is_iso_date}
use currency_converter_demo.Domain.DateOrder.{Made, make-Made}
use currency_converter_demo.External.Provider.{IExchangeRateProvider}
use currency_converter_demo.Application.Catalog
use currency_converter_demo.Application.Conversion.{convert}
use currency_converter_demo.Application.History.{get_history}
use currency_converter_demo.Application.Constraints.{ConstraintsService, get_constraints}
use currency_converter_demo.Application.Uncached.{
  uncached_catalog, uncached_conversion, uncached_history, constraints_on,
}
use currency_converter_demo.Application.Transparency.{CatalogTransparency, list_currencies-Agrees}
use currency_converter_demo.Application.Transparency.Rates.{
  IsDay, get_constraints-Agrees, ConversionTransparency, convert-Agrees,
}
use currency_converter_demo.Application.Transparency.Series.{
  HistoryTransparency, get_history-Agrees,
}
use currency_converter_demo.Grpc.{
  CurrencyServiceImpl, currency_service_impl, Status, status, ok_code, to_status, caught, handle,
  ConvertRequest, ConvertResponse, HistoryRequest, HistoryResponse, CurrencyListResponse,
  ConstraintsResponse, currency_info, history_point, list_currencies_rpc, convert_rpc,
  get_history_rpc, get_constraints_rpc,
}
use currency_converter_demo.Grpc.Replies.{Replied, Runs-handle, convert_response}

-- The reply of the reference, or the status of an excused exception with the response as it was.
abbrev pub SameOr :
    {R : Type 0} → (Exception → Type 0) → R → Exec (Unit {0}) (Status × R) → Status × R → Type 0
SameOr Excuse response p reply =
    (ending p ≡ ok reply) ⊎ ((e : Exception) × Excuse e × (reply ≡ (to_status e, response)))

module _ {R : Type 0} (response : R) where
  caught-ok :
      (r : Outcome R × Unit {0}) (a : R)
      → r.0 ≡ ok a
      → (caught response r).0 ≡ ok (status ok_code [], a)
  unfolding caught
  caught-ok (ok b, u) a e = ap (λ x. ok (status ok_code [], x)) (ok-injective e)
  caught-ok (throw x, u) a e = cc
  caught-ok (fault, u) a e = cc

  caught-throw :
      (r : Outcome R × Unit {0}) (x : Exception)
      → r.0 ≡ throw x
      → (caught response r).0 ≡ ok (to_status x, response)
  unfolding caught
  caught-throw (ok b, u) x e = cc
  caught-throw (throw y, u) x e = ap (λ x. ok (to_status x, response)) (throw-injective e)
  caught-throw (fault, u) x e = cc

  Replied-SameOr :
      {S : Type 0} (I : S → Type 0) (Excuse : Exception → Type 0) (p : Exec (Unit {0}) R)
      (reply : Status × R) (t : S)
      → Replied
          (λ a t. I t × (ending p ≡ ok a))
          (λ e t. I t × ((ending p ≡ throw e) ⊎ Excuse e))
          response
          reply
          t
      → I t × SameOr Excuse response (handle response p) reply
  unfolding handle
  Replied-SameOr I Excuse p (st, a) t (inl h) =
      (h.1.0, inl (rw (h.0, caught-ok (p tt) a h.1.1) refl))
  Replied-SameOr I Excuse p (st, a) t (inr (e, (i, inl same), h, h')) =
      (i, inl (rw (h, h', caught-throw (p tt) e same) refl))
  Replied-SameOr I Excuse p (st, a) t (inr (e, (i, inr excused), h, h')) =
      (i, inr (e, excused, rw (h, h') refl))

  -- The rule for `handle`.
  pub handle-SameOr :
      {S : Type 0} (I : S → Type 0) (Excuse : Exception → Type 0) (m : Exec S R)
      (p : Exec (Unit {0}) R)
      → Agrees I Excuse m p
      → Runs I
          (handle response m)
          (λ reply t. I t × SameOr Excuse response (handle response p) reply)
          Never
  handle-SameOr I Excuse m p h =
      Runs-weaken _ _ (Runs-handle response m h) (Replied-SameOr I Excuse p) (λ e s f. f)
