-- ===== src/Server/Reference.antt =====
-- The server (backend/src/main.cpp) without caches, over an upstream service that is always reached and
-- on one day: what the server is compared to.
use currency_converter_demo.Base.{◌≡◌, ◌⊎◌, List, [], ◌∷◌, Str}
use currency_converter_demo.Exec.{Exec, Exception, ok}
use currency_converter_demo.Exec.Agreement.{ending}
use currency_converter_demo.External.Http.{Request}
use currency_converter_demo.External.Provider.{IExchangeRateProvider}
use currency_converter_demo.External.Frankfurter.{frankfurter_client, provider}
use currency_converter_demo.External.Fixed.{fixed_http, IsUnreached}
use currency_converter_demo.Application.Uncached.{constraints_on}
use currency_converter_demo.Grpc.{CurrencyServiceImpl, to_status}
use currency_converter_demo.Grpc.Agreeing.Methods.{uncached_service}
use currency_converter_demo.Server.{
  Outside, Settings, Rpc, listing, converting, charting, limits, Reply, listed, converted, charted,
  serve_by, no_conversion, no_history,
}

-- A call that failed for the exception: its status, and the response as gRPC handed it over. The
-- constraints need no upstream.
abbrev pub IsFailure : {D : Type 0} → D → Rpc D → Exception → Reply D → Type 0
IsFailure zero listing e reply = reply ≡ listed (to_status e, record { currencies = [] })
IsFailure zero (converting request) e reply = reply ≡ converted (to_status e, no_conversion zero)
IsFailure zero (charting request) e reply = reply ≡ charted (to_status e, no_history)
IsFailure zero limits e reply = ⊥

module _ {W D : Type 0} (page : Request → Str) (today : Str) (outside : Outside W D)
    (settings : Settings) where
  -- The client of an upstream service that is always reached and answers by `page`.
  abbrev pub fixed_client : IExchangeRateProvider (Unit {0}) D
  fixed_client =
      provider (fixed_http page outside.http) outside.json
        (frankfurter_client settings.external_api_base_url settings.external_api_timeout)

  abbrev pub fixed_service : CurrencyServiceImpl (Unit {0}) D
  fixed_service = uncached_service fixed_client (constraints_on outside.double today)

  -- A call of the service without caches.
  unfoldable pub fixed_serve : Rpc D → Exec (Unit {0}) (Reply D)
  unfolding serve_by
  fixed_serve = serve_by fixed_service (outside.double.of_hundredths 0)

  -- The reply is the one of the service without caches, or the failure of a try to reach upstream.
  abbrev pub IsSameReply : Rpc D → Reply D → Type 0
  IsSameReply call reply =
      (ending (fixed_serve call) ≡ ok reply)
      ⊎ ((e : Exception) × IsUnreached e × IsFailure (outside.double.of_hundredths 0) call e reply)

  -- One such reply for each call, in their order.
  abbrev pub AreSameReplies : List (Rpc D) → List (Reply D) → Type 0
  AreSameReplies [] [] = Unit
  AreSameReplies (call ∷ calls) (r ∷ rs) = IsSameReply call r × AreSameReplies calls rs
  AreSameReplies _ _ = ⊥
