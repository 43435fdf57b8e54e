-- ===== src/Server/Sharing.antt =====
-- The server with several calls at a time: gRPC runs each call on a thread of its own, and all of them
-- share the caches and the client of `main` (backend/src/main.cpp).
--
-- For one call the other threads are what happens to the state between its own accesses. An access is a
-- method of a cache, which holds the cache's mutex, a step of the HTTP client, or a reading of the
-- clock. Before each, the others change the state by the next of a list of functions, one for all that
-- they do in the meantime; once the list is used up they are idle.
use currency_converter_demo.Base.{Option, some, List, [], ◌∷◌}
use currency_converter_demo.Exec.{Exec, Outcome}
use currency_converter_demo.Cache.Interface.{ICache}
use currency_converter_demo.External.Http.{Http}
use currency_converter_demo.External.Provider.{IExchangeRateProvider}
use currency_converter_demo.External.Frankfurter.{frankfurter_client, provider}
use currency_converter_demo.Application.Constraints.{ConstraintsService}
use currency_converter_demo.Application.Catalog.{CurrencyCatalogService, currency_catalog_service}
use currency_converter_demo.Application.Conversion.{conversion_service}
use currency_converter_demo.Application.History.{history_service}
use currency_converter_demo.Grpc.{CurrencyServiceImpl, currency_service_impl}
use currency_converter_demo.Server.{
  Server, Outside, Settings, on_world, cached, currency_slot, latest_rate_slot, history_slot,
  world_http, Rpc, Reply, serve_by,
}

-- The state, what the others are still to do, and the state after the access at which the last of that
-- was done, once it is reached.
pub record Shared (S : Type 0) : Type 0 where
  pub state : S
  pub others : List (S → S)
  pub reached : Option S

module _ {S : Type 0} where
  -- The others act before an access.
  unfoldable pub others_act : S → List (S → S) → S
  others_act s [] = s
  others_act s (f ∷ rest) = f s

  unfoldable pub still_to_act : List (S → S) → List (S → S)
  still_to_act [] = []
  still_to_act (f ∷ rest) = rest

  -- What is reached after an access that ends in `s`.
  unfoldable pub reached_by : List (S → S) → Option S → S → Option S
  reached_by [] reached s = reached
  reached_by (f ∷ []) reached s = some s
  reached_by (f ∷ g ∷ rest) reached s = reached

  abbrev pub back : {A : Type 0} → Shared S → Outcome A × S → Outcome A × Shared S
  back t r = (
    r.0,
    record {
      state = r.1;
      others = still_to_act t.others;
      reached = reached_by t.others t.reached r.1;
    },
  )

  -- An access amid the others.
  unfoldable pub amid : {A : Type 0} → Exec S A → Exec (Shared S) A
  unfolding others_act still_to_act reached_by
  amid m t = back t (m (others_act t.state t.others))

  unfoldable pub amid_cache : {V : Type 0} → ICache S V → ICache (Shared S) V
  unfolding amid
  amid_cache c = record { get = λ k. amid (c.get k); put = λ k v. amid (c.put k v) }

  unfoldable pub amid_http : Http S → Http (Shared S)
  unfolding amid
  amid_http http = record {
    parse_uri = http.parse_uri;
    open_session = λ secure host port. amid (http.open_session secure host port);
    exchange = λ request. amid (http.exchange request);
    show = http.show;
  }

-- The objects of `main`, as a call sees them.
module _ {W D : Type 0} (outside : Outside W D) (settings : Settings) where
  abbrev pub shared_client : IExchangeRateProvider (Shared (Server W D)) D
  shared_client =
      provider (amid_http (world_http outside.http)) outside.json
        (frankfurter_client settings.external_api_base_url settings.external_api_timeout)

  abbrev pub shared_catalog : CurrencyCatalogService (Shared (Server W D)) D
  shared_catalog =
      currency_catalog_service shared_client (amid_cache (cached outside.steady_now currency_slot))

  abbrev pub shared_constraints : ConstraintsService (Shared (Server W D)) D
  shared_constraints = record {
    double = outside.double;
    system_now = amid (on_world outside.system_now);
    format_date = outside.format_date;
  }

  abbrev pub shared_service : CurrencyServiceImpl (Shared (Server W D)) D
  shared_service =
      currency_service_impl shared_catalog
        (conversion_service shared_client (amid_cache (cached outside.steady_now latest_rate_slot))
          shared_catalog shared_constraints)
        (history_service shared_client (amid_cache (cached outside.steady_now history_slot))
          shared_catalog shared_constraints)
        shared_constraints

  unfoldable pub serve_amid : Rpc D → Exec (Shared (Server W D)) (Reply D)
  unfolding serve_by
  serve_amid = serve_by shared_service (outside.double.of_hundredths 0)
