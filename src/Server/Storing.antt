-- ===== src/Server/Storing.antt =====
-- What queries leave in the caches of the server (backend/src/main.cpp).
use currency_converter_demo.Base.{◌≡◌, refl, Str}
use currency_converter_demo.Exec.Runs.{Runs, Never, Runs-weaken}
use currency_converter_demo.Domain.{ExchangeRate}
use currency_converter_demo.Domain.DateRange.{DateRange}
use currency_converter_demo.Domain.TextUtil.{to_upper}
use currency_converter_demo.Cache.Invariant.{IsValid}
use currency_converter_demo.External.Observed.{Seen}
use currency_converter_demo.External.Service.{provider-IsProvider}
use currency_converter_demo.External.Provider.{Upstream, IsProvider}
use currency_converter_demo.Application.Listing.{IsCatalog, CatalogLaws, is_known_currency-Runs}
use currency_converter_demo.Application.Catalog.{is_known_currency}
use currency_converter_demo.Application.Conversion.{pair_key, convert}
use currency_converter_demo.Application.History.{history_key, get_history}
use currency_converter_demo.Application.Storing.{IsStore, get_history-Stored, convert-Stored}
use currency_converter_demo.Server.{
  Server, Outside, Settings, cached, currency_slot, history_slot, latest_rate_slot, conversion,
  on_world, world_http, client, catalog, history,
}
use currency_converter_demo.Server.Slots.{IsGood, tick-Runs, cached-IsCache, world_http-IsHttp}
use currency_converter_demo.Server.Calls.{upstream}
use currency_converter_demo.Server.Wiring.{OutsideLaws}
use currency_converter_demo.Server.Contents.{Contains, cached-IsStore}

module _ {W D : Type 0} (J : W → Type 0) (seen : Seen) (outside : Outside W D) (settings : Settings)
    (laws : OutsideLaws J seen outside) where
  abbrev up : Upstream D
  up = upstream seen outside settings

  -- The outside is as `J` says, the list of currencies that is cached is one that upstream gave, and
  -- the caches of the rates and the series are valid.
  pub record Works (s : Server W D) : Type 0 where
    pub world : J s.world
    pub currencies : IsGood (IsCatalog up.Listed) s.currency_cache
    pub rates : IsValid s.latest_rate_cache
    pub series : IsValid s.history_cache

  Works-changed : (s : Server W D) (w : W) → Works s → J w → Works (record s { world = w })
  Works-changed s w h j = record {
    world = j;
    currencies = h.currencies;
    rates = h.rates;
    series = h.series;
  }

  abbrev outer : (s : Server W D) → Works s → J s.world
  outer s h = h.world

  client-Works : IsProvider Works up (client outside settings)
  unfolding world_http
  client-Works =
      provider-IsProvider Works seen (world_http outside.http) outside.json _
        (world_http-IsHttp Works J outer Works-changed seen outside.http laws.http) laws.map

  catalog-Works : CatalogLaws Works up (catalog outside settings)
  catalog-Works = record {
    provider = client-Works;
    cache =
        cached-IsCache Works J outer Works-changed (IsCatalog up.Listed) currency_slot
          outside.steady_now
          (record {
            held = λ s h. h.currencies;
            stored = λ s c h g. record {
              world = h.world;
              currencies = g;
              rates = h.rates;
              series = h.series;
            };
          })
          laws.steady;
  }

  clock-Works : Runs Works (on_world outside.system_now) (λ n t. Works t) Never
  clock-Works =
      tick-Runs Works J outer Works-changed outside.system_now
        (Runs-weaken _ _ laws.system (λ n w p. p.0) (λ e w p. p))

  history-IsStore :
      IsStore Works (λ k l s. Contains k l s.history_cache) (cached outside.steady_now history_slot)
  history-IsStore =
      cached-IsStore Works J outer Works-changed history_slot outside.steady_now (λ s h. h.series)
        (λ s c h v. record {
          world = h.world;
          currencies = h.currencies;
          rates = h.rates;
          series = v;
        })
        (λ s c. refl) laws.steady

  rates-IsStore :
      IsStore Works
        (λ k r s. Contains k r s.latest_rate_cache)
        (cached outside.steady_now latest_rate_slot)
  rates-IsStore =
      cached-IsStore Works J outer Works-changed latest_rate_slot outside.steady_now
        (λ s h. h.rates)
        (λ s c h v. record {
          world = h.world;
          currencies = h.currencies;
          rates = v;
          series = h.series;
        })
        (λ s c. refl) laws.steady

  known-Works :
      (code : Str)
      → Runs Works
          (is_known_currency (catalog outside settings) code)
          (λ b t. Works t)
          (λ e t. Works t)
  known-Works code =
      Runs-weaken _ _
        (is_known_currency-Runs Works up (catalog outside settings) catalog-Works code)
        (λ b s p. p.0) (λ e s p. p.0)

  -- Let the HTTP client, the JSON reader and the clocks keep to their laws. Then every history query
  -- that succeeds leaves its answer in the history cache under the key of the query, and every query
  -- keeps what the service works by.
  pub get_history-Contains :
      (source target : Str) (range : DateRange)
      → Runs Works
          (get_history (history outside settings) source target range)
          (λ l t.
            Works t
            × Contains (history_key (to_upper source) (to_upper target) range) l t.history_cache)
          (λ e t. Works t)
  get_history-Contains source target range =
      get_history-Stored Works _ (history outside settings) history-IsStore source target range
        known-Works clock-Works
        (λ s t r. Runs-weaken _ _ (client-Works.history_keeps s t r) (λ l u p. p.0) (λ e u p. p.0))

  -- Let the HTTP client, the JSON reader and the clocks keep to their laws. Then every conversion that
  -- succeeds leaves a rate in the cache of the latest rates under the key of the pair, and this rate and
  -- its date are those of the result; and every conversion keeps what the service works by.
  pub convert-Contains :
      (source target : Str) (amount : D)
      → Runs Works
          (convert (conversion outside settings) source target amount)
          (λ result t.
            Works t
            × ((r : ExchangeRate D) × Contains
                  (pair_key (to_upper source) (to_upper target))
                  r
                  t.latest_rate_cache
                × (result.exchange_rate ≡ r.rate)
                × (result.rate_date ≡ r.date)))
          (λ e t. Works t)
  convert-Contains source target amount =
      convert-Stored Works _ (conversion outside settings) rates-IsStore source target amount
        known-Works clock-Works
        (λ s t. Runs-weaken _ _ (client-Works.latest_keeps s t) (λ r u p. p.0) (λ e u p. p.0))
