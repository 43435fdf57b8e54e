-- ===== src/Server/Holding.antt =====
-- The server (backend/src/main.cpp) while each of its caches holds only values that may be under their
-- keys: what its objects are then for the services.
use mathlib.Core.Option.{some-injective}
use currency_converter_demo.Base.{ℕ, ◌*◌, pos, subst, ◌≡◌, refl, Option, none, some, List, Str}
use currency_converter_demo.Exec.{Exec}
use currency_converter_demo.Exec.Runs.{Runs, Never}
use currency_converter_demo.Domain.{Currency, ExchangeRate}
use currency_converter_demo.Cache.Bounded.{Cache}
use currency_converter_demo.Cache.Interface.{IsCache}
use currency_converter_demo.Server.{
  Server, Settings, Slot, cached, currency_slot, latest_rate_slot, history_slot, start, assembled,
}
use currency_converter_demo.Server.Slots.{IsGood, init-IsGood, cached-IsCache}

module _ {W D : Type 0} (J : W → Type 0) (OfList : Str → List Currency → Type 0)
    (OfRate : Str → ExchangeRate D → Type 0) (OfSeries : Str → List (ExchangeRate D) → Type 0) where
  -- The caches are valid, and each value in them may be under its key.
  pub record Holding (s : Server W D) : Type 0 where
    pub world : J s.world
    pub currencies : IsGood OfList s.currency_cache
    pub rates : IsGood OfRate s.latest_rate_cache
    pub series : IsGood OfSeries s.history_cache

  pub changed : (s : Server W D) (w : W) → Holding s → J w → Holding (record s { world = w })
  changed s w h j = record {
    world = j;
    currencies = h.currencies;
    rates = h.rates;
    series = h.series;
  }

  abbrev pub outer : (s : Server W D) → Holding s → J s.world
  outer s h = h.world

  module _ (steady_now : Exec W ℕ) (clock : Runs J steady_now (λ n w. J w) Never) where
    abbrev IsSlotCache : {V : Type 0} → (Str → V → Type 0) → Slot W D V → Type 0
    IsSlotCache Genuine slot = IsCache Holding Genuine (cached steady_now slot)

    pub currency_slot-IsCache : IsSlotCache OfList currency_slot
    currency_slot-IsCache =
        cached-IsCache Holding J outer changed OfList currency_slot steady_now
          (record {
            held = λ s h. h.currencies;
            stored = λ s c h g. record {
              world = h.world;
              currencies = g;
              rates = h.rates;
              series = h.series;
            };
          })
          clock

    pub latest_rate_slot-IsCache : IsSlotCache OfRate latest_rate_slot
    latest_rate_slot-IsCache =
        cached-IsCache Holding J outer changed OfRate latest_rate_slot steady_now
          (record {
            held = λ s h. h.rates;
            stored = λ s c h g. record {
              world = h.world;
              currencies = h.currencies;
              rates = g;
              series = h.series;
            };
          })
          clock

    pub history_slot-IsCache : IsSlotCache OfSeries history_slot
    history_slot-IsCache =
        cached-IsCache Holding J outer changed OfSeries history_slot steady_now
          (record {
            held = λ s h. h.series;
            stored = λ s c h g. record {
              world = h.world;
              currencies = h.currencies;
              rates = h.rates;
              series = g;
            };
          })
          clock

  assembled-Holding :
      (world : W) (s : Server W D) (a : Option (Cache (List Currency)))
      (b : Option (Cache (ExchangeRate D))) (c : Option (Cache (List (ExchangeRate D))))
      → J world
      → ((x : _) → a ≡ some x → IsGood OfList x)
      → ((x : _) → b ≡ some x → IsGood OfRate x)
      → ((x : _) → c ≡ some x → IsGood OfSeries x)
      → assembled world a b c ≡ some s
      → Holding s
  assembled-Holding world s (some a) (some b) (some c) j p q r e =
      subst Holding (some-injective _ _ e)
        (record { world = j; currencies = p a refl; rates = q b refl; series = r c refl })
  assembled-Holding world s none b c j p q r e = cc
  assembled-Holding world s (some a) none c j p q r e = cc
  assembled-Holding world s (some a) (some b) none j p q r e = cc

  -- The caches are empty at the start.
  pub start-Holding :
      (settings : Settings) (world : W) (s : Server W D)
      → J world
      → start settings world ≡ some s
      → Holding s
  unfolding start
  start-Holding settings world s j e =
      assembled-Holding world s _ _ _ j (init-IsGood _ (pos (24 * 60)) 8)
        (init-IsGood _ settings.latest_rate_cache_max_age settings.latest_rate_cache_max_elements)
        (init-IsGood _ settings.history_cache_max_age settings.history_cache_max_elements) e
