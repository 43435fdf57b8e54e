-- ===== src/Server/Repeats.antt =====
-- Queries that are repeated while the caches still hold what they need (backend/src/main.cpp, with
-- the caches as `main` connects them).
use currency_converter_demo.Base.{
  ◌≡◌, ap, ◌≤◌, Option, some, List, Str, ℕ, false, inl, inr, Bool-cases, if_pos, str_dec,
}
use currency_converter_demo.Exec.{Exec}
use currency_converter_demo.Exec.Runs.{Runs, Never, Runs-bind}
use currency_converter_demo.Domain.{Currency, ExchangeRate}
use currency_converter_demo.Domain.DateRange.{DateRange}
use currency_converter_demo.Domain.TextUtil.{to_upper}
use currency_converter_demo.Cache.Bounded
use currency_converter_demo.Cache.Bounded.{Entry, Cache, is_expired}
use currency_converter_demo.Cache.Spec.{find, lru_get}
use currency_converter_demo.Cache.Invariant.{view, IsValid}
use currency_converter_demo.Cache.Nodes.{find_key}
use currency_converter_demo.Cache.Refinement.{get-Refines}
use currency_converter_demo.Cache.Expiry.{is_expired_mono}
use currency_converter_demo.Application.Hits.{IsHit, Refused, convert-hit, get_history-hit}
use currency_converter_demo.Application.Catalog.{cache_key}
use currency_converter_demo.Application.Conversion.{pair_key, convert}
use currency_converter_demo.Application.History.{history_key, get_history}
use currency_converter_demo.Server.{
  Server, Slot, Outside, Settings, cached, currency_slot, latest_rate_slot, history_slot,
  conversion, history,
}
use currency_converter_demo.Server.Slots.{Runs-on_world, tick-Runs}

-- A valid cache that holds `v` under the key, in an entry that is not past its age by the deadline.
pub record IsFresh {V : Type 0} (k : Str) (v : V) (deadline : ℕ) (c : Cache V) : Type 0 where
  pub valid : IsValid c
  pub entry : Entry V
  pub found : find k (view c.entries) ≡ some entry
  pub holds : entry.value ≡ v
  pub young : is_expired c.max_age deadline entry.inserted_at ≡ false

-- A `get` before the deadline answers the value, and the cache still holds it.
get-IsFresh :
    {V : Type 0} (k : Str) (v : V) (now deadline : ℕ) (c : Cache V)
    → now ≤ deadline
    → IsFresh k v deadline c
    → (r : Option V × Cache V) × (Bounded.get c now k ≡ some r)
      × (r.0 ≡ some v)
      × IsFresh k v deadline r.1
unfolding lru_get find
get-IsFresh k v now deadline c before f =
    let (r, ran, g) = get-Refines c now k f.valid in
    let young : is_expired c.max_age now f.entry.inserted_at ≡ false =
      elim (Bool-cases (is_expired c.max_age now f.entry.inserted_at)) [
        | inr fine ↦ fine
        | inl old ↦
            cc (is_expired_mono c.max_age now deadline f.entry.inserted_at before old, f.young)
      ] in
    (
      r,
      ran,
      rw (g.answer, lru_get, f.found, young) (ap some f.holds),
      record {
        valid = g.valid;
        entry = f.entry;
        found =
            rw (g.entries, lru_get, f.found, young)
              (if_pos (str_dec f.entry.key k) (find_key k (view c.entries) f.entry f.found) _ _);
        holds = f.holds;
        young = rw g.max_age f.young;
      },
    )

-- Where the invariant holds such a cache, and such a cache may be stored in the slot.
record FreshSlot {W D V : Type 0} (I : Server W D → Type 0) (k : Str) (v : V) (deadline : ℕ)
    (slot : Slot W D V) : Type 0 where
  held : (s : Server W D) → I s → IsFresh k v deadline (slot.read s)
  stored : (s : Server W D) (c : Cache V) → I s → IsFresh k v deadline c → I (slot.write c s)

module _ {W D : Type 0} (I : Server W D → Type 0) (J : W → Type 0) (deadline : ℕ)
    (outer : (s : Server W D) → I s → J s.world)
    (changed : (s : Server W D) (w : W) → I s → J w → I (record s { world = w })) where
  cached-IsHit :
      {V : Type 0} (k : Str) (v : V) (slot : Slot W D V) (steady_now : Exec W ℕ)
      → FreshSlot I k v deadline slot
      → Runs J steady_now (λ n w. J w × (n ≤ deadline)) Never
      → IsHit I (cached steady_now slot) k v
  unfolding cached
  cached-IsHit k v slot steady_now laws clock = record {
    answers =
        Runs-bind _ _ (Runs-on_world I J outer changed steady_now (λ n. n ≤ deadline) clock) λ now.
          record {
            at = λ s p.
                let (r, ran, answer, fresh) =
                  get-IsFresh k v now deadline (slot.read s) p.1 (laws.held s p.0) in
                rw ran (laws.stored s r.1 p.0 fresh, answer);
          };
  }

-- What is asked of the clocks until the deadline: they keep what is known of the outside, and no
-- reading is past the deadline.
pub record ClockLaws {W D : Type 0} (J : W → Type 0) (deadline : ℕ) (outside : Outside W D)
    : Type 0 where
  pub steady : Runs J outside.steady_now (λ n w. J w × (n ≤ deadline)) Never
  pub system : Runs J outside.system_now (λ n w. J w) Never

-- The caches hold the list of currencies and the rate under a key until the deadline, and the outside
-- is as `J` says.
pub record RateHeld {W D : Type 0} (J : W → Type 0) (deadline : ℕ) (l : List Currency) (k : Str)
    (r : ExchangeRate D) (s : Server W D) : Type 0 where
  pub world : J s.world
  pub currencies : IsFresh cache_key l deadline s.currency_cache
  pub rates : IsFresh k r deadline s.latest_rate_cache

-- The same for a series.
pub record SeriesHeld {W D : Type 0} (J : W → Type 0) (deadline : ℕ) (l : List Currency) (k : Str)
    (points : List (ExchangeRate D)) (s : Server W D) : Type 0 where
  pub world : J s.world
  pub currencies : IsFresh cache_key l deadline s.currency_cache
  pub series : IsFresh k points deadline s.history_cache

module _ {W D : Type 0} (J : W → Type 0) (deadline : ℕ) (outside : Outside W D)
    (settings : Settings) (laws : ClockLaws J deadline outside) (l : List Currency) where
  rate_changed :
      {k : Str} {v : ExchangeRate D} (s : Server W D) (w : W)
      → RateHeld J deadline l k v s
      → J w
      → RateHeld J deadline l k v (record s { world = w })
  rate_changed s w h j = record { world = j; currencies = h.currencies; rates = h.rates }

  rate_list :
      (k : Str) (v : ExchangeRate D)
      → FreshSlot (RateHeld J deadline l k v) cache_key l deadline currency_slot
  rate_list k v = record {
    held = λ s h. h.currencies;
    stored = λ s c h f. record { world = h.world; currencies = f; rates = h.rates };
  }

  rate_value :
      (k : Str) (v : ExchangeRate D)
      → FreshSlot (RateHeld J deadline l k v) k v deadline latest_rate_slot
  rate_value k v = record {
    held = λ s h. h.rates;
    stored = λ s c h f. record { world = h.world; currencies = h.currencies; rates = f };
  }

  -- While the server holds the list of currencies and the rate of the pair, a conversion of the pair
  -- is served from its caches: whatever is known of the outside and kept by the clocks still holds,
  -- such as the number of requests that were made, so that none is made. The result is by the rate
  -- that is held, a failure is a refusal of the request, and the server goes on to hold both.
  pub convert-RateHeld :
      (source target : Str) (amount : D) (r : ExchangeRate D)
      → let Held = RateHeld J deadline l (pair_key (to_upper source) (to_upper target)) r in
        Runs Held
          (convert (conversion outside settings) source target amount)
          (λ result t.
            Held t
            × (result ≡ record {
              source_amount = amount;
              converted_amount = outside.double.mul amount r.rate;
              exchange_rate = r.rate;
              rate_date = r.date;
            }))
          (Refused Held)
  convert-RateHeld source target amount r =
      let k = pair_key (to_upper source) (to_upper target) in
      let Held = RateHeld J deadline l k r in
      let outer = λ (s : Server W D) (h : Held s). h.world in
      let changed = rate_changed {k = k} {v = r} in
      convert-hit Held (conversion outside settings) source target amount l r
        (cached-IsHit Held J deadline outer changed cache_key l currency_slot outside.steady_now
          (rate_list k r) laws.steady)
        (cached-IsHit Held J deadline outer changed k r latest_rate_slot outside.steady_now
          (rate_value k r) laws.steady)
        (tick-Runs Held J outer changed outside.system_now laws.system)

  series_changed :
      {k : Str} {v : List (ExchangeRate D)} (s : Server W D) (w : W)
      → SeriesHeld J deadline l k v s
      → J w
      → SeriesHeld J deadline l k v (record s { world = w })
  series_changed s w h j = record { world = j; currencies = h.currencies; series = h.series }

  series_list :
      (k : Str) (v : List (ExchangeRate D))
      → FreshSlot (SeriesHeld J deadline l k v) cache_key l deadline currency_slot
  series_list k v = record {
    held = λ s h. h.currencies;
    stored = λ s c h f. record { world = h.world; currencies = f; series = h.series };
  }

  series_value :
      (k : Str) (v : List (ExchangeRate D))
      → FreshSlot (SeriesHeld J deadline l k v) k v deadline history_slot
  series_value k v = record {
    held = λ s h. h.series;
    stored = λ s c h f. record { world = h.world; currencies = h.currencies; series = f };
  }

  -- While the server holds the list of currencies and the series of a query, the query is served from
  -- its caches: whatever is known of the outside and kept by the clocks still holds, such as the
  -- number of requests that were made, so that none is made. The answer is the series that is held, a
  -- failure is a refusal of the request, and the server goes on to hold both.
  pub get_history-SeriesHeld :
      (source target : Str) (range : DateRange) (points : List (ExchangeRate D))
      → let Held =
          SeriesHeld J deadline l (history_key (to_upper source) (to_upper target) range) points in
        Runs Held
          (get_history (history outside settings) source target range)
          (λ answer t. Held t × (answer ≡ points))
          (Refused Held)
  get_history-SeriesHeld source target range points =
      let k = history_key (to_upper source) (to_upper target) range in
      let Held = SeriesHeld J deadline l k points in
      let outer = λ (s : Server W D) (h : Held s). h.world in
      let changed = series_changed {k = k} {v = points} in
      get_history-hit Held (history outside settings) source target range l points
        (cached-IsHit Held J deadline outer changed cache_key l currency_slot outside.steady_now
          (series_list k points) laws.steady)
        (cached-IsHit Held J deadline outer changed k points history_slot outside.steady_now
          (series_value k points) laws.steady)
        (tick-Runs Held J outer changed outside.system_now laws.system)
