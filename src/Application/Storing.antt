-- ===== src/Application/Storing.antt =====
-- `HistoryService` and `ConversionService`: what they leave in their caches.
use currency_converter_demo.Base.{◌≡◌, refl, List, Option, some, none, Str}
use currency_converter_demo.Exec.{Exec, Exception, served, return, ◌>>=◌}
use currency_converter_demo.Exec.Runs.{
  Runs, Never, Runs-bind, Runs-return, Runs-require, Runs-weaken,
}
use currency_converter_demo.Domain.{ExchangeRate}
use currency_converter_demo.Domain.TextUtil.{to_upper}
use currency_converter_demo.Domain.DateRange.{DateRange}
use currency_converter_demo.Cache.Interface.{ICache}
use currency_converter_demo.Application.Bounds.{get_constraints-Runs}
use currency_converter_demo.Application.Catalog.{is_known_currency}
use currency_converter_demo.Application.Conversion.{
  ConversionService, pair_key, convert, check_request, apply_rate, resolve_rate,
}
use currency_converter_demo.Application.History.{
  HistoryService, history_key, resolve_series, check_range, get_history,
}

-- `Stored k v s`: the cache holds `v` under the key in the state `s`. It holds what a `get` answers,
-- and what a `put` was given.
abbrev pub Kept {ℓ} : {S V : Type 0} → (Str → V → S → Type ℓ) → Str → Option V → S → Type ℓ
Kept Stored k none t = Unit
Kept Stored k (some v) t = Stored k v t

pub record IsStore {S V : Type 0} (I : S → Type 0) (Stored : Str → V → S → Type 0) (c : ICache S V)
    : Type 0 where
  pub get_stores : (k : Str) → Runs I (c.get k) (λ o t. I t × Kept Stored k o t) Never
  pub put_stores : (k : Str) (v : V) → Runs I (c.put k v) (λ u t. I t × Stored k v t) Never

module _ {S V : Type 0} (I : S → Type 0) (Stored : Str → V → S → Type 0) where
  abbrev Failing : Exception → S → Type 0
  Failing e t = I t

  served-Stored :
      (k : Str) (o : Option V) (m : Exec S V)
      → Runs I m (λ v t. I t × Stored k v t) Failing
      → Runs (λ t. I t × Kept Stored k o t) (served o m) (λ v t. I t × Stored k v t) Failing
  unfolding served
  served-Stored k none m h = record { at = λ s p. h.at s p.0 }
  served-Stored k (some v) m h = Runs-return v λ s p. p

  -- What the services do for a key: to get it, or else to fetch its value and to put that.
  resolved-Stored :
      (c : ICache S V) (k : Str) (fetch : Exec S V)
      → IsStore I Stored c
      → Runs I fetch (λ v t. I t) Failing
      → Runs I
          (c.get k >>= λ o. served o (fetch >>= λ v. c.put k v >>= λ u. return v))
          (λ v t. I t × Stored k v t)
          Failing
  resolved-Stored c k fetch store fetched =
      Runs-bind _ _ (Runs-weaken _ _ (store.get_stores k) (λ o s p. p) (λ e s p. absurd p)) λ o.
        served-Stored k o _ (
          Runs-bind _ _ fetched λ v.
            Runs-bind _ _ (Runs-weaken _ _ (store.put_stores k v) (λ u s p. p) (λ e s p. absurd p))
              λ u. Runs-return v λ s p. p)

module _ {S D : Type 0} (I : S → Type 0) (Stored : Str → List (ExchangeRate D) → S → Type 0)
    (self : HistoryService S D) (store : IsStore I Stored self.history_cache) where
  -- Let the cache be a store, and let the other parts of the service keep the invariant. Then every
  -- query that succeeds leaves its answer in the cache under the key of the query.
  pub get_history-Stored :
      (source target : Str) (range : DateRange)
      → ((code : Str)
          → Runs I (is_known_currency self.catalog code) (λ b t. I t) (Failing I Stored))
      → Runs I self.constraints.system_now (λ n t. I t) Never
      → ((s t : Str) (r : DateRange)
          → Runs I (self.provider.history s t r) (λ l t. I t) (Failing I Stored))
      → Runs I
          (get_history self source target range)
          (λ l t. I t × Stored (history_key (to_upper source) (to_upper target) range) l t)
          (Failing I Stored)
  unfolding get_history check_range resolve_series
  get_history-Stored source target range known clock fetched =
      let k = history_key (to_upper source) (to_upper target) range in
      Runs-bind _ _ (known (to_upper source)) λ b.
        Runs-require b _ _ (λ f s i. i)
          λ yes. Runs-bind _ _ (known (to_upper target)) λ b'.
            Runs-require b' _ _ (λ f s i. i)
              λ yes'.
                Runs-bind {R = λ c t. I t} _ _
                  (Runs-weaken _ _
                    (get_constraints-Runs I (Failing I Stored) self.constraints clock)
                    (λ c s p. p.0) (λ e s p. p))
                  λ c.
                    Runs-require _ _ _ (λ f s i. i)
                      λ fits.
                        resolved-Stored I Stored self.history_cache k _ store
                          (fetched (to_upper source) (to_upper target) range)

module _ {S D : Type 0} (I : S → Type 0) (Stored : Str → ExchangeRate D → S → Type 0)
    (self : ConversionService S D) (store : IsStore I Stored self.latest_rate_cache) where
  -- The same for a conversion: it leaves the rate that it is by.
  pub convert-Stored :
      (source target : Str) (amount : D)
      → ((code : Str)
          → Runs I (is_known_currency self.catalog code) (λ b t. I t) (Failing I Stored))
      → Runs I self.constraints.system_now (λ n t. I t) Never
      → ((s t : Str) → Runs I (self.provider.latest_rate s t) (λ r t. I t) (Failing I Stored))
      → Runs I
          (convert self source target amount)
          (λ result t.
            I t
            × ((r : ExchangeRate D) × Stored (pair_key (to_upper source) (to_upper target)) r t
                × (result.exchange_rate ≡ r.rate)
                × (result.rate_date ≡ r.date)))
          (Failing I Stored)
  unfolding convert check_request apply_rate resolve_rate
  convert-Stored source target amount known clock fetched =
      let k = pair_key (to_upper source) (to_upper target) in
      Runs-bind _ _ (known (to_upper source)) λ b.
        Runs-require b _ _ (λ f s i. i)
          λ yes. Runs-bind _ _ (known (to_upper target)) λ b'.
            Runs-require b' _ _ (λ f s i. i)
              λ yes'.
                Runs-require _ _ _ (λ f s i. i)
                  λ differ.
                    Runs-bind {R = λ c t. I t} _ _
                      (Runs-weaken _ _
                        (get_constraints-Runs I (Failing I Stored) self.constraints clock)
                        (λ c s p. p.0) (λ e s p. p))
                      λ c.
                        Runs-require _ _ _ (λ f s i. i)
                          λ fits.
                            Runs-bind _ _
                              (resolved-Stored I Stored self.latest_rate_cache k _ store
                                (fetched (to_upper source) (to_upper target)))
                              λ r. Runs-return _ λ s p. (p.0, (r, p.1, refl, refl))
