-- ===== src/Application/Transparency.antt =====
-- The services with caches against the services without: a cache that holds only what upstream would
-- answer makes no difference.
pub mod Rates
pub mod Series
use currency_converter_demo.Base.{
  ◌≡◌, refl, sym, ap, subst, ◌∙◌, ◌⊎◌, inl, inr, Bool, true, false, not, Option, none, some, List,
  [], ◌∷◌, any, All, Str,
}
use currency_converter_demo.Exec.{
  Exception, Outcome, ok, throw, fault, Exec, return, served, require, continue, ◌>>=◌,
}
use currency_converter_demo.Exec.Runs.{Runs, Never, Runs-bind, Runs-return, Runs-given, Runs-weaken}
use currency_converter_demo.Exec.Agreement.{
  Agrees, ending, ending-ok, ending-throw, ending-returned, Agrees-return, Agrees-raise,
  Agrees-require, Agrees-bind, Agrees-same, ok-injective,
}
use currency_converter_demo.Domain.{Currency, ExchangeRate}
use currency_converter_demo.Domain.TextUtil.{to_upper}
use currency_converter_demo.Domain.DateRange.{DateRange, is_iso_date}
use currency_converter_demo.Cache.Interface.{
  ICache, IsCache, Answer, Runs-answered, Runs-get, Runs-put,
}
use currency_converter_demo.External.Provider.{IExchangeRateProvider}
use currency_converter_demo.Application.Catalog.{
  CurrencyCatalogService, cache_key, has_code, is_empty, store_currencies, list_currencies,
  is_known_currency,
}
use currency_converter_demo.Application.Keys.{NoBar, pair_key-injective, history_key-injective}
use currency_converter_demo.Application.Listing.{any-has_code}
use currency_converter_demo.Application.Uncached.{no_cache, uncached_catalog}

-- To get a value from a cache, or else to fetch it and to put it there.
abbrev pub resolved : {S V : Type 0} → ICache S V → Str → Exec S V → Exec S V
resolved c k fetch = c.get k >>= λ o. served o (fetch >>= λ v. c.put k v >>= λ u. return v)

put_nothing :
    {V : Type 0} (r : Outcome V × Unit {0}) (k : Str)
    → (continue r (λ v. no_cache.put k v >>= λ u. return v)).0 ≡ r.0
unfolding no_cache ◌>>=◌
put_nothing (ok v, u) k = refl
put_nothing (throw e, u) k = refl
put_nothing (fault, u) k = refl

-- Without a cache this is to fetch it.
resolved-no_cache :
    {V : Type 0} (k : Str) (fetch : Exec (Unit {0}) V)
    → ending (resolved no_cache k fetch) ≡ ending fetch
unfolding no_cache ◌>>=◌ served
resolved-no_cache k fetch = put_nothing (fetch tt) k

module _ {S : Type 0} (I : S → Type 0) (Excuse : Exception → Type 0) where
  -- A cache that holds just what the reference fetches.
  pub resolved-Agrees :
      {V : Type 0} (Genuine : Str → V → Type 0) (c : ICache S V) (k : Str) (fetch : Exec S V)
      (p : Exec (Unit {0}) V)
      → IsCache I Genuine c
      → Agrees I Excuse fetch p
      → ((v : V) → Genuine k v → ending p ≡ ok v)
      → ((v : V) → ending p ≡ ok v → Genuine k v)
      → Agrees I Excuse (resolved c k fetch) (resolved no_cache k p)
  resolved-Agrees Genuine c k fetch p laws fetched sound complete =
      Agrees-same I Excuse _ p (resolved no_cache k p) (sym (resolved-no_cache k p)) (
        Runs-bind _ _ (Runs-get laws _ k) λ o.
          Runs-answered Genuine k o _ (λ v g s i. (i, sound v g))
            (Runs-bind _ _ fetched λ v.
              Runs-given (ending p ≡ ok v) _ _ (λ s i. i)
                λ same.
                  Runs-bind _ _ (Runs-put laws _ k v (complete v same))
                    λ u. Runs-return v λ s i. (i, same)))

-- A provider against one without a state.
pub record IsProviderOf {S D : Type 0} (I : S → Type 0) (Excuse : Exception → Type 0)
    (p : IExchangeRateProvider S D) (q : IExchangeRateProvider (Unit {0}) D) : Type 0 where
  pub list_agrees : Agrees I Excuse p.list_currencies q.list_currencies
  pub latest_agrees :
      (source target : Str)
      → Agrees I Excuse (p.latest_rate source target) (q.latest_rate source target)
  pub history_agrees :
      (source target : Str) (range : DateRange)
      → Agrees I Excuse (p.history source target range) (q.history source target range)

module _ {D : Type 0} (q : IExchangeRateProvider (Unit {0}) D) where
  -- What a fetch over the provider answers. This may be in the cache of the currencies under any key.
  abbrev pub IsFetchedList : Str → List Currency → Type 0
  IsFetchedList k l = ending (list_currencies (uncached_catalog q)) ≡ ok l

  listed_ending :
      (l : List Currency)
      → ending q.list_currencies ≡ ok l
      → not (is_empty l) ≡ true
      → IsFetchedList cache_key l
  unfolding list_currencies store_currencies no_cache require served ◌>>=◌
  listed_ending l e filled =
      ending-ok q.list_currencies (store_currencies (uncached_catalog q)) l (ok l) e
        (rw filled refl)

  missed :
      ending (q.list_currencies >>= store_currencies (uncached_catalog q))
      ≡ ending (list_currencies (uncached_catalog q))
  unfolding list_currencies no_cache served ◌>>=◌
  missed = refl

  -- No code that is listed has the separator of the keys.
  abbrev pub PlainList : Type 0
  PlainList = (l : List Currency) → IsFetchedList cache_key l → All (λ c. NoBar c.code) l

  pub known-NoBar :
      (code : Str)
      → PlainList
      → ending (is_known_currency (uncached_catalog q) code) ≡ ok true
      → NoBar (to_upper code)
  unfolding is_known_currency return
  known-NoBar code plain e =
      let (l, listed, found) =
        ending-returned (list_currencies (uncached_catalog q))
          (λ l. return (any (has_code (to_upper code)) l)) true e in
      any-has_code NoBar (to_upper code) l (plain l listed) (ok-injective found)

pub record CatalogTransparency {S D : Type 0} (I : S → Type 0) (Excuse : Exception → Type 0)
    (self : CurrencyCatalogService S D) (q : IExchangeRateProvider (Unit {0}) D) : Type 0 where
  pub provider : IsProviderOf I Excuse self.provider q
  pub cache : IsCache I (IsFetchedList q) self.cache

module _ {S D : Type 0} (I : S → Type 0) (Excuse : Exception → Type 0)
    (self : CurrencyCatalogService S D) (q : IExchangeRateProvider (Unit {0}) D)
    (laws : CatalogTransparency I Excuse self q) where
  store_currencies-Agrees :
      (l : List Currency)
      → ending q.list_currencies ≡ ok l
      → Agrees I Excuse (store_currencies self l) (store_currencies (uncached_catalog q) l)
  unfolding store_currencies no_cache
  store_currencies-Agrees l e = Agrees-require I Excuse (not (is_empty l)) _ _ _ λ filled.
      Runs-bind _ _ (Runs-put laws.cache _ cache_key l (listed_ending q l e filled))
        λ u. Runs-return l λ s i. (i, ending-ok (return tt) (λ u. return l) tt (ok l) refl refl)

  fetched-Agrees :
      Agrees I Excuse
        (self.provider.list_currencies >>= store_currencies self)
        (q.list_currencies >>= store_currencies (uncached_catalog q))
  fetched-Agrees =
      Agrees-bind I Excuse _ q.list_currencies _ (store_currencies (uncached_catalog q))
        laws.provider.list_agrees store_currencies-Agrees

  pub list_currencies-Agrees :
      Agrees I Excuse (list_currencies self) (list_currencies (uncached_catalog q))
  unfolding list_currencies
  list_currencies-Agrees = Runs-bind _ _ (Runs-get laws.cache _ cache_key) λ o.
      Runs-answered (IsFetchedList q) cache_key o _ (λ l same s i. (i, same))
        (Agrees-same I Excuse _ (q.list_currencies >>= store_currencies (uncached_catalog q))
          (list_currencies (uncached_catalog q)) (missed q) fetched-Agrees)

  pub is_known_currency-Agrees :
      (code : Str)
      → Agrees I Excuse (is_known_currency self code) (is_known_currency (uncached_catalog q) code)
  unfolding is_known_currency
  is_known_currency-Agrees code =
      Agrees-bind I Excuse _ (list_currencies (uncached_catalog q)) _
        (λ l. return (any (has_code (to_upper code)) l)) list_currencies-Agrees
        λ l same. Agrees-return I Excuse _
