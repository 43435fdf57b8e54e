-- ===== src/Application/Transparency/Series.antt =====
-- `HistoryService` with its caches and without.
use currency_converter_demo.Base.{◌≡◌, refl, subst, List, Str, true}
use currency_converter_demo.Exec.{Exception, ok}
use currency_converter_demo.Exec.Agreement.{Agrees, ending, Agrees-require, Agrees-bind}
use currency_converter_demo.Domain.{ExchangeRate}
use currency_converter_demo.Domain.DateRange.{DateRange, is_iso_date}
use currency_converter_demo.Domain.TextUtil.{to_upper, to_upper_idem}
use currency_converter_demo.Cache.Interface.{IsCache}
use currency_converter_demo.External.Provider.{IExchangeRateProvider}
use currency_converter_demo.Application.Constraints.{get_constraints}
use currency_converter_demo.Application.Catalog.{is_known_currency}
use currency_converter_demo.Application.History.{
  HistoryService, history_key, resolve_series, check_range, get_history,
}
use currency_converter_demo.Application.Keys.{NoBar, history_key-injective}
use currency_converter_demo.Application.Uncached.{
  uncached_catalog, uncached_history, constraints_on,
}
use currency_converter_demo.Application.Transparency.{
  resolved-Agrees, CatalogTransparency, PlainList, known-NoBar, is_known_currency-Agrees,
}
use currency_converter_demo.Application.Transparency.Rates.{IsDay, get_constraints-Agrees}

-- The value is what a fetch answers for the query that the key names.
pub record IsFetchedSeries {D : Type 0} (q : IExchangeRateProvider (Unit {0}) D) (key : Str)
    (points : List (ExchangeRate D)) : Type 0 where
  pub source : Str
  pub target : Str
  pub range : DateRange
  pub named : key ≡ history_key source target range
  pub plain_source : NoBar source
  pub plain_target : NoBar target
  pub iso : is_iso_date range.start_date ≡ true
  pub fetched : ending (q.history source target range) ≡ ok points

pub record HistoryTransparency {S D : Type 0} (I : S → Type 0) (Excuse : Exception → Type 0)
    (self : HistoryService S D) (q : IExchangeRateProvider (Unit {0}) D) (today : Str)
    : Type 0 where
  pub catalog : CatalogTransparency I Excuse self.catalog q
  pub fetch :
      (source target : Str) (range : DateRange)
      → Agrees I Excuse (self.provider.history source target range) (q.history source target range)
  pub series : IsCache I (IsFetchedSeries q) self.history_cache
  pub day : IsDay I self.constraints today
  pub plain : PlainList q

same_query :
    {D : Type 0} (q : IExchangeRateProvider (Unit {0}) D) (source target : Str) (range : DateRange)
    (l : List (ExchangeRate D))
    → NoBar source
    → NoBar target
    → is_iso_date range.start_date ≡ true
    → IsFetchedSeries q (history_key source target range) l
    → ending (q.history source target range) ≡ ok l
same_query q source target range l p p' iso g =
    let (s, t, r) =
      history_key-injective source target g.source g.target range g.range p g.plain_source p'
        g.plain_target iso g.iso g.named in
    rw (s, t, r) g.fetched

module _ {S D : Type 0} (I : S → Type 0) (Excuse : Exception → Type 0) (self : HistoryService S D)
    (q : IExchangeRateProvider (Unit {0}) D) (today : Str)
    (laws : HistoryTransparency I Excuse self q today) where
  abbrev plainly : HistoryService (Unit {0}) D
  plainly = uncached_history q (constraints_on self.constraints.double today)

  check_range-Agrees :
      (source target : Str) (range : DateRange)
      → NoBar source
      → NoBar target
      → is_iso_date range.start_date ≡ true
      → Agrees I Excuse
          (check_range self source target range)
          (check_range plainly source target range)
  unfolding check_range resolve_series
  check_range-Agrees source target range p p' iso =
      Agrees-bind I Excuse _ (get_constraints plainly.constraints) _ _
        (get_constraints-Agrees I Excuse self.constraints today laws.day)
        λ c same. Agrees-require I Excuse _ _ _ _ λ fits.
          resolved-Agrees I Excuse (IsFetchedSeries q) self.history_cache
            (history_key source target range) _ (q.history source target range) laws.series
            (laws.fetch source target range) (λ l g. same_query q source target range l p p' iso g)
            (λ l e. record {
              source = source;
              target = target;
              range = range;
              named = refl;
              plain_source = p;
              plain_target = p';
              iso = iso;
              fetched = e;
            })

  -- Over caches of fetched values a query ends as one that fetches everything anew.
  pub get_history-Agrees :
      (source target : Str) (range : DateRange)
      → is_iso_date range.start_date ≡ true
      → Agrees I Excuse
          (get_history self source target range)
          (get_history plainly source target range)
  unfolding get_history
  get_history-Agrees source target range iso =
      let src = to_upper source in
      let tgt = to_upper target in
      let known = is_known_currency-Agrees I Excuse self.catalog q laws.catalog in
      Agrees-bind I Excuse _ (is_known_currency (uncached_catalog q) src) _ _ (known src) λ b found.
        Agrees-require I Excuse b _ _ _ λ yes.
          Agrees-bind I Excuse _ (is_known_currency (uncached_catalog q) tgt) _ _ (known tgt)
            λ b' found'. Agrees-require I Excuse b' _ _ _ λ yes'.
              check_range-Agrees src tgt range
                (subst NoBar (to_upper_idem source)
                  (known-NoBar q src laws.plain (rw (← yes) found)))
                (subst NoBar (to_upper_idem target)
                  (known-NoBar q tgt laws.plain (rw (← yes') found')))
                iso
