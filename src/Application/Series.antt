-- ===== src/Application/Series.antt =====
-- `HistoryService` over any cache and any provider that keep to their laws.
use currency_converter_demo.Base.{
  ◌≡◌, refl, sym, subst, ◌⊎◌, inl, inr, ◌↔◌, true, false, List, Str, str_lt, bytes, arith,
}
use currency_converter_demo.Exec.{Exec, Exception, invalid_argument, currency_not_found}
use currency_converter_demo.Exec.Runs.{
  Runs, Never, Runs-bind, Runs-return, Runs-require, Runs-given, Runs-weaken,
}
use currency_converter_demo.Domain.{ExchangeRate, Constraints}
use currency_converter_demo.Domain.TextUtil.{to_upper, to_upper_idem}
use currency_converter_demo.Domain.DateRange.{DateRange, is_iso_date}
use currency_converter_demo.Cache.Interface.{IsCache, Runs-answered, Runs-get, Runs-put}
use currency_converter_demo.External.Provider.{Upstream, IsProvider, IsSeriesOf, IsFailure, Failed}
use currency_converter_demo.Application.Bounds.{declared, IsToday, get_constraints-IsToday}
use currency_converter_demo.Application.Constraints.{ConstraintsService}
use currency_converter_demo.Application.Catalog.{is_known_currency}
use currency_converter_demo.Application.History.{
  HistoryService, history_key, range_accepted, resolve_series, check_range, get_history,
}
use currency_converter_demo.Application.Keys.{NoBar, history_key-injective}
use currency_converter_demo.Application.Listing.{
  CatalogLaws, IsAnswer, is_known_currency-Runs, any-has_code,
}
use currency_converter_demo.Application.Rates.{PlainCodes}

-- The query that a key of the cache names, and what may be stored under it: the series that
-- upstream gave for just this query, of the pair, inside the range, in the order of its dates.
pub record IsCachedSeries {D : Type 0} (up : Upstream D) (key : Str)
    (points : List (ExchangeRate D)) : Type 0 where
  pub source : Str
  pub target : Str
  pub range : DateRange
  pub named : key ≡ history_key source target range
  pub plain_source : NoBar source
  pub plain_target : NoBar target
  pub iso : is_iso_date range.start_date ≡ true
  pub series : IsSeriesOf source target range.start_date range.end_date points
  pub charted : up.Charted source target range points

pub record HistoryLaws {S D : Type 0} (I : S → Type 0) (up : Upstream D) (self : HistoryService S D)
    : Type 0 where
  pub provider : IsProvider I up self.provider
  pub series : IsCache I (IsCachedSeries up) self.history_cache
  pub catalog : CatalogLaws I up self.catalog
  pub clock : Runs I self.constraints.system_now (λ n t. I t × up.Now n) Never
  pub plain : PlainCodes up.Listed

-- From the first date with data to a day.
abbrev pub IsSelectable : DateRange → Str → Type 0
IsSelectable range today =
    (str_lt range.start_date (bytes "1999-01-04") ≡ false) × (str_lt today range.end_date ≡ false)

-- The codes are listed, the range is selectable on the day of the clock, and the points are the series
-- that upstream gave for just this query, inside the range and in the order of their dates.
pub record IsHistory {S D : Type 0} (up : Upstream D) (self : ConstraintsService S D)
    (source target : Str) (range : DateRange) (points : List (ExchangeRate D)) : Type 0 where
  pub source_known : IsAnswer up.Listed source true
  pub target_known : IsAnswer up.Listed target true
  pub today : Str
  pub is_today : IsToday up.Now self today
  pub selectable : IsSelectable range today
  pub series : IsSeriesOf source target range.start_date range.end_date points
  pub charted : up.Charted source target range points

-- Why a query fails: a code is not listed; both are, and the range is not selectable on a day that
-- the clock has shown; or upstream failed.
abbrev pub HistoryRefusal :
    {S D : Type 0}
    → Upstream D
    → ConstraintsService S D
    → Str
    → Str
    → DateRange
    → Exception
    → Type 0
HistoryRefusal up self source target range (currency_not_found m) =
    IsAnswer up.Listed source false
    ⊎ (IsAnswer up.Listed source true × IsAnswer up.Listed target false)
HistoryRefusal up self source target range (invalid_argument m) =
    IsAnswer up.Listed source true
    × IsAnswer up.Listed target true
    × ((today : Str) × IsToday up.Now self today × (¬ IsSelectable range today))
HistoryRefusal up self source target range e = IsFailure up e

-- The entry that a key leads to is a series of the query that the key was made of.
same_query :
    {D : Type 0} (up : Upstream D) (l : List (ExchangeRate D)) (source target : Str)
    (range : DateRange)
    → NoBar source
    → NoBar target
    → is_iso_date range.start_date ≡ true
    → IsCachedSeries up (history_key source target range) l
    → IsSeriesOf source target range.start_date range.end_date l × up.Charted source target range l
same_query up l source target range p q iso g =
    let (s, t, r) =
      history_key-injective source target g.source g.target range g.range p g.plain_source q
        g.plain_target iso g.iso g.named in
    rw (s, t, r) (g.series, g.charted)

module _ {S D : Type 0} (I : S → Type 0) (up : Upstream D) (self : HistoryService S D)
    (laws : HistoryLaws I up self) where
  resolve_series-Runs :
      (source target : Str) (range : DateRange)
      → NoBar source
      → NoBar target
      → is_iso_date range.start_date ≡ true
      → Runs I
          (resolve_series self source target range)
          (λ l t.
            I t
            × IsSeriesOf source target range.start_date range.end_date l
            × up.Charted source target range l)
          (Failed I up)
  unfolding resolve_series
  resolve_series-Runs source target range p q iso =
      let key = history_key source target range in
      Runs-bind _ _ (Runs-get laws.series _ key) λ o.
        Runs-answered (IsCachedSeries up) key o _
          (λ l g s i. let h = same_query up l source target range p q iso g in (i, h.0, h.1))
          (Runs-bind _ _ (laws.provider.history_keeps source target range) λ l.
            Runs-given
              (IsSeriesOf source target range.start_date range.end_date l
                × up.Charted source target range l)
              _ _ (λ s h. (h.0, (h.1, h.2)))
              λ h.
                Runs-bind _ _
                  (Runs-put laws.series _ key l (record {
                    source = source;
                    target = target;
                    range = range;
                    named = refl;
                    plain_source = p;
                    plain_target = q;
                    iso = iso;
                    series = h.0;
                    charted = h.1;
                  }))
                  λ u. Runs-return l λ s i. (i, h.0, h.1))

  upstream_HistoryRefusal :
      (source target : Str) (range : DateRange) (e : Exception)
      → IsFailure up e
      → HistoryRefusal up self.constraints source target range e
  upstream_HistoryRefusal source target range (invalid_argument m) h = absurd h.0
  upstream_HistoryRefusal source target range (currency_not_found m) h = absurd h.0
  upstream_HistoryRefusal source target range e h = h

  abbrev Answers : Str → Str → DateRange → Exec S (List (ExchangeRate D)) → Type 0
  Answers source target range m =
      Runs I m (λ l t. I t × IsHistory up self.constraints source target range l)
        (λ e t. I t × HistoryRefusal up self.constraints source target range e)

  known-Runs :
      (source target : Str) (range : DateRange) (code : Str)
      → Runs I
          (is_known_currency self.catalog (to_upper code))
          (λ b t. I t × IsAnswer up.Listed (to_upper code) b)
          (λ e t. I t × HistoryRefusal up self.constraints source target range e)
  known-Runs source target range code =
      Runs-weaken _ _ (is_known_currency-Runs I up self.catalog laws.catalog (to_upper code))
        (λ b s p. subst (λ u. I s × IsAnswer up.Listed u b) (to_upper_idem code) p)
        (λ e s p. (p.0, upstream_HistoryRefusal source target range e p.1))

  IsSelectable-iff :
      (c : Constraints D) (today : Str) (range : DateRange)
      → c ≡ declared self.constraints today
      → (range_accepted c range ≡ true) ↔ IsSelectable range today
  unfolding range_accepted
  IsSelectable-iff c today range e = rw e (ground arith)

  listed-NoBar : (code : Str) → IsAnswer up.Listed code true → NoBar code
  listed-NoBar code (l, listed, filled, found) =
      any-has_code NoBar code l (laws.plain l listed) (sym found)

  check_range-Runs :
      (source target : Str) (range : DateRange)
      → is_iso_date range.start_date ≡ true
      → IsAnswer up.Listed source true
      → IsAnswer up.Listed target true
      → Answers source target range (check_range self source target range)
  unfolding check_range
  check_range-Runs source target range iso known known' =
      Runs-bind _ _ (get_constraints-IsToday I _ up.Now self.constraints laws.clock) λ c.
        Runs-given
          ((today : Str) × IsToday up.Now self.constraints today
            × (c ≡ declared self.constraints today))
          _ _ (λ s p. p)
          λ d.
            let accepted = IsSelectable-iff c d.0 range d.2 in
            Runs-require _ _ _ (λ out s i. (i, (known, known', (d.0, d.1, λ b. cc (accepted.1 b)))))
              λ fits.
                Runs-weaken _ _
                  (resolve_series-Runs source target range (listed-NoBar source known)
                    (listed-NoBar target known') iso)
                  (λ l s p. (
                    p.0,
                    record {
                      source_known = known;
                      target_known = known';
                      today = d.0;
                      is_today = d.1;
                      selectable = accepted.0 fits;
                      series = p.1;
                      charted = p.2;
                    },
                  ))
                  (λ e s p. (p.0, upstream_HistoryRefusal source target range e p.1))

  -- Over caches, a provider and a clock that keep to their laws, with codes free of the separator,
  -- and for a range whose start is an ISO date: from any state of the invariant every query ends,
  -- in a state of the invariant. It succeeds only with a series that upstream gave for just the
  -- pair and the range, also if it comes from the cache, and only for listed codes and a range
  -- from the first date with data on to no later than the day of a time that the clock has shown.
  -- It fails only if that is not so of the codes or the range, on such a day, with the exception
  -- for it, or by an upstream failure if a request to upstream has failed or upstream has given an
  -- empty list of currencies.
  pub get_history-Runs :
      (source target : Str) (range : DateRange)
      → is_iso_date range.start_date ≡ true
      → Answers (to_upper source) (to_upper target) range (get_history self source target range)
  unfolding get_history
  get_history-Runs source target range iso =
      let src = to_upper source in
      let tgt = to_upper target in
      Runs-bind _ _ (known-Runs src tgt range source) λ b.
        Runs-given (IsAnswer up.Listed src b) _ _ (λ s p. p)
          λ answer.
            Runs-require b _ _
              (λ no_source s i. (i, inl (subst (IsAnswer up.Listed src) no_source answer)))
              λ yes_source. Runs-bind _ _ (known-Runs src tgt range target) λ b'.
                Runs-given (IsAnswer up.Listed tgt b') _ _ (λ s p. p)
                  λ answer'.
                    Runs-require b' _ _
                      (λ no_target s i. (
                        i,
                        inr (
                          subst (IsAnswer up.Listed src) yes_source answer,
                          subst (IsAnswer up.Listed tgt) no_target answer',
                        ),
                      ))
                      λ yes_target.
                        check_range-Runs src tgt range iso
                          (subst (IsAnswer up.Listed src) yes_source answer)
                          (subst (IsAnswer up.Listed tgt) yes_target answer')
