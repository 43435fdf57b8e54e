-- ===== src/Application/Transparency/Rates.antt =====
-- `ConversionService` with its caches and without.
use currency_converter_demo.Base.{◌/◌, ◌≡◌, refl, sym, ap, subst, ◌∙◌, Str}
use currency_converter_demo.Exec.{Exception, ok, ◌>>=◌}
use currency_converter_demo.Exec.Runs.{Runs, Never, Runs-bind, Runs-return, Runs-weaken}
use currency_converter_demo.Exec.Agreement.{
  Agrees, ending, Agrees-return, Agrees-require, Agrees-bind,
}
use currency_converter_demo.Domain.{ExchangeRate}
use currency_converter_demo.Domain.TextUtil.{to_upper, to_upper_idem}
use currency_converter_demo.Double.{Double}
use currency_converter_demo.Cache.Interface.{IsCache}
use currency_converter_demo.External.Provider.{IExchangeRateProvider}
use currency_converter_demo.Application.Constraints.{
  ConstraintsService, get_constraints, today_iso_date,
}
use currency_converter_demo.Application.Catalog.{is_known_currency}
use currency_converter_demo.Application.Conversion.{
  ConversionService, pair_key, resolve_rate, apply_rate, check_request, convert,
}
use currency_converter_demo.Application.Keys.{NoBar, pair_key-injective}
use currency_converter_demo.Application.Uncached.{
  uncached_catalog, uncached_conversion, constraints_on,
}
use currency_converter_demo.Application.Transparency.{
  resolved-Agrees, CatalogTransparency, PlainList, known-NoBar, is_known_currency-Agrees,
}

-- The clock says one day.
abbrev pub IsDay : {S D : Type 0} → (S → Type 0) → ConstraintsService S D → Str → Type 0
IsDay I self today =
    Runs I self.system_now (λ n t. I t × (self.format_date (n / 86_400_000_000_000) ≡ today)) Never

today_ending :
    {D : Type 0} (double : Double D) (today : Str)
    → ending (today_iso_date (constraints_on double today)) ≡ ok today
unfolding today_iso_date ◌>>=◌
today_ending double today = refl

module _ {S D : Type 0} (I : S → Type 0) (Excuse : Exception → Type 0)
    (self : ConstraintsService S D) (today : Str) (day : IsDay I self today) where
  pub get_constraints-Agrees :
      Agrees I Excuse (get_constraints self) (get_constraints (constraints_on self.double today))
  unfolding get_constraints today_iso_date
  get_constraints-Agrees =
      Agrees-bind I Excuse _ (today_iso_date (constraints_on self.double today)) _ _
        (Runs-bind _ _ (Runs-weaken _ _ day (λ n s p. p) (λ e s p. absurd p))
          λ n. Runs-return _ λ s p. (p.0, today_ending self.double today ∙ ap ok (sym p.1)))
        λ day same. Agrees-return I Excuse _

-- The value is what a fetch answers for the pair that the key names.
pub record IsFetchedRate {D : Type 0} (q : IExchangeRateProvider (Unit {0}) D) (key : Str)
    (rate : ExchangeRate D) : Type 0 where
  pub source : Str
  pub target : Str
  pub named : key ≡ pair_key source target
  pub plain : NoBar source
  pub fetched : ending (q.latest_rate source target) ≡ ok rate

pub record ConversionTransparency {S D : Type 0} (I : S → Type 0) (Excuse : Exception → Type 0)
    (self : ConversionService S D) (q : IExchangeRateProvider (Unit {0}) D) (today : Str)
    : Type 0 where
  pub catalog : CatalogTransparency I Excuse self.catalog q
  pub fetch :
      (source target : Str)
      → Agrees I Excuse (self.provider.latest_rate source target) (q.latest_rate source target)
  pub rates : IsCache I (IsFetchedRate q) self.latest_rate_cache
  pub day : IsDay I self.constraints today
  pub plain : PlainList q

same_pair :
    {D : Type 0} (q : IExchangeRateProvider (Unit {0}) D) (source target : Str) (r : ExchangeRate D)
    → NoBar source
    → IsFetchedRate q (pair_key source target) r
    → ending (q.latest_rate source target) ≡ ok r
same_pair q source target r p g =
    let (s, t) = pair_key-injective source target g.source g.target p g.plain g.named in
    rw (s, t) g.fetched

module _ {S D : Type 0} (I : S → Type 0) (Excuse : Exception → Type 0)
    (self : ConversionService S D) (q : IExchangeRateProvider (Unit {0}) D) (today : Str)
    (laws : ConversionTransparency I Excuse self q today) where
  abbrev plainly : ConversionService (Unit {0}) D
  plainly = uncached_conversion q (constraints_on self.constraints.double today)

  resolve_rate-Agrees :
      (source target : Str)
      → NoBar source
      → Agrees I Excuse (resolve_rate self source target) (resolve_rate plainly source target)
  unfolding resolve_rate
  resolve_rate-Agrees source target p =
      resolved-Agrees I Excuse (IsFetchedRate q) self.latest_rate_cache (pair_key source target) _
        (q.latest_rate source target) laws.rates (laws.fetch source target)
        (λ r g. same_pair q source target r p g)
        (λ r e. record { source = source; target = target; named = refl; plain = p; fetched = e })

  check_request-Agrees :
      (source target : Str) (amount : D)
      → NoBar source
      → Agrees I Excuse
          (check_request self source target amount)
          (check_request plainly source target amount)
  unfolding check_request apply_rate
  check_request-Agrees source target amount p = Agrees-require I Excuse _ _ _ _ λ differ.
      Agrees-bind I Excuse _ (get_constraints plainly.constraints) _ _
        (get_constraints-Agrees I Excuse self.constraints today laws.day)
        λ c same. Agrees-require I Excuse _ _ _ _ λ fits.
          Agrees-bind I Excuse _ (resolve_rate plainly source target) _ _
            (resolve_rate-Agrees source target p) λ r fetched. Agrees-return I Excuse _

  -- Over caches of fetched values a conversion ends as one that fetches everything anew.
  pub convert-Agrees :
      (source target : Str) (amount : D)
      → Agrees I Excuse (convert self source target amount) (convert plainly source target amount)
  unfolding convert
  convert-Agrees source target amount =
      let src = to_upper source in
      let known = is_known_currency-Agrees I Excuse self.catalog q laws.catalog in
      Agrees-bind I Excuse _ (is_known_currency (uncached_catalog q) src) _ _ (known src) λ b found.
        Agrees-require I Excuse b _ _ _ λ yes.
          Agrees-bind I Excuse _ (is_known_currency (uncached_catalog q) (to_upper target)) _ _
            (known (to_upper target))
            λ b' found'. Agrees-require I Excuse b' _ _ _ λ yes'.
              check_request-Agrees src (to_upper target) amount (
                subst NoBar (to_upper_idem source)
                  (known-NoBar q src laws.plain (rw (← yes) found)))
