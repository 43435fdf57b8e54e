-- ===== src/Application/Rates.antt =====
-- `ConversionService` over any cache and any provider that keep to their laws.
use mathlib.Core.Path.{ap₂}
use currency_converter_demo.Base.{
  ◌↔◌, ◌≡◌, refl, sym, subst, ◌≢◌, ◌⊎◌, inl, inr, true, false, List, All, Str, arith,
}
use currency_converter_demo.Exec.{Exec, Exception, invalid_argument, currency_not_found}
use currency_converter_demo.Exec.Runs.{
  Runs, Never, Runs-bind, Runs-return, Runs-require, Runs-given, Runs-weaken,
}
use currency_converter_demo.Domain.{Currency, ExchangeRate, ConversionResult, Constraints}
use currency_converter_demo.Domain.TextUtil.{to_upper, to_upper_idem}
use currency_converter_demo.Cache.Interface.{IsCache, Runs-answered, Runs-get, Runs-put}
use currency_converter_demo.External.Provider.{Upstream, IsProvider, IsRateOf, IsFailure, Failed}
use currency_converter_demo.Application.Constraints.{ConstraintsService, min_amount, max_amount}
use currency_converter_demo.Application.Catalog.{is_known_currency}
use currency_converter_demo.Application.Conversion.{
  ConversionService, pair_key, same_code, amount_accepted, resolve_rate, apply_rate, check_request,
  convert,
}
use currency_converter_demo.Application.Bounds.{declared, IsToday, get_constraints-IsToday}
use currency_converter_demo.Application.Keys.{NoBar, pair_key-injective}
use currency_converter_demo.Application.Listing.{
  CatalogLaws, IsAnswer, is_known_currency-Runs, any-has_code,
}

-- What may be stored under a key of the rates' cache: a rate that upstream gave for just the pair that
-- the key names.
abbrev pub IsCachedRate : {D : Type 0} → Upstream D → Str → ExchangeRate D → Type 0
IsCachedRate up key r = (key ≡ pair_key r.base r.quote) × NoBar r.base × up.Quoted r.base r.quote r

-- Every currency code is free of the separator of the keys.
abbrev pub PlainCodes : (List Currency → Type 0) → Type 0
PlainCodes Listed = (l : List Currency) → Listed l → All (λ c. NoBar c.code) l

pub record ConversionLaws {S D : Type 0} (I : S → Type 0) (up : Upstream D)
    (self : ConversionService S D) : Type 0 where
  pub provider : IsProvider I up self.provider
  pub rates : IsCache I (IsCachedRate up) self.latest_rate_cache
  pub catalog : CatalogLaws I up self.catalog
  pub clock : Runs I self.constraints.system_now (λ n t. I t × up.Now n) Never
  pub plain : PlainCodes up.Listed

-- A finite amount inside the declared bounds.
abbrev pub InBounds : {S D : Type 0} → ConstraintsService S D → D → Type 0
InBounds c amount =
    (c.double.is_finite amount ≡ true)
    × (c.double.lt amount (min_amount c) ≡ false)
    × (c.double.gt amount (max_amount c) ≡ false)

-- The codes are listed and differ, the amount is in its bounds, and the result is the amount times a
-- rate that upstream gave for just this pair, with that rate and its date.
pub record IsConverted {S D : Type 0} (up : Upstream D) (self : ConversionService S D)
    (source target : Str) (amount : D) (result : ConversionResult D) : Type 0 where
  pub source_known : IsAnswer up.Listed source true
  pub target_known : IsAnswer up.Listed target true
  pub differ : source ≢ target
  pub bounds : InBounds self.constraints amount
  pub rate : ExchangeRate D
  pub of_pair : IsRateOf source target rate
  pub quoted : up.Quoted source target rate
  pub computed : result ≡ record {
    source_amount = amount;
    converted_amount = self.constraints.double.mul amount rate.rate;
    exchange_rate = rate.rate;
    rate_date = rate.date;
  }

-- Why a conversion fails: a code is not listed (`CurrencyNotFoundException`); both are, and they
-- are equal or the amount is out of its bounds (`InvalidArgumentException`); or upstream failed,
-- or gave an empty list.
abbrev pub Refusal :
    {S D : Type 0} → Upstream D → ConversionService S D → Str → Str → D → Exception → Type 0
Refusal up self source target amount (currency_not_found m) =
    IsAnswer up.Listed source false
    ⊎ (IsAnswer up.Listed source true × IsAnswer up.Listed target false)
Refusal up self source target amount (invalid_argument m) =
    IsAnswer up.Listed source true
    × IsAnswer up.Listed target true
    × ((source ≡ target) ⊎ ((source ≢ target) × (¬ InBounds self.constraints amount)))
Refusal up self source target amount e = IsFailure up e

module _ {S D : Type 0} (I : S → Type 0) (up : Upstream D) (self : ConversionService S D)
    (laws : ConversionLaws I up self) where
  -- The rate of a pair is a rate of that pair, also if it comes from the cache.
  resolve_rate-Runs :
      (source target : Str)
      → NoBar source
      → Runs I
          (resolve_rate self source target)
          (λ r t. I t × IsRateOf source target r × up.Quoted source target r)
          (Failed I up)
  unfolding resolve_rate
  resolve_rate-Runs source target p =
      Runs-bind _ _ (Runs-get laws.rates _ (pair_key source target)) λ o.
        Runs-answered (IsCachedRate up) (pair_key source target) o _
          (λ r g s i.
            let (same_base, same_quote) =
              pair_key-injective source target r.base r.quote p g.1 g.0 in
            (i, (sym same_base, sym same_quote), rw (same_base, same_quote) g.2))
          (Runs-bind _ _ (laws.provider.latest_keeps source target) λ r.
            Runs-given (IsRateOf source target r × up.Quoted source target r) _ _
              (λ s h. (h.0, (h.1, h.2)))
              λ h.
                Runs-bind _ _
                  (Runs-put laws.rates _ (pair_key source target) r (
                    ap₂ pair_key (sym h.0.0) (sym h.0.1),
                    subst NoBar (sym h.0.0) p,
                    subst (λ s. up.Quoted s r.quote r) (sym h.0.0)
                        (subst (λ t. up.Quoted source t r) (sym h.0.1) h.1),
                  ))
                  λ u. Runs-return r λ s i. (i, h.0, h.1))

  upstream_Refusal :
      (source target : Str) (amount : D) (e : Exception)
      → IsFailure up e
      → Refusal up self source target amount e
  upstream_Refusal source target amount (invalid_argument m) h = absurd h.0
  upstream_Refusal source target amount (currency_not_found m) h = absurd h.0
  upstream_Refusal source target amount e h = h

  abbrev Converts : Str → Str → D → Exec S (ConversionResult D) → Type 0
  Converts source target amount m =
      Runs I m (λ r t. I t × IsConverted up self source target amount r)
        (λ e t. I t × Refusal up self source target amount e)

  -- The check of a code that is normalised already.
  known-Runs :
      (source target code : Str) (amount : D)
      → Runs I
          (is_known_currency self.catalog (to_upper code))
          (λ b t. I t × IsAnswer up.Listed (to_upper code) b)
          (λ e t. I t × Refusal up self source target amount e)
  known-Runs source target code amount =
      Runs-weaken _ _ (is_known_currency-Runs I up self.catalog laws.catalog (to_upper code))
        (λ b s p. subst (λ u. I s × IsAnswer up.Listed u b) (to_upper_idem code) p)
        (λ e s p. (p.0, upstream_Refusal source target amount e p.1))

  apply_rate-Runs :
      (source target : Str) (amount : D)
      → IsAnswer up.Listed source true
      → IsAnswer up.Listed target true
      → source ≢ target
      → InBounds self.constraints amount
      → Converts source target amount (apply_rate self source target amount)
  unfolding apply_rate
  apply_rate-Runs source target amount known known' differ bounds =
      let (l, listed, filled, found) = known in
      let plain = any-has_code NoBar source l (laws.plain l listed) (sym found) in
      Runs-bind _ _
        (Runs-weaken _ _ (resolve_rate-Runs source target plain) (λ r s p. p)
          (λ e s p. (p.0, upstream_Refusal source target amount e p.1)))
        λ r. Runs-return _ λ s p. (
          p.0,
          record {
            source_known = known;
            target_known = known';
            differ = differ;
            bounds = bounds;
            rate = r;
            of_pair = p.1;
            quoted = p.2;
            computed = refl;
          },
        )

  InBounds-iff :
      (c : Constraints D) (today : Str) (amount : D)
      → c ≡ declared self.constraints today
      → (amount_accepted self.constraints.double c amount ≡ true) ↔ InBounds self.constraints amount
  unfolding amount_accepted
  InBounds-iff c today amount e = rw e (ground arith)

  -- The checks that follow those of the codes.
  check_request-Runs :
      (source target : Str) (amount : D)
      → IsAnswer up.Listed source true
      → IsAnswer up.Listed target true
      → Converts source target amount (check_request self source target amount)
  unfolding check_request same_code
  check_request-Runs source target amount known known' =
      Runs-require _ _ _ (λ same s i. (i, (known, known', inl (ground arith))))
        λ other.
          let differ : source ≢ target = ground arith in
          Runs-bind _ _ (get_constraints-IsToday I _ up.Now self.constraints laws.clock) λ c.
            Runs-given
              ((today : Str) × IsToday up.Now self.constraints today
                × (c ≡ declared self.constraints today))
              _ _ (λ s p. p)
              λ d.
                let accepted = InBounds-iff c d.0 amount d.2 in
                Runs-require _ _ _
                  (λ out s i. (i, (known, known', inr (differ, λ b. cc (accepted.1 b)))))
                  λ fits. apply_rate-Runs source target amount known known' differ (accepted.0 fits)

  -- Over caches, a provider and a clock that keep to their laws, with codes free of the separator:
  -- from any state of the invariant every conversion ends, in a state of the invariant. It
  -- succeeds only with the amount times a rate that upstream gave for just the pair of normalised
  -- codes, also if it comes from the cache, and with this rate and its date; the codes are listed
  -- and differ, and the amount is in its bounds. It fails only if that is not so of the codes or
  -- the amount, with the exception for it, or by an upstream failure if a request to upstream has
  -- failed or upstream has given an empty list of currencies.
  pub convert-Runs :
      (source target : Str) (amount : D)
      → Converts (to_upper source) (to_upper target) amount (convert self source target amount)
  unfolding convert
  convert-Runs source target amount =
      let src = to_upper source in
      let tgt = to_upper target in
      Runs-bind _ _ (known-Runs src tgt source amount) λ b.
        Runs-given (IsAnswer up.Listed src b) _ _ (λ s p. p)
          λ answer.
            Runs-require b _ _
              (λ no_source s i. (i, inl (subst (IsAnswer up.Listed src) no_source answer)))
              λ yes_source.
                let known = subst (IsAnswer up.Listed src) yes_source answer in
                Runs-bind _ _ (known-Runs src tgt target amount) λ b'.
                  Runs-given (IsAnswer up.Listed tgt b') _ _ (λ s p. p)
                    λ answer'.
                      Runs-require b' _ _
                        (λ no_target s i.
                          (i, inr (known, subst (IsAnswer up.Listed tgt) no_target answer')))
                        λ yes_target.
                          check_request-Runs src tgt amount known
                            (subst (IsAnswer up.Listed tgt) yes_target answer')
