-- ===== src/Application/Listing.antt =====
-- `CurrencyCatalogService` over any cache and any provider that keep to their laws.
use currency_converter_demo.Base.{
  inr, subst, not, ◌≡◌, refl, ◌≢◌, Bool, true, List, [], ◌∷◌, any, All, Str, str_dec, arith,
}
use currency_converter_demo.Exec.Runs.{Runs, Runs-bind, Runs-return, Runs-require, Runs-given}
use currency_converter_demo.Domain.{Currency}
use currency_converter_demo.Domain.TextUtil.{to_upper}
use currency_converter_demo.Cache.Interface.{IsCache, Runs-answered, Runs-get, Runs-put}
use currency_converter_demo.External.Provider.{Upstream, IsProvider, Failed}
use currency_converter_demo.Application.Catalog.{
  CurrencyCatalogService, cache_key, has_code, is_empty, store_currencies, list_currencies,
  is_known_currency,
}

-- What may be stored under the key of the list: a list that upstream gave, and not an empty one.
abbrev pub IsCatalog : (List Currency → Type 0) → Str → List Currency → Type 0
IsCatalog Listed key l = Listed l × (l ≢ [])

-- `b` tells whether a listed currency has the code.
abbrev pub IsAnswer : (List Currency → Type 0) → Str → Bool → Type 0
IsAnswer Listed code b = (l : List Currency) × Listed l × (l ≢ []) × (b ≡ any (has_code code) l)

pub record CatalogLaws {S D : Type 0} (I : S → Type 0) (up : Upstream D)
    (self : CurrencyCatalogService S D) : Type 0 where
  pub provider : IsProvider I up self.provider
  pub cache : IsCache I (IsCatalog up.Listed) self.cache

is_empty-nil : (l : List Currency) → is_empty l ≡ true → l ≡ []
unfolding is_empty
is_empty-nil [] e = refl
is_empty-nil (c ∷ l) e = cc

module _ {S D : Type 0} (I : S → Type 0) (up : Upstream D) (self : CurrencyCatalogService S D)
    (laws : CatalogLaws I up self) where
  abbrev Fetched : List Currency → S → Type 0
  Fetched l t = I t × up.Listed l × (l ≢ [])

  store_currencies-Runs :
      (l : List Currency)
      → Runs (λ t. I t × up.Listed l) (store_currencies self l) Fetched (Failed I up)
  unfolding store_currencies is_empty
  store_currencies-Runs l =
      Runs-require (not (is_empty l)) _ _
        (λ empty s p.
          let none_left : l ≡ [] = is_empty-nil l (ground arith) in
          (p.0, (tt, inr (subst up.Listed none_left p.1))))
        (λ filled.
          let some_left : l ≢ [] = λ e. ground arith in
          Runs-given (up.Listed l) _ _ (λ s p. p)
            λ listed.
              Runs-bind _ _ (Runs-put laws.cache _ cache_key l (listed, some_left))
                λ u. Runs-return l λ s i. (i, listed, some_left))

  -- Over a cache and a provider that keep to their laws: a list of currencies, from the cache or
  -- from upstream, is one that upstream gave, and is never empty; the call keeps the invariant and
  -- fails by an upstream failure only, and only if a request to upstream has failed or upstream
  -- has given an empty list.
  pub list_currencies-Runs : Runs I (list_currencies self) Fetched (Failed I up)
  unfolding list_currencies
  list_currencies-Runs = Runs-bind _ _ (Runs-get laws.cache _ cache_key) λ o.
      Runs-answered (IsCatalog up.Listed) cache_key o _ (λ l g s i. (i, g.0, g.1))
        (Runs-bind _ _ laws.provider.list_keeps store_currencies-Runs)

  pub is_known_currency-Runs :
      (code : Str)
      → Runs I
          (is_known_currency self code)
          (λ b t. I t × IsAnswer up.Listed (to_upper code) b)
          (Failed I up)
  unfolding is_known_currency
  is_known_currency-Runs code =
      Runs-bind _ _ list_currencies-Runs λ l. Runs-return _ λ s p. (p.0, (l, p.1, p.2, refl))

-- The codes of the list are plain texts, and so is a code that is listed.
pub any-has_code {κ} :
    (P : Str → Type κ) (code : Str) (l : List Currency)
    → All (λ c. P c.code) l
    → any (has_code code) l ≡ true
    → P code
unfolding has_code
any-has_code P code [] h e = absurd (ground arith)
any-has_code P code (c ∷ l) h e = elim (str_dec c.code code) [
  | yes same ↦ subst P same h.0
  | no other ↦ any-has_code P code l h.1 (ground arith)
]
