-- ===== src/Server/Startup.antt =====
-- When the server starts.
use mathlib.Core.Option.{some-injective}
use currency_converter_demo.Base.{
  ap, ◌*◌, pos, ℤ, List, ℕ, ◌≡◌, ◌≢◌, ◌↔◌, inl, inr, Option, none, some, Bool-cases, ◌==◌, refl,
  arith,
}
use currency_converter_demo.Domain.{Currency, ExchangeRate}
use currency_converter_demo.Cache.Bounded.{Cache, init}
use currency_converter_demo.Server.{Server, Settings, start, assembled}

abbrev IsSome : {A : Type 0} → Option A → Type 0
IsSome none = ⊥
IsSome (some a) = Unit

init-IsSome : (V : Type 0) (a : ℤ) (n : ℕ) → IsSome (init {V = V} a n) ↔ (n ≢ 0)
unfolding init
init-IsSome V a n = elim (Bool-cases (n == 0)) [
  | inl zero_size ↦ rw (zero_size, IsSome) (λ h. absurd h, λ h. h (ground arith))
  | inr positive ↦ rw (positive, IsSome) (λ h e. ground arith, λ h. tt)
]

assembled-IsSome :
    {W D : Type 0} (world : W) (a : Cache (List Currency)) (b : Option (Cache (ExchangeRate D)))
    (c : Option (Cache (List (ExchangeRate D))))
    → ((s : Server W D) × (assembled world (some a) b c ≡ some s)) ↔ (IsSome b × IsSome c)
assembled-IsSome world a (some b) (some c) = (λ p. (tt, tt), λ p. (_, refl))
assembled-IsSome world a none c = (λ p. cc p.1, λ p. absurd p.0)
assembled-IsSome world a (some b) none = (λ p. cc p.1, λ p. absurd p.1)

-- The process gets through the construction of its caches exactly if neither size limit is zero,
-- whatever the age limits are.
pub start_iff :
    {W D : Type 0} (settings : Settings) (world : W)
    → ((s : Server W D) × (start settings world ≡ some s))
      ↔ ((settings.latest_rate_cache_max_elements ≢ 0) × (settings.history_cache_max_elements ≢ 0))
unfolding start init
start_iff settings world =
    let built =
      assembled-IsSome world _
        (init settings.latest_rate_cache_max_age settings.latest_rate_cache_max_elements)
        (init settings.history_cache_max_age settings.history_cache_max_elements) in
    let rates =
      init-IsSome _ settings.latest_rate_cache_max_age settings.latest_rate_cache_max_elements in
    let series = init-IsSome _ settings.history_cache_max_age settings.history_cache_max_elements in
    (λ p. (rates.0 (built.0 p).0, series.0 (built.0 p).1), λ p. built.1 (rates.1 p.0, series.1 p.1))

-- The start of the server has nothing to do with what is outside of it.
assembled_world :
    {W D : Type 0} (w w' : W) (a : Option (Cache (List Currency)))
    (b : Option (Cache (ExchangeRate D))) (c : Option (Cache (List (ExchangeRate D))))
    (s : Server W D)
    → assembled w a b c ≡ some s
    → assembled w' a b c ≡ some (record s { world = w' })
assembled_world {W} {D} w w' (some a) (some b) (some c) s e =
    ap {A = Server W D} (λ v. some (record v { world = w' })) (some-injective _ _ e)
assembled_world w w' none b c s e = cc
assembled_world w w' (some a) none c s e = cc
assembled_world w w' (some a) (some b) none s e = cc

pub start_world :
    {W D : Type 0} (st : Settings) (w w' : W) (s : Server W D)
    → start st w ≡ some s
    → start st w' ≡ some (record s { world = w' })
unfolding start
start_world st w w' s e =
    assembled_world w w' (init (pos (24 * 60)) 8)
      (init st.latest_rate_cache_max_age st.latest_rate_cache_max_elements)
      (init st.history_cache_max_age st.history_cache_max_elements) s e
