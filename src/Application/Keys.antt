-- ===== src/Application/Keys.antt =====
-- The cache keys of the conversion and history services: which queries they tell apart.
use mathlib.Core.List.{cons-eq-cons}
use mathlib.Core.Path.{ap₂}
use currency_converter_demo.Base.{◌≡◌, refl, ◌≢◌, sym, true, [], ◌∷◌, ◌++◌, All, Str, arith}
use currency_converter_demo.Domain.DateRange.{DateRange, is_iso_date}
use currency_converter_demo.Domain.DateOrder.{is_iso_date-All}
use currency_converter_demo.Application.Conversion.{pair_key}
use currency_converter_demo.Application.History.{history_key}

-- No byte is the separator of the keys.
abbrev pub NoBar : Str → Type 0
NoBar = All (λ c. c ≢ b'|')

split_at_bar :
    (s s' t t' : Str)
    → NoBar s
    → NoBar s'
    → s ++ (b'|' ∷ t) ≡ s' ++ (b'|' ∷ t')
    → (s ≡ s') × (t ≡ t')
split_at_bar [] [] t t' p q e = (refl, (cons-eq-cons.0 e).1)
split_at_bar [] (c ∷ s') t t' p q e = absurd (q.0 (sym (cons-eq-cons.0 e).0))
split_at_bar (c ∷ s) [] t t' p q e = absurd (p.0 (cons-eq-cons.0 e).0)
split_at_bar (c ∷ s) (c' ∷ s') t t' p q e =
    let (same, rest) = split_at_bar s s' t t' p.1 q.1 (cons-eq-cons.0 e).1 in
    (ap₂ ◌∷◌ (cons-eq-cons.0 e).0 same, rest)

-- Two pairs with one key are one pair, if their source codes are free of the separator.
pub pair_key-injective :
    (source target source' target' : Str)
    → NoBar source
    → NoBar source'
    → pair_key source target ≡ pair_key source' target'
    → (source ≡ source') × (target ≡ target')
unfolding pair_key
pair_key-injective s t s' t' = split_at_bar s s' t t'

iso-NoBar : (s : Str) → is_iso_date s ≡ true → NoBar s
iso-NoBar s h = is_iso_date-All (λ c. c ≢ b'|') s (λ c p. omega arith) (omega arith) h

-- Two queries with one key are one query, if their codes are free of the separator and their first
-- dates have the form YYYY-MM-DD.
pub history_key-injective :
    (source target source' target' : Str) (range range' : DateRange)
    → NoBar source
    → NoBar source'
    → NoBar target
    → NoBar target'
    → is_iso_date range.start_date ≡ true
    → is_iso_date range'.start_date ≡ true
    → history_key source target range ≡ history_key source' target' range'
    → (source ≡ source') × (target ≡ target') × (range ≡ range')
unfolding history_key
history_key-injective s t s' t' r r' p p' q q' d d' e =
    let (same_source, rest) = split_at_bar s s' _ _ p p' e in
    let (same_target, dates) = split_at_bar t t' _ _ q q' rest in
    let (same_start, same_end) =
      split_at_bar r.start_date r'.start_date _ _ (iso-NoBar _ d) (iso-NoBar _ d') dates in
    (same_source, same_target, λ i. record { start_date = same_start i; end_date = same_end i })
