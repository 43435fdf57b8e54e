-- ===== src/Base/TextOrder.antt =====
-- The order of strings, `operator<`.
use mathlib.Core.Path.{◌≡◌, refl}
use mathlib.Core.Logic.{◌≢◌}
use mathlib.Core.Bool.{true, false}
use mathlib.Core.List.{[], ◌∷◌}
use native.Mathlib.Omega.{arith}
use currency_converter_demo.Base.Text.{Str, str_lt}

pub str_lt_trans : (s t u : Str) → str_lt s t ≡ true → str_lt t u ≡ true → str_lt s u ≡ true
unfolding str_lt
str_lt_trans [] [] u p q = absurd (ground arith)
str_lt_trans s (b ∷ t) [] p q = absurd (ground arith)
str_lt_trans [] (b ∷ t) (c ∷ u) p q = refl
str_lt_trans (a ∷ s) [] u p q = absurd (ground arith)
str_lt_trans (a ∷ s) (b ∷ t) (c ∷ u) p q = ground (arith, str_lt_trans s t u)

pub str_lt_total : (s t : Str) → str_lt s t ≡ false → s ≢ t → str_lt t s ≡ true
unfolding str_lt
str_lt_total [] [] p q = absurd (q refl)
str_lt_total [] (b ∷ t) p q = absurd (ground arith)
str_lt_total (a ∷ s) [] p q = refl
str_lt_total (a ∷ s) (b ∷ t) p q = ground (arith, str_lt_total s t)

pub str_lt_irrefl : (s : Str) → str_lt s s ≡ false
unfolding str_lt
str_lt_irrefl [] = refl
str_lt_irrefl (a ∷ s) = ground (arith, str_lt_irrefl s)
