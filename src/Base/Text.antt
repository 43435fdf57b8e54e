-- ===== src/Base/Text.antt =====
-- `std::string` as the list of its bytes.
use Prim.Native.Char.{code}
use Prim.Native.String.{String}
use Prim.Native.Nat.{ℕ}
use mathlib.Core.Bool.{Bool, true, false}
use mathlib.Core.List.{List, [], ◌∷◌, cons-eq-cons}
use mathlib.Core.Path.{◌≡◌, refl, ap₂}
use native.Mathlib.Decide.{ℕ_discrete}
use currency_converter_demo.Base.Tests.{ltb, ◌==◌, if◌then◌else◌}

abbrev pub Str : Type 0
Str = List ℕ

-- The bytes of an ASCII literal.
abbrev pub bytes : String → Str
bytes String.[] = []
bytes (String.◌∷◌ c s) = code c ∷ bytes s

same_head : {a b : ℕ} {s t : Str} → Dec (a ≡ b) → Dec (s ≡ t) → Dec (a ∷ s ≡ b ∷ t)
same_head (yes p) (yes q) = yes (ap₂ ◌∷◌ p q)
same_head (yes p) (no q) = no λ e. q (cons-eq-cons.0 e).1
same_head (no p) d = no λ e. p (cons-eq-cons.0 e).0

-- `operator==` on strings.
unfoldable pub str_dec : Discrete Str
unfolding same_head
str_dec [] [] = yes refl
str_dec [] (b ∷ t) = no λ e. cc
str_dec (a ∷ s) [] = no λ e. cc
str_dec (a ∷ s) (b ∷ t) = same_head (ℕ_discrete a b) (str_dec s t)

-- `operator<` on strings: bytes compare as unsigned, a proper prefix is smaller.
unfoldable pub str_lt : Str → Str → Bool
str_lt [] [] = false
str_lt [] (b ∷ t) = true
str_lt (a ∷ s) [] = false
str_lt (a ∷ s) (b ∷ t) = if a == b then str_lt s t else ltb a b
