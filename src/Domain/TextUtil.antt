-- ===== src/Domain/TextUtil.antt =====
-- backend/src/domain/TextUtil.h
use currency_converter_demo.Base.{
  ℕ, ◌-◌, ◌≡◌, refl, ◌&&◌, [], ◌∷◌, map, leb, if◌then◌else◌, Str, arith,
}

-- `std::toupper` in the "C" locale.
unfoldable pub to_upper_char : ℕ → ℕ
to_upper_char c = if leb b'a' c && leb c b'z' then c - 32 else c

unfoldable pub to_upper : Str → Str
unfolding to_upper_char
to_upper s = map to_upper_char s

to_upper_char_idem : (c : ℕ) → to_upper_char (to_upper_char c) ≡ to_upper_char c
unfolding to_upper_char
to_upper_char_idem c = ground arith

-- `to_upper` of a text that is in upper case already changes nothing: to normalise twice is to
-- normalise once.
pub to_upper_idem : (s : Str) → to_upper (to_upper s) ≡ to_upper s
unfolding to_upper
to_upper_idem [] = refl
to_upper_idem (c ∷ s) = cc (to_upper_char_idem c, to_upper_idem s)
