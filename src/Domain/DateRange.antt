-- ===== src/Domain/DateRange.antt =====
-- backend/src/domain/DateRange.h
use currency_converter_demo.Base.{
  ℕ, zero, suc, ◌+◌, Bool, true, false, not, ◌&&◌, ◌||◌, [], ◌∷◌, leb, ◌==◌, if◌then◌else◌, length,
  Str, bytes, str_lt,
}
use currency_converter_demo.Exec.{Outcome, ok, throw, invalid_argument}

-- `std::isdigit`
unfoldable pub is_digit : ℕ → Bool
is_digit c = leb b'0' c && leb c b'9'

-- `s[i]`; past the end it is the terminating zero byte.
unfoldable pub char_at : Str → ℕ → ℕ
char_at [] i = 0
char_at (c ∷ s) zero = c
char_at (c ∷ s) (suc i) = char_at s i

-- The loop of `isIsoDate`, from position `i` on.
unfoldable pub digits_from : ℕ → Str → Bool
unfolding is_digit
digits_from i [] = true
digits_from i (c ∷ s) =
    let rest = digits_from (i + 1) s in
    if i == 4 || i == 7 then rest else if not (is_digit c) then false else rest

unfoldable pub is_iso_date : Str → Bool
unfolding char_at digits_from
is_iso_date s =
    if not (length s == 10) || not (char_at s 4 == b'-') || not (char_at s 7 == b'-')
    then false
    else digits_from 0 s

pub record DateRange : Type 0 where
  pub start_date : Str
  pub end_date : Str

-- The constructor.
unfoldable pub make : Str → Str → Outcome DateRange
unfolding is_iso_date str_lt
make start_date end_date =
    if not (is_iso_date start_date) || not (is_iso_date end_date)
    then throw (invalid_argument (bytes "dates must be in YYYY-MM-DD format"))
    else if str_lt end_date start_date
    then throw (invalid_argument (bytes "start_date must not be after end_date"))
    else ok (record { start_date = start_date; end_date = end_date })
