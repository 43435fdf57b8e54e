-- ===== src/Domain/DateOrder.antt =====
-- What `DateRange` accepts, in terms of calendar dates: it compares dates as texts.
use currency_converter_demo.Base.{
  All, ℕ, ◌+◌, ◌-◌, ◌*◌, ◌≤◌, ◌<◌, ◌≡◌, refl, ◌⊎◌, ◌↔◌, inl, inr, true, false, [], ◌∷◌, sym, subst,
  Str, str_lt, arith, Bool-cases,
}
use currency_converter_demo.Exec.{Outcome, ok, throw, invalid_argument}
use currency_converter_demo.Domain.DateRange.{char_at, is_iso_date, DateRange, make}

abbrev pub IsDigit : ℕ → Type 0
IsDigit c = (48 ≤ c) × (c ≤ 57)

pub record Ymd : Type 0 where
  pub year : ℕ
  pub month : ℕ
  pub day : ℕ

-- The digit at a position, and the date that the digits of a text spell.
abbrev digit_at : Str → ℕ → ℕ
unfolding char_at
digit_at s i = char_at s i - 48

unfoldable pub to_ymd : Str → Ymd
unfolding char_at
to_ymd s = record {
  year = 1000 * digit_at s 0 + 100 * digit_at s 1 + 10 * digit_at s 2 + digit_at s 3;
  month = 10 * digit_at s 5 + digit_at s 6;
  day = 10 * digit_at s 8 + digit_at s 9;
}

-- The order of dates in the calendar.
abbrev pub IsBefore : Ymd → Ymd → Type 0
IsBefore a b =
    (a.year < b.year)
    ⊎ ((a.year ≡ b.year) × ((a.month < b.month) ⊎ ((a.month ≡ b.month) × (a.day < b.day))))

abbrev two : ℕ → ℕ → ℕ
two a b = 10 * (a - 48) + (b - 48)

-- Two digits in front decide the order of two texts, or leave it to what follows.
str_lt-two :
    (a b c d : ℕ) (s t : Str)
    → IsDigit a
    → IsDigit b
    → IsDigit c
    → IsDigit d
    → (str_lt (a ∷ b ∷ s) (c ∷ d ∷ t) ≡ true)
      ↔ ((two a b < two c d) ⊎ ((two a b ≡ two c d) × (str_lt s t ≡ true)))
unfolding str_lt
str_lt-two a b c d s t ha hb hc hd = ground arith

str_lt-dash : (s t : Str) → str_lt (b'-' ∷ s) (b'-' ∷ t) ≡ str_lt s t
unfolding str_lt
str_lt-dash s t = refl

-- A text of the form YYYY-MM-DD: eight digits, with a dash after the fourth and after the sixth.
pub record IsoDate (s : Str) : Type 0 where
  a : ℕ
  b : ℕ
  c : ℕ
  d : ℕ
  e : ℕ
  f : ℕ
  g : ℕ
  h : ℕ
  text : s ≡ a ∷ b ∷ c ∷ d ∷ b'-' ∷ e ∷ f ∷ b'-' ∷ g ∷ h ∷ []
  years : IsDigit a × IsDigit b × IsDigit c × IsDigit d
  months : IsDigit e × IsDigit f
  days : IsDigit g × IsDigit h

is_iso_date-IsoDate : (s : Str) → is_iso_date s ≡ true → IsoDate s
unfolding is_iso_date
is_iso_date-IsoDate (a ∷ b ∷ c ∷ d ∷ x ∷ e ∷ f ∷ y ∷ g ∷ h ∷ []) p = record {
  a = a;
  b = b;
  c = c;
  d = d;
  e = e;
  f = f;
  g = g;
  h = h;
  text = ground arith;
  years = ground arith;
  months = ground arith;
  days = ground arith;
}
is_iso_date-IsoDate s p = absurd (ground arith)

-- Every text of the form is taken for one.
pub IsoDate-is_iso_date : (s : Str) → IsoDate s → is_iso_date s ≡ true
unfolding is_iso_date
IsoDate-is_iso_date s x =
    let (a, b, c, d) = x.years in
    let (e, f) = x.months in
    let (g, h) = x.days in subst (λ t. is_iso_date t ≡ true) (sym x.text) (ground arith)

-- Every byte of such a text is a digit or the dash.
pub is_iso_date-All :
    (P : ℕ → Type 0) (s : Str)
    → ((c : ℕ) → IsDigit c → P c)
    → P b'-'
    → is_iso_date s ≡ true
    → All P s
is_iso_date-All P s digit dash h =
    let x = is_iso_date-IsoDate s h in
    subst (All P) (sym x.text) (
      digit x.a x.years.0,
      (
        digit x.b x.years.1,
        (
          digit x.c x.years.2,
          (
            digit x.d x.years.3,
            (
              dash,
              (
                digit x.e x.months.0,
                (digit x.f x.months.1, (dash, (digit x.g x.days.0, (digit x.h x.days.1, tt)))),
              ),
            ),
          ),
        ),
      ),
    )

abbrev chars : {s : Str} → IsoDate s → Str
chars x = x.a ∷ x.b ∷ x.c ∷ x.d ∷ b'-' ∷ x.e ∷ x.f ∷ b'-' ∷ x.g ∷ x.h ∷ []

str_lt-chars :
    {s t : Str} (x : IsoDate s) (y : IsoDate t)
    → (str_lt (chars x) (chars y) ≡ true) ↔ IsBefore (to_ymd (chars x)) (to_ymd (chars y))
unfolding to_ymd
str_lt-chars x y =
    let days = str_lt-two x.g x.h y.g y.h [] [] x.days.0 x.days.1 y.days.0 y.days.1 in
    let r = b'-' ∷ x.g ∷ x.h ∷ [] in
    let r' = b'-' ∷ y.g ∷ y.h ∷ [] in
    let months = str_lt-two x.e x.f y.e y.f r r' x.months.0 x.months.1 y.months.0 y.months.1 in
    let q = b'-' ∷ x.e ∷ x.f ∷ r in
    let q' = b'-' ∷ y.e ∷ y.f ∷ r' in
    let late = str_lt-two x.c x.d y.c y.d q q' x.years.2 x.years.3 y.years.2 y.years.3 in
    let early =
      str_lt-two x.a x.b y.a y.b (x.c ∷ x.d ∷ q) (y.c ∷ y.d ∷ q') x.years.0 x.years.1 y.years.0
        y.years.1 in
    let nil : str_lt [] [] ≡ false = unfold str_lt in refl in
    let dash1 = str_lt-dash (x.g ∷ x.h ∷ []) (y.g ∷ y.h ∷ []) in
    let dash2 = str_lt-dash (x.e ∷ x.f ∷ r) (y.e ∷ y.f ∷ r') in ground arith

-- For texts of the form YYYY-MM-DD the order of texts is the order of dates.
pub str_lt-IsBefore :
    (s t : Str)
    → is_iso_date s ≡ true
    → is_iso_date t ≡ true
    → (str_lt s t ≡ true) ↔ IsBefore (to_ymd s) (to_ymd t)
str_lt-IsBefore s t p q =
    let x = is_iso_date-IsoDate s p in
    let y = is_iso_date-IsoDate t q in
    subst (λ u. (str_lt u t ≡ true) ↔ IsBefore (to_ymd u) (to_ymd t)) (sym x.text)
      (subst (λ u. (str_lt (chars x) u ≡ true) ↔ IsBefore (to_ymd (chars x)) (to_ymd u))
        (sym y.text) (str_lt-chars x y))

-- Both texts have the form YYYY-MM-DD, and the end is not before the start in the calendar.
abbrev pub IsRange : Str → Str → Type 0
IsRange s e = IsoDate s × IsoDate e × (¬ IsBefore (to_ymd e) (to_ymd s))

abbrev pub Made : Str → Str → Outcome DateRange → Type 0
Made s e (ok r) = (r.start_date ≡ s) × (r.end_date ≡ e) × IsRange s e
Made s e (throw (invalid_argument m)) = ¬ IsRange s e
Made s e _ = ⊥

-- The constructor accepts two texts exactly when both have the form YYYY-MM-DD and the end is not
-- before the start in the calendar, and then keeps both; else it throws `InvalidArgumentException`.
pub make-Made : (s e : Str) → Made s e (make s e)
unfolding make
make-Made s e = elim (Bool-cases (is_iso_date s)) [
  | inr bad ↦ rw (bad, make) (λ r. let form = IsoDate-is_iso_date s r.0 in cc)
  | inl first ↦ elim (Bool-cases (is_iso_date e)) [
    | inr bad ↦ rw (first, make, bad) (λ r. let form = IsoDate-is_iso_date e r.1 in cc)
    | inl second ↦
        let order = str_lt-IsBefore e s second first in
        elim (Bool-cases (str_lt e s)) [
          | inl before ↦ rw (first, make, second, before) (λ r. r.2 (order.0 before))
          | inr fine ↦
              rw (first, make, second, fine)
                (
                  refl,
                  refl,
                  (is_iso_date-IsoDate s first, is_iso_date-IsoDate e second, λ b. cc (order.1 b)),
                )
        ]
  ]
]
