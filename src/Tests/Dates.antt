-- ===== src/Tests/Dates.antt =====
-- Dates, codes, keys and statuses: concrete values.
use native.Mathlib.Decide.{ℕ_discrete}
use currency_converter_demo.Base.{◌≡◌, refl, ◌≢◌, ◌↔◌, Str, bytes, str_dec, str_lt, true, arith}
use currency_converter_demo.Exec.{currency_not_found}
use currency_converter_demo.Domain.{ExchangeRate}
use currency_converter_demo.Domain.DateRange.{DateRange, make, is_iso_date}
use currency_converter_demo.Domain.DateOrder.{IsBefore, to_ymd, Made, make-Made, str_lt-IsBefore}
use currency_converter_demo.Domain.TextUtil.{to_upper}
use currency_converter_demo.Application.Keys.{NoBar, history_key-injective}
use currency_converter_demo.Grpc.{ok_code, internal_code, to_status}
use currency_converter_demo.Grpc.Replies.{what, to_status_lem}
use currency_converter_demo.Tests.Sample.{refuted}

program : Unit {0}
unfolding is_iso_date str_lt to_upper str_dec ℕ_discrete
program = tt

abbrev leap_day : Str
leap_day = bytes "2024-02-29"

abbrev new_year : Str
new_year = bytes "2025-01-01"

leap_day_iso : is_iso_date leap_day ≡ true
unfolding program
leap_day_iso = refl

new_year_iso : is_iso_date new_year ≡ true
unfolding program
new_year_iso = refl

make-Made_example : Made leap_day new_year (make leap_day new_year)
make-Made_example = make-Made leap_day new_year

str_lt-IsBefore_example :
    (str_lt leap_day new_year ≡ true) ↔ IsBefore (to_ymd leap_day) (to_ymd new_year)
str_lt-IsBefore_example = str_lt-IsBefore leap_day new_year leap_day_iso new_year_iso

to_upper_value : to_upper (bytes "eUr") ≡ bytes "EUR"
unfolding program
to_upper_value = refl

eur_NoBar : NoBar (bytes "EUR")
eur_NoBar = (λ e. omega arith, (λ e. omega arith, (λ e. omega arith, tt)))

usd_NoBar : NoBar (bytes "USD")
usd_NoBar = (λ e. omega arith, (λ e. omega arith, (λ e. omega arith, tt)))

abbrev year : DateRange
year = record { start_date = leap_day; end_date = new_year }

history_key-injective_example :
    (bytes "EUR" ≡ bytes "EUR") × (bytes "USD" ≡ bytes "USD") × (year ≡ year)
history_key-injective_example =
    history_key-injective (bytes "EUR") (bytes "USD") (bytes "EUR") (bytes "USD") year year
      eur_NoBar eur_NoBar usd_NoBar usd_NoBar leap_day_iso leap_day_iso refl

to_status_lem_example :
    let e = currency_not_found (bytes "unknown source currency") in
    ((to_status e).code ≢ ok_code)
    × ((to_status e).code ≢ internal_code → (to_status e).message ≡ what e)
    × ((to_status e).code ≡ internal_code → (to_status e).message ≡ bytes "internal server error")
to_status_lem_example = to_status_lem (currency_not_found (bytes "unknown source currency"))

abbrev later : ExchangeRate (Unit {0})
later = record { base = bytes "EUR"; quote = bytes "USD"; rate = tt; date = new_year }

abbrev earlier : ExchangeRate (Unit {0})
earlier = record { base = bytes "EUR"; quote = bytes "USD"; rate = tt; date = leap_day }

dates_differ : leap_day ≢ new_year
unfolding program
dates_differ = refuted (str_dec leap_day new_year) tt
