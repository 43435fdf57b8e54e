-- ===== src/Tests/Series.antt =====
-- A history that is read from a body of the sample world.
use native.Mathlib.Decide.{ℕ_discrete}
use currency_converter_demo.Base.{ℕ, ◌≡◌, refl, inl, some, List, [], ◌∷◌, bytes, str_dec, str_lt}
use currency_converter_demo.Domain.{ExchangeRate}
use currency_converter_demo.Domain.DateRange.{DateRange}
use currency_converter_demo.External.Payload.{done, parse_object, read_history, outside}
use currency_converter_demo.External.Completeness.{Occurs, IsQuoted, read_history-Occurs}
use currency_converter_demo.Tests.Sample.{json, series, series_rates, second_day, page}

program : Unit {0}
unfolding read_history parse_object outside str_lt str_dec ℕ_discrete
program = tt

abbrev range : DateRange
range = record { start_date = bytes "2024-01-02"; end_date = bytes "2024-01-03" }

abbrev first_point : ExchangeRate ℕ
first_point = record {
  base = bytes "EUR";
  quote = bytes "USD";
  rate = 109;
  date = bytes "2024-01-02";
}

abbrev second_point : ExchangeRate ℕ
second_point = record first_point { rate = 110; date = bytes "2024-01-03" }

abbrev points : List (ExchangeRate ℕ)
points = first_point ∷ second_point ∷ []

parsed : parse_object json (bytes "series") ≡ done (some series)
unfolding program
parsed = refl

-- The points are read and sorted.
was_read : read_history json (bytes "EUR") (bytes "USD") range (bytes "series") ≡ done points
unfolding program
was_read = refl

quoted : IsQuoted json (bytes "EUR") (bytes "USD") range (bytes "2024-01-03") (page second_day) 110
unfolding program
quoted = record {
  day = second_day;
  from_start = refl;
  to_end = refl;
  object = refl;
  quoted = refl;
  number = refl;
}

read_history-Occurs_example : Occurs second_point points
read_history-Occurs_example =
    read_history-Occurs json (bytes "EUR") (bytes "USD") range (bytes "series") series series_rates
      points (bytes "2024-01-03") (page second_day) 110 parsed refl was_read (inl refl) quoted
