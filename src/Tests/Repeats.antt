-- ===== src/Tests/Repeats.antt =====
-- Queries that are repeated in the sample world, with clocks that stand still.
use native.Mathlib.Decide.{ℕ_discrete}
use currency_converter_demo.Base.{ℕ, ◌≡◌, refl, none, [], ◌∷◌, Str, bytes, str_dec, pos, arith}
use currency_converter_demo.Exec.{Exec, ok}
use currency_converter_demo.Exec.Runs.{Runs}
use currency_converter_demo.Domain.{ExchangeRate}
use currency_converter_demo.Domain.TextUtil.{to_upper}
use currency_converter_demo.Domain.DateRange.{DateRange}
use currency_converter_demo.Cache.Bounded.{Cache, is_expired, init, index_set, put}
use currency_converter_demo.Cache.Spec.{find}
use currency_converter_demo.Cache.Invariant.{locate, IsValid}
use currency_converter_demo.Cache.Reads.{put_result}
use currency_converter_demo.Cache.Trace.{init-Tracks}
use currency_converter_demo.Application.Catalog.{cache_key}
use currency_converter_demo.Application.Conversion.{pair_key, convert}
use currency_converter_demo.Application.History.{history_key, get_history}
use currency_converter_demo.Application.Hits.{Refused}
use currency_converter_demo.Server.{Server, Outside, conversion, history}
use currency_converter_demo.Server.Repeats.{
  ClockLaws, RateHeld, SeriesHeld, convert-RateHeld, get_history-SeriesHeld,
}
use currency_converter_demo.Server.Storing.{Works, get_history-Contains, convert-Contains}
use currency_converter_demo.Server.Contents.{Contains}
use currency_converter_demo.Tests.Sample.{outside, settings, World, Any, seen, laws, two_currencies}

program : Unit {0}
unfolding init index_set put is_expired locate str_dec ℕ_discrete find to_upper pair_key history_key
program = tt

abbrev still : Exec World ℕ
still w = (ok 7, w)

abbrev quiet : Outside World ℕ
quiet = record outside { steady_now = still; system_now = still }

-- Three requests were made so far, and no more are.
abbrev Idle : World → Type 0
Idle w = w.requests ≡ 3

clocks : ClockLaws Idle 9 quiet
clocks = record {
  steady = record { at = λ s j. (j, omega arith) };
  system = record { at = λ s j. j };
}

-- A cache with one entry, written at the time 5.
abbrev empty : {V : Type 0} → Cache V
empty = record {
  max_age = pos 60;
  max_elements = 2;
  entries = [];
  index = λ _. none;
  next_addr = 0;
}

abbrev one : {V : Type 0} → Str → V → Cache V
one k v = record empty {
  entries = record { addr = 0; entry = record { key = k; value = v; inserted_at = 5 } } ∷ [];
  index = index_set (λ _. none) k 0;
  next_addr = 1;
}

one-IsValid : {V : Type 0} (k : Str) (v : V) → IsValid (one k v)
unfolding program
one-IsValid k v =
    (put_result empty 5 k v (one k v) (init-Tracks (pos 60) 2 empty refl).valid refl).valid

abbrev code : Str
code = bytes "EUR"

abbrev rate : ExchangeRate ℕ
rate = record { base = bytes "EUR"; quote = bytes "USD"; rate = 108; date = bytes "2024-01-03" }

abbrev january : DateRange
january = record { start_date = bytes "2024-01-02"; end_date = bytes "2024-01-31" }

abbrev held : Server World ℕ
held = record {
  world = record { requests = 3; seconds = 0 };
  currency_cache = one cache_key two_currencies;
  latest_rate_cache = one (bytes "EUR|USD") rate;
  history_cache = one (bytes "EUR|USD|2024-01-02|2024-01-31") (rate ∷ []);
}

rate_held :
    RateHeld Idle 9 two_currencies
      (pair_key (to_upper (bytes "eur")) (to_upper (bytes "usd")))
      rate
      held
unfolding program
rate_held = record {
  world = refl;
  currencies = record {
    valid = one-IsValid _ _;
    entry = _;
    found = refl;
    holds = refl;
    young = refl;
  };
  rates = record { valid = one-IsValid _ _; entry = _; found = refl; holds = refl; young = refl };
}

series_held :
    SeriesHeld Idle 9 two_currencies
      (history_key (to_upper (bytes "eur")) (to_upper (bytes "usd")) january)
      (rate ∷ [])
      held
unfolding program
series_held = record {
  world = refl;
  currencies = record {
    valid = one-IsValid _ _;
    entry = _;
    found = refl;
    holds = refl;
    young = refl;
  };
  series = record { valid = one-IsValid _ _; entry = _; found = refl; holds = refl; young = refl };
}

convert-RateHeld_example :
    Runs
      (RateHeld Idle 9 two_currencies
        (pair_key (to_upper (bytes "eur")) (to_upper (bytes "usd")))
        rate)
      (convert (conversion quiet settings) (bytes "eur") (bytes "usd") 1000)
      (λ result t.
        RateHeld Idle 9 two_currencies
          (pair_key (to_upper (bytes "eur")) (to_upper (bytes "usd")))
          rate
          t
        × (result ≡ record {
          source_amount = 1000;
          converted_amount = quiet.double.mul 1000 rate.rate;
          exchange_rate = rate.rate;
          rate_date = rate.date;
        }))
      (Refused (
        RateHeld Idle 9 two_currencies
          (pair_key (to_upper (bytes "eur")) (to_upper (bytes "usd")))
          rate))
convert-RateHeld_example =
    convert-RateHeld Idle 9 quiet settings clocks two_currencies (bytes "eur") (bytes "usd") 1000
      rate

get_history-SeriesHeld_example :
    Runs
      (SeriesHeld Idle 9 two_currencies
        (history_key (to_upper (bytes "eur")) (to_upper (bytes "usd")) january)
        (rate ∷ []))
      (get_history (history quiet settings) (bytes "eur") (bytes "usd") january)
      (λ answer t.
        SeriesHeld Idle 9 two_currencies
          (history_key (to_upper (bytes "eur")) (to_upper (bytes "usd")) january)
          (rate ∷ [])
          t
        × (answer ≡ rate ∷ []))
      (Refused (
        SeriesHeld Idle 9 two_currencies
          (history_key (to_upper (bytes "eur")) (to_upper (bytes "usd")) january)
          (rate ∷ [])))
get_history-SeriesHeld_example =
    get_history-SeriesHeld Idle 9 quiet settings clocks two_currencies (bytes "eur") (bytes "usd")
      january (rate ∷ [])

get_history-Contains_example :
    Runs
      (Works Any seen outside settings laws)
      (get_history (history outside settings) (bytes "eur") (bytes "usd") january)
      (λ l t.
        Works Any seen outside settings laws t
        × Contains
            (history_key (to_upper (bytes "eur")) (to_upper (bytes "usd")) january)
            l
            t.history_cache)
      (λ e t. Works Any seen outside settings laws t)
get_history-Contains_example =
    get_history-Contains Any seen outside settings laws (bytes "eur") (bytes "usd") january

convert-Contains_example :
    Runs
      (Works Any seen outside settings laws)
      (convert (conversion outside settings) (bytes "eur") (bytes "usd") 1000)
      (λ result t.
        Works Any seen outside settings laws t
        × ((r : ExchangeRate ℕ) × Contains
              (pair_key (to_upper (bytes "eur")) (to_upper (bytes "usd")))
              r
              t.latest_rate_cache
            × (result.exchange_rate ≡ r.rate)
            × (result.rate_date ≡ r.date)))
      (λ e t. Works Any seen outside settings laws t)
convert-Contains_example =
    convert-Contains Any seen outside settings laws (bytes "eur") (bytes "usd") 1000
