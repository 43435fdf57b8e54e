-- ===== src/Tests/Caches.antt =====
-- A cache of two elements, and runs of it.
use native.Mathlib.Decide.{ℕ_discrete}
use currency_converter_demo.Base.{
  ℕ, ◌≡◌, ◌↔◌, refl, ◌≢◌, ◌≤◌, ◌*◌, ◌+◌, false, Option, none, some, List, [], ◌∷◌, Str, bytes,
  str_dec, pos, arith,
}
use currency_converter_demo.Cache.Bounded.{
  Entry, Cache, minute, is_expired, init, index_set, get, put, sweep_expired, sweep_interval,
}
use currency_converter_demo.Cache.Overflow.{
  is_expired_in_64_bits, IsRepresentable, is_expired_in_64_bits_lem,
}
use currency_converter_demo.Cache.Spec.{find, lru_get, lru_put, lru_sweep}
use currency_converter_demo.Cache.Invariant.{view, locate, IsValid}
use currency_converter_demo.Cache.Refinement.{Refines, get-Refines}
use currency_converter_demo.Cache.Insertion.{put-Refines}
use currency_converter_demo.Cache.Sweeping.{sweep_expired-Refines}
use currency_converter_demo.Cache.Expiry.{AllYoung, sweep_expired_lem, sweep_interval_bounds}
use currency_converter_demo.Cache.Reads.{MayEvict, put_result, get-put, find-put_ne}
use currency_converter_demo.Cache.Trace.{
  Call, getting, putting, sweeping, Tracks, MayServe, notes, run, run-MayServe, init-Tracks,
}
use currency_converter_demo.Tests.Sample.{refuted}

program : Unit {0}
unfolding init index_set get put sweep_expired is_expired run locate str_dec ℕ_discrete find
program = tt

abbrev empty : Cache ℕ
empty = record {
  max_age = pos 60;
  max_elements = 2;
  entries = [];
  index = λ _. none;
  next_addr = 0;
}

abbrev first : Str
first = bytes "EUR|USD"

abbrev second : Str
second = bytes "EUR|GBP"

abbrev third : Str
third = bytes "EUR|CHF"

-- The cache after a `put` at the time 0, and after another at the time 5.
abbrev one : Cache ℕ
one = record empty {
  entries = record { addr = 0; entry = record { key = first; value = 10; inserted_at = 0 } } ∷ [];
  index = index_set (λ _. none) first 0;
  next_addr = 1;
}

abbrev two : Cache ℕ
two = record one {
  entries =
      record { addr = 1; entry = record { key = second; value = 20; inserted_at = 5 } }
      ∷ one.entries;
  index = index_set one.index second 1;
  next_addr = 2;
}

empty-Tracks : Tracks (pos 60) [] empty
unfolding program
empty-Tracks = init-Tracks (pos 60) 2 empty refl

put_first : put empty 0 first 10 ≡ some one
unfolding program
put_first = refl

put_second : put one 5 second 20 ≡ some two
unfolding program
put_second = refl

one-IsValid : IsValid one
one-IsValid = (put_result empty 0 first 10 one empty-Tracks.valid put_first).valid

two-IsValid : IsValid two
two-IsValid = (put_result one 5 second 20 two one-IsValid put_second).valid

-- No element is refused, and there is no room for none.
refused : init {V = ℕ} (pos 60) 0 ≡ none
unfolding program
refused = refl

abbrev calls : List (Call ℕ)
calls =
    putting 0 first 10
    ∷ putting 5 second 20
    ∷ getting 6 first
    ∷ putting 7 third 30
    ∷ getting 8 second
    ∷ getting (60 * minute + 1) first
    ∷ sweeping (λ i. 61 * minute)
    ∷ []

abbrev AnswersAre : Option (List (Option ℕ) × Cache ℕ) → List (Option ℕ) → Type 0
AnswersAre none l = ⊥
AnswersAre (some r) l = r.0 ≡ l

-- The third `put` pushes out the second key, since the first was read after it; the first is past its
-- age when it is read again.
answers : AnswersAre (run empty calls) (none ∷ none ∷ some 10 ∷ none ∷ none ∷ none ∷ none ∷ [])
unfolding program
answers = refl

run-MayServe_example :
    (r : List (Option ℕ) × Cache ℕ) × (run empty calls ≡ some r)
    × Tracks (pos 60) (notes [] calls) r.1
    × MayServe (pos 60) [] calls r.0
run-MayServe_example = run-MayServe (pos 60) [] empty calls empty-Tracks

get-Refines_example :
    (r : Option ℕ × Cache ℕ) × (get two 9 first ≡ some r)
    × Refines two (lru_get two.max_age 9 first (view two.entries)) r
get-Refines_example = get-Refines two 9 first two-IsValid

put-Refines_example :
    (d : Cache ℕ) × (put two 9 third 30 ≡ some d)
    × Refines {A = Unit} two (tt, lru_put two.max_elements 9 third 30 (view two.entries)) (tt, d)
put-Refines_example = put-Refines two 9 third 30 two-IsValid

abbrev late : ℕ → ℕ
late i = 60 * minute + 3

sweep_expired-Refines_example :
    Refines {A = Unit} two
      (tt, lru_sweep two.max_age late 0 (view two.entries))
      (tt, sweep_expired two late)
sweep_expired-Refines_example = sweep_expired-Refines two late two-IsValid

sweep_expired_lem_example :
    IsValid (sweep_expired two late)
    × AllYoung two.max_age (60 * minute + 3) (view (sweep_expired two late).entries)
    × ((k : Str) (e : Entry ℕ)
        → find k (view two.entries) ≡ some e
        → is_expired two.max_age (60 * minute + 3) e.inserted_at ≡ false
        → find k (view (sweep_expired two late).entries) ≡ some e)
sweep_expired_lem_example =
    sweep_expired_lem two late (60 * minute + 3) (60 * minute + 3) two-IsValid
      (λ i. (omega arith, omega arith))

still_young : is_expired (pos 60) 9 5 ≡ false
unfolding program
still_young = refl

get-put_example : (d : Cache ℕ) × (get two 9 second ≡ some (some 20, d))
get-put_example = get-put one 5 9 second 20 two one-IsValid put_second still_young

differ : first ≢ second
unfolding program
differ = refuted (str_dec first second) tt

room : ¬ MayEvict 2 second (view one.entries) first
room m = omega (arith, m.1)

find-put_ne_example : find first (view two.entries) ≡ find first (view one.entries)
find-put_ne_example = find-put_ne one 5 second first 20 two one-IsValid put_second differ room

sweep_interval_bounds_example :
    (1 ≤ sweep_interval (pos 60))
    × (2 ≤ 60 → 2 * sweep_interval (pos 60) ≤ 60)
    × (60 ≤ 2 * sweep_interval (pos 60) + 1)
sweep_interval_bounds_example = sweep_interval_bounds 60

is_expired_in_64_bits_lem_example :
    ((is_expired_in_64_bits (pos 153_722_868) 7 5 ≡ some (is_expired (pos 153_722_868) 7 5))
      ↔ IsRepresentable (pos 153_722_868))
    × ((is_expired_in_64_bits (pos 153_722_868) 7 5 ≡ none) ↔ (¬ IsRepresentable (pos 153_722_868)))
is_expired_in_64_bits_lem_example =
    is_expired_in_64_bits_lem (pos 153_722_868) 7 5 (omega arith) (omega arith)
