-- ===== src/Application/Bounds.antt =====
-- `ConstraintsService`: the constraints of a day.
use currency_converter_demo.Base.{ℕ, ◌/◌, ◌≡◌, refl, Str, bytes}
use currency_converter_demo.Exec.{Exception}
use currency_converter_demo.Exec.Runs.{Runs, Never, Runs-bind, Runs-return, Runs-weaken}
use currency_converter_demo.Domain.{Constraints}
use currency_converter_demo.Application.Constraints.{
  ConstraintsService, today_iso_date, get_constraints, min_amount, max_amount,
}

-- The constraints of a day.
abbrev pub declared : {S D : Type 0} → ConstraintsService S D → Str → Constraints D
declared self today = record {
  min_amount = min_amount self;
  max_amount = max_amount self;
  min_date = bytes "1999-01-04";
  max_date = today;
}

module _ {S D : Type 0} (I : S → Type 0) (E : Exception → S → Type 0)
    (self : ConstraintsService S D) (clock : Runs I self.system_now (λ n t. I t) Never) where
  -- The constraints are those of some day.
  pub get_constraints-Runs :
      Runs I (get_constraints self) (λ c t. I t × ((today : Str) × (c ≡ declared self today))) E
  unfolding get_constraints
  get_constraints-Runs =
      Runs-bind {R = λ today t. I t} _ _
        (Runs-bind _ _ (Runs-weaken _ _ clock (λ n s i. i) (λ e s p. absurd p))
          λ n. Runs-return _ λ s i. i)
        λ today. Runs-return _ λ s i. (i, (today, refl))

-- The day of a time that the system clock has shown.
abbrev pub IsToday : {S D : Type 0} → (ℕ → Type 0) → ConstraintsService S D → Str → Type 0
IsToday Now self today = (n : ℕ) × Now n × (today ≡ self.format_date (n / 86_400_000_000_000))

module _ {S D : Type 0} (I : S → Type 0) (E : Exception → S → Type 0) (Now : ℕ → Type 0)
    (self : ConstraintsService S D)
    (clock : Runs I self.system_now (λ n t. I t × Now n) Never) where
  -- The constraints are those of the day that the clock shows.
  pub get_constraints-IsToday :
      Runs I
        (get_constraints self)
        (λ c t. I t × ((today : Str) × IsToday Now self today × (c ≡ declared self today)))
        E
  unfolding get_constraints today_iso_date
  get_constraints-IsToday =
      Runs-bind {R = λ today t. I t × IsToday Now self today} _ _
        (Runs-bind _ _ (Runs-weaken _ _ clock (λ n s i. i) (λ e s p. absurd p))
          λ n. Runs-return _ λ s p. (p.0, (n, p.1, refl)))
        λ today. Runs-return _ λ s p. (p.0, (today, p.1, refl))
