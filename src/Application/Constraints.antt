-- ===== src/Application/Constraints.antt =====
-- `ConstraintsService` (backend/src/application/ConstraintsService.h and .cpp).
use currency_converter_demo.Base.{ℕ, ◌/◌, Str, bytes}
use currency_converter_demo.Exec.{Exec, return, ◌>>=◌}
use currency_converter_demo.Double.{Double}
use currency_converter_demo.Domain.{Constraints}

-- The literals of the class, and the two calls that are not its own: `system_clock::now()`, in
-- nanoseconds since the epoch, and the format `{:%Y-%m-%d}` of a count of days.
pub record ConstraintsService (S D : Type 0) : Type 0 where
  pub double : Double D
  pub system_now : Exec S ℕ
  pub format_date : ℕ → Str

module _ {S D : Type 0} where
  abbrev pub min_amount : ConstraintsService S D → D
  min_amount self = self.double.of_hundredths 1

  abbrev pub max_amount : ConstraintsService S D → D
  max_amount self = self.double.of_hundredths 100_000_000_000

  -- `floor<days>`: no time is before the epoch.
  unfoldable pub today_iso_date : ConstraintsService S D → Exec S Str
  today_iso_date self = do
    now ← self.system_now
    return (self.format_date (now / 86_400_000_000_000))

  unfoldable pub get_constraints : ConstraintsService S D → Exec S (Constraints D)
  unfolding today_iso_date
  get_constraints self = do
    today ← today_iso_date self
    return (record {
      min_amount = min_amount self;
      max_amount = max_amount self;
      min_date = bytes "1999-01-04";
      max_date = today;
    })
