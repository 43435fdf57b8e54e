-- ===== src/External/Payload.antt =====
-- `FrankfurterClient` (backend/src/external/FrankfurterClient.cpp): what it makes of the bodies of the
-- responses, inside its `try` blocks.
use currency_converter_demo.Base.{
  Bool, not, ◌||◌, Option, none, some, List, [], ◌∷◌, ◌++◌, if◌then◌else◌, Str, str_lt, bytes,
}
use currency_converter_demo.Exec.{Outcome, ok, throw, external_api_unexpected_response}
use currency_converter_demo.Domain.{Currency, ExchangeRate}
use currency_converter_demo.Domain.DateRange.{DateRange}
use currency_converter_demo.External.Http.{Poco, value, failed}
use currency_converter_demo.External.Json.{Json}

-- How a `try` block ends: by a value, by a `Poco::Exception`, or by an
-- `ExternalApiUnexpectedResponseException` of its own.
pub data Attempt (A : Type 0) : Type 0 where
  done : A → Attempt A
  poco : Str → Attempt A
  unexpected : Str → Attempt A

infixl 5 ◌>>=◌
abbrev pub ◌>>=◌ : {A B : Type 0} → Attempt A → (A → Attempt B) → Attempt B
done a >>= f = f a
poco t >>= f = poco t
unexpected t >>= f = unexpected t

abbrev pub call : {A : Type 0} → Poco A → Attempt A
call (value a) = done a
call (failed t) = poco t

-- `->` on a pointer; Poco's pointers throw if they are null.
abbrev pub deref : {A : Type 0} → Option A → Attempt A
deref none = poco (bytes "Null pointer")
deref (some a) = done a

-- The `catch` blocks, the payload named by a text.
unfoldable pub rethrow : {A : Type 0} → Str → Attempt A → Outcome A
rethrow name (done a) = ok a
rethrow name (unexpected t) = throw (external_api_unexpected_response t)
rethrow name (poco t) =
    throw
      (external_api_unexpected_response (bytes "unexpected " ++ name ++ bytes " payload: " ++ t))

-- `std::sort` by the dates, for points of distinct dates.
module _ {D : Type 0} where
  unfoldable pub insert_point : ExchangeRate D → List (ExchangeRate D) → List (ExchangeRate D)
  insert_point r [] = r ∷ []
  insert_point r (q ∷ qs) = if str_lt r.date q.date then r ∷ q ∷ qs else q ∷ insert_point r qs

  unfoldable pub sort_points : List (ExchangeRate D) → List (ExchangeRate D)
  unfolding insert_point
  sort_points [] = []
  sort_points (r ∷ rs) = insert_point r (sort_points rs)

unfoldable pub outside : DateRange → Str → Bool
outside range date = str_lt date range.start_date || str_lt range.end_date date

module _ {D : Type 0} where
  abbrev pub push : Option (ExchangeRate D) → List (ExchangeRate D) → List (ExchangeRate D)
  push none l = l
  push (some r) l = r ∷ l

module _ {D : Type 0} (json : Json D) where
  open json use {
    Var, Object, parse, extract, entries, to_string, get_string, get_object, get_double, has,
  }

  -- `parser.parse(body).extract<Object::Ptr>()`
  unfoldable pub parse_object : Str → Attempt (Option Object)
  parse_object body = do v ← call (parse body); call (extract v)

  unfoldable pub currencies_from : List (Str × Var) → Attempt (List Currency)
  currencies_from [] = done []
  currencies_from ((name, v) ∷ l) = do
    full_name ← call (to_string v)
    rest ← currencies_from l
    done (record { code = name; full_name = full_name } ∷ rest)

  unfoldable pub read_currencies : Str → Attempt (List Currency)
  unfolding parse_object currencies_from
  read_currencies body = do
    pointer ← parse_object body
    object ← deref pointer
    currencies_from (entries object)

  -- The rate of the target in the object of rates, if there is one.
  unfoldable pub rate_in : Str → Str → Str → Option Object → Attempt (ExchangeRate D)
  rate_in source target date none =
      unexpected (bytes "no rate for " ++ target ++ bytes " in /v1/latest response")
  rate_in source target date (some rates) =
      if not (has rates target)
      then unexpected (bytes "no rate for " ++ target ++ bytes " in /v1/latest response")
      else (call (get_double rates target) >>= λ rate.
          done (record { base = source; quote = target; rate = rate; date = date }))

  unfoldable pub read_latest : Str → Str → Str → Attempt (ExchangeRate D)
  unfolding parse_object rate_in
  read_latest source target body = do
    pointer ← parse_object body
    object ← deref pointer
    date ← call (get_string object (bytes "date"))
    rate_in source target date (get_object object (bytes "rates"))

  -- The point of one day, if the day has a rate of the target.
  unfoldable pub point_of : Str → Str → Str → Option Object → Attempt (Option (ExchangeRate D))
  point_of source target date none = done none
  point_of source target date (some day) =
      if not (has day target)
      then done none
      else (call (get_double day target) >>= λ rate.
          done (some (record { base = source; quote = target; rate = rate; date = date })))

  -- The loop over the days.
  unfoldable pub points_from :
      Str → Str → DateRange → List (Str × Var) → Attempt (List (ExchangeRate D))
  unfolding point_of outside
  points_from source target range [] = done []
  points_from source target range ((date, v) ∷ l) =
      let rest = points_from source target range l in
      if outside range date
      then rest
      else (call (extract v) >>= λ day.
          point_of source target date day >>= λ p. rest >>= λ points. done (push p points))

  -- The series in the object of the days' rates, if there is one.
  unfoldable pub series_in : Str → Str → DateRange → Option Object → Attempt (List (ExchangeRate D))
  unfolding points_from sort_points
  series_in source target range none =
      unexpected (bytes "missing 'rates' in /v1/{start}..{end} response")
  series_in source target range (some rates) = do
    points ← points_from source target range (entries rates)
    done (sort_points points)

  unfoldable pub read_history : Str → Str → DateRange → Str → Attempt (List (ExchangeRate D))
  unfolding parse_object series_in
  read_history source target range body = do
    pointer ← parse_object body
    object ← deref pointer
    series_in source target range (get_object object (bytes "rates"))
