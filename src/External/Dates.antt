-- ===== src/External/Dates.antt =====
-- The points of a history response: which days they are of, and their order.
use currency_converter_demo.Base.{
  Option-cases, All-map, trivial-All, ◌≡◌, refl, sym, ◌∙◌, ap, subst, ◌≢◌, inl, inr, true, false,
  Option, none, some, List, [], ◌∷◌, All, Str, str_lt, str_lt_trans, str_lt_total, arith,
  Bool-cases,
}
use currency_converter_demo.Domain.{ExchangeRate}
use currency_converter_demo.Domain.DateRange.{DateRange}
use currency_converter_demo.External.Json.{Json, DistinctNames}
use currency_converter_demo.External.Payload.{
  Attempt, done, poco, unexpected, ◌>>=◌, call, push, insert_point, sort_points, point_of, outside,
  points_from,
}
use currency_converter_demo.External.Provider.{Ascending, IsSeriesOf}

module _ {D : Type 0} where
  insert_point-All {κ} :
      (P : ExchangeRate D → Type κ) (r : ExchangeRate D) (l : List (ExchangeRate D))
      → P r
      → All P l
      → All P (insert_point r l)
  unfolding insert_point
  insert_point-All P r [] p h = (p, tt)
  insert_point-All P r (q ∷ qs) p h = elim (Bool-cases (str_lt r.date q.date)) [
    | inl first ↦ rw (first, insert_point) (p, h)
    | inr later ↦ rw (later, insert_point) (h.0, insert_point-All P r qs p h.1)
  ]

  pub sort_points-All {κ} :
      (P : ExchangeRate D → Type κ) (l : List (ExchangeRate D)) → All P l → All P (sort_points l)
  unfolding sort_points
  sort_points-All P [] h = tt
  sort_points-All P (r ∷ l) h = insert_point-All P r (sort_points l) h.0 (sort_points-All P l h.1)

  All-later :
      (s t : Str) (l : List (ExchangeRate D))
      → str_lt s t ≡ true
      → All (λ q. str_lt t q.date ≡ true) l
      → All (λ q. str_lt s q.date ≡ true) l
  All-later s t [] p h = tt
  All-later s t (q ∷ qs) p h = (str_lt_trans s t q.date p h.0, All-later s t qs p h.1)

  insert_point-Ascending :
      (r : ExchangeRate D) (l : List (ExchangeRate D))
      → Ascending l
      → All (λ q. q.date ≢ r.date) l
      → Ascending (insert_point r l)
  unfolding insert_point
  insert_point-Ascending r [] h n = (tt, tt)
  insert_point-Ascending r (q ∷ qs) h n = elim (Bool-cases (str_lt r.date q.date)) [
    | inl first ↦ rw (first, insert_point) ((first, All-later r.date q.date qs first h.0), h)
    | inr later ↦
        rw (later, insert_point)
          (
            insert_point-All (λ x. str_lt q.date x.date ≡ true) r qs
                (str_lt_total r.date q.date later (λ e. n.0 (sym e))) h.0,
            insert_point-Ascending r qs h.1 n.1,
          )
  ]

  abbrev DistinctDates : List (ExchangeRate D) → Type 0
  DistinctDates [] = Unit
  DistinctDates (r ∷ l) = All (λ q. q.date ≢ r.date) l × DistinctDates l

  -- Points of distinct dates are sorted into the order of their dates.
  pub sort_points-Ascending :
      (l : List (ExchangeRate D)) → DistinctDates l → Ascending (sort_points l)
  unfolding sort_points
  sort_points-Ascending [] d = tt
  sort_points-Ascending (r ∷ l) d =
      insert_point-Ascending r (sort_points l) (sort_points-Ascending l d.1)
        (sort_points-All (λ q. q.date ≢ r.date) l d.0)

pub >>=-eq-done :
    {A B : Type 0} (m : Attempt A) (f : A → Attempt B) {b : B}
    → (m >>= f) ≡ done b
    → (a : A) × (m ≡ done a) × (f a ≡ done b)
>>=-eq-done (done a) f h = (a, refl, h)
>>=-eq-done (poco t) f h = cc
>>=-eq-done (unexpected t) f h = cc

pub done-injective : {A : Type 0} {a b : A} → done a ≡ done b → a ≡ b
done-injective e = cc

module _ {D : Type 0} (json : Json D) (source target : Str) (range : DateRange) where
  open json use {Var, Object}

  -- A point of the series on a day.
  abbrev IsPointOf : Str → ExchangeRate D → Type 0
  IsPointOf date r =
      (r.base ≡ source) × (r.quote ≡ target) × (r.date ≡ date) × (outside range date ≡ false)

  -- A day adds its point or nothing to those of the rest.
  record Extends (date : Str) (rest points : List (ExchangeRate D)) : Type 0 where
    point : Option (ExchangeRate D)
    grown : points ≡ push point rest
    of_day : (r : ExchangeRate D) → point ≡ some r → IsPointOf date r

  point_of_lem :
      (date : Str) (day : Option Object) (r : ExchangeRate D)
      → point_of json source target date day ≡ done (some r)
      → (r.base ≡ source) × (r.quote ≡ target) × (r.date ≡ date)
  unfolding point_of
  point_of_lem date none r e = cc
  point_of_lem date (some day) r e = ground arith

  points_from-Extends :
      (date : Str) (v : Var) (l : List (Str × Var)) (points : List (ExchangeRate D))
      → points_from json source target range ((date, v) ∷ l) ≡ done points
      → (rest : List (ExchangeRate D)) × (points_from json source target range l ≡ done rest)
        × Extends date rest points
  unfolding points_from
  points_from-Extends date v l points e = elim (Bool-cases (outside range date)) [
    | inl out ↦ (points, ground arith, record { point = none; grown = refl; of_day = λ r h. cc })
    | inr within ↦
        let (day, extracted, e1) = >>=-eq-done (call (json.extract v)) _ (rw within at e) in
        let (p, made, e2) = >>=-eq-done (point_of json source target date day) _ e1 in
        let (rest, others, e3) = >>=-eq-done (points_from json source target range l) _ e2 in
        (
          rest,
          others,
          record {
            point = p;
            grown = ground arith;
            of_day = λ r h.
                let (b, q, d) = point_of_lem date day r (made ∙ ap done h) in (b, q, d, within);
          },
        )
  ]

  -- Every point is of the pair, of a day inside the range, and of one of the days.
  points_from-All {κ} :
      (P : Str → Type κ) (l : List (Str × Var)) (points : List (ExchangeRate D))
      → points_from json source target range l ≡ done points
      → All (λ e. P e.0) l
      → All (λ r. IsPointOf r.date r × P r.date) points
  unfolding points_from
  points_from-All P [] points e h = subst (All _) (done-injective e) tt
  points_from-All P ((date, v) ∷ l) points e h =
      let (rest, others, x) = points_from-Extends date v l points e in
      let below = points_from-All P l rest others h.1 in
      elim (Option-cases x.point) [
        | inl nothing ↦ rw (x.grown, nothing) below
        | inr (r, found) ↦
            let (b, q, d, within) = x.of_day r found in
            rw (x.grown, found) (((b, q, refl, rw d within), subst P (sym d) h.0), below)
      ]

  points_from-DistinctDates :
      (l : List (Str × Var)) (points : List (ExchangeRate D))
      → points_from json source target range l ≡ done points
      → DistinctNames l
      → DistinctDates points
  unfolding points_from
  points_from-DistinctDates [] points e h = subst DistinctDates (done-injective e) tt
  points_from-DistinctDates ((date, v) ∷ l) points e h =
      let (rest, others, x) = points_from-Extends date v l points e in
      let below = points_from-DistinctDates l rest others h.1 in
      elim (Option-cases x.point) [
        | inl nothing ↦ rw (x.grown, nothing) below
        | inr (r, found) ↦
            let of_day = x.of_day r found in
            let fresh = points_from-All (λ n. n ≢ date) l rest others h.0 in
            rw (x.grown, found) (rw of_day.2 (All-map _ _ (λ q p. p.1) rest fresh), below)
      ]

  -- The sorted points of distinct days are a series of the pair inside the range.
  pub points_from-IsSeriesOf :
      (l : List (Str × Var)) (points : List (ExchangeRate D))
      → points_from json source target range l ≡ done points
      → DistinctNames l
      → IsSeriesOf source target range.start_date range.end_date (sort_points points)
  unfolding outside
  points_from-IsSeriesOf l points e h =
      let all = points_from-All (λ n. Unit {0}) l points e (trivial-All l) in
      (
        sort_points-All _ points (
            All-map _ _ (λ r p. let inside = p.0.3 in (p.0.0, p.0.1, ground arith, ground arith))
              points all),
        sort_points-Ascending points (points_from-DistinctDates l points e h),
      )
