-- ===== src/External/Completeness.antt =====
-- The loop of `history` (backend/src/external/FrankfurterClient.cpp): which days' points it keeps.
use currency_converter_demo.Base.{
  bytes, ◌≡◌, refl, sym, subst, true, false, Option, none, some, List, [], ◌∷◌, Str, str_lt, ◌⊎◌,
  Bool-cases, inl, inr, arith,
}
use currency_converter_demo.Domain.{ExchangeRate}
use currency_converter_demo.Domain.DateRange.{DateRange}
use currency_converter_demo.External.Http.{value}
use currency_converter_demo.External.Json.{Json}
use currency_converter_demo.External.Payload.{
  done, call, push, insert_point, sort_points, outside, point_of, points_from, parse_object,
  series_in, read_history,
}
use currency_converter_demo.External.Dates.{>>=-eq-done, done-injective}

abbrev pub Occurs : {A : Type 0} → A → List A → Type 0
Occurs a [] = ⊥
Occurs a (x ∷ l) = (x ≡ a) ⊎ Occurs a l

module _ {D : Type 0} where
  insert_point-Occurs :
      (r q : ExchangeRate D) (l : List (ExchangeRate D))
      → Occurs q (r ∷ l)
      → Occurs q (insert_point r l)
  unfolding insert_point
  insert_point-Occurs r q [] m = m
  insert_point-Occurs r q (x ∷ l) m = elim (Bool-cases (str_lt r.date x.date)) [
    | inl before ↦ rw (before, insert_point) m
    | inr after ↦
        rw (after, insert_point)
          (elim m [
            | inl new ↦ inr (insert_point-Occurs r q l (inl new))
            | inr (inl first) ↦ inl first
            | inr (inr later) ↦ inr (insert_point-Occurs r q l (inr later))
          ])
  ]

  sort_points-Occurs :
      (q : ExchangeRate D) (l : List (ExchangeRate D)) → Occurs q l → Occurs q (sort_points l)
  unfolding sort_points
  sort_points-Occurs q [] m = m
  sort_points-Occurs q (r ∷ l) (inl new) = insert_point-Occurs r q (sort_points l) (inl new)
  sort_points-Occurs q (r ∷ l) (inr old) =
      insert_point-Occurs r q (sort_points l) (inr (sort_points-Occurs q l old))

  push-Occurs :
      (p : Option (ExchangeRate D)) (q : ExchangeRate D) (l : List (ExchangeRate D))
      → Occurs q l
      → Occurs q (push p l)
  push-Occurs none q l m = m
  push-Occurs (some r) q l m = inr m

module _ {D : Type 0} (json : Json D) (source target : Str) (range : DateRange) where
  open json use {Var, Object}

  -- The object of a day that is inside the range and has a rate of the target.
  pub record IsQuoted (date : Str) (v : Var) (rate : D) : Type 0 where
    pub day : Object
    pub from_start : str_lt date range.start_date ≡ false
    pub to_end : str_lt range.end_date date ≡ false
    pub object : json.extract v ≡ value (some day)
    pub quoted : json.has day target ≡ true
    pub number : json.get_double day target ≡ value rate

  abbrev point : Str → D → ExchangeRate D
  point date rate = record { base = source; quote = target; rate = rate; date = date }

  first_day :
      (n : Str) (w : Var) (l : List (Str × Var)) (points : List (ExchangeRate D)) (rate : D)
      → points_from json source target range ((n, w) ∷ l) ≡ done points
      → IsQuoted n w rate
      → Occurs (point n rate) points
  unfolding points_from point_of outside
  first_day n w l points rate e q =
      let within : outside range n ≡ false = rw (q.from_start, q.to_end, outside) refl in
      let (rest, others, e1) =
        >>=-eq-done (points_from json source target range l) (λ r. done (point n rate ∷ r))
          (rw (within, q.object, q.quoted, q.number) at e) in
      subst (Occurs (point n rate)) (done-injective e1) (inl refl)

  points_from-Occurs :
      (l : List (Str × Var)) (points : List (ExchangeRate D)) (date : Str) (v : Var) (rate : D)
      → points_from json source target range l ≡ done points
      → Occurs (date, v) l
      → IsQuoted date v rate
      → Occurs (point date rate) points
  unfolding points_from point_of
  points_from-Occurs [] points date v rate e m q = absurd m
  points_from-Occurs ((n, w) ∷ l) points date v rate e (inl same) q =
      subst (λ x. Occurs (point x.0 rate) points) same
        (first_day n w l points rate e (subst (λ x. IsQuoted x.0 x.1 rate) (sym same) q))
  points_from-Occurs ((n, w) ∷ l) points date v rate e (inr later) q =
      elim (Bool-cases (outside range n)) [
        | inl out ↦ points_from-Occurs l points date v rate (ground arith) later q
        | inr within ↦
            let (day, extracted, e1) = >>=-eq-done (call (json.extract w)) _ (rw within at e) in
            let (p, made, e2) = >>=-eq-done (point_of json source target n day) _ e1 in
            let (rest, others, e3) = >>=-eq-done (points_from json source target range l) _ e2 in
            subst (Occurs (point date rate)) (done-injective e3) (
              push-Occurs p (point date rate) rest
                (points_from-Occurs l rest date v rate others later q))
      ]

  -- Let a body be read as a history, and let it have an object of days. Then for each day of that
  -- object which is inside the range, and for which it has a rate of the target, the history has the
  -- point of that day with that rate.
  pub read_history-Occurs :
      (body : Str) (object days : Object) (l : List (ExchangeRate D)) (date : Str) (v : Var)
      (rate : D)
      → parse_object json body ≡ done (some object)
      → json.get_object object (bytes "rates") ≡ some days
      → read_history json source target range body ≡ done l
      → Occurs (date, v) (json.entries days)
      → IsQuoted date v rate
      → Occurs (point date rate) l
  unfolding read_history series_in
  read_history-Occurs body object days l date v rate p found e m q =
      let (points, read, e1) =
        >>=-eq-done (points_from json source target range (json.entries days))
          (λ points. done (sort_points points)) (rw (p, found) at e) in
      subst (Occurs (point date rate)) (done-injective e1) (
        sort_points-Occurs (point date rate) points
          (points_from-Occurs (json.entries days) points date v rate read m q))
