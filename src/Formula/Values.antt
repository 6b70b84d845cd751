-- ===== src/Formula/Values.antt =====
-- formula.ts: the values of a formula, and what its functions make of them.
use erp_global.Common.{
  ℕ, Bool, true, false, not, Option, none, some, List, [], ◌∷◌, ◌++◌, any, map, length,
  if◌then◌else◌,
}
use erp_global.Common.Text.{Text, ◌===◌, codes, take, contains}
use erp_global.Common.Action.{Result, ok, err}
use erp_global.Formula.Tokens.{FormulaError, invalid_time, not_a_number, not_a_date, wrong_arity}
use erp_global.Formula.Tree.{
  Fn, if_else, not_of, round, floor, ceil, abs, upper_of, lower_of, trim_of, len, left, right, year,
  month, day, days_between, add_days, is_empty, contains_text, has_role, in_unit, fn_text,
}

-- `Value`, over the numbers of the language.
pub data Value (N : Type 0) : Type 0 where
  number : N → Value N
  text : Text → Value N
  boolean : Bool → Value N
  null_value : Value N

-- An unknown value, as the tests of `toValue` see it.
pub data View (N D R : Type 0) : Type 0 where
  scalar : Value N → View N D R
  date : D → View N D R
  money : Value N → View N D R
  array : List R → View N D R
  other : View N D R

-- What the language gives: numbers, dates, strings and unknown values. `number_of` is `Number`, without
-- a value where that is NaN, `date_of` the date of a string, where it is one, and `date_at` that at a
-- time, none where `toISOString` of it throws a RangeError.
pub record Language (N D R : Type 0) : Type 0 where
  pub number_of : Text → Option N
  pub of_bool : Bool → N
  pub of_nat : ℕ → N
  pub is_nan : N → Bool
  pub is_finite : N → Bool
  pub to_text : N → Text
  pub add : N → N → N
  pub sub : N → N → N
  pub mul : N → N → N
  pub div : N → N → N
  pub rem : N → N → N
  pub neg : N → N
  pub same : N → N → Bool
  pub lt : N → N → Bool
  pub le : N → N → Bool
  pub text_lt : Text → Text → Bool
  pub text_le : Text → Text → Bool
  pub power_of_ten : N → N
  pub math_round : N → N
  pub math_floor : N → N
  pub math_ceil : N → N
  pub math_abs : N → N
  pub math_min : List N → N
  pub math_max : List N → N
  pub to_upper : Text → Text
  pub to_lower : Text → Text
  pub trim : Text → Text
  pub slice_first : Text → N → Text
  pub slice_last : Text → N → Text
  pub date_of : Text → Option D
  pub time_of : D → N
  pub date_at : N → Option D
  pub iso : D → Text
  pub utc_year : D → N
  pub utc_month : D → N
  pub utc_day : D → N
  pub view : R → View N D R
  pub string_of : R → Text
  pub json : R → Text
  pub member : R → Text → Option R

-- `EvalContext`: what the functions read of it, and with that the record's values before and after. A
-- status that is missing or null is none.
pub record Ambient (D : Type 0) : Type 0 where
  pub now : D
  pub user : Option (Text × List Text)
  pub unit_codes : Option (List Text)
  pub status : Option Text

pub record EvalContext (D R : Type 0) : Type 0 where
  pub fields : Text → Option R
  pub old : Option (Text → Option R)
  pub ambient : Ambient D

abbrev pub then_value :
    {A B : Type 0} → Result FormulaError A → (A → Result FormulaError B) → Result FormulaError B
then_value (ok a) k = k a
then_value (err e) k = err e

abbrev pub join_texts : Text → List Text → Text
join_texts sep [] = []
join_texts sep (t ∷ []) = t
join_texts sep (t ∷ u ∷ ts) = t ++ (sep ++ join_texts sep (u ∷ ts))

module _ {N D R : Type 0} (js : Language N D R) where
  abbrev pub Answer : Type 0
  Answer = Result FormulaError (Value N)

  unfoldable pub num_of : Value N → Result FormulaError N
  num_of null_value = ok (js.of_nat 0)
  num_of (text []) = ok (js.of_nat 0)
  num_of (text (c ∷ s)) = elim (js.number_of (c ∷ s)) [
    | none ↦ err (not_a_number (c ∷ s))
    | some n ↦ ok n
  ]
  num_of (boolean b) = ok (js.of_bool b)
  num_of (number n) = if js.is_nan n then err (not_a_number (js.to_text n)) else ok n

  unfoldable pub str_of : Value N → Text
  str_of null_value = []
  str_of (text t) = t
  str_of (boolean true) = codes "true"
  str_of (boolean false) = codes "false"
  str_of (number n) = js.to_text n

  unfoldable pub truthy : Value N → Bool
  truthy null_value = false
  truthy (text []) = false
  truthy (text (c ∷ s)) = true
  truthy (boolean b) = b
  truthy (number n) = not (js.same n (js.of_nat 0))

  unfoldable pub to_date : Value N → Result FormulaError D
  unfolding str_of
  to_date v = elim (js.date_of (str_of v)) [ none ↦ err (not_a_date (str_of v)) | some d ↦ ok d ]

  unfoldable pub iso_date : D → Text
  iso_date d = take 10 (js.iso d)

  -- `v !== null && v !== ''`
  unfoldable pub is_given : Value N → Bool
  is_given null_value = false
  is_given (text []) = false
  is_given v = true

  unfoldable pub to_value : Option R → Answer
  unfolding num_of
  to_value none = ok null_value
  to_value (some r) = elim (js.view r) [
    | scalar v ↦ ok v
    | date d ↦ ok (text (js.iso d))
    | money v ↦ then_value (num_of v) (λ n. ok (number n))
    | array rs ↦ ok (text (join_texts (codes ",") (map js.string_of rs)))
    | other ↦ ok (text (js.string_of r))
  ]

  -- `every` and `some` stop at the first argument that decides.
  unfoldable pub all_truthy : List Answer → Answer
  unfolding truthy
  all_truthy [] = ok (boolean true)
  all_truthy (a ∷ as_) =
      let rest = all_truthy as_ in then_value a (λ v. if truthy v then rest else ok (boolean false))

  unfoldable pub any_truthy : List Answer → Answer
  unfolding truthy
  any_truthy [] = ok (boolean false)
  any_truthy (a ∷ as_) =
      let rest = any_truthy as_ in then_value a (λ v. if truthy v then ok (boolean true) else rest)

  unfoldable pub first_given : List Answer → Answer
  unfolding is_given
  first_given [] = ok null_value
  first_given (a ∷ as_) =
      let rest = first_given as_ in then_value a (λ v. if is_given v then ok v else rest)

  -- `args.map((a) => a())`
  unfoldable pub all_values : List Answer → Result FormulaError (List (Value N))
  all_values [] = ok []
  all_values (a ∷ as_) = then_value a (λ v. then_value (all_values as_) (λ vs. ok (v ∷ vs)))

  unfoldable pub all_nums : List Answer → Result FormulaError (List N)
  unfolding num_of
  all_nums [] = ok []
  all_nums (a ∷ as_) =
      then_value a (λ v. then_value (num_of v) (λ n. then_value (all_nums as_) (λ ns. ok (n ∷ ns))))

  -- `reduce((s, a) => s + num(a()), s)`
  unfoldable pub sum_from : N → List Answer → Result FormulaError N
  unfolding num_of
  sum_from s [] = ok s
  sum_from s (a ∷ as_) = then_value a (λ v. then_value (num_of v) (λ n. sum_from (js.add s n) as_))

  unfoldable pub average : List (Value N) → Answer
  unfolding sum_from
  average [] = ok null_value
  average (v ∷ vs) =
      then_value (sum_from (js.of_nat 0) (map ok (v ∷ vs)))
        (λ s. ok (number (js.div s (js.of_nat (length (v ∷ vs))))))

  unfoldable pub of_num : Answer → (N → Value N) → Answer
  unfolding num_of
  of_num a f = then_value a (λ v. then_value (num_of v) (λ n. ok (f n)))

  unfoldable pub of_text : Answer → (Text → Value N) → Answer
  unfolding str_of
  of_text a f = then_value a (λ v. ok (f (str_of v)))

  unfoldable pub of_date : Answer → (D → Value N) → Answer
  unfolding to_date
  of_date a f = then_value a (λ v. then_value (to_date v) (λ d. ok (f d)))

  abbrev pub day_ms : N
  day_ms = js.of_nat 86400000

  -- `lower(want)` among the names in lower case.
  unfoldable pub is_among : Option (List Text) → Text → Value N
  is_among none want = boolean false
  is_among (some names) want =
      boolean (any (λ r. js.to_lower r === js.to_lower (js.trim want)) names)

  abbrev pub misused : Fn → Answer
  misused f = err (wrong_arity (fn_text f) 0)

  unfoldable pub call_one : Fn → Ambient D → Answer → Answer
  unfolding truthy of_num of_text of_date is_among
  call_one not_of ctx a = then_value a (λ v. ok (boolean (not (truthy v))))
  call_one round ctx a = of_num a (λ n. number (
      js.div (js.math_round (js.mul n (js.power_of_ten (js.of_nat 0))))
        (js.power_of_ten (js.of_nat 0))))
  call_one floor ctx a = of_num a (λ n. number (js.math_floor n))
  call_one ceil ctx a = of_num a (λ n. number (js.math_ceil n))
  call_one abs ctx a = of_num a (λ n. number (js.math_abs n))
  call_one upper_of ctx a = of_text a (λ t. text (js.to_upper t))
  call_one lower_of ctx a = of_text a (λ t. text (js.to_lower t))
  call_one trim_of ctx a = of_text a (λ t. text (js.trim t))
  call_one len ctx a = of_text a (λ t. number (js.of_nat (length t)))
  call_one year ctx a = of_date a (λ d. number (js.utc_year d))
  call_one month ctx a = of_date a (λ d. number (js.add (js.utc_month d) (js.of_nat 1)))
  call_one day ctx a = of_date a (λ d. number (js.utc_day d))
  call_one is_empty ctx a = of_text a (λ t. boolean (js.trim t === []))
  call_one has_role ctx a =
      of_text a (λ t. is_among (elim ctx.user [ none ↦ none | some (id, roles) ↦ some roles ]) t)
  call_one in_unit ctx a = of_text a (λ t. is_among ctx.unit_codes t)
  call_one f ctx a = misused f

  unfoldable pub later_date : Option D → Answer
  unfolding iso_date
  later_date none = err invalid_time
  later_date (some d) = ok (text (iso_date d))

  unfoldable pub call_two : Fn → Answer → Answer → Answer
  unfolding num_of str_of truthy to_date later_date of_text
  call_two if_else c a = then_value c (λ v. if truthy v then a else ok null_value)
  call_two round a d = then_value d (λ w. then_value (num_of w) (λ k. then_value a (λ v.
      then_value (num_of v) (λ n.
        ok (number (js.div (js.math_round (js.mul n (js.power_of_ten k))) (js.power_of_ten k)))))))
  call_two left a n = then_value a (λ v.
      then_value n (λ w. then_value (num_of w) (λ k. ok (text (js.slice_first (str_of v) k)))))
  call_two right a n =
      then_value a (λ v.
        then_value n (λ w. then_value (num_of w) (λ k. ok (text (js.slice_last (str_of v) k)))))
  call_two days_between a b = then_value b (λ w. then_value (to_date w) (λ e. then_value a (λ v.
      then_value (to_date v)
        (λ d. ok (number (js.math_round (js.div (js.sub (js.time_of e) (js.time_of d)) day_ms)))))))
  call_two add_days a n = then_value a (λ v. then_value (to_date v) (λ d. then_value n (λ w.
      then_value (num_of w)
        (λ k. later_date (js.date_at (js.add (js.time_of d) (js.mul k day_ms)))))))
  call_two contains_text a b = then_value a (λ v.
      then_value b (λ w. ok (boolean (contains (js.to_lower (str_of v)) (js.to_lower (str_of w))))))
  call_two f a b = misused f
