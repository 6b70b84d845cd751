-- ===== src/Formula/Eval.antt =====
-- formula.ts: the functions by their number of arguments, `evaluate`, `collectFields` and
-- `compileFormula`.
use erp_global.Common.{
  Bool, true, false, ◌&&◌, ◌||◌, not, Option, none, some, List, [], ◌∷◌, ◌++◌, map, filter, length,
  if◌then◌else◌,
}
use erp_global.Common.Text.{Text, ◌===◌, codes, drop, includes, split, starts_with}
use erp_global.Common.Action.{ok, err}
use erp_global.Formula.Tokens.{changed_needs_field}
use erp_global.Formula.Tree.{
  UnaryOp, opposite, negation, BinaryOp, either, both, equal, differs, less, at_most, more,
  at_least, joined, plus, minus, times, divided, modulo, Fn, if_else, and_all, or_any, coalesce,
  min_of, max_of, sum, avg, count, concat, today, changed, has_role, in_unit, status_of, Node, num,
  str, bool, null, field, unary, binary, call, Nodes, nil, cons,
}
use erp_global.Formula.Parser.{is_changed}
use erp_global.Formula.Values.{
  Value, number, text, boolean, null_value, scalar, date, money, array, other, Language, Ambient,
  EvalContext, then_value, Answer, num_of, str_of, truthy, iso_date, is_given, to_value, all_truthy,
  any_truthy, first_given, all_values, all_nums, sum_from, average, misused, call_one, call_two,
}

abbrev pub old_prefix : Text
old_prefix = codes "old."

abbrev pub user_prefix : Text
user_prefix = codes "user."

unfoldable pub is_context_name : Text → Bool
is_context_name x = starts_with x old_prefix || starts_with x user_prefix

unfoldable pub is_column_ref : Text → Bool
unfolding is_context_name
is_column_ref x = includes x b'.' && not (is_context_name x)

unfoldable pub is_aggregate : Fn → Bool
is_aggregate sum = true
is_aggregate min_of = true
is_aggregate max_of = true
is_aggregate avg = true
is_aggregate count = true
is_aggregate f = false

unfoldable pub reads_context : Fn → Bool
reads_context changed = true
reads_context has_role = true
reads_context in_unit = true
reads_context status_of = true
reads_context f = false

-- `const [table, column] = ref.split('.')`
unfoldable pub table_of : Text → Text
table_of ref = elim (split b'.' ref) [ [] ↦ [] | t ∷ ts ↦ t ]

unfoldable pub column_of : Text → Text
column_of ref = elim (split b'.' ref) [ [] ↦ [] | t ∷ ts ↦ elim ts [ [] ↦ [] | c ∷ cs ↦ c ] ]

-- The name of a field node; the parser gives CHANGED no other argument.
unfoldable pub field_name : Nodes → Option Text
field_name (cons (field x) as_) = some x
field_name as_ = none

module _ {N D R : Type 0} (js : Language N D R) where
  unfoldable pub joined_texts : List (Value N) → Text
  unfolding str_of
  joined_texts [] = []
  joined_texts (v ∷ vs) = str_of js v ++ joined_texts vs

  unfoldable pub call_values : Fn → List (Value N) → Answer js
  unfolding average is_given joined_texts
  call_values avg vs = average js (filter (is_given js) vs)
  call_values count vs = ok (number (js.of_nat (length (filter (is_given js) vs))))
  call_values concat vs = ok (text (joined_texts vs))
  call_values f vs = misused js f

  unfoldable pub call_nums : Fn → List N → Answer js
  call_nums f [] = ok null_value
  call_nums min_of (n ∷ ns) = ok (number (js.math_min (n ∷ ns)))
  call_nums max_of (n ∷ ns) = ok (number (js.math_max (n ∷ ns)))
  call_nums f (n ∷ ns) = misused js f

  unfoldable pub by_count : Fn → Ambient D → List (Answer js) → Answer js
  unfolding call_one call_two iso_date truthy
  by_count today ctx as_ = ok (text (iso_date js ctx.now))
  by_count status_of ctx as_ = ok (elim ctx.status [ none ↦ null_value | some s ↦ text s ])
  by_count if_else ctx (c ∷ a ∷ b ∷ []) = then_value c (λ v. if truthy js v then a else b)
  by_count f ctx (a ∷ []) = call_one js f ctx a
  by_count f ctx (a ∷ b ∷ []) = call_two js f a b
  by_count f ctx as_ = misused js f

  -- `FUNCTIONS[name].call(args, ctx)`
  unfoldable pub call_fn : Fn → Ambient D → List (Answer js) → Answer js
  unfolding all_truthy any_truthy first_given all_nums sum_from all_values call_values call_nums
      by_count
  call_fn and_all ctx as_ = all_truthy js as_
  call_fn or_any ctx as_ = any_truthy js as_
  call_fn coalesce ctx as_ = first_given js as_
  call_fn min_of ctx as_ = then_value (all_nums js as_) (call_nums min_of)
  call_fn max_of ctx as_ = then_value (all_nums js as_) (call_nums max_of)
  call_fn sum ctx as_ = then_value (sum_from js (js.of_nat 0) as_) (λ n. ok (number n))
  call_fn avg ctx as_ = then_value (all_values js as_) (call_values avg)
  call_fn count ctx as_ = then_value (all_values js as_) (call_values count)
  call_fn concat ctx as_ = then_value (all_values js as_) (call_values concat)
  call_fn f ctx as_ = by_count f ctx as_

  unfoldable pub field_value : Text → EvalContext D R → Answer js
  unfolding to_value is_column_ref
  field_value x ctx =
      if starts_with x old_prefix
      then to_value js (elim ctx.old [ none ↦ none | some before ↦ before (drop 4 x) ])
      else if starts_with x user_prefix
      then (if x === codes "user.id"
          then ok (elim ctx.ambient.user [ none ↦ null_value | some (id, roles) ↦ text id ])
          else ok null_value)
      else if is_column_ref x
      then ok null_value
      else to_value js (ctx.fields x)

  -- `columnValues`: none where the table is no array.
  unfoldable pub column_values : Text → (Text → Option R) → List (Answer js)
  unfolding to_value table_of column_of
  column_values ref fields = elim (fields (table_of ref)) [
    | none ↦ []
    | some rows ↦ elim (js.view rows) [
      | array rs ↦ map (λ r. to_value js (js.member r (column_of ref))) rs
      | scalar v ↦ []
      | date d ↦ []
      | money v ↦ []
      | other ↦ []
    ]
  ]

  unfoldable pub json_of : Option R → Text
  json_of none = codes "null"
  json_of (some r) = js.json r

  -- `CHANGED`, by the name of its field.
  unfoldable pub has_changed : Text → EvalContext D R → Bool
  unfolding json_of
  has_changed x ctx =
      let now = json_of (ctx.fields x) in
      elim ctx.old [
        | none ↦ not (now === codes "null") && not (now === codes "\"\"")
        | some before ↦ not (now === json_of (before x))
      ]

  unfoldable pub changed_value : Option Text → EvalContext D R → Answer js
  unfolding has_changed
  changed_value none ctx = err (changed_needs_field 0)
  changed_value (some x) ctx = ok (boolean (has_changed x ctx))

  unfoldable pub negated : UnaryOp → Value N → Answer js
  unfolding num_of truthy
  negated opposite v = then_value (num_of js v) (λ n. ok (number (js.neg n)))
  negated negation v = ok (boolean (not (truthy js v)))

  -- `l === r`
  unfoldable pub strictly_equal : Value N → Value N → Bool
  strictly_equal (number n) (number m) = js.same n m
  strictly_equal (text s) (text t) = s === t
  strictly_equal (boolean true) (boolean true) = true
  strictly_equal (boolean false) (boolean false) = true
  strictly_equal null_value null_value = true
  strictly_equal v w = false

  -- `typeof l === typeof r`
  unfoldable pub same_type : Value N → Value N → Bool
  same_type (number n) (number m) = true
  same_type (text s) (text t) = true
  same_type (boolean a) (boolean b) = true
  same_type null_value null_value = true
  same_type v w = false

  unfoldable pub loosely_equal : Value N → Value N → Bool
  unfolding strictly_equal same_type str_of
  loosely_equal v w = strictly_equal v w || (not (same_type v w) && (str_of js v === str_of js w))

  unfoldable pub with_nums : Value N → Value N → (N → N → Value N) → Answer js
  unfolding num_of
  with_nums v w f = then_value (num_of js v) (λ n. then_value (num_of js w) (λ m. ok (f n m)))

  -- A quotient is null where the divisor is 0.
  unfoldable pub with_divisor : Value N → Value N → (N → N → N) → Answer js
  unfolding num_of with_nums
  with_divisor v w f = then_value (num_of js w) (λ m.
      if js.same m (js.of_nat 0) then ok null_value else with_nums v w (λ n m. number (f n m)))

  unfoldable pub compared : Value N → Value N → (Text → Text → Bool) → (N → N → Bool) → Answer js
  unfolding with_nums
  compared (text s) (text t) f g = ok (boolean (f s t))
  compared v w f g = with_nums v w (λ n m. boolean (g n m))

  unfoldable pub operate : BinaryOp → Value N → Value N → Answer js
  unfolding with_nums with_divisor loosely_equal compared str_of truthy
  operate plus v w = with_nums v w (λ n m. number (js.add n m))
  operate minus v w = with_nums v w (λ n m. number (js.sub n m))
  operate times v w = with_nums v w (λ n m. number (js.mul n m))
  operate divided v w = with_divisor v w js.div
  operate modulo v w = with_divisor v w js.rem
  operate joined v w = ok (text (str_of js v ++ str_of js w))
  operate equal v w = ok (boolean (loosely_equal v w))
  operate differs v w = ok (boolean (not (loosely_equal v w)))
  operate less v w = compared v w js.text_lt js.lt
  operate at_most v w = compared v w js.text_le js.le
  operate more v w = compared v w (λ s t. js.text_lt t s) (λ n m. js.lt m n)
  operate at_least v w = compared v w (λ s t. js.text_le t s) (λ n m. js.le m n)
  operate both v w = ok (boolean (truthy js v && truthy js w))
  operate either v w = ok (boolean (truthy js v || truthy js w))

  -- `&&` and `||` evaluate the right side only where the left does not decide.
  unfoldable pub combined : BinaryOp → Answer js → Answer js → Answer js
  unfolding operate truthy
  combined both l r = then_value l (λ v.
      if truthy js v then then_value r (λ w. ok (boolean (truthy js w))) else ok (boolean false))
  combined either l r = then_value l (λ v.
      if truthy js v then ok (boolean true) else then_value r (λ w. ok (boolean (truthy js w))))
  combined o l r = then_value l (λ v. then_value r (operate o v))

  -- The column that an argument of an aggregate stands for, if it is one.
  unfoldable pub expanded : Bool → Node → Option Text
  unfolding is_column_ref
  expanded b (field x) = if b && is_column_ref x then some x else none
  expanded b a = none

  -- `Number` of a literal that the tokenizer has read.
  unfoldable pub num_literal : Text → Answer js
  unfolding num_of
  num_literal t = then_value (num_of js (text t)) (λ n. ok (number n))

  unfoldable mutual
    unfolding num_literal field_value negated combined changed_value is_aggregate column_values
        expanded call_fn is_changed field_name

    pub evaluate : Node → EvalContext D R → Answer js
    evaluate (num t) ctx = num_literal t
    evaluate (str t) ctx = ok (text t)
    evaluate (bool b) ctx = ok (boolean b)
    evaluate null ctx = ok null_value
    evaluate (field x) ctx = field_value x ctx
    evaluate (unary o a) ctx = then_value (evaluate a ctx) (negated o)
    evaluate (binary o l r) ctx = combined o (evaluate l ctx) (evaluate r ctx)
    evaluate (call f as_) ctx =
        if is_changed f
        then changed_value (field_name as_) ctx
        else call_fn f ctx.ambient (evaluate_args (is_aggregate f) as_ ctx)

    pub evaluate_args : Bool → Nodes → EvalContext D R → List (Answer js)
    evaluate_args b nil ctx = []
    evaluate_args b (cons a as_) ctx =
        elim (expanded b a) [ none ↦ evaluate a ctx ∷ [] | some ref ↦ column_values ref ctx.fields ]
        ++ evaluate_args b as_ ctx
