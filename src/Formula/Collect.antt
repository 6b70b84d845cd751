-- ===== src/Formula/Collect.antt =====
-- formula.ts: `collectFields`, `compileFormula`, and the helpers over the names that they give.
use erp_global.Common.{
  Bool, true, false, ◌&&◌, ◌||◌, not, Option, none, some, List, [], ◌∷◌, ◌++◌, any, filter, map,
  if◌then◌else◌,
}
use erp_global.Common.Text.{Text, ◌===◌, codes, drop, includes, split, starts_with}
use erp_global.Common.Action.{Result, ok, err}
use erp_global.Formula.Tokens.{FormulaError, unknown_name}
use erp_global.Formula.Tree.{
  Fn, fn_text, Node, num, str, bool, null, field, unary, binary, call, Nodes, nil, cons,
}
use erp_global.Formula.Parser.{parse_formula}
use erp_global.Formula.Values.{
  Value, number, text, boolean, null_value, Language, EvalContext, Answer, then_value,
}
use erp_global.Formula.Eval.{
  old_prefix, is_column_ref, is_aggregate, reads_context, table_of, evaluate,
}

-- The two sets, in the order in which names were added.
pub record Names : Type 0 where
  pub fields : List Text
  pub context : List Text

unfoldable pub add : Text → List Text → List Text
add x xs = if any (λ y. y === x) xs then xs else xs ++ (x ∷ [])

abbrev pub add_field : Text → Names → Names
add_field x out = record out { fields = add x out.fields }

abbrev pub add_context : Text → Names → Names
add_context x out = record out { context = add x out.context }

unfoldable pub is_field_node : Node → Bool
is_field_node (field x) = true
is_field_node e = false

unfoldable pub collect_name : Text → Bool → Names → Result FormulaError Names
unfolding is_column_ref add
collect_name x in_aggregate out =
    if is_column_ref x
    then (if in_aggregate then ok (add_field x out) else err (unknown_name x))
    else if includes x b'.'
    then ok (
        if starts_with x old_prefix
        then add_field (drop 4 x) (add_context x out)
        else add_context x out)
    else ok (add_field x out)

abbrev pub note_context : Fn → Names → Names
note_context f out = if reads_context f then add_context (fn_text f ++ codes "()") out else out

-- `collectFields`
unfoldable mutual
  unfolding collect_name reads_context fn_text is_aggregate is_field_node add

  pub collect : Node → Bool → Names → Result FormulaError Names
  collect (num t) in_aggregate out = ok out
  collect (str t) in_aggregate out = ok out
  collect (bool b) in_aggregate out = ok out
  collect null in_aggregate out = ok out
  collect (field x) in_aggregate out = collect_name x in_aggregate out
  collect (unary o a) in_aggregate out = collect a false out
  collect (binary o l r) in_aggregate out = then_value (collect l false out) (collect r false)
  collect (call f as_) in_aggregate out = collect_args (is_aggregate f) as_ (note_context f out)

  pub collect_args : Bool → Nodes → Names → Result FormulaError Names
  collect_args aggregate nil out = ok out
  collect_args aggregate (cons a as_) out =
      then_value (collect a (aggregate && is_field_node a) out) (collect_args aggregate as_)

abbrev pub no_names : Names
no_names = record { fields = []; context = [] }

-- `formulaFieldKeys`
unfoldable pub unique_keys : List Text → List Text → List Text
unfolding add
unique_keys [] out = out
unique_keys (k ∷ ks) out = unique_keys ks (add k out)

unfoldable pub formula_field_keys : List Text → List Text
unfolding unique_keys table_of
formula_field_keys deps = unique_keys (map table_of deps) []

pub record EntityField : Type 0 where
  pub key : Text
  pub type : Text
  pub columns : Option (List Text)

-- The last field with the key, as a map that is filled in order gives.
unfoldable pub field_with_key : Text → List EntityField → Option EntityField
field_with_key k [] = none
field_with_key k (f ∷ fs) = elim (field_with_key k fs) [
  | none ↦ if f.key === k then some f else none
  | some g ↦ some g
]

unfoldable pub is_unknown : List EntityField → Text → Bool
unfolding field_with_key table_of
is_unknown fields d = elim (field_with_key (table_of d) fields) [
  | none ↦ true
  | some f ↦ elim (split b'.' d) [
    | [] ↦ false
    | t ∷ ts ↦ elim ts [
      | [] ↦ false
      | c ∷ cs ↦
          not (f.type === codes "table")
          || not (elim f.columns [ none ↦ false | some columns ↦ any (λ k. k === c) columns ])
    ]
  ]
]

-- `unknownFormulaNames`
unfoldable pub unknown_formula_names : List Text → List EntityField → List Text
unfolding is_unknown
unknown_formula_names deps fields = filter (is_unknown fields) deps

module _ {N D R : Type 0} (js : Language N D R) where
  -- A number that is not finite is answered as null.
  unfoldable pub finite_only : Value N → Value N
  finite_only (number n) = if js.is_finite n then number n else null_value
  finite_only (text t) = text t
  finite_only (boolean b) = boolean b
  finite_only null_value = null_value

  -- `compileFormula`: the names, and the function that evaluates.
  unfoldable pub compile_formula :
      Text → Result FormulaError (Names × (EvalContext D R → Answer js))
  unfolding parse_formula collect evaluate finite_only
  compile_formula source = then_value (parse_formula source) (λ tree.
      then_value (collect tree false no_names)
        (λ names. ok (names, λ ctx. then_value (evaluate js tree ctx) (λ v. ok (finite_only v)))))
