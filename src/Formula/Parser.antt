-- ===== src/Formula/Parser.antt =====
-- formula.ts: `Parser`. Each call counts down the fuel, and takes the tokens that are left.
use erp_global.Common.{
  ℕ, zero, suc, ◌+◌, ◌*◌, Bool, true, false, ◌&&◌, ◌||◌, not, Option, none, some, List, [], ◌∷◌,
  find, length, ltb, if◌then◌else◌,
}
use erp_global.Common.Text.{Text, ◌===◌, codes, upper}
use erp_global.Common.Action.{Result, ok, err}
use erp_global.Formula.Tokens.{
  Token, Kind, FormulaError, too_deep, out_of_fuel, past_end, expected, unexpected,
  ends_unexpectedly, unknown_function, wrong_arity, changed_needs_field, tokenize,
}
use erp_global.Formula.Tree.{
  UnaryOp, opposite, negation, BinaryOp, Fn, Node, num, str, bool, null, field, unary, binary, call,
  Nodes, nil, cons, precedence, op_text, all_ops, fn_text, all_fns, arity, changed,
}

abbrev pub max_depth : ℕ
max_depth = 50

-- A part of the formula that was read, and the tokens behind it.
abbrev pub Parsed : Type 0 → Type 0
Parsed A = Result FormulaError (A × List Token)

abbrev pub then_parse : {A B : Type 0} → Parsed A → (A → List Token → Parsed B) → Parsed B
then_parse (ok (a, ts)) k = k a ts
then_parse (err e) k = err e

unfoldable pub is_op : Token → Bool
is_op t = elim t.t [ Kind.op ↦ true | _ ↦ false ]

-- `PRECEDENCE[v]`
unfoldable pub operator_named : Text → Option BinaryOp
unfolding all_ops op_text
operator_named v = find (λ o. op_text o === v) all_ops

-- `FUNCTIONS[upper]`
unfoldable pub function_named : Text → Option Fn
unfolding all_fns fn_text
function_named v = find (λ f. fn_text f === v) all_fns

unfoldable pub binary_op : Token → Option BinaryOp
unfolding is_op operator_named
binary_op t = if is_op t then operator_named t.v else none

-- The operator at the head of the loop, where its precedence is at least `min_prec`.
unfoldable pub continues : ℕ → Token → Option BinaryOp
unfolding binary_op precedence
continues min_prec t = elim (binary_op t) [
  | none ↦ none
  | some o ↦ if ltb (precedence o) min_prec then none else some o
]

unfoldable pub sign : Token → Option UnaryOp
unfolding is_op
sign t =
    if is_op t && (t.v === codes "-")
    then some opposite
    else if is_op t && (t.v === codes "!")
    then some negation
    else none

unfoldable pub expect : Text → List Token → Parsed (Unit {0})
expect v [] = err past_end
expect v (t ∷ ts) = if t.v === v then ok (tt, ts) else err (expected v t.pos)

-- `peek().v === v`; behind the last token, where `peek` has nothing, the answer is no.
unfoldable pub next_is : Text → List Token → Bool
next_is v [] = false
next_is v (t ∷ ts) = t.v === v

unfoldable pub tail : List Token → List Token
tail [] = []
tail (t ∷ ts) = ts

unfoldable pub size : Nodes → ℕ
size nil = 0
size (cons a as_) = suc (size as_)

unfoldable pub is_field : Nodes → Bool
is_field (cons (field x) nil) = true
is_field as_ = false

unfoldable pub is_changed : Fn → Bool
is_changed changed = true
is_changed f = false

-- What `primary` checks of a call after its closing bracket.
unfoldable pub checked_call : Token → Nodes → Result FormulaError Node
unfolding size is_field is_changed arity function_named
checked_call t args = elim (function_named (upper t.v)) [
  | none ↦ err (unknown_function t.v t.pos)
  | some f ↦
      if is_changed f && not (is_field args)
      then err (changed_needs_field t.pos)
      else if ltb (size args) (arity f).0 || ltb (arity f).1 (size args)
      then err (wrong_arity (upper t.v) t.pos)
      else ok (call f args)
]

unfoldable pub with_rest : {A : Type 0} → List Token → Result FormulaError A → Parsed A
with_rest ts (ok a) = ok (a, ts)
with_rest ts (err e) = err e

unfoldable mutual
  unfolding continues sign expect next_is tail checked_call with_rest

  pub expr : ℕ → ℕ → ℕ → List Token → Parsed Node
  expr zero min_prec depth ts = err out_of_fuel
  expr (suc f) min_prec depth ts = elim (ltb max_depth depth) [
    | true ↦ err too_deep
    | false ↦ then_parse (unary_expr f depth ts) (loop f min_prec depth)
  ]

  pub loop : ℕ → ℕ → ℕ → Node → List Token → Parsed Node
  loop zero min_prec depth left ts = err out_of_fuel
  loop (suc f) min_prec depth left [] = err past_end
  loop (suc f) min_prec depth left (t ∷ ts) = elim (continues min_prec t) [
    | none ↦ ok (left, t ∷ ts)
    | some o ↦
        then_parse (expr f (precedence o + 1) (depth + 1) ts)
          (λ right rest. loop f min_prec depth (binary o left right) rest)
  ]

  pub unary_expr : ℕ → ℕ → List Token → Parsed Node
  unary_expr zero depth ts = err out_of_fuel
  unary_expr (suc f) depth [] = err past_end
  unary_expr (suc f) depth (t ∷ ts) = elim (sign t) [
    | none ↦ primary f depth (t ∷ ts)
    | some o ↦ then_parse (unary_expr f (depth + 1) ts) (λ arg rest. ok (unary o arg, rest))
  ]

  pub primary : ℕ → ℕ → List Token → Parsed Node
  primary zero depth ts = err out_of_fuel
  primary (suc f) depth [] = err past_end
  primary (suc f) depth (t ∷ ts) = elim t.t [
    | Kind.num ↦ ok (num t.v, ts)
    | Kind.str ↦ ok (str t.v, ts)
    | Kind.op ↦ elim (t.v === codes "(") [
      | true ↦
          then_parse (expr f 0 (depth + 1) ts)
            (λ e rest. then_parse (expect (codes ")") rest) (λ _ rest'. ok (e, rest')))
      | false ↦ err (unexpected t.v t.pos)
    ]
    | Kind.id ↦ name f depth t ts
    | Kind.eof ↦ err (ends_unexpectedly t.pos)
  ]

  pub name : ℕ → ℕ → Token → List Token → Parsed Node
  name zero depth t ts = err out_of_fuel
  name (suc f) depth t ts =
      if upper t.v === codes "TRUE"
      then ok (bool true, ts)
      else if upper t.v === codes "FALSE"
      then ok (bool false, ts)
      else if upper t.v === codes "NULL"
      then ok (null, ts)
      else elim (next_is (codes "(") ts) [
        | true ↦ then_parse (args f depth (tail ts)) (λ as_ rest.
            then_parse (expect (codes ")") rest) (λ _ rest'. with_rest rest' (checked_call t as_)))
        | false ↦ ok (field t.v, ts)
      ]

  -- The arguments of a call: none before a closing bracket.
  pub args : ℕ → ℕ → List Token → Parsed Nodes
  args zero depth ts = err out_of_fuel
  args (suc f) depth ts = elim (next_is (codes ")") ts) [
    | true ↦ ok (nil, ts)
    | false ↦ more_args f depth ts
  ]

  pub more_args : ℕ → ℕ → List Token → Parsed Nodes
  more_args zero depth ts = err out_of_fuel
  more_args (suc f) depth ts = then_parse (expr f 0 (depth + 1) ts) (λ a rest.
      elim (next_is (codes ",") rest) [
        | true ↦ then_parse (more_args f depth (tail rest)) (λ as_ rest'. ok (cons a as_, rest'))
        | false ↦ ok (cons a nil, rest)
      ])

unfoldable pub parse_end : Node → List Token → Result FormulaError Node
parse_end node [] = err past_end
parse_end node (t ∷ ts) = elim t.t [ Kind.eof ↦ ok node | _ ↦ err (unexpected t.v t.pos) ]

-- `parse`. Each token costs at most six calls.
unfoldable pub parse : List Token → Result FormulaError Node
unfolding expr parse_end
parse ts = elim (expr (6 * length ts + 6) 0 0 ts) [
  | ok (node, rest) ↦ parse_end node rest
  | err e ↦ err e
]

unfoldable pub parse_formula : Text → Result FormulaError Node
unfolding parse
parse_formula src = elim (tokenize src) [ ok ts ↦ parse ts | err e ↦ err e ]
