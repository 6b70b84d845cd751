-- ===== src/Formula/Words.antt =====
-- How the parser reads the words that the printer writes: operators, functions, constants.
use erp_global.Common.{ℕ, suc, ◌≤◌, ◌≡◌, refl, true, false, none, some, ltb, arith}
use native.Mathlib.Decide.{ℕ_discrete}
use erp_global.Common.Text.{Text-discrete, ◌===◌, codes, upper}
use erp_global.Formula.Tokens.{Token, Kind}
use erp_global.Formula.Tree.{
  UnaryOp, opposite, negation, BinaryOp, either, both, equal, differs, less, at_most, more,
  at_least, joined, plus, minus, times, divided, modulo, Fn, if_else, and_all, or_any, not_of,
  coalesce, round, floor, ceil, abs, min_of, max_of, sum, avg, count, concat, upper_of, lower_of,
  trim_of, len, left, right, today, year, month, day, days_between, add_days, is_empty,
  contains_text, changed, has_role, in_unit, status_of, precedence, op_text, all_ops, fn_text,
  all_fns,
}
use erp_global.Formula.Parser.{operator_named, function_named, is_op, binary_op, continues, sign}
use erp_global.Formula.Steps.{IsPlain}
use erp_global.Formula.Printer.{token, opening, closing, comma, sign_text}

operator_named-op_text : (o : BinaryOp) → operator_named (op_text o) ≡ some o
unfolding operator_named op_text all_ops Text-discrete ℕ_discrete
operator_named-op_text either = refl
operator_named-op_text both = refl
operator_named-op_text equal = refl
operator_named-op_text differs = refl
operator_named-op_text less = refl
operator_named-op_text at_most = refl
operator_named-op_text more = refl
operator_named-op_text at_least = refl
operator_named-op_text joined = refl
operator_named-op_text plus = refl
operator_named-op_text minus = refl
operator_named-op_text times = refl
operator_named-op_text divided = refl
operator_named-op_text modulo = refl

pub function_named-fn_text : (f : Fn) → function_named (upper (fn_text f)) ≡ some f
unfolding function_named fn_text all_fns upper Text-discrete ℕ_discrete
function_named-fn_text if_else = refl
function_named-fn_text and_all = refl
function_named-fn_text or_any = refl
function_named-fn_text not_of = refl
function_named-fn_text coalesce = refl
function_named-fn_text round = refl
function_named-fn_text floor = refl
function_named-fn_text ceil = refl
function_named-fn_text abs = refl
function_named-fn_text min_of = refl
function_named-fn_text max_of = refl
function_named-fn_text sum = refl
function_named-fn_text avg = refl
function_named-fn_text count = refl
function_named-fn_text concat = refl
function_named-fn_text upper_of = refl
function_named-fn_text lower_of = refl
function_named-fn_text trim_of = refl
function_named-fn_text len = refl
function_named-fn_text left = refl
function_named-fn_text right = refl
function_named-fn_text today = refl
function_named-fn_text year = refl
function_named-fn_text month = refl
function_named-fn_text day = refl
function_named-fn_text days_between = refl
function_named-fn_text add_days = refl
function_named-fn_text is_empty = refl
function_named-fn_text contains_text = refl
function_named-fn_text changed = refl
function_named-fn_text has_role = refl
function_named-fn_text in_unit = refl
function_named-fn_text status_of = refl

pub fn_text-IsPlain : (f : Fn) → IsPlain (fn_text f)
unfolding fn_text upper Text-discrete ℕ_discrete
fn_text-IsPlain if_else = (refl, refl, refl)
fn_text-IsPlain and_all = (refl, refl, refl)
fn_text-IsPlain or_any = (refl, refl, refl)
fn_text-IsPlain not_of = (refl, refl, refl)
fn_text-IsPlain coalesce = (refl, refl, refl)
fn_text-IsPlain round = (refl, refl, refl)
fn_text-IsPlain floor = (refl, refl, refl)
fn_text-IsPlain ceil = (refl, refl, refl)
fn_text-IsPlain abs = (refl, refl, refl)
fn_text-IsPlain min_of = (refl, refl, refl)
fn_text-IsPlain max_of = (refl, refl, refl)
fn_text-IsPlain sum = (refl, refl, refl)
fn_text-IsPlain avg = (refl, refl, refl)
fn_text-IsPlain count = (refl, refl, refl)
fn_text-IsPlain concat = (refl, refl, refl)
fn_text-IsPlain upper_of = (refl, refl, refl)
fn_text-IsPlain lower_of = (refl, refl, refl)
fn_text-IsPlain trim_of = (refl, refl, refl)
fn_text-IsPlain len = (refl, refl, refl)
fn_text-IsPlain left = (refl, refl, refl)
fn_text-IsPlain right = (refl, refl, refl)
fn_text-IsPlain today = (refl, refl, refl)
fn_text-IsPlain year = (refl, refl, refl)
fn_text-IsPlain month = (refl, refl, refl)
fn_text-IsPlain day = (refl, refl, refl)
fn_text-IsPlain days_between = (refl, refl, refl)
fn_text-IsPlain add_days = (refl, refl, refl)
fn_text-IsPlain is_empty = (refl, refl, refl)
fn_text-IsPlain contains_text = (refl, refl, refl)
fn_text-IsPlain changed = (refl, refl, refl)
fn_text-IsPlain has_role = (refl, refl, refl)
fn_text-IsPlain in_unit = (refl, refl, refl)
fn_text-IsPlain status_of = (refl, refl, refl)

pub precedence_bound : (o : BinaryOp) → ltb (precedence o) 8 ≡ true
unfolding precedence
precedence_bound either = refl
precedence_bound both = refl
precedence_bound equal = refl
precedence_bound differs = refl
precedence_bound less = refl
precedence_bound at_most = refl
precedence_bound more = refl
precedence_bound at_least = refl
precedence_bound joined = refl
precedence_bound plus = refl
precedence_bound minus = refl
precedence_bound times = refl
precedence_bound divided = refl
precedence_bound modulo = refl

pub op_text_unlike_opening : (o : BinaryOp) → (op_text o === codes "(") ≡ false
unfolding op_text Text-discrete ℕ_discrete
op_text_unlike_opening either = refl
op_text_unlike_opening both = refl
op_text_unlike_opening equal = refl
op_text_unlike_opening differs = refl
op_text_unlike_opening less = refl
op_text_unlike_opening at_most = refl
op_text_unlike_opening more = refl
op_text_unlike_opening at_least = refl
op_text_unlike_opening joined = refl
op_text_unlike_opening plus = refl
op_text_unlike_opening minus = refl
op_text_unlike_opening times = refl
op_text_unlike_opening divided = refl
op_text_unlike_opening modulo = refl

pub continues-op_text :
    (m : ℕ) (o : BinaryOp) → m ≤ precedence o → continues m (token Kind.op (op_text o)) ≡ some o
unfolding continues binary_op is_op
continues-op_text m o l = ground (arith, operator_named-op_text o)

pub continues_not_op_text :
    (k : ℕ) (o : BinaryOp) → precedence o ≤ k → continues (suc k) (token Kind.op (op_text o)) ≡ none
unfolding continues binary_op is_op
continues_not_op_text k o l = ground (arith, operator_named-op_text o)

pub continues_weaken :
    (k j : ℕ) (t : Token) → k ≤ j → continues (suc k) t ≡ none → continues (suc j) t ≡ none
unfolding continues
continues_weaken k j t l h = ground arith

pub continues_not_closing : (k : ℕ) → continues k closing ≡ none
unfolding continues binary_op is_op operator_named op_text all_ops Text-discrete ℕ_discrete
continues_not_closing k = refl

pub continues_not_comma : (k : ℕ) → continues k comma ≡ none
unfolding continues binary_op is_op operator_named op_text all_ops Text-discrete ℕ_discrete
continues_not_comma k = refl

pub sign-sign_text : (o : UnaryOp) → sign (token Kind.op (sign_text o)) ≡ some o
unfolding sign is_op Text-discrete ℕ_discrete
sign-sign_text opposite = refl
sign-sign_text negation = refl

pub sign_not_opening : sign opening ≡ none
unfolding sign is_op Text-discrete ℕ_discrete
sign_not_opening = refl
