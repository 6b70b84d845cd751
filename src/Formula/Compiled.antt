-- ===== src/Formula/Compiled.antt =====
-- A formula compiled and run on two records, over numbers that are naturals.
use erp_global.Common.{
  ℕ, ◌+◌, ◌-◌, ◌*◌, ◌/◌, ◌%◌, ◌≡◌, ◌≢◌, refl, ◌⊎◌, inl, inr, true, false, none, some, [], ◌∷◌, In,
  leb, ltb, ◌==◌, if◌then◌else◌, subst, sym, arith,
}
use native.Mathlib.Decide.{ℕ_discrete}
use erp_global.Common.Text.{
  Text, Text-discrete, split, cons_head, ◌===◌, codes, includes, take, drop, upper, lower,
  starts_with,
}
use erp_global.Common.Action.{ok}
use erp_global.Formula.Tokens.{tokenize}
use erp_global.Formula.Tree.{field}
use erp_global.Formula.Values.{text, Language, scalar, Ambient, EvalContext, Answer, then_value}
use erp_global.Formula.Eval.{evaluate, table_of}
use erp_global.Formula.Collect.{Names, finite_only, compile_formula}
use erp_global.Formula.Depends.{Agree, compile_formula_depends}

-- Numbers are naturals, dates are numbers, unknown values are texts.
abbrev naturals : Language ℕ ℕ Text
naturals = record {
  number_of = λ t. some 0;
  of_bool = λ b. if b then 1 else 0;
  of_nat = λ n. n;
  is_nan = λ n. false;
  is_finite = λ n. true;
  to_text = λ n. (b'0' + n) ∷ [];
  add = λ n m. n + m;
  sub = λ n m. n - m;
  mul = λ n m. n * m;
  div = λ n m. n / m;
  rem = λ n m. n % m;
  neg = λ n. 0;
  same = λ n m. n == m;
  lt = λ n m. ltb n m;
  le = λ n m. leb n m;
  text_lt = λ s t. false;
  text_le = λ s t. true;
  power_of_ten = λ n. 1;
  math_round = λ n. n;
  math_floor = λ n. n;
  math_ceil = λ n. n;
  math_abs = λ n. n;
  math_min = λ ns. 0;
  math_max = λ ns. 0;
  to_upper = upper;
  to_lower = lower;
  trim = λ t. t;
  slice_first = λ t n. take n t;
  slice_last = λ t n. t;
  date_of = λ t. some 0;
  time_of = λ d. d;
  date_at = λ n. some n;
  iso = λ d. codes "1970-01-01T00:00:00.000Z";
  utc_year = λ d. 1970;
  utc_month = λ d. 0;
  utc_day = λ d. 1;
  view = λ r. scalar (text r);
  string_of = λ r. r;
  json = λ r. r;
  member = λ r k. none;
}

abbrev midnight : Ambient ℕ
midnight = record { now = 0; user = none; unit_codes = none; status = none }

abbrev one_field : EvalContext ℕ Text
one_field = record {
  fields = λ k. if k === codes "a" then some (codes "x") else none;
  old = none;
  ambient = midnight;
}

abbrev two_fields : EvalContext ℕ Text
two_fields = record {
  fields = λ k.
      if k === codes "a"
      then some (codes "x")
      else if k === codes "b"
      then some (codes "y")
      else none;
  old = none;
  ambient = midnight;
}

abbrev only_a : Names
only_a = record { fields = codes "a" ∷ []; context = [] }

abbrev run_a : EvalContext ℕ Text → Answer naturals
run_a ctx =
    then_value (evaluate naturals (field (codes "a")) ctx) (λ v. ok (finite_only naturals v))

not_dotted : includes (codes "b") b'.' ≢ true
unfolding includes
not_dotted h = cc

same_fields :
    (k : Text)
    → In k only_a.fields ⊎ (includes k b'.' ≡ true)
    → one_field.fields k ≡ two_fields.fields k
unfolding includes
same_fields k i = elim (Text-discrete k (codes "b")) [
  | yes e ↦ elim i [
    | inl (inl a) ↦ ground (arith, a, e)
    | inl (inr x) ↦ elim x [ ]
    | inr h ↦ absurd (not_dotted (subst (λ t. includes t b'.' ≡ true) e h))
  ]
  | no n ↦ ground (arith, n)
]

one_two-Agree : Agree only_a.fields one_field two_fields
unfolding table_of split cons_head Text-discrete ℕ_discrete
one_two-Agree = record {
  ambient = refl;
  fields = same_fields;
  tables = λ k i. elim i [
    | inl e ↦
        subst (λ t. one_field.fields (table_of t) ≡ two_fields.fields (table_of t)) (sym e) refl
    | inr x ↦ elim x [ ]
  ];
  before = λ k i. refl;
}

compile_formula_depends_example : run_a one_field ≡ run_a two_fields
unfolding compile_formula tokenize take drop Text-discrete ℕ_discrete includes starts_with upper
compile_formula_depends_example =
    compile_formula_depends naturals (codes "a") only_a run_a one_field two_fields refl
      one_two-Agree
