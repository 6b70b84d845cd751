-- ===== src/Formula/Examples.antt =====
-- Formulas read and printed.
use erp_global.Common.{◌≡◌, refl, [], ◌∷◌, arith}
use native.Mathlib.Decide.{ℕ_discrete}
use erp_global.Common.Text.{Text-discrete, codes, upper, take, drop, includes}
use erp_global.Common.Action.{ok, err}
use erp_global.Formula.Tokens.{Kind, unclosed_text, wrong_arity, tokenize}
use erp_global.Formula.Tree.{
  Node, num, field, unary, binary, call, nil, cons, opposite, minus, plus, times, sum, arity,
}
use erp_global.Formula.Parser.{parse_formula, parse, next_is, is_changed, is_field, size}
use erp_global.Formula.Printer.{token, print, nesting, IsWritable}
use erp_global.Formula.Closed.{Answers}
use erp_global.Formula.Ends.{parse_formula-Answers}
use erp_global.Formula.RoundTrip.{parse-print}

-- -a * (b + 2) - SUM(lines.x, 1)
abbrev sample : Node
sample =
    binary minus
      (binary times (unary opposite (field (codes "a")))
        (binary plus (field (codes "b")) (num (codes "2"))))
      (call sum (cons (field (codes "lines.x")) (cons (num (codes "1")) nil)))

reads_precedence : parse_formula (codes "-a * (b+2) - SUM(lines.x, 1)") ≡ ok sample
unfolding parse_formula tokenize Text-discrete take ℕ_discrete includes drop upper
reads_precedence = refl

stops_at_unclosed : parse_formula (codes "a & 'x") ≡ err (unclosed_text 4)
unfolding parse_formula tokenize Text-discrete take ℕ_discrete includes drop upper
stops_at_unclosed = refl

stops_at_arity : parse_formula (codes "IF(a)") ≡ err (wrong_arity (codes "IF") 0)
unfolding parse_formula tokenize Text-discrete take ℕ_discrete includes drop upper
stops_at_arity = refl

-- A text literal is taken for the bracket that closes the call.
literal_closes : parse_formula (codes "(1 ')'") ≡ ok (num (codes "1"))
unfolding parse_formula tokenize Text-discrete take ℕ_discrete includes drop upper
literal_closes = refl

parse-print_example : parse (print 0 sample (token Kind.eof [] ∷ [])) ≡ ok sample
unfolding IsWritable nesting upper print next_is Text-discrete ℕ_discrete is_changed is_field size
    arity
parse-print_example =
    parse-print sample
      (
        ((refl, refl, refl), ((refl, refl, refl), tt)),
        (refl, refl, ((refl, refl, refl), (tt, tt)), refl),
      )
      (omega arith)

parse_formula-Answers_example : Answers (parse_formula (codes "a && (b || "))
parse_formula-Answers_example = parse_formula-Answers (codes "a && (b || ")
