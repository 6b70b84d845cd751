-- ===== src/Formula/RoundTrip.antt =====
-- formula.ts: what is printed from a tree is parsed to that tree.
use erp_global.Common.{
  ℕ, zero, suc, ◌+◌, ◌-◌, ◌*◌, ◌≤◌, ◌≡◌, refl, true, false, List, [], ◌∷◌, ◌∙◌, ap, sym, subst,
  arith,
}
use native.Mathlib.Decide.{ℕ_discrete}
use erp_global.Common.Text.{Text-discrete, codes}
use erp_global.Common.Action.{ok, err}
use erp_global.Formula.Tokens.{Token, Kind}
use erp_global.Formula.Tree.{
  Fn, Node, num, str, bool, null, field, unary, binary, call, Nodes, nil, cons, fn_text,
}
use erp_global.Formula.Parser.{
  Parsed, then_parse, max_depth, continues, is_op, binary_op, expect, next_is, tail, checked_call,
  with_rest, unary_expr, args, more_args, parse_end, parse,
}
use erp_global.Formula.Steps.{name_call, args_none, args_some, more_args_step}
use erp_global.Formula.Printer.{
  token, closing, comma, print, print_args, width, width_args, nesting, nesting_args, IsWritable,
  AreWritable, length-print, next_is-print_args,
}
use erp_global.Formula.Words.{
  function_named-fn_text, fn_text-IsPlain, continues_not_closing, continues_not_comma,
}
use erp_global.Formula.Leaves.{
  ReadsUnary, ReadsExpr, expr_of_same, reads_name, reads_unary, reads_num, reads_str, reads_bool,
  reads_null, reads_field, loop_rests,
}
use erp_global.Formula.Operands.{reads_binary, expr_binary}

-- The arguments, where there are any, up to the closing bracket.
abbrev ReadsArgs : Nodes → Type 0
ReadsArgs nil = Unit
ReadsArgs (cons a as_) =
    (f d : ℕ) (ts : List Token)
    → d + nesting_args (cons a as_) ≤ 50
    → 6 * width_args (cons a as_) + 5 ≤ f
    → more_args f d (print_args (cons a as_) (closing ∷ ts)) ≡ ok (cons a as_, closing ∷ ts)

abbrev go_on : ℕ → ℕ → Node → List Token → Parsed Nodes
go_on f d a rest = elim (next_is (codes ",") rest) [
  | true ↦ then_parse (more_args f d (tail rest)) (λ as_ rest'. ok (cons a as_, rest'))
  | false ↦ ok (cons a nil, rest)
]

reads_last : (a : Node) → ReadsExpr a → ReadsArgs (cons a nil)
unfolding print_args width_args nesting_args next_is Text-discrete ℕ_discrete
reads_last a x zero d ts b g = absurd (omega (arith, g))
reads_last a x (suc f) d ts b g =
    more_args_step f d _
    ∙ ap (λ p. then_parse p (go_on f d))
        (x 0 0 f (d + 1) 1 closing ts (ok (a, closing ∷ ts)) (omega arith) refl
          (continues_not_closing 1) (omega (arith, b))
          (loop_rests 0 (d + 1) a closing ts (continues_not_closing 0)) (omega (arith, g)))

reads_more :
    (a c : Node) (as_ : Nodes)
    → ReadsExpr a
    → ReadsArgs (cons c as_)
    → ReadsArgs (cons a (cons c as_))
unfolding print_args width_args nesting_args next_is tail Text-discrete ℕ_discrete
reads_more a c as_ x y zero d ts b g = absurd (omega (arith, g))
reads_more a c as_ x y (suc f) d ts b g =
    more_args_step f d _
    ∙ ap (λ p. then_parse p (go_on f d))
        (x 0 0 f (d + 1) 1 comma _ (ok (a, comma ∷ print_args (cons c as_) (closing ∷ ts)))
          (omega arith) refl (continues_not_comma 1) (omega (arith, b))
          (loop_rests 0 (d + 1) a comma _ (continues_not_comma 0)) (omega (arith, g)))
    ∙ ap (λ p. then_parse p (λ as_ rest'. ok (cons a as_, rest')))
        (y f d ts (omega (arith, b)) (omega (arith, g)))

reads_args :
    (as_ : Nodes)
    → ReadsArgs as_
    → (f d : ℕ) (ts : List Token) → d + nesting_args as_ ≤ 50
    → next_is (codes ")") (print_args as_ (comma ∷ [])) ≡ false
    → 6 * width_args as_ + 5 ≤ f
    → args (suc f) d (print_args as_ (closing ∷ ts)) ≡ ok (as_, closing ∷ ts)
unfolding print_args next_is Text-discrete ℕ_discrete
reads_args nil x f d ts b n g = args_none f d _ refl
reads_args (cons a as_) x f d ts b n g =
    args_some f d _ (next_is-print_args (codes ")") a as_ (closing ∷ ts) (comma ∷ []) ∙ n)
    ∙ x f d ts b g

checked_call_writable :
    (fn : Fn) (as_ : Nodes)
    → IsWritable (call fn as_)
    → checked_call (token Kind.id (fn_text fn)) as_ ≡ ok (call fn as_)
unfolding checked_call IsWritable
checked_call_writable fn as_ (a, b, c, n) = ground (arith, function_named-fn_text fn, a, b)

reads_call :
    (fn : Fn) (as_ : Nodes) → IsWritable (call fn as_) → ReadsArgs as_ → ReadsUnary (call fn as_)
unfolding print width nesting next_is tail expect with_rest Text-discrete ℕ_discrete IsWritable
reads_call fn as_ w x f d t ts op b g =
    let e : f ≡ suc (suc (suc (suc (f - 4)))) = omega (arith, g) in
    subst (λ (h : ℕ). unary_expr h d (print 8 (call fn as_) (t ∷ ts)) ≡ ok (call fn as_, t ∷ ts))
      (sym e)
      (reads_name (fn_text fn) (suc (suc (f - 4))) d _ _ (
        name_call (suc (f - 4)) d (token Kind.id (fn_text fn)) _ (fn_text-IsPlain fn) refl
        ∙ ap
            (λ p. then_parse p (λ as_ rest.
              then_parse (expect (codes ")") rest)
                (λ _ rest'. with_rest rest' (checked_call (token Kind.id (fn_text fn)) as_))))
            (reads_args as_ x (f - 4) d (t ∷ ts) b w.3 (omega (arith, g)))
        ∙ ap (with_rest (t ∷ ts)) (checked_call_writable fn as_ w)))

mutual
  unfolding IsWritable AreWritable print width nesting

  unary_print : (e : Node) → IsWritable e → ReadsUnary e
  unary_print (num v) w = reads_num v
  unary_print (str v) w = reads_str v
  unary_print (bool b) w = reads_bool b
  unary_print null w = reads_null
  unary_print (field x) w = reads_field x w
  unary_print (unary o a) w = reads_unary o a (unary_print a w)
  unary_print (binary o l r) (wl, wr) = reads_binary o l r (expr_print l wl) (expr_print r wr)
  unary_print (call fn as_) w = reads_call fn as_ w (args_print as_ w.2)

  expr_print : (e : Node) → IsWritable e → ReadsExpr e
  expr_print (num v) w k = expr_of_same k (num v) (reads_num v) (λ rest. refl) refl refl
  expr_print (str v) w k = expr_of_same k (str v) (reads_str v) (λ rest. refl) refl refl
  expr_print (bool b) w k = expr_of_same k (bool b) (reads_bool b) (λ rest. refl) refl refl
  expr_print null w k = expr_of_same k null reads_null (λ rest. refl) refl refl
  expr_print (field x) w k = expr_of_same k (field x) (reads_field x w) (λ rest. refl) refl refl
  expr_print (unary o a) w k =
      expr_of_same k (unary o a) (reads_unary o a (unary_print a w)) (λ rest. refl) refl refl
  expr_print (binary o l r) (wl, wr) k = expr_binary o l r (expr_print l wl) (expr_print r wr) k
  expr_print (call fn as_) w k =
      expr_of_same k (call fn as_) (reads_call fn as_ w (args_print as_ w.2)) (λ rest. refl) refl
        refl

  args_print : (as_ : Nodes) → AreWritable as_ → ReadsArgs as_
  args_print nil w = tt
  args_print (cons a nil) w = reads_last a (expr_print a w.0)
  args_print (cons a (cons c as_)) w =
      reads_more a c as_ (expr_print a w.0) (args_print (cons c as_) w.1)

-- Parsing the tokens of a tree, with brackets only where an operator binds weaker than the place
-- where it stands (to the left of an operator of the same precedence it needs none), gives the
-- tree: operators bind by their precedence and to the left. No field of the tree has the name of a
-- constant, every call has as many arguments as its function takes, CHANGED a field, no call's first
-- argument begins with the text literal ")", and the tree nests at most 50 deep.
pub parse-print :
    (e : Node)
    → IsWritable e
    → nesting 0 e ≤ max_depth
    → parse (print 0 e (token Kind.eof [] ∷ [])) ≡ ok e
unfolding parse parse_end continues binary_op is_op Text-discrete ℕ_discrete
parse-print e w b =
    ap (λ (p : Parsed Node). elim p [ ok (node, rest) ↦ parse_end node rest | err x ↦ err x ])
      (expr_print e w 0 0 _ 0 1 (token Kind.eof []) [] _ (omega arith) refl refl (omega (arith, b))
        (loop_rests 0 0 e (token Kind.eof []) [] refl)
        (omega (arith, length-print 0 e (token Kind.eof [] ∷ []))))
