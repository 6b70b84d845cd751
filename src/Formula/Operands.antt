-- ===== src/Formula/Operands.antt =====
-- formula.ts: how the parser reads a printed tree with a binary operator.
use erp_global.Common.{
  ℕ, zero, suc, ◌+◌, ◌-◌, ◌*◌, ◌≤◌, ◌≡◌, refl, inl, inr, max, true, false, none, List, ◌∷◌, ltb,
  Bool-cases, ◌∙◌, ap, sym, subst, arith,
}
use native.Mathlib.Decide.{ℕ_discrete}
use erp_global.Common.Text.{Text-discrete, ◌===◌, codes}
use erp_global.Common.Action.{ok}
use erp_global.Formula.Tokens.{Token, Kind}
use erp_global.Formula.Tree.{BinaryOp, Node, binary, precedence, op_text}
use erp_global.Formula.Parser.{Parsed, then_parse, continues, expect, expr, loop, unary_expr}
use erp_global.Formula.Steps.{loop-continues, unary_plain, primary_open}
use erp_global.Formula.Printer.{token, opening, closing, bracket, print, width, nesting}
use erp_global.Formula.Words.{
  precedence_bound, op_text_unlike_opening, continues-op_text, continues_not_op_text,
  continues_weaken, continues_not_closing, sign_not_opening,
}
use erp_global.Formula.Leaves.{ReadsUnary, ReadsExpr, expr_of_same, loop_rests}

-- A bracket is read by what stands between.
reads_bracket :
    (e : Node) (f d : ℕ) (body rest : List Token)
    → expr f 0 (d + 1) body ≡ ok (e, closing ∷ rest)
    → unary_expr (suc (suc f)) d (opening ∷ body) ≡ ok (e, rest)
unfolding expect Text-discrete ℕ_discrete
reads_bracket e f d body rest h =
    unary_plain (suc f) d opening body sign_not_opening
    ∙ primary_open f d opening body refl refl
    ∙ ap
        (λ p.
          then_parse p (λ e rest. then_parse (expect (codes ")") rest) (λ _ rest'. ok (e, rest'))))
        h

module _ (o : BinaryOp) (l r : Node) (reads_l : ReadsExpr l) (reads_r : ReadsExpr r) where
  -- The loop at the operator: it reads the right operand and goes on.
  binary_loop :
      (m g d n : ℕ) (t : Token) (ts : List Token) (res : Parsed Node)
      → m ≤ precedence o
      → (t.v === codes "(") ≡ false
      → continues (suc (precedence o)) t ≡ none
      → d + (1 + nesting (precedence o + 1) r) ≤ 50
      → ((g : ℕ) → n ≤ g → loop g m d (binary o l r) (t ∷ ts) ≡ res)
      → n + 6 * width (precedence o + 1) r + 5 ≤ g
      → loop g m d l (token Kind.op (op_text o) ∷ print (precedence o + 1) r (t ∷ ts)) ≡ res
  binary_loop m zero d n t ts res le op c b h fuel = absurd (omega (arith, fuel))
  binary_loop m (suc g) d n t ts res le op c b h fuel =
      loop-continues g d m l (token Kind.op (op_text o)) _ o (continues-op_text m o le)
      ∙ ap (λ p. then_parse p (λ right rest. loop g m d (binary o l right) rest))
          (reads_r (precedence o + 1) (precedence o + 1) g (d + 1) 1 t ts (ok (r, t ∷ ts))
            (omega arith) op (continues_weaken (precedence o) (precedence o + 1) t (omega arith) c)
            (omega (arith, b))
            (loop_rests (precedence o + 1) (d + 1) r t ts
              (subst (λ k. continues k t ≡ none) (omega arith) c))
            (omega (arith, fuel)))
      ∙ h g (omega (arith, fuel))

  binary_body :
      (m f d n : ℕ) (t : Token) (ts : List Token) (res : Parsed Node)
      → m ≤ precedence o
      → (t.v === codes "(") ≡ false
      → continues (suc (precedence o)) t ≡ none
      → d + max (nesting (precedence o) l) (1 + nesting (precedence o + 1) r) ≤ 50
      → ((g : ℕ) → n ≤ g → loop g m d (binary o l r) (t ∷ ts) ≡ res)
      → n + 6 * (width (precedence o) l + (1 + width (precedence o + 1) r)) + 3 ≤ f
      → expr f m d
          (print (precedence o) l (token Kind.op (op_text o) ∷ print (precedence o + 1) r (t ∷ ts)))
        ≡ res
  binary_body m f d n t ts res le op c b h fuel =
      reads_l (precedence o) m f d (n + 6 * width (precedence o + 1) r + 5)
        (token Kind.op (op_text o)) _ res le (op_text_unlike_opening o)
        (continues_not_op_text (precedence o) o (omega arith)) (omega (arith, b))
        (λ g k. binary_loop m g d n t ts res le op c (omega (arith, b)) h k) (omega (arith, fuel))

  binary_in_brackets :
      (d g : ℕ) (t : Token) (ts : List Token)
      → d + (1 + max (nesting (precedence o) l) (1 + nesting (precedence o + 1) r)) ≤ 50
      → 6 * (2 + (width (precedence o) l + (1 + width (precedence o + 1) r))) + 2
        ≤ suc (suc (suc g))
      → unary_expr (suc (suc (suc g))) d (
          bracket true
            (λ ts.
              print (precedence o) l (token Kind.op (op_text o) ∷ print (precedence o + 1) r ts))
            (t ∷ ts))
        ≡ ok (binary o l r, t ∷ ts)
  unfolding Text-discrete ℕ_discrete
  binary_in_brackets d g t ts b fuel = reads_bracket (binary o l r) (suc g) d _ (t ∷ ts) (
      binary_body 0 (suc g) (d + 1) 1 closing (t ∷ ts) (ok (binary o l r, closing ∷ t ∷ ts))
        (omega arith) refl (continues_not_closing (suc (precedence o))) (omega (arith, b))
        (loop_rests 0 (d + 1) (binary o l r) closing (t ∷ ts) (continues_not_closing 0))
        (omega (arith, fuel)))

  pub reads_binary : ReadsUnary (binary o l r)
  unfolding print width nesting
  reads_binary f d t ts op b g =
      let w : width 8 (binary o l r)
          ≡ 2 + (width (precedence o) l + (1 + width (precedence o + 1) r)) =
        rw (precedence_bound o) refl in
      let n : nesting 8 (binary o l r)
          ≡ 1 + max (nesting (precedence o) l) (1 + nesting (precedence o + 1) r) =
        rw (precedence_bound o) refl in
      let e : f ≡ suc (suc (suc (f - 3))) = omega (arith, w, g) in
      rw (precedence_bound o) (
        subst
          (λ (h : ℕ).
            unary_expr h d (
              bracket true
                (λ ts.
                  print (precedence o) l
                    (token Kind.op (op_text o) ∷ print (precedence o + 1) r ts))
                (t ∷ ts))
            ≡ ok (binary o l r, t ∷ ts))
          (sym e) (binary_in_brackets d (f - 3) t ts (omega (arith, n, b)) (omega (arith, w, g))))

  pub expr_binary : ReadsExpr (binary o l r)
  unfolding print width nesting
  expr_binary k = elim (Bool-cases (ltb (precedence o) k)) [
    | inl low ↦
        expr_of_same k (binary o l r) reads_binary (λ rest. rw (low, precedence_bound o) refl)
          (rw (low, precedence_bound o) refl) (rw (low, precedence_bound o) refl)
    | inr high ↦ λ m f d n t ts res le op c b h fuel.
        let w : width k (binary o l r)
            ≡ 0 + (width (precedence o) l + (1 + width (precedence o + 1) r)) =
          rw high refl in
        let ne : nesting k (binary o l r)
            ≡ 0 + max (nesting (precedence o) l) (1 + nesting (precedence o + 1) r) =
          rw high refl in
        let above : k ≤ precedence o = ground arith in
        rw high (
          binary_body m f d n t ts res (omega arith) op
            (continues_weaken k (precedence o) t above c) (omega (arith, ne, b)) h
            (omega (arith, w, fuel)))
  ]
