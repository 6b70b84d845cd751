-- ===== src/Formula/Ends.antt =====
-- formula.ts: the parser ends on every text, and does not read behind the last token.
use erp_global.Common.{
  ℕ, zero, suc, ◌+◌, ◌*◌, ◌<◌, ◌≤◌, ◌≡◌, refl, ◌⊎◌, inl, inr, true, List, [], ◌∷◌, length, ltb,
  Bool-cases, Option-cases, arith,
}
use erp_global.Common.Text.{Text, ◌===◌, codes, upper}
use erp_global.Common.Action.{Result, ok, err}
use erp_global.Formula.Tokens.{Token, Kind, FormulaError, tokenize}
use erp_global.Formula.Tree.{Node, binary, precedence}
use erp_global.Formula.Parser.{
  Parsed, max_depth, continues, sign, next_is, tail, expr, loop, unary_expr, primary, name, args,
  more_args, parse_end, parse, parse_formula,
}
use erp_global.Formula.Steps.{
  expr_deep, expr_shallow, loop_stops, loop-continues, unary_plain, unary_signed, primary_num,
  primary_str, primary_open, primary_other, primary_name, primary_eof, name_true, name_false,
  name_null, name_field, name_call, args_none, args_some, more_args_step,
}
use erp_global.Formula.Closed.{
  is_syntax, closed, not_closed, closed_after_kind, closed_after_sign, closed_after_binary, Ends,
  Ends-then_parse, Ends-expect, next_is-tail, checked_call-Ends, Answers, Closes, tokenize-Closes,
}

Kind-cases :
    (k : Kind) → (k ≡ Kind.num) ⊎ (k ≡ Kind.str) ⊎ (k ≡ Kind.op) ⊎ (k ≡ Kind.id) ⊎ (k ≡ Kind.eof)
Kind-cases k = ground arith

-- What each method needs of the others, one call less deep.
mutual
  unfolding is_syntax

  expr-Ends :
      (f m d : ℕ) (ts : List Token)
      → closed ts ≡ true
      → 6 * length ts + 3 ≤ f
      → Ends (length ts) (expr f m d ts)
  expr-Ends zero m d ts c e = absurd (omega (arith, e))
  expr-Ends (suc f) m d ts c e = elim (Bool-cases (ltb max_depth d)) [
    | inl deep ↦ rw (expr_deep f d m ts deep) refl
    | inr fine ↦ rw (expr_shallow f d m ts fine) (
        Ends-then_parse _ (length ts) _ _ (unary-Ends f d ts c (omega arith))
          (λ left rest l k. loop-Ends f m d left rest (length ts) k l (omega arith)))
  ]

  loop-Ends :
      (f m d : ℕ) (left : Node) (ts : List Token) (n : ℕ)
      → closed ts ≡ true
      → length ts < n
      → 6 * length ts + 1 ≤ f
      → Ends n (loop f m d left ts)
  loop-Ends zero m d left ts n c l e = absurd (omega (arith, e))
  loop-Ends (suc f) m d left [] n c l e = absurd (not_closed c)
  loop-Ends (suc f) m d left (t ∷ ts) n c l e = elim (Option-cases (continues m t)) [
    | inl stop ↦ rw (loop_stops f d m left t ts stop) (l, c)
    | inr (o, go) ↦ rw (loop-continues f d m left t ts o go) (
        Ends-then_parse n (length ts) _ _
          (expr-Ends f (precedence o + 1) (d + 1) ts
            (closed_after_binary m t ts (λ n. cc (go, n)) c) (omega arith))
          (λ right rest k r.
            loop-Ends f m d (binary o left right) rest n r (omega arith) (omega arith)))
  ]

  unary-Ends :
      (f d : ℕ) (ts : List Token)
      → closed ts ≡ true
      → 6 * length ts + 2 ≤ f
      → Ends (length ts) (unary_expr f d ts)
  unary-Ends zero d ts c e = absurd (omega (arith, e))
  unary-Ends (suc f) d [] c e = absurd (not_closed c)
  unary-Ends (suc f) d (t ∷ ts) c e = elim (Option-cases (sign t)) [
    | inl plain ↦ rw (unary_plain f d t ts plain) (primary-Ends f d t ts c (omega arith))
    | inr (o, signed) ↦ rw (unary_signed f d t ts o signed) (
        Ends-then_parse _ (length ts) _ _
          (unary-Ends f (d + 1) ts (closed_after_sign t ts (λ n. cc (signed, n)) c) (omega arith))
          (λ arg rest k r. (omega arith, r)))
  ]

  primary-Ends :
      (f d : ℕ) (t : Token) (ts : List Token)
      → closed (t ∷ ts) ≡ true
      → 6 * length ts + 7 ≤ f
      → Ends (suc (length ts)) (primary f d (t ∷ ts))
  primary-Ends zero d t ts c e = absurd (omega (arith, e))
  primary-Ends (suc f) d t ts c e = elim (Kind-cases t.t) [
    | inl k ↦ rw (primary_num f d t ts k) (omega arith, closed_after_kind t ts (λ n. cc (k, n)) c)
    | inr (inl k) ↦
        rw (primary_str f d t ts k) (omega arith, closed_after_kind t ts (λ n. cc (k, n)) c)
    | inr (inr (inl k)) ↦ elim (Bool-cases (t.v === codes "(")) [
      | inl o ↦ rw (primary_open f d t ts k o) (
          Ends-then_parse _ (length ts) _ _
            (expr-Ends f 0 (d + 1) ts (closed_after_kind t ts (λ n. cc (k, n)) c) (omega arith))
            (λ node rest l r.
              Ends-then_parse _ (length rest) _ _ (Ends-expect (codes ")") rest (λ n. cc n) r)
                (λ _ rest' l' r'. (omega arith, r'))))
      | inr o ↦ rw (primary_other f d t ts k o) refl
    ]
    | inr (inr (inr (inl k))) ↦
        rw (primary_name f d t ts k)
          (name-Ends f d t ts (closed_after_kind t ts (λ n. cc (k, n)) c) (omega arith))
    | inr (inr (inr (inr k))) ↦ rw (primary_eof f d t ts k) refl
  ]

  name-Ends :
      (f d : ℕ) (t : Token) (ts : List Token)
      → closed ts ≡ true
      → 6 * length ts + 1 ≤ f
      → Ends (suc (length ts)) (name f d t ts)
  name-Ends zero d t ts c e = absurd (omega (arith, e))
  name-Ends (suc f) d t ts c e = elim (Bool-cases (upper t.v === codes "TRUE")) [
    | inl a ↦ rw (name_true f d t ts a) (omega arith, c)
    | inr a ↦ elim (Bool-cases (upper t.v === codes "FALSE")) [
      | inl b ↦ rw (name_false f d t ts a b) (omega arith, c)
      | inr b ↦ elim (Bool-cases (upper t.v === codes "NULL")) [
        | inl n ↦ rw (name_null f d t ts a b n) (omega arith, c)
        | inr n ↦ elim (Bool-cases (next_is (codes "(") ts)) [
          | inr plain ↦ rw (name_field f d t ts (a, b, n) plain) (omega arith, c)
          | inl open_ ↦
              let (l, k) = next_is-tail (codes "(") ts (λ x. cc x) c open_ in
              rw (name_call f d t ts (a, b, n) open_) (
                Ends-then_parse _ (suc (length (tail ts))) _ _
                  (args-Ends f d (tail ts) k (omega arith))
                  (λ as_ rest l1 k1.
                    Ends-then_parse _ (length rest) _ _
                      (Ends-expect (codes ")") rest (λ x. cc x) k1)
                      (λ _ rest' l2 k2. checked_call-Ends t as_ rest' _ (omega arith) k2)))
        ]
      ]
    ]
  ]

  args-Ends :
      (f d : ℕ) (ts : List Token)
      → closed ts ≡ true
      → 6 * length ts + 5 ≤ f
      → Ends (suc (length ts)) (args f d ts)
  args-Ends zero d ts c e = absurd (omega (arith, e))
  args-Ends (suc f) d ts c e = elim (Bool-cases (next_is (codes ")") ts)) [
    | inl done ↦ rw (args_none f d ts done) (omega arith, c)
    | inr going ↦
        rw (args_some f d ts going)
          (more_args-Ends f d ts (suc (length ts)) c (omega arith) (omega arith))
  ]

  more_args-Ends :
      (f d : ℕ) (ts : List Token) (n : ℕ)
      → closed ts ≡ true
      → length ts < n
      → 6 * length ts + 4 ≤ f
      → Ends n (more_args f d ts)
  more_args-Ends zero d ts n c l e = absurd (omega (arith, e))
  more_args-Ends (suc f) d ts n c l e = rw (more_args_step f d ts) (
      Ends-then_parse _ (length ts) _ _ (expr-Ends f 0 (d + 1) ts c (omega arith)) (λ a rest k r.
        elim (Bool-cases (next_is (codes ",") rest)) [
          | inl more ↦
              let (l1, k1) = next_is-tail (codes ",") rest (λ x. cc x) r more in
              rw more (
                Ends-then_parse _ n _ _
                  (more_args-Ends f d (tail rest) n k1 (omega arith) (omega arith))
                  (λ as_ rest' l2 k2. (l2, k2)))
          | inr last ↦ rw last (omega arith, r)
        ]))

parse_end-Answers : (node : Node) (ts : List Token) → closed ts ≡ true → Answers (parse_end node ts)
unfolding parse_end is_syntax
parse_end-Answers node [] c = absurd (not_closed c)
parse_end-Answers node (t ∷ ts) c = ground arith

read-Answers :
    (n : ℕ) (r : Parsed Node)
    → Ends n r
    → Answers (elim r [ ok (node, rest) ↦ parse_end node rest | err e ↦ err e ])
read-Answers n (ok (node, rest)) h = parse_end-Answers node rest h.1
read-Answers n (err e) h = h

parse-Answers : (ts : List Token) → closed ts ≡ true → Answers (parse ts)
unfolding parse
parse-Answers ts c =
    read-Answers (length ts) _ (expr-Ends (6 * length ts + 6) 0 0 ts c (omega arith))

tokens-Answers :
    (r : Result FormulaError (List Token))
    → Closes r
    → Answers (elim r [ ok ts ↦ parse ts | err e ↦ err e ])
tokens-Answers (ok ts) h = parse-Answers ts h
tokens-Answers (err e) h = h

-- Parsing ends on every text: within six calls for each token it gives a tree or one of the errors
-- that the program throws, never out of calls and never behind the last token.
pub parse_formula-Answers : (src : Text) → Answers (parse_formula src)
unfolding parse_formula
parse_formula-Answers src = tokens-Answers (tokenize src) (tokenize-Closes src)
