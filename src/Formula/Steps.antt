-- ===== src/Formula/Steps.antt =====
-- formula.ts: one call of each method of `Parser`, by what the next token is.
use erp_global.Common.{ℕ, suc, ◌+◌, ◌≡◌, refl, true, false, none, some, List, ◌∷◌, ltb, arith}
use erp_global.Common.Text.{Text, ◌===◌, upper, codes}
use erp_global.Common.Action.{ok, err}
use erp_global.Formula.Tokens.{Token, Kind, too_deep, unexpected, ends_unexpectedly}
use erp_global.Formula.Tree.{
  UnaryOp, BinaryOp, Node, num, str, bool, null, field, unary, binary, nil, cons, precedence,
}
use erp_global.Formula.Parser.{
  then_parse, max_depth, continues, sign, expect, next_is, tail, checked_call, with_rest, expr,
  loop, unary_expr, primary, name, args, more_args,
}

module _ (f d : ℕ) where
  pub expr_deep :
      (m : ℕ) (ts : List Token) → ltb max_depth d ≡ true → expr (suc f) m d ts ≡ err too_deep
  unfolding expr
  expr_deep m ts e = ground arith

  pub expr_shallow :
      (m : ℕ) (ts : List Token)
      → ltb max_depth d ≡ false
      → expr (suc f) m d ts ≡ then_parse (unary_expr f d ts) (loop f m d)
  unfolding expr
  expr_shallow m ts e = ground arith

  pub loop_stops :
      (m : ℕ) (left : Node) (t : Token) (ts : List Token)
      → continues m t ≡ none
      → loop (suc f) m d left (t ∷ ts) ≡ ok (left, t ∷ ts)
  unfolding loop
  loop_stops m left t ts e = ground arith

  pub loop-continues :
      (m : ℕ) (left : Node) (t : Token) (ts : List Token) (o : BinaryOp)
      → continues m t ≡ some o
      → loop (suc f) m d left (t ∷ ts)
        ≡ then_parse
            (expr f (precedence o + 1) (d + 1) ts)
            (λ right rest. loop f m d (binary o left right) rest)
  unfolding loop
  loop-continues m left t ts o e = ground arith

  pub unary_plain :
      (t : Token) (ts : List Token)
      → sign t ≡ none
      → unary_expr (suc f) d (t ∷ ts) ≡ primary f d (t ∷ ts)
  unfolding unary_expr
  unary_plain t ts e = ground arith

  pub unary_signed :
      (t : Token) (ts : List Token) (o : UnaryOp)
      → sign t ≡ some o
      → unary_expr (suc f) d (t ∷ ts)
        ≡ then_parse (unary_expr f (d + 1) ts) (λ arg rest. ok (unary o arg, rest))
  unfolding unary_expr
  unary_signed t ts o e = ground arith

  pub primary_num :
      (t : Token) (ts : List Token) → t.t ≡ Kind.num → primary (suc f) d (t ∷ ts) ≡ ok (num t.v, ts)
  unfolding primary
  primary_num t ts e = ground arith

  pub primary_str :
      (t : Token) (ts : List Token) → t.t ≡ Kind.str → primary (suc f) d (t ∷ ts) ≡ ok (str t.v, ts)
  unfolding primary
  primary_str t ts e = ground arith

  pub primary_open :
      (t : Token) (ts : List Token)
      → t.t ≡ Kind.op
      → (t.v === codes "(") ≡ true
      → primary (suc f) d (t ∷ ts)
        ≡ then_parse
            (expr f 0 (d + 1) ts)
            (λ e rest. then_parse (expect (codes ")") rest) (λ _ rest'. ok (e, rest')))
  unfolding primary
  primary_open t ts e o = ground arith

  pub primary_other :
      (t : Token) (ts : List Token)
      → t.t ≡ Kind.op
      → (t.v === codes "(") ≡ false
      → primary (suc f) d (t ∷ ts) ≡ err (unexpected t.v t.pos)
  unfolding primary
  primary_other t ts e o = ground arith

  pub primary_name :
      (t : Token) (ts : List Token) → t.t ≡ Kind.id → primary (suc f) d (t ∷ ts) ≡ name f d t ts
  unfolding primary
  primary_name t ts e = ground arith

  pub primary_eof :
      (t : Token) (ts : List Token)
      → t.t ≡ Kind.eof
      → primary (suc f) d (t ∷ ts) ≡ err (ends_unexpectedly t.pos)
  unfolding primary
  primary_eof t ts e = ground arith

  pub name_true :
      (t : Token) (ts : List Token)
      → (upper t.v === codes "TRUE") ≡ true
      → name (suc f) d t ts ≡ ok (bool true, ts)
  unfolding name
  name_true t ts e = rw (e, name) refl

  pub name_false :
      (t : Token) (ts : List Token)
      → (upper t.v === codes "TRUE") ≡ false
      → (upper t.v === codes "FALSE") ≡ true
      → name (suc f) d t ts ≡ ok (bool false, ts)
  unfolding name
  name_false t ts a e = rw (a, e, name) refl

  pub name_null :
      (t : Token) (ts : List Token)
      → (upper t.v === codes "TRUE") ≡ false
      → (upper t.v === codes "FALSE") ≡ false
      → (upper t.v === codes "NULL") ≡ true
      → name (suc f) d t ts ≡ ok (null, ts)
  unfolding name
  name_null t ts a b e = rw (a, b, e, name) refl

-- A name that is no constant.
abbrev pub IsPlain : Text → Type 0
IsPlain v =
    ((upper v === codes "TRUE") ≡ false)
    × ((upper v === codes "FALSE") ≡ false)
    × ((upper v === codes "NULL") ≡ false)

module _ (f d : ℕ) where
  pub name_field :
      (t : Token) (ts : List Token)
      → IsPlain t.v
      → next_is (codes "(") ts ≡ false
      → name (suc f) d t ts ≡ ok (field t.v, ts)
  unfolding name
  name_field t ts (a, b, c) e = rw (a, b, c, e, name) refl

  pub name_call :
      (t : Token) (ts : List Token)
      → IsPlain t.v
      → next_is (codes "(") ts ≡ true
      → name (suc f) d t ts
        ≡ then_parse (args f d (tail ts)) (λ as_ rest.
          then_parse (expect (codes ")") rest) (λ _ rest'. with_rest rest' (checked_call t as_)))
  unfolding name
  name_call t ts (a, b, c) e = rw (a, b, c, e, name) refl

  pub args_none :
      (ts : List Token) → next_is (codes ")") ts ≡ true → args (suc f) d ts ≡ ok (nil, ts)
  unfolding args
  args_none ts e = ground arith

  pub args_some :
      (ts : List Token) → next_is (codes ")") ts ≡ false → args (suc f) d ts ≡ more_args f d ts
  unfolding args
  args_some ts e = ground arith

  pub more_args_step :
      (ts : List Token)
      → more_args (suc f) d ts
        ≡ then_parse (expr f 0 (d + 1) ts) (λ a rest. elim (next_is (codes ",") rest) [
          | true ↦ then_parse (more_args f d (tail rest)) (λ as_ rest'. ok (cons a as_, rest'))
          | false ↦ ok (cons a nil, rest)
        ])
  unfolding more_args
  more_args_step ts = refl
