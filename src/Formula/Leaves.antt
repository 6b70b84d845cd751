-- ===== src/Formula/Leaves.antt =====
-- formula.ts: how the parser reads a printed tree of one token, and a unary operator.
use erp_global.Common.{
  ℕ, zero, suc, ◌+◌, ◌*◌, ◌≤◌, ◌≡◌, refl, Bool, true, false, none, List, ◌∷◌, ◌∙◌, ap, arith,
}
use native.Mathlib.Decide.{ℕ_discrete}
use erp_global.Common.Text.{Text, Text-discrete, ◌===◌, codes, upper}
use erp_global.Common.Action.{ok}
use erp_global.Formula.Tokens.{Token, Kind}
use erp_global.Formula.Tree.{UnaryOp, Node, num, str, bool, null, field, unary}
use erp_global.Formula.Parser.{
  Parsed, then_parse, continues, sign, is_op, next_is, expr, loop, unary_expr, name,
}
use erp_global.Formula.Steps.{
  IsPlain, expr_shallow, loop_stops, unary_plain, unary_signed, primary_num, primary_str,
  primary_name, name_true, name_false, name_null, name_field,
}
use erp_global.Formula.Printer.{token, sign_text, print, width, nesting}
use erp_global.Formula.Words.{sign-sign_text}

-- The parser reads `e` as an operand of a unary operator, before a token that opens no bracket.
abbrev pub ReadsUnary : Node → Type 0
ReadsUnary e =
    (f d : ℕ) (t : Token) (ts : List Token)
    → (t.v === codes "(") ≡ false
    → d + nesting 8 e ≤ 50
    → 6 * width 8 e + 2 ≤ f
    → unary_expr f d (print 8 e (t ∷ ts)) ≡ ok (e, t ∷ ts)

-- Where the parser reads an expression of precedence `m`, it reads `e` printed for `k` and goes on
-- with what the loop makes of it.
abbrev pub ReadsAt : ℕ → Node → Type 0
ReadsAt k e =
    (m f d n : ℕ) (t : Token) (ts : List Token) (r : Parsed Node)
    → m ≤ k
    → (t.v === codes "(") ≡ false
    → continues (suc k) t ≡ none
    → d + nesting k e ≤ 50
    → ((g : ℕ) → n ≤ g → loop g m d e (t ∷ ts) ≡ r)
    → n + 6 * width k e + 3 ≤ f
    → expr f m d (print k e (t ∷ ts)) ≡ r

abbrev pub ReadsExpr : Node → Type 0
ReadsExpr e = (k : ℕ) → ReadsAt k e

-- One step of the loop, and one of the recursion, from the reading of the unary operand.
expr_of_unary :
    (f d m n : ℕ) (ts : List Token) (e : Node) (rest : List Token) (r : Parsed Node)
    → d ≤ 50
    → unary_expr f d ts ≡ ok (e, rest)
    → ((g : ℕ) → n ≤ g → loop g m d e rest ≡ r)
    → n ≤ f
    → expr (suc f) m d ts ≡ r
expr_of_unary f d m n ts e rest r shallow u h l =
    expr_shallow f d m ts (ground arith) ∙ ap (λ p. then_parse p (loop f m d)) u ∙ h f l

-- Where a tree is printed as an operand of a unary operator is.
pub expr_of_same :
    (k : ℕ) (e : Node)
    → ReadsUnary e
    → ((rest : List Token) → print k e rest ≡ print 8 e rest)
    → width k e ≡ width 8 e
    → nesting k e ≡ nesting 8 e
    → ReadsAt k e
expr_of_same k e u same wide deep m zero d n t ts r l o c b h g = absurd (omega (arith, g))
expr_of_same k e u same wide deep m (suc f) d n t ts r l o c b h g = rw (same (t ∷ ts)) (
    expr_of_unary f d m n _ e (t ∷ ts) r (omega arith)
      (u f d t ts o (omega (arith, deep)) (omega (arith, wide))) h (omega (arith, g)))

-- A name behind which no bracket opens.
pub reads_name :
    (v : Text) (f d : ℕ) (ts : List Token) (r : Parsed Node)
    → name f d (token Kind.id v) ts ≡ r
    → unary_expr (suc (suc f)) d (token Kind.id v ∷ ts) ≡ r
unfolding sign is_op
reads_name v f d ts r h =
    unary_plain (suc f) d (token Kind.id v) ts refl ∙ primary_name f d (token Kind.id v) ts refl ∙ h

pub reads_unary : (o : UnaryOp) (a : Node) → ReadsUnary a → ReadsUnary (unary o a)
unfolding print width nesting
reads_unary o a u zero d t ts op b g = absurd (omega (arith, g))
reads_unary o a u (suc f) d t ts op b g =
    unary_signed f d (token Kind.op (sign_text o)) _ o (sign-sign_text o)
    ∙ ap (λ p. then_parse p (λ arg rest. ok (unary o arg, rest)))
        (u f (d + 1) t ts op (omega arith) (omega (arith, g)))

-- A number that is large enough is three above another.
three_above : (P : ℕ → Type 0) → ((g : ℕ) → P (suc (suc (suc g)))) → (f : ℕ) → 3 ≤ f → P f
three_above P h zero l = absurd (omega (arith, l))
three_above P h (suc zero) l = absurd (omega (arith, l))
three_above P h (suc (suc zero)) l = absurd (omega (arith, l))
three_above P h (suc (suc (suc g))) l = h g

-- A tree of one token.
reads_leaf :
    (e : Node) (u : Token)
    → ((rest : List Token) → print 8 e rest ≡ u ∷ rest)
    → ((f d : ℕ) (t : Token) (ts : List Token)
        → (t.v === codes "(") ≡ false
        → unary_expr (suc (suc (suc f))) d (u ∷ t ∷ ts) ≡ ok (e, t ∷ ts))
    → 1 ≤ width 8 e
    → ReadsUnary e
reads_leaf e u p h w f d t ts o b g = rw (p (t ∷ ts)) (
    three_above (λ f. unary_expr f d (u ∷ t ∷ ts) ≡ ok (e, t ∷ ts)) (λ g. h g d t ts o) f
      (omega (arith, g, w)))

pub reads_num : (v : Text) → ReadsUnary (num v)
unfolding print width sign is_op
reads_num v =
    reads_leaf (num v) (token Kind.num v) (λ rest. refl)
      (λ f d t ts o. unary_plain (suc (suc f)) d _ _ refl ∙ primary_num (suc f) d _ _ refl)
      (omega arith)

pub reads_str : (v : Text) → ReadsUnary (str v)
unfolding print width sign is_op
reads_str v =
    reads_leaf (str v) (token Kind.str v) (λ rest. refl)
      (λ f d t ts o. unary_plain (suc (suc f)) d _ _ refl ∙ primary_str (suc f) d _ _ refl)
      (omega arith)

pub reads_bool : (b : Bool) → ReadsUnary (bool b)
unfolding print width Text-discrete ℕ_discrete upper
reads_bool true =
    reads_leaf (bool true) (token Kind.id (codes "TRUE")) (λ rest. refl)
      (λ f d t ts o. reads_name _ (suc f) d _ _ (name_true f d _ _ refl)) (omega arith)
reads_bool false =
    reads_leaf (bool false) (token Kind.id (codes "FALSE")) (λ rest. refl)
      (λ f d t ts o. reads_name _ (suc f) d _ _ (name_false f d _ _ refl refl)) (omega arith)

pub reads_null : ReadsUnary null
unfolding print width Text-discrete ℕ_discrete upper
reads_null =
    reads_leaf null (token Kind.id (codes "NULL")) (λ rest. refl)
      (λ f d t ts o. reads_name _ (suc f) d _ _ (name_null f d _ _ refl refl refl)) (omega arith)

pub reads_field : (x : Text) → IsPlain x → ReadsUnary (field x)
unfolding print width next_is
reads_field x plain =
    reads_leaf (field x) (token Kind.id x) (λ rest. refl)
      (λ f d t ts o. reads_name x (suc f) d _ _ (name_field f d (token Kind.id x) (t ∷ ts) plain o))
      (omega arith)

pub loop_rests :
    (m d : ℕ) (e : Node) (t : Token) (ts : List Token)
    → continues m t ≡ none
    → (g : ℕ) → 1 ≤ g
    → loop g m d e (t ∷ ts) ≡ ok (e, t ∷ ts)
loop_rests m d e t ts c zero l = absurd (omega (arith, l))
loop_rests m d e t ts c (suc g) l = loop_stops g d m e t ts c
