-- ===== src/Formula/Printer.antt =====
-- The tokens of a tree, with brackets only where the precedence of an operator asks for them.
use erp_global.Common.{
  ℕ, ◌+◌, ◌≡◌, refl, max, Bool, true, false, ◌&&◌, ◌||◌, not, List, [], ◌∷◌, length, ltb,
  if◌then◌else◌, arith,
}
use erp_global.Common.Text.{Text, codes}
use erp_global.Formula.Tokens.{Token, Kind}
use erp_global.Formula.Tree.{
  UnaryOp, opposite, negation, Node, num, str, bool, null, field, unary, binary, call, Nodes, nil,
  cons, precedence, op_text, fn_text, arity,
}
use erp_global.Formula.Parser.{is_changed, is_field, size, next_is}
use erp_global.Formula.Steps.{IsPlain}

abbrev pub token : Kind → Text → Token
token k v = record { t = k; v = v; pos = 0 }

abbrev pub opening : Token
opening = token Kind.op (codes "(")

abbrev pub closing : Token
closing = token Kind.op (codes ")")

abbrev pub comma : Token
comma = token Kind.op (codes ",")

abbrev pub sign_text : UnaryOp → Text
sign_text opposite = codes "-"
sign_text negation = codes "!"

abbrev pub bool_text : Bool → Text
bool_text true = codes "TRUE"
bool_text false = codes "FALSE"

abbrev pub bracket : Bool → (List Token → List Token) → List Token → List Token
bracket true body rest = opening ∷ body (closing ∷ rest)
bracket false body rest = body rest

-- The tokens of the tree as an operand of precedence `k`, before `rest`. A unary operator binds
-- stronger than any other, as 8.
unfoldable mutual
  unfolding precedence op_text fn_text

  pub print : ℕ → Node → List Token → List Token
  print k (num v) rest = token Kind.num v ∷ rest
  print k (str v) rest = token Kind.str v ∷ rest
  print k (bool b) rest = token Kind.id (bool_text b) ∷ rest
  print k null rest = token Kind.id (codes "NULL") ∷ rest
  print k (field x) rest = token Kind.id x ∷ rest
  print k (unary o a) rest = token Kind.op (sign_text o) ∷ print 8 a rest
  print k (binary o l r) rest =
      bracket (ltb (precedence o) k)
        (λ ts. print (precedence o) l (token Kind.op (op_text o) ∷ print (precedence o + 1) r ts))
        rest
  print k (call f as_) rest = token Kind.id (fn_text f) ∷ opening ∷ print_args as_ (closing ∷ rest)

  pub print_args : Nodes → List Token → List Token
  print_args nil rest = rest
  print_args (cons a nil) rest = print 0 a rest
  print_args (cons a (cons b as_)) rest = print 0 a (comma ∷ print_args (cons b as_) rest)

-- How many tokens that are.
unfoldable mutual
  unfolding precedence

  pub width : ℕ → Node → ℕ
  width k (num v) = 1
  width k (str v) = 1
  width k (bool b) = 1
  width k null = 1
  width k (field x) = 1
  width k (unary o a) = 1 + width 8 a
  width k (binary o l r) =
      (if ltb (precedence o) k then 2 else 0)
      + (width (precedence o) l + (1 + width (precedence o + 1) r))
  width k (call f as_) = 3 + width_args as_

  pub width_args : Nodes → ℕ
  width_args nil = 0
  width_args (cons a nil) = width 0 a
  width_args (cons a (cons b as_)) = width 0 a + (1 + width_args (cons b as_))

-- How deep the parser goes below the depth at which it meets the tree.
unfoldable mutual
  unfolding precedence

  pub nesting : ℕ → Node → ℕ
  nesting k (unary o a) = 1 + nesting 8 a
  nesting k (binary o l r) =
      (if ltb (precedence o) k then 1 else 0)
      + max (nesting (precedence o) l) (1 + nesting (precedence o + 1) r)
  nesting k (call f as_) = nesting_args as_
  nesting k e = 0

  pub nesting_args : Nodes → ℕ
  nesting_args nil = 0
  nesting_args (cons a as_) = max (1 + nesting 0 a) (nesting_args as_)

-- A tree that the parser can give: no field is named like a constant, and every call has as many
-- arguments as its function takes, CHANGED a field. The first argument does not begin with the text
-- literal ")", which the parser takes for the end of the arguments.
unfoldable mutual
  unfolding is_changed is_field size arity next_is

  pub IsWritable : Node → Type 0
  IsWritable (num v) = Unit
  IsWritable (str v) = Unit
  IsWritable (bool b) = Unit
  IsWritable null = Unit
  IsWritable (field x) = IsPlain x
  IsWritable (unary o a) = IsWritable a
  IsWritable (binary o l r) = IsWritable l × IsWritable r
  IsWritable (call f as_) =
      ((is_changed f && not (is_field as_)) ≡ false)
      × ((ltb (size as_) (arity f).0 || ltb (arity f).1 (size as_)) ≡ false)
      × AreWritable as_
      × (next_is (codes ")") (print_args as_ (comma ∷ [])) ≡ false)

  pub AreWritable : Nodes → Type 0
  AreWritable nil = Unit
  AreWritable (cons a as_) = IsWritable a × AreWritable as_

length-bracket :
    (b : Bool) (body : List Token → List Token) (n : ℕ)
    → ((ts : List Token) → length (body ts) ≡ n + length ts)
    → (rest : List Token) → length (bracket b body rest) ≡ (if b then 2 else 0) + n + length rest
length-bracket true body n h rest = omega (arith, h (closing ∷ rest))
length-bracket false body n h rest = omega (arith, h rest)

mutual
  unfolding print print_args width width_args precedence

  pub length-print :
      (k : ℕ) (e : Node) (rest : List Token) → length (print k e rest) ≡ width k e + length rest
  length-print k (num v) rest = omega arith
  length-print k (str v) rest = omega arith
  length-print k (bool b) rest = omega arith
  length-print k null rest = omega arith
  length-print k (field x) rest = omega arith
  length-print k (unary o a) rest = omega (arith, length-print 8 a rest)
  length-print k (binary o l r) rest =
      length-bracket (ltb (precedence o) k) _
        (width (precedence o) l + (1 + width (precedence o + 1) r))
        (λ ts. omega (
          arith,
          length-print (precedence o) l (token Kind.op (op_text o) ∷ print (precedence o + 1) r ts),
          length-print (precedence o + 1) r ts,
        ))
        rest
  length-print k (call f as_) rest = omega (arith, length-print_args as_ (closing ∷ rest))

  length-print_args :
      (as_ : Nodes) (rest : List Token)
      → length (print_args as_ rest) ≡ width_args as_ + length rest
  length-print_args nil rest = omega arith
  length-print_args (cons a nil) rest = length-print 0 a rest
  length-print_args (cons a (cons b as_)) rest = omega (
    arith,
    length-print 0 a (comma ∷ print_args (cons b as_) rest),
    length-print_args (cons b as_) rest,
  )

-- What stands first does not depend on what follows.
next_is-bracket :
    (v : Text) (b : Bool) (body : List Token → List Token)
    → ((r s : List Token) → next_is v (body r) ≡ next_is v (body s))
    → (r s : List Token) → next_is v (bracket b body r) ≡ next_is v (bracket b body s)
unfolding next_is
next_is-bracket v true body h r s = refl
next_is-bracket v false body h r s = h r s

next_is-print :
    (v : Text) (k : ℕ) (e : Node) (r s : List Token)
    → next_is v (print k e r) ≡ next_is v (print k e s)
unfolding print next_is
next_is-print v k (num x) r s = refl
next_is-print v k (str x) r s = refl
next_is-print v k (bool b) r s = refl
next_is-print v k null r s = refl
next_is-print v k (field x) r s = refl
next_is-print v k (unary o a) r s = refl
next_is-print v k (binary o l m) r s =
    next_is-bracket v (ltb (precedence o) k) _ (λ r s. next_is-print v (precedence o) l _ _) r s
next_is-print v k (call f as_) r s = refl

pub next_is-print_args :
    (v : Text) (a : Node) (as_ : Nodes) (r s : List Token)
    → next_is v (print_args (cons a as_) r) ≡ next_is v (print_args (cons a as_) s)
unfolding print_args
next_is-print_args v a nil r s = next_is-print v 0 a r s
next_is-print_args v a (cons b as_) r s = next_is-print v 0 a _ _
