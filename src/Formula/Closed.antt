-- ===== src/Formula/Closed.antt =====
-- formula.ts: the tokens end with the mark of the end, which the parser does not pass.
use erp_global.Common.{
  ℕ, zero, suc, ◌+◌, ◌-◌, ◌<◌, ◌≡◌, ◌≢◌, refl, inl, inr, Bool, true, false, Option, none, some,
  List, [], ◌∷◌, length, ltb, if◌then◌else◌, Bool-cases, arith,
}
use erp_global.Common.Text.{Text, ◌===◌, ===_iff, Text-discrete}
use erp_global.Common.Action.{Result, ok, err}
use erp_global.Formula.Tokens.{
  Token, Kind, FormulaError, out_of_fuel, past_end, read_token, operator, read_text, unclosed_text,
  add_token, scan, tokenize,
}
use erp_global.Formula.Tree.{Nodes}
use erp_global.Formula.Parser.{
  Parsed, then_parse, is_op, binary_op, continues, sign, expect, next_is, tail, checked_call,
  with_rest,
}

-- An error that the program throws.
unfoldable pub is_syntax : FormulaError → Bool
is_syntax out_of_fuel = false
is_syntax past_end = false
is_syntax e = true

unfoldable pub is_end : Token → Bool
is_end t = elim t.t [ Kind.eof ↦ t.v === [] | _ ↦ false ]

-- The last token marks the end.
unfoldable pub closed : List Token → Bool
unfolding is_end
closed [] = false
closed (t ∷ []) = is_end t
closed (t ∷ u ∷ ts) = closed (u ∷ ts)

pub not_closed : closed [] ≢ true
unfolding closed
not_closed h = cc

closed-tail :
    (t : Token) (ts : List Token) → closed (t ∷ ts) ≡ true → is_end t ≡ false → closed ts ≡ true
unfolding closed
closed-tail t [] h e = cc
closed-tail t (u ∷ ts) h e = h

pub closed_after_kind :
    (t : Token) (ts : List Token) → t.t ≢ Kind.eof → closed (t ∷ ts) ≡ true → closed ts ≡ true
unfolding is_end
closed_after_kind t ts ne h = closed-tail t ts h (ground arith)

pub closed_after_text :
    (t : Token) (ts : List Token) (v : Text)
    → v ≢ []
    → (t.v === v) ≡ true
    → closed (t ∷ ts) ≡ true
    → closed ts ≡ true
unfolding is_end
closed_after_text t ts v ne same h =
    closed-tail t ts h (ground (arith, ===_iff t.v v, ===_iff t.v []))

abbrev pub Ends : {A : Type 0} → ℕ → Parsed A → Type 0
Ends n (ok (a, rest)) = (length rest < n) × (closed rest ≡ true)
Ends n (err e) = is_syntax e ≡ true

pub Ends-then_parse :
    {A B : Type 0} (n m : ℕ) (r : Parsed A) (k : A → List Token → Parsed B)
    → Ends m r
    → ((a : A) (rest : List Token) → length rest < m → closed rest ≡ true → Ends n (k a rest))
    → Ends n (then_parse r k)
Ends-then_parse n m (ok (a, rest)) k h g = g a rest h.0 h.1
Ends-then_parse n m (err e) k h g = h

pub Ends-expect :
    (v : Text) (ts : List Token) → v ≢ [] → closed ts ≡ true → Ends (length ts) (expect v ts)
unfolding expect is_syntax closed
Ends-expect v [] ne h = h
Ends-expect v (t ∷ ts) ne h = elim (Bool-cases (t.v === v)) [
  | inl e ↦ rw e (omega arith, closed_after_text t ts v ne e h)
  | inr e ↦ rw e refl
]

-- A token that the parser passes by.
pub next_is-tail :
    (v : Text) (ts : List Token)
    → v ≢ []
    → closed ts ≡ true
    → next_is v ts ≡ true
    → (length (tail ts) < length ts) × (closed (tail ts) ≡ true)
unfolding next_is tail
next_is-tail v [] ne h e = cc
next_is-tail v (t ∷ ts) ne h e = (omega arith, closed_after_text t ts v ne e h)

pub closed_after_sign :
    (t : Token) (ts : List Token) → sign t ≢ none → closed (t ∷ ts) ≡ true → closed ts ≡ true
unfolding sign is_op
closed_after_sign t ts ne h = closed_after_kind t ts (ground arith) h

pub closed_after_binary :
    (m : ℕ) (t : Token) (ts : List Token)
    → continues m t ≢ none
    → closed (t ∷ ts) ≡ true
    → closed ts ≡ true
unfolding continues binary_op is_op
closed_after_binary m t ts ne h = closed_after_kind t ts (ground arith) h

pub checked_call-Ends :
    (t : Token) (as_ : Nodes) (ts : List Token) (n : ℕ)
    → length ts < n
    → closed ts ≡ true
    → Ends n (with_rest ts (checked_call t as_))
unfolding checked_call with_rest is_syntax
checked_call-Ends t as_ ts n h k = ground arith

-- A tree, or an error that the program throws.
abbrev pub Answers : {A : Type 0} → Result FormulaError A → Type 0
Answers (ok a) = Unit
Answers (err e) = is_syntax e ≡ true

abbrev pub Closes : Result FormulaError (List Token) → Type 0
Closes (ok ts) = closed ts ≡ true
Closes (err e) = is_syntax e ≡ true

if-Answers :
    {A : Type 0} (b : Bool) (x y : Result FormulaError A)
    → Answers x
    → Answers y
    → Answers (if b then x else y)
if-Answers true x y h k = h
if-Answers false x y h k = k

operator-Answers : (pos c : ℕ) (rest : Text) → Answers (operator pos c rest)
unfolding operator is_syntax
operator-Answers pos c rest = search if-Answers

text-Answers :
    (pos : ℕ) (r : Option (Text × ℕ))
    → Answers {A = Option Token × ℕ} (elim r [
      | none ↦ err (unclosed_text pos)
      | some (v, n) ↦ ok (some (record { t = Kind.str; v = v; pos = pos }), suc n)
    ])
unfolding is_syntax
text-Answers pos none = refl
text-Answers pos (some (v, n)) = tt

read_token-Answers : (pos c : ℕ) (rest : Text) → Answers (read_token pos c rest)
unfolding read_token is_syntax
read_token-Answers pos c rest =
    search (if-Answers, text-Answers pos (read_text c rest), operator-Answers)

closed-cons : (t : Token) (ts : List Token) → closed ts ≡ true → closed (t ∷ ts) ≡ true
unfolding closed
closed-cons t [] h = cc
closed-cons t (u ∷ ts) h = h

add_token-Closes :
    (t : Option Token) (r : Result FormulaError (List Token)) → Closes r → Closes (add_token t r)
unfolding add_token
add_token-Closes none r h = h
add_token-Closes (some t) (ok ts) h = closed-cons t ts h
add_token-Closes (some t) (err e) h = h

round-Closes :
    (r : Result FormulaError (Option Token × ℕ)) (k : ℕ → Result FormulaError (List Token))
    → Answers r
    → ((n : ℕ) → Closes (k n))
    → Closes (elim r [ err e ↦ err e | ok (t, n) ↦ add_token t (k n) ])
round-Closes (err e) k h g = h
round-Closes (ok (t, n)) k h g = add_token-Closes t (k n) (g n)

scan-Closes : (ahead pos : ℕ) (s : Text) → Closes (scan ahead pos s)
unfolding scan closed is_end Text-discrete
scan-Closes ahead pos [] = refl
scan-Closes (suc ahead) pos (c ∷ s) = scan-Closes ahead (pos + 1) s
scan-Closes zero pos (c ∷ s) =
    round-Closes (read_token pos c s) _ (read_token-Answers pos c s)
      (λ n. scan-Closes (n - 1) (pos + 1) s)

pub tokenize-Closes : (src : Text) → Closes (tokenize src)
unfolding tokenize is_syntax
tokenize-Closes src = elim (Bool-cases (ltb 2000 (length src))) [
  | inl long ↦ rw long refl
  | inr fits ↦ rw fits (scan-Closes 0 0 src)
]
