-- ===== src/Formula/Tokens.antt =====
-- formula.ts: the tokens of a formula, and `tokenize`.
use erp_global.Common.{
  ℕ, zero, suc, ◌+◌, ◌-◌, Bool, ◌&&◌, ◌||◌, Option, none, some, List, [], ◌∷◌, any, length, ◌==◌,
  ltb, leb, if◌then◌else◌,
}
use erp_global.Common.Text.{Text, ◌===◌, codes, includes, take, drop}
use erp_global.Common.Action.{Result, ok, err}

-- `out_of_fuel` has no counterpart in the program: the parser here counts its calls. `past_end` is
-- the TypeError of a token behind the last one.
pub data FormulaError : Type 0 where
  too_long too_deep out_of_fuel past_end invalid_time : FormulaError
  invalid_number unclosed_text ends_unexpectedly changed_needs_field : ℕ → FormulaError
  unexpected_character : ℕ → ℕ → FormulaError
  expected unexpected unknown_function wrong_arity : Text → ℕ → FormulaError
  unknown_name not_a_number not_a_date unknown_operator : Text → FormulaError

pub data Kind : Type 0 where
  num str id op eof : Kind

pub record Token : Type 0 where
  pub t : Kind
  pub v : Text
  pub pos : ℕ

abbrev pub max_length : ℕ
max_length = 2000

-- `/\s/`
unfoldable pub is_space : ℕ → Bool
is_space c =
    (leb 9 c && leb c 13)
    || c == 32
    || c == 160
    || c == 5760
    || (leb 8192 c && leb c 8202)
    || c == 8232
    || c == 8233
    || c == 8239
    || c == 8287
    || c == 12288
    || c == 65279

unfoldable pub is_digit : ℕ → Bool
is_digit c = leb b'0' c && leb c b'9'

unfoldable pub is_name_start : ℕ → Bool
is_name_start c = (leb b'A' c && leb c b'Z') || (leb b'a' c && leb c b'z') || c == b'_'

unfoldable pub is_name_part : ℕ → Bool
unfolding is_digit is_name_start
is_name_part c = is_name_start c || is_digit c

-- The length of the longest prefix of characters that pass.
unfoldable pub run_length : (ℕ → Bool) → Text → ℕ
run_length p [] = 0
run_length p (c ∷ s) = let rest = run_length p s in if p c then suc rest else 0

-- `.` and at least one digit, at the head of the text: how much of it that is.
unfoldable pub fraction_length : Text → ℕ
unfolding is_digit run_length
fraction_length [] = 0
fraction_length (c ∷ s) = let n = run_length is_digit s in if c == b'.' && ltb 0 n then suc n else 0

unfoldable pub sign_length : Text → ℕ
sign_length [] = 0
sign_length (c ∷ s) = if c == b'+' || c == b'-' then 1 else 0

-- `(?:[eE][+-]?\d+)?`
unfoldable pub exponent_length : Text → ℕ
unfolding is_digit run_length sign_length
exponent_length [] = 0
exponent_length (c ∷ s) =
    let k = sign_length s in
    let n = run_length is_digit (drop k s) in
    if (c == b'e' || c == b'E') && ltb 0 n then suc (k + n) else 0

-- `/^\d*\.?\d+(?:[eE][+-]?\d+)?/`: the length of the match, 0 for none.
unfoldable pub number_length : Text → ℕ
unfolding fraction_length exponent_length is_digit run_length
number_length s =
    let n = run_length is_digit s in
    let m = n + fraction_length (drop n s) in if m == 0 then 0 else m + exponent_length (drop m s)

-- A text literal after its opening quote: its value, and the length with the closing quote.
unfoldable pub read_text : ℕ → Text → Option (Text × ℕ)
read_text quote [] = none
read_text quote (c ∷ []) = if c == quote then some ([], 1) else none
read_text quote (c ∷ d ∷ s) =
    let escaped : Option (Text × ℕ) = elim (read_text quote s) [
      | none ↦ none
      | some (v, n) ↦ some (d ∷ v, n + 2)
    ] in
    let plain : Option (Text × ℕ) = elim (read_text quote (d ∷ s)) [
      | none ↦ none
      | some (v, n) ↦ some (c ∷ v, n + 1)
    ] in
    if c == quote then some ([], 1) else if c == b'\\' then escaped else plain

-- `/^[A-Za-z_][A-Za-z0-9_]*(?:\.[A-Za-z_][A-Za-z0-9_]*)?/` where the first character fits.
unfoldable pub column_length : Text → ℕ
unfolding is_name_start is_name_part run_length
column_length (c ∷ d ∷ s) =
    if c == b'.' && is_name_start d then suc (suc (run_length is_name_part s)) else 0
column_length s = 0

unfoldable pub name_length : Text → ℕ
unfolding is_name_part run_length column_length
name_length s = let n = run_length is_name_part s in n + column_length (drop n s)

abbrev pub two_char_ops : List Text
two_char_ops =
    codes "<=" ∷ codes ">=" ∷ codes "==" ∷ codes "!=" ∷ codes "&&" ∷ codes "||" ∷ codes "<>" ∷ []

unfoldable pub operator : ℕ → ℕ → Text → Result FormulaError (Option Token × ℕ)
operator pos c rest =
    let two = take 2 (c ∷ rest) in
    if any (λ o. o === two) two_char_ops
    then ok
        (some (record { t = op; v = if two === codes "<>" then codes "!=" else two; pos = pos }), 2)
    else if includes (codes "+-*/%()<>,!&=") c
    then ok (some (record { t = op; v = if c == b'=' then codes "==" else c ∷ []; pos = pos }), 1)
    else err (unexpected_character c pos)

-- One round of the loop at the character `c`: the token, if any, and how far the loop goes on.
unfoldable pub read_token : ℕ → ℕ → Text → Result FormulaError (Option Token × ℕ)
unfolding is_space is_digit number_length read_text is_name_start name_length operator
read_token pos c rest =
    if is_space c
    then ok (none, 1)
    else if is_digit c || c == b'.'
    then (let n = number_length (c ∷ rest) in
        if n == 0
        then err (invalid_number pos)
        else ok (some (record { t = num; v = take n (c ∷ rest); pos = pos }), n))
    else if c == b'"' || c == b'\''
    then elim (read_text c rest) [
      | none ↦ err (unclosed_text pos)
      | some (v, n) ↦ ok (some (record { t = str; v = v; pos = pos }), suc n)
    ]
    else if is_name_start c
    then (let n = name_length (c ∷ rest) in
        ok (some (record { t = id; v = take n (c ∷ rest); pos = pos }), n))
    else operator pos c rest

unfoldable pub add_token :
    Option Token → Result FormulaError (List Token) → Result FormulaError (List Token)
add_token none r = r
add_token (some t) (ok ts) = ok (t ∷ ts)
add_token (some t) (err e) = err e

-- The loop over the text. `ahead` is how many characters the last token still covers.
unfoldable pub scan : ℕ → ℕ → Text → Result FormulaError (List Token)
unfolding read_token add_token
scan ahead pos [] = ok (record { t = eof; v = []; pos = pos } ∷ [])
scan (suc ahead) pos (c ∷ s) = scan ahead (pos + 1) s
scan zero pos (c ∷ s) = elim (read_token pos c s) [
  | err e ↦ err e
  | ok (t, n) ↦ add_token t (scan (n - 1) (pos + 1) s)
]

unfoldable pub tokenize : Text → Result FormulaError (List Token)
unfolding scan
tokenize src = if ltb max_length (length src) then err too_long else scan 0 0 src
