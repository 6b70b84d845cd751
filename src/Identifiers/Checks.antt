-- ===== src/Identifiers/Checks.antt =====
-- identifiers.ts: the check-digit algorithms and `checkIdentifier`. A digit is its code unit.
use erp_global.Common.{
  ℕ, zero, suc, ◌+◌, ◌-◌, ◌*◌, ◌/◌, ◌%◌, Bool, false, ◌&&◌, ◌||◌, not, Option, none, some, List, [],
  ◌∷◌, all, length, ◌==◌, ltb, leb, if◌then◌else◌,
}
use erp_global.Common.Text.{Text}
use erp_global.Common.Action.{Result, ok, err}

pub data Checksum : Type 0 where
  by_luhn by_luhn_mod36 by_verhoeff by_mod11 : Checksum

pub record IdentifierType : Type 0 where
  pub key : Text
  pub label : Text
  pub pattern : Text
  pub checksum : Option Checksum
  pub uppercase : Bool
  pub example : Option Text

unfoldable pub is_digit : ℕ → Bool
is_digit c = leb b'0' c && leb c b'9'

-- `/^\d+$/`
unfoldable pub all_digits : Text → Bool
unfolding is_digit
all_digits s = not (length s == 0) && all is_digit s

abbrev pub digit : ℕ → ℕ
digit c = c - b'0'

-- `row[i]` and `rows[i][j]`, which the loops read within their bounds only.
unfoldable pub cell : List ℕ → ℕ → ℕ
cell [] i = 0
cell (x ∷ xs) zero = x
cell (x ∷ xs) (suc i) = cell xs i

unfoldable pub table : List (List ℕ) → ℕ → ℕ → ℕ
unfolding cell
table [] i j = 0
table (r ∷ rs) zero j = cell r j
table (r ∷ rs) (suc i) j = table rs i j

-- `ALNUM.indexOf(c)`
unfoldable pub alnum_index : ℕ → Option ℕ
unfolding is_digit
alnum_index c =
    if is_digit c
    then some (digit c)
    else if leb b'A' c && leb c b'Z'
    then some (c - b'A' + 10)
    else none

unfoldable pub alnum_at : ℕ → ℕ
alnum_at i = if ltb i 10 then b'0' + i else b'A' + (i - 10)

-- The loop of `luhnMod36`, from the left: the body, and the last character.
unfoldable pub luhn_mod36_from : ℕ → ℕ → Text → Bool
unfolding alnum_index alnum_at
luhn_mod36_from i sum [] = false
luhn_mod36_from i sum (c ∷ []) = alnum_at ((36 - sum % 36) % 36) == c
luhn_mod36_from i sum (c ∷ d ∷ s) = elim (alnum_index c) [
  | none ↦ false
  | some code ↦
      let product = code * (if i % 2 == 0 then 1 else 2) in
      luhn_mod36_from (suc i) (sum + (product / 36 + product % 36)) (d ∷ s)
]

unfoldable pub luhn_mod36 : Text → Bool
unfolding luhn_mod36_from
luhn_mod36 value = luhn_mod36_from 0 0 value

unfoldable pub doubled : ℕ → ℕ
doubled d = if ltb 9 (2 * d) then 2 * d - 9 else 2 * d

-- The loop of `luhn`, which goes from the right: the sum, and whether the next digit is doubled.
unfoldable pub luhn_sum : Text → ℕ × Bool
unfolding doubled
luhn_sum [] = (0, false)
luhn_sum (c ∷ s) =
    let (sum, double) = luhn_sum s in
    (sum + (if double then doubled (digit c) else digit c), not double)

unfoldable pub luhn : Text → Bool
unfolding all_digits luhn_sum
luhn value = all_digits value && ((luhn_sum value).0 % 10 == 0)

abbrev pub verhoeff_d : List (List ℕ)
verhoeff_d =
    (0 ∷ 1 ∷ 2 ∷ 3 ∷ 4 ∷ 5 ∷ 6 ∷ 7 ∷ 8 ∷ 9 ∷ [])
    ∷ (1 ∷ 2 ∷ 3 ∷ 4 ∷ 0 ∷ 6 ∷ 7 ∷ 8 ∷ 9 ∷ 5 ∷ [])
    ∷ (2 ∷ 3 ∷ 4 ∷ 0 ∷ 1 ∷ 7 ∷ 8 ∷ 9 ∷ 5 ∷ 6 ∷ [])
    ∷ (3 ∷ 4 ∷ 0 ∷ 1 ∷ 2 ∷ 8 ∷ 9 ∷ 5 ∷ 6 ∷ 7 ∷ [])
    ∷ (4 ∷ 0 ∷ 1 ∷ 2 ∷ 3 ∷ 9 ∷ 5 ∷ 6 ∷ 7 ∷ 8 ∷ [])
    ∷ (5 ∷ 9 ∷ 8 ∷ 7 ∷ 6 ∷ 0 ∷ 4 ∷ 3 ∷ 2 ∷ 1 ∷ [])
    ∷ (6 ∷ 5 ∷ 9 ∷ 8 ∷ 7 ∷ 1 ∷ 0 ∷ 4 ∷ 3 ∷ 2 ∷ [])
    ∷ (7 ∷ 6 ∷ 5 ∷ 9 ∷ 8 ∷ 2 ∷ 1 ∷ 0 ∷ 4 ∷ 3 ∷ [])
    ∷ (8 ∷ 7 ∷ 6 ∷ 5 ∷ 9 ∷ 3 ∷ 2 ∷ 1 ∷ 0 ∷ 4 ∷ [])
    ∷ (9 ∷ 8 ∷ 7 ∷ 6 ∷ 5 ∷ 4 ∷ 3 ∷ 2 ∷ 1 ∷ 0 ∷ [])
    ∷ []

abbrev pub verhoeff_p : List (List ℕ)
verhoeff_p =
    (0 ∷ 1 ∷ 2 ∷ 3 ∷ 4 ∷ 5 ∷ 6 ∷ 7 ∷ 8 ∷ 9 ∷ [])
    ∷ (1 ∷ 5 ∷ 7 ∷ 6 ∷ 2 ∷ 8 ∷ 3 ∷ 0 ∷ 9 ∷ 4 ∷ [])
    ∷ (5 ∷ 8 ∷ 0 ∷ 3 ∷ 7 ∷ 9 ∷ 6 ∷ 1 ∷ 4 ∷ 2 ∷ [])
    ∷ (8 ∷ 9 ∷ 1 ∷ 6 ∷ 0 ∷ 4 ∷ 3 ∷ 5 ∷ 2 ∷ 7 ∷ [])
    ∷ (9 ∷ 4 ∷ 5 ∷ 3 ∷ 1 ∷ 2 ∷ 6 ∷ 8 ∷ 7 ∷ 0 ∷ [])
    ∷ (4 ∷ 2 ∷ 8 ∷ 6 ∷ 5 ∷ 7 ∷ 3 ∷ 9 ∷ 0 ∷ 1 ∷ [])
    ∷ (2 ∷ 7 ∷ 9 ∷ 3 ∷ 8 ∷ 0 ∷ 6 ∷ 4 ∷ 1 ∷ 5 ∷ [])
    ∷ (7 ∷ 0 ∷ 4 ∷ 6 ∷ 9 ∷ 1 ∷ 3 ∷ 2 ∷ 5 ∷ 8 ∷ [])
    ∷ []

unfoldable pub d_at : ℕ → ℕ → ℕ
unfolding table
d_at c x = table verhoeff_d c x

unfoldable pub p_at : ℕ → ℕ → ℕ
unfolding table
p_at i x = table verhoeff_p i x

-- The loop of `verhoeff` over the reversed digits: a digit's place is the number of those behind it.
unfoldable pub verhoeff_fold : Text → ℕ
unfolding d_at p_at
verhoeff_fold [] = 0
verhoeff_fold (c ∷ s) = d_at (verhoeff_fold s) (p_at (length s % 8) (digit c))

unfoldable pub verhoeff : Text → Bool
unfolding all_digits verhoeff_fold
verhoeff value = all_digits value && (verhoeff_fold value == 0)

-- The sum of `mod11`: the weight of a digit is two more than the number of those behind it.
unfoldable pub mod11_sum : Text → ℕ
mod11_sum [] = 0
mod11_sum (c ∷ s) = mod11_sum s + digit c * (length s + 2)

unfoldable pub last_code : Text → Option ℕ
last_code [] = none
last_code (c ∷ []) = some c
last_code (c ∷ d ∷ s) = last_code (d ∷ s)

unfoldable pub without_last : Text → Text
without_last [] = []
without_last (c ∷ []) = []
without_last (c ∷ d ∷ s) = c ∷ without_last (d ∷ s)

-- `last` is compared after `toUpperCase`, which makes `x` an `X` and leaves the digits.
unfoldable pub mod11 : Text → Bool
unfolding all_digits mod11_sum last_code without_last
mod11 value =
    if all_digits (without_last value)
    then elim (last_code value) [
      | none ↦ false
      | some last ↦
          let check = (11 - mod11_sum (without_last value) % 11) % 11 in
          if check == 10 then last == b'X' || last == b'x' else last == b'0' + check
    ]
    else false

unfoldable pub passes : Checksum → Text → Bool
unfolding luhn luhn_mod36 verhoeff mod11
passes by_luhn v = luhn v
passes by_luhn_mod36 v = luhn_mod36 v
passes by_verhoeff v = verhoeff v
passes by_mod11 v = mod11 v

pub data IdentifierError : Type 0 where
  not_valid : Text → Option Text → IdentifierError
  digit_does_not_match : Text → IdentifierError

-- `trim`, `toUpperCase` and `RegExp` are the language's: the last gives no test for a pattern that is no
-- regular expression. `label` is the text that `t.label` shows.
module _ (trim to_upper : Text → Text) (reg_exp : Text → Option (Text → Bool)) where
  unfoldable pub normal_form : IdentifierType → Text → Text
  normal_form t raw = if t.uppercase then to_upper (trim raw) else trim raw

  unfoldable pub check_digits : IdentifierType → Text → Result IdentifierError Text
  unfolding passes
  check_digits t value = elim t.checksum [
    | none ↦ ok value
    | some k ↦ if passes k value then ok value else err (digit_does_not_match t.label)
  ]

  unfoldable pub check_identifier : IdentifierType → Text → Result IdentifierError Text
  unfolding normal_form check_digits
  check_identifier t raw =
      let value = normal_form t raw in
      elim (reg_exp t.pattern) [
        | none ↦ ok value
        | some re ↦ if re value then check_digits t value else err (not_valid t.label t.example)
      ]
