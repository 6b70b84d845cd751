-- ===== src/Identifiers/Finite.antt =====
-- Facts about all digits, by trying each.
use erp_global.Common.{ℕ, ◌<◌, ◌≡◌, Bool, true, List, [], ◌∷◌, all, all-In, In, arith}

abbrev ten : List ℕ
ten = 0 ∷ 1 ∷ 2 ∷ 3 ∷ 4 ∷ 5 ∷ 6 ∷ 7 ∷ 8 ∷ 9 ∷ []

In-ten : (n : ℕ) → n < 10 → In n ten
In-ten n h = omega (arith, h)

-- `f` holds of every digit, pair and triple of digits.
unfoldable pub for_digits : (ℕ → Bool) → Bool
for_digits f = all f ten

pub for_digits_at : (f : ℕ → Bool) (n : ℕ) → for_digits f ≡ true → n < 10 → f n ≡ true
unfolding for_digits
for_digits_at f n h l = all-In f n ten h (In-ten n l)

pub for_pairs_at :
    (f : ℕ → ℕ → Bool) (n m : ℕ)
    → for_digits (λ a. for_digits (f a)) ≡ true
    → n < 10
    → m < 10
    → f n m ≡ true
for_pairs_at f n m h l k = for_digits_at (f n) m (for_digits_at (λ a. for_digits (f a)) n h l) k

pub for_triples_at :
    (f : ℕ → ℕ → ℕ → Bool) (n m p : ℕ)
    → for_digits (λ a. for_digits (λ b. for_digits (f a b))) ≡ true
    → n < 10
    → m < 10
    → p < 10
    → f n m p ≡ true
for_triples_at f n m p h l k j =
    for_pairs_at (f n) m p (for_digits_at (λ a. for_digits (λ b. for_digits (f a b))) n h l) k j
