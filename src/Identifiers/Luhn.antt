-- ===== src/Identifiers/Luhn.antt =====
-- identifiers.ts: what the algorithm of Luhn detects.
use erp_global.Common.{
  ℕ, ◌+◌, ◌%◌, ◌≡◌, ◌≢◌, refl, ◌⊎◌, inl, inr, Bool-cases, Bool, true, false, ◌&&◌, ◌||◌, not, [],
  ◌∷◌, ◌++◌, all, ◌==◌, &&_iff, if◌then◌else◌, arith,
}
use erp_global.Common.Text.{Text}
use erp_global.Identifiers.Checks.{is_digit, all_digits, digit, doubled, luhn_sum, luhn}
use erp_global.Identifiers.Finite.{for_digits, for_pairs_at}
use erp_global.Identifiers.Verhoeff.{all-append_parts, digit_lt, digit_same}

abbrev weighed : Bool → ℕ → ℕ
weighed d x = if d then doubled x else x

single_changes :
    (d : Bool)
    → for_digits (λ a. for_digits (λ b. not (weighed d a % 10 == weighed d b % 10) || a == b))
      ≡ true
unfolding for_digits doubled
single_changes true = refl
single_changes false = refl

swap_changes :
    (d : Bool)
    → for_digits (λ a. for_digits (λ b.
      not ((weighed d b + weighed (not d) a) % 10 == (weighed d a + weighed (not d) b) % 10)
      || a == b
      || (a == 0 && b == 9)
      || (a == 9 && b == 0)))
      ≡ true
unfolding for_digits doubled
swap_changes true = refl
swap_changes false = refl

-- Two ends that leave the same flag keep the difference of their sums behind any front.
luhn_sum-append :
    (p s t : Text)
    → (luhn_sum s).1 ≡ (luhn_sum t).1
    → ((luhn_sum (p ++ s)).1 ≡ (luhn_sum (p ++ t)).1)
      × ((luhn_sum (p ++ s)).0 + (luhn_sum t).0 ≡ (luhn_sum (p ++ t)).0 + (luhn_sum s).0)
unfolding luhn_sum
luhn_sum-append [] s t e = (e, omega arith)
luhn_sum-append (c ∷ p) s t e = ground (arith, luhn_sum-append p s t e)

accepted : (s : Text) → luhn s ≡ true → (all is_digit s ≡ true) × ((luhn_sum s).0 % 10 ≡ 0)
unfolding luhn all_digits
accepted s h = ground arith

-- Ends of two numbers that both are accepted have sums that agree modulo 10.
ends_agree :
    (p s t : Text)
    → (luhn_sum s).1 ≡ (luhn_sum t).1
    → luhn (p ++ s) ≡ true
    → luhn (p ++ t) ≡ true
    → (luhn_sum s).0 % 10 ≡ (luhn_sum t).0 % 10
ends_agree p s t e h k =
    omega (arith, (luhn_sum-append p s t e).1, (accepted (p ++ s) h).1, (accepted (p ++ t) k).1)

by_digits :
    (a b : ℕ)
    → is_digit a ≡ true
    → is_digit b ≡ true
    → (digit a ≡ digit b) ⊎ ((digit a ≡ 0) × (digit b ≡ 9)) ⊎ ((digit a ≡ 9) × (digit b ≡ 0))
    → (a ≡ b) ⊎ ((a ≡ b'0') × (b ≡ b'9')) ⊎ ((a ≡ b'9') × (b ≡ b'0'))
unfolding is_digit
by_digits a b h k e = ground arith

-- Two numbers that differ in one digit are not both accepted.
pub luhn_single :
    (p q : Text) (a b : ℕ) → luhn (p ++ (a ∷ q)) ≡ true → luhn (p ++ (b ∷ q)) ≡ true → a ≡ b
unfolding luhn_sum
luhn_single p q a b h k =
    let (ia, iq) =
      (&&_iff (is_digit a) (all is_digit q)).0
        (all-append_parts is_digit p (a ∷ q) (accepted _ h).0).1 in
    let (ib, jq) =
      (&&_iff (is_digit b) (all is_digit q)).0
        (all-append_parts is_digit p (b ∷ q) (accepted _ k).0).1 in
    let d = (luhn_sum q).1 in
    let e : ((luhn_sum q).0 + weighed d (digit a)) % 10
        ≡ ((luhn_sum q).0 + weighed d (digit b)) % 10 =
      ends_agree p (a ∷ q) (b ∷ q) refl h k in
    let f : weighed d (digit a) % 10 ≡ weighed d (digit b) % 10 = omega (arith, e) in
    let c =
      for_pairs_at (λ a b. not (weighed d a % 10 == weighed d b % 10) || a == b) (digit a) (digit b)
        (single_changes d) (digit_lt a ia) (digit_lt b ib) in
    digit_same a b ia ib (ground (arith, c, f))

swap_same :
    (p q : Text) (a b : ℕ)
    → luhn (p ++ (a ∷ b ∷ q)) ≡ true
    → luhn (p ++ (b ∷ a ∷ q)) ≡ true
    → (a ≡ b) ⊎ ((a ≡ b'0') × (b ≡ b'9')) ⊎ ((a ≡ b'9') × (b ≡ b'0'))
unfolding luhn_sum
swap_same p q a b h k =
    let (ia, rest) =
      (&&_iff (is_digit a) (is_digit b && all is_digit q)).0
        (all-append_parts is_digit p (a ∷ b ∷ q) (accepted _ h).0).1 in
    let (ib, iq) = (&&_iff (is_digit b) (all is_digit q)).0 rest in
    let d = (luhn_sum q).1 in
    let e : ((luhn_sum q).0 + weighed d (digit b) + weighed (not d) (digit a)) % 10
        ≡ ((luhn_sum q).0 + weighed d (digit a) + weighed (not d) (digit b)) % 10 =
      ends_agree p (a ∷ b ∷ q) (b ∷ a ∷ q) refl h k in
    let f : (weighed d (digit b) + weighed (not d) (digit a)) % 10
        ≡ (weighed d (digit a) + weighed (not d) (digit b)) % 10 =
      omega (arith, e) in
    let c =
      for_pairs_at
        (λ a b.
          not ((weighed d b + weighed (not d) a) % 10 == (weighed d a + weighed (not d) b) % 10)
          || a == b
          || (a == 0 && b == 9)
          || (a == 9 && b == 0))
        (digit a) (digit b) (swap_changes d) (digit_lt a ia) (digit_lt b ib) in
    by_digits a b ia ib (ground (arith, c, f))

-- A number that is accepted is refused when two neighbouring digits that differ change places, unless
-- they are 0 and 9.
pub luhn_swap :
    (p q : Text) (a b : ℕ)
    → luhn (p ++ (a ∷ b ∷ q)) ≡ true
    → a ≢ b
    → (((a ≡ b'0') × (b ≡ b'9')) ⊎ ((a ≡ b'9') × (b ≡ b'0')) → ⊥)
    → luhn (p ++ (b ∷ a ∷ q)) ≡ false
luhn_swap p q a b h other ends = elim (Bool-cases (luhn (p ++ (b ∷ a ∷ q)))) [
  | inl k ↦ elim (swap_same p q a b h k) [
    | inl same ↦ absurd (other same)
    | inr pair ↦ absurd (ends pair)
  ]
  | inr k ↦ k
]
