-- ===== src/Identifiers/Verhoeff.antt =====
-- identifiers.ts: what the algorithm of Verhoeff detects.
use erp_global.Common.{
  ℕ, suc, ◌+◌, ◌%◌, ◌<◌, ◌≡◌, ◌≢◌, refl, Bool, true, false, ◌||◌, not, List, [], ◌∷◌, ◌++◌, length,
  length-append, all, ltb, ◌==◌, &&_iff, Bool-cases, inl, inr, ap, sym, ◌∙◌, arith,
}
use erp_global.Common.Text.{Text}
use erp_global.Identifiers.Checks.{is_digit, all_digits, digit, d_at, p_at, verhoeff_fold, verhoeff}
use erp_global.Identifiers.Finite.{for_digits, for_pairs_at, for_triples_at}

d_closed : for_digits (λ a. for_digits (λ b. ltb (d_at a b) 10)) ≡ true
unfolding for_digits d_at
d_closed = refl

d_cancels_left :
    for_digits (λ a. for_digits (λ b. for_digits (λ c. not (d_at a b == d_at a c) || b == c)))
    ≡ true
unfolding for_digits d_at
d_cancels_left = refl

d_cancels_right :
    for_digits (λ a. for_digits (λ b. for_digits (λ c. not (d_at a c == d_at b c) || a == b)))
    ≡ true
unfolding for_digits d_at
d_cancels_right = refl

d_associates :
    for_digits (λ a. for_digits (λ b. for_digits (λ c. d_at (d_at a b) c == d_at a (d_at b c))))
    ≡ true
unfolding for_digits d_at
d_associates = refl

p_cancels :
    for_digits
      (λ i. for_digits (λ b. for_digits (λ c. not (p_at (i % 8) b == p_at (i % 8) c) || b == c)))
    ≡ true
unfolding for_digits p_at
p_cancels = refl

p_closed : for_digits (λ i. for_digits (λ b. ltb (p_at (i % 8) b) 10)) ≡ true
unfolding for_digits p_at
p_closed = refl

-- Two neighbours that change places change the product.
swap_changes :
    for_digits (λ i. for_digits (λ b. for_digits (λ c.
      not (
        d_at (p_at (i % 8) c) (p_at ((i + 1) % 8) b)
        == d_at (p_at (i % 8) b) (p_at ((i + 1) % 8) c))
      || b == c)))
    ≡ true
unfolding for_digits d_at p_at
swap_changes = refl

d_lt : (a b : ℕ) → a < 10 → b < 10 → d_at a b < 10
d_lt a b l k = ground (arith, for_pairs_at (λ a b. ltb (d_at a b) 10) a b d_closed l k)

d_left : (a b c : ℕ) → a < 10 → b < 10 → c < 10 → d_at a b ≡ d_at a c → b ≡ c
d_left a b c l k j e = ground (
  arith,
  e,
  for_triples_at (λ a b c. not (d_at a b == d_at a c) || b == c) a b c d_cancels_left l k j,
)

d_right : (a b c : ℕ) → a < 10 → b < 10 → c < 10 → d_at a c ≡ d_at b c → a ≡ b
d_right a b c l k j e = ground (
  arith,
  e,
  for_triples_at (λ a b c. not (d_at a c == d_at b c) || a == b) a b c d_cancels_right l k j,
)

d_assoc : (a b c : ℕ) → a < 10 → b < 10 → c < 10 → d_at (d_at a b) c ≡ d_at a (d_at b c)
d_assoc a b c l k j = ground (
  arith,
  for_triples_at (λ a b c. d_at (d_at a b) c == d_at a (d_at b c)) a b c d_associates l k j,
)

p_lt : (i b : ℕ) → b < 10 → p_at (i % 8) b < 10
p_lt i b k =
    let e : i % 8 % 8 ≡ i % 8 = omega arith in
    let h = for_pairs_at (λ i b. ltb (p_at (i % 8) b) 10) (i % 8) b p_closed (omega arith) k in
    ground (arith, h, e)

p_left : (i b c : ℕ) → b < 10 → c < 10 → p_at (i % 8) b ≡ p_at (i % 8) c → b ≡ c
p_left i b c k j e =
    let m : i % 8 % 8 ≡ i % 8 = omega arith in
    let h =
      for_triples_at (λ i b c. not (p_at (i % 8) b == p_at (i % 8) c) || b == c) (i % 8) b c
        p_cancels (omega arith) k j in
    ground (arith, h, m, e)

swapped :
    (i b c : ℕ)
    → b < 10
    → c < 10
    → d_at (p_at (i % 8) c) (p_at (suc i % 8) b) ≡ d_at (p_at (i % 8) b) (p_at (suc i % 8) c)
    → b ≡ c
swapped i b c k j e =
    let m : i % 8 % 8 ≡ i % 8 = omega arith in
    let n : (i % 8 + 1) % 8 ≡ suc i % 8 = omega arith in
    let h =
      for_triples_at
        (λ i b c.
          not (
            d_at (p_at (i % 8) c) (p_at ((i + 1) % 8) b)
            == d_at (p_at (i % 8) b) (p_at ((i + 1) % 8) c))
          || b == c)
        (i % 8) b c swap_changes (omega arith) k j in
    ground (arith, h, m, n, e)

-- The digits of a text that the algorithm accepts.
pub digit_lt : (c : ℕ) → is_digit c ≡ true → digit c < 10
unfolding is_digit
digit_lt c h = ground arith

pub digit_same : (a b : ℕ) → is_digit a ≡ true → is_digit b ≡ true → digit a ≡ digit b → a ≡ b
unfolding is_digit
digit_same a b h k e = ground arith

fold_lt : (s : Text) → all is_digit s ≡ true → verhoeff_fold s < 10
unfolding verhoeff_fold
fold_lt [] h = omega arith
fold_lt (c ∷ s) h =
    let (a, b) = (&&_iff _ _).0 h in
    d_lt (verhoeff_fold s) (p_at (length s % 8) (digit c)) (fold_lt s b)
      (p_lt (length s) (digit c) (digit_lt c a))

pub all-append_parts :
    (p : ℕ → Bool) (xs ys : List ℕ)
    → all p (xs ++ ys) ≡ true
    → (all p xs ≡ true) × (all p ys ≡ true)
all-append_parts p [] ys h = (refl, h)
all-append_parts p (x ∷ xs) ys h = ground (arith, all-append_parts p xs ys)

-- What stands in front does not hide a difference.
fold_cancels :
    (p s t : Text)
    → length s ≡ length t
    → all is_digit (p ++ s) ≡ true
    → all is_digit (p ++ t) ≡ true
    → verhoeff_fold (p ++ s) ≡ verhoeff_fold (p ++ t)
    → verhoeff_fold s ≡ verhoeff_fold t
unfolding verhoeff_fold
fold_cancels [] s t l h k e = e
fold_cancels (c ∷ p) s t l h k e =
    let (a, hs) = (&&_iff (is_digit c) (all is_digit (p ++ s))).0 h in
    let ks = ((&&_iff (is_digit c) (all is_digit (p ++ t))).0 k).1 in
    let same : length (p ++ t) ≡ length (p ++ s) =
      omega (arith, length-append p s, length-append p t, l) in
    let e' : d_at (verhoeff_fold (p ++ s)) (p_at (length (p ++ s) % 8) (digit c))
        ≡ d_at (verhoeff_fold (p ++ t)) (p_at (length (p ++ s) % 8) (digit c)) =
      e ∙ ap (λ (n : ℕ). d_at (verhoeff_fold (p ++ t)) (p_at (n % 8) (digit c))) same in
    fold_cancels p s t l hs ks (
      d_right (verhoeff_fold (p ++ s)) (verhoeff_fold (p ++ t))
        (p_at (length (p ++ s) % 8) (digit c)) (fold_lt (p ++ s) hs) (fold_lt (p ++ t) ks)
        (p_lt (length (p ++ s)) (digit c) (digit_lt c a)) e')

accepted : (s : Text) → verhoeff s ≡ true → (all is_digit s ≡ true) × (verhoeff_fold s ≡ 0)
unfolding verhoeff all_digits
accepted s h = ground arith

-- Two numbers that differ in one digit are not both accepted.
pub verhoeff_single :
    (p q : Text) (a b : ℕ) → verhoeff (p ++ (a ∷ q)) ≡ true → verhoeff (p ++ (b ∷ q)) ≡ true → a ≡ b
unfolding verhoeff_fold
verhoeff_single p q a b h k =
    let (da, za) = accepted _ h in
    let (db, zb) = accepted _ k in
    let (ia, iq) = (&&_iff _ _).0 (all-append_parts is_digit p (a ∷ q) da).1 in
    let (ib, jq) = (&&_iff _ _).0 (all-append_parts is_digit p (b ∷ q) db).1 in
    let e = fold_cancels p (a ∷ q) (b ∷ q) refl da db (za ∙ sym zb) in
    digit_same a b ia ib (
      p_left (length q) (digit a) (digit b) (digit_lt a ia) (digit_lt b ib) (
        d_left (verhoeff_fold q) _ _ (fold_lt q iq) (p_lt (length q) (digit a) (digit_lt a ia))
          (p_lt (length q) (digit b) (digit_lt b ib)) e))

swap_same :
    (p q : Text) (a b : ℕ)
    → verhoeff (p ++ (a ∷ b ∷ q)) ≡ true
    → verhoeff (p ++ (b ∷ a ∷ q)) ≡ true
    → a ≡ b
unfolding verhoeff_fold
swap_same p q a b h k =
    let (da, za) = accepted _ h in
    let (db, zb) = accepted _ k in
    let (ia, rest) = (&&_iff _ _).0 (all-append_parts is_digit p (a ∷ b ∷ q) da).1 in
    let (ib, iq) = (&&_iff _ _).0 rest in
    let i = length q in
    let f = fold_lt q iq in
    let pa = λ (n : ℕ). p_lt n (digit a) (digit_lt a ia) in
    let pb = λ (n : ℕ). p_lt n (digit b) (digit_lt b ib) in
    let e = fold_cancels p (a ∷ b ∷ q) (b ∷ a ∷ q) refl da db (za ∙ sym zb) in
    digit_same a b ia ib (
      swapped i (digit a) (digit b) (digit_lt a ia) (digit_lt b ib) (
        d_left (verhoeff_fold q) _ _ f (d_lt _ _ (pb i) (pa (suc i))) (d_lt _ _ (pa i) (pb (suc i)))
          (sym (d_assoc (verhoeff_fold q) _ _ f (pb i) (pa (suc i)))
            ∙ e
            ∙ d_assoc (verhoeff_fold q) _ _ f (pa i) (pb (suc i)))))

-- A number that is accepted is refused when two neighbouring digits that differ change places.
pub verhoeff_swap :
    (p q : Text) (a b : ℕ)
    → verhoeff (p ++ (a ∷ b ∷ q)) ≡ true
    → a ≢ b
    → verhoeff (p ++ (b ∷ a ∷ q)) ≡ false
verhoeff_swap p q a b h other = elim (Bool-cases (verhoeff (p ++ (b ∷ a ∷ q)))) [
  | inl k ↦ absurd (other (swap_same p q a b h k))
  | inr k ↦ k
]
