-- ===== src/Common/Lists.antt =====
-- Lists over the native numbers, and the list methods that the source calls: `some`, `every`,
-- `filter`, `find`. Predicates by recursion compute to tuples, which the tactics read.
use Prim.Native.Nat.{ℕ, suc, ◌+◌, ◌≤◌}
use mathlib.Core.Path.{sym, subst, ◌≡◌, refl, ap}
use mathlib.Core.Logic.{◌⊎◌, inl, inr}
use mathlib.Core.Bool.{Bool, true, false, ◌&&◌, ◌||◌}
use mathlib.Core.List.{List, [], ◌∷◌, ◌++◌, map}
use mathlib.Core.Option.{Option, none, some}
use native.Mathlib.Omega.{arith}
use erp_global.Common.Tests.{if◌then◌else◌, Bool-cases}

module _ {ℓ} {A : Type ℓ} where
  abbrev pub length : List A → ℕ
  length [] = 0
  length (x ∷ xs) = suc (length xs)

  pub length-append : (xs ys : List A) → length (xs ++ ys) ≡ length xs + length ys
  length-append [] ys = omega arith
  length-append (x ∷ xs) ys = omega (arith, length-append xs ys)

  -- `xs.some(p)`
  abbrev pub any : (A → Bool) → List A → Bool
  any p [] = false
  any p (x ∷ xs) = p x || any p xs

  -- `xs.every(p)`
  abbrev pub all : (A → Bool) → List A → Bool
  all p [] = true
  all p (x ∷ xs) = p x && all p xs

  -- `xs.filter(p)`
  abbrev pub filter : (A → Bool) → List A → List A
  filter p [] = []
  filter p (x ∷ xs) = let rest = filter p xs in if p x then x ∷ rest else rest

  -- `xs.find(p)`
  abbrev pub find : (A → Bool) → List A → Option A
  find p [] = none
  find p (x ∷ xs) = let rest = find p xs in if p x then some x else rest

module _ {ℓ κ} {A : Type ℓ} where
  -- Every member satisfies `P`.
  abbrev pub All : (A → Type κ) → List A → Type κ
  All P [] = Unit
  All P (x ∷ xs) = P x × All P xs

module _ {A : Type 0} where
  -- `x` stands in the list, with its place kept.
  abbrev pub In : A → List A → Type 0
  In x [] = ⊥
  In x (y ∷ ys) = (x ≡ y) ⊎ In x ys

  pub any-In : (p : A → Bool) (xs : List A) → any p xs ≡ true → (x : A) × In x xs × (p x ≡ true)
  any-In p [] h = cc
  any-In p (x ∷ xs) h = elim (Bool-cases (p x)) [
    | inl e ↦ (x, inl refl, e)
    | inr e ↦ let (y, i, q) = any-In p xs (rw e at h) in (y, inr i, q)
  ]

  pub any_of_In : (p : A → Bool) (x : A) (xs : List A) → In x xs → p x ≡ true → any p xs ≡ true
  any_of_In p x [] i h = elim i [ ]
  any_of_In p x (y ∷ ys) (inl e) h = ground arith
  any_of_In p x (y ∷ ys) (inr i) h = ground (arith, any_of_In p x ys i h)

  pub find-In : (p : A → Bool) (xs : List A) (x : A) → find p xs ≡ some x → In x xs × (p x ≡ true)
  find-In p [] x h = cc
  find-In p (y ∷ ys) x h = elim (Bool-cases (p y)) [
    | inl e ↦ (ground arith, ground arith)
    | inr e ↦ let (i, q) = find-In p ys x (ground arith) in (inr i, q)
  ]

  filter-In_kept :
      (p : A → Bool) (y : A) (ys : List A) (x : A)
      → p y ≡ true
      → (x ≡ y) ⊎ In x (filter p ys)
      → (In x (filter p ys) → In x ys × (p x ≡ true))
      → ((x ≡ y) ⊎ In x ys) × (p x ≡ true)
  filter-In_kept p y ys x e (inl same) rec = (inl same, rw same e)
  filter-In_kept p y ys x e (inr i) rec = let (j, q) = rec i in (inr j, q)

  pub filter-In : (p : A → Bool) (xs : List A) (x : A) → In x (filter p xs) → In x xs × (p x ≡ true)
  filter-In p [] x h = elim h [ ]
  filter-In p (y ∷ ys) x h = elim (Bool-cases (p y)) [
    | inl e ↦ filter-In_kept p y ys x e (rw (e, filter) at h) (filter-In p ys x)
    | inr e ↦ let (i, q) = filter-In p ys x (rw (e, filter) at h) in (inr i, q)
  ]

  pub In-filter : (p : A → Bool) (xs : List A) (x : A) → In x xs → p x ≡ true → In x (filter p xs)
  In-filter p [] x h e = elim h [ ]
  In-filter p (y ∷ ys) x (inl same) e = rw (← same) (rw (e, filter) (inl refl))
  In-filter p (y ∷ ys) x (inr i) e = elim (Bool-cases (p y)) [
    | inl k ↦ rw (k, filter) (inr (In-filter p ys x i e))
    | inr k ↦ rw (k, filter) (In-filter p ys x i e)
  ]

module _ {A B : Type 0} (f : A → B) where
  pub In-map : (xs : List A) (y : B) → In y (map f xs) → (x : A) × In x xs × (y ≡ f x)
  In-map [] y i = elim i [ ]
  In-map (x ∷ xs) y (inl e) = (x, inl refl, e)
  In-map (x ∷ xs) y (inr i) = let (z, j, e) = In-map xs y i in (z, inr j, e)

  pub map-In : (xs : List A) (x : A) → In x xs → In (f x) (map f xs)
  map-In [] x i = elim i [ ]
  map-In (y ∷ xs) x (inl e) = inl (ap f e)
  map-In (y ∷ xs) x (inr i) = inr (map-In xs x i)

module _ {A : Type 0} where
  pub In-append : (xs ys : List A) (x : A) → In x (xs ++ ys) → In x xs ⊎ In x ys
  In-append [] ys x i = inr i
  In-append (y ∷ xs) ys x (inl e) = inl (inl e)
  In-append (y ∷ xs) ys x (inr i) = elim (In-append xs ys x i) [
    | inl j ↦ inl (inr j)
    | inr j ↦ inr j
  ]

  pub append-In_left : (xs ys : List A) (x : A) → In x xs → In x (xs ++ ys)
  append-In_left [] ys x i = elim i [ ]
  append-In_left (y ∷ xs) ys x (inl e) = inl e
  append-In_left (y ∷ xs) ys x (inr i) = inr (append-In_left xs ys x i)

  pub append-In_right : (xs ys : List A) (x : A) → In x ys → In x (xs ++ ys)
  append-In_right [] ys x i = i
  append-In_right (y ∷ xs) ys x i = inr (append-In_right xs ys x i)

pub All-In : {A : Type 0} (P : A → Type 0) (xs : List A) (x : A) → All P xs → In x xs → P x
All-In P [] x h m = elim m [ ]
All-In P (y ∷ ys) x (h, hs) (inl e) = subst P (sym e) h
All-In P (y ∷ ys) x (h, hs) (inr m) = All-In P ys x hs m

pub length-filter_mono :
    {A : Type 0} (p q : A → Bool) (xs : List A)
    → ((x : A) → p x ≡ true → q x ≡ true)
    → length (filter p xs) ≤ length (filter q xs)
length-filter_mono p q [] h = omega arith
length-filter_mono p q (x ∷ xs) h = ground (arith, length-filter_mono p q xs h, h x)

pub length-filter-append :
    {A : Type 0} (p : A → Bool) (xs ys : List A)
    → length (filter p (xs ++ ys)) ≡ length (filter p xs) + length (filter p ys)
length-filter-append p [] ys = omega arith
length-filter-append p (x ∷ xs) ys = ground (arith, length-filter-append p xs ys)

-- A map that does not change what a test reads does not change how many pass.
pub length-filter-map :
    {A : Type 0} (p : A → Bool) (f : A → A) (xs : List A)
    → ((x : A) → p (f x) ≡ p x)
    → length (filter p (map f xs)) ≡ length (filter p xs)
length-filter-map p f [] h = refl
length-filter-map p f (x ∷ xs) h = ground (arith, length-filter-map p f xs h, h x)

pub find_of_In :
    {A : Type 0} (p : A → Bool) (x : A) (xs : List A)
    → In x xs
    → p x ≡ true
    → (y : A) × (find p xs ≡ some y)
find_of_In p x [] i h = elim i [ ]
find_of_In p x (y ∷ ys) (inl e) h = (y, ground arith)
find_of_In p x (y ∷ ys) (inr i) h = elim (Bool-cases (p y)) [
  | inl e ↦ (y, ground arith)
  | inr e ↦ let (z, k) = find_of_In p x ys i h in (z, ground arith)
]

pub any-filter :
    {A : Type 0} (p q : A → Bool) (xs : List A) → any q (filter p xs) ≡ any (λ x. p x && q x) xs
any-filter p q [] = refl
any-filter p q (x ∷ xs) = ground (arith, any-filter p q xs)

filter_here :
    {A : Type 0} (p : A → Bool) (x : A) (xs : List A)
    → p x ≡ true
    → filter p (x ∷ xs) ≡ x ∷ filter p xs
filter_here p x xs e = ground arith

filter_there :
    {A : Type 0} (p : A → Bool) (x : A) (xs : List A)
    → p x ≡ false
    → filter p (x ∷ xs) ≡ filter p xs
filter_there p x xs e = ground arith

pub All-filter :
    {A : Type 0} (P : A → Type 0) (p : A → Bool) (xs : List A) → All P xs → All P (filter p xs)
All-filter P p [] h = tt
All-filter P p (x ∷ xs) (hx, h) = elim (Bool-cases (p x)) [
  | inl e ↦ subst (All P) (sym (filter_here p x xs e)) (hx, All-filter P p xs h)
  | inr e ↦ subst (All P) (sym (filter_there p x xs e)) (All-filter P p xs h)
]

pub any-append :
    {A : Type 0} (p : A → Bool) (xs ys : List A) → any p (xs ++ ys) ≡ (any p xs || any p ys)
any-append p [] ys = refl
any-append p (x ∷ xs) ys = ground (arith, any-append p xs ys)

pub all-In :
    {A : Type 0} (p : A → Bool) (x : A) (xs : List A) → all p xs ≡ true → In x xs → p x ≡ true
all-In p x [] h m = elim m [ ]
all-In p x (y ∷ ys) h (inl e) = ground arith
all-In p x (y ∷ ys) h (inr m) = all-In p x ys (ground arith) m

pub All-append_left : {A : Type 0} (P : A → Type 0) (xs ys : List A) → All P (xs ++ ys) → All P xs
All-append_left P [] ys h = tt
All-append_left P (x ∷ xs) ys (hx, h) = (hx, All-append_left P xs ys h)

pub All-append_right : {A : Type 0} (P : A → Type 0) (xs ys : List A) → All P (xs ++ ys) → All P ys
All-append_right P [] ys h = h
All-append_right P (x ∷ xs) ys (hx, h) = All-append_right P xs ys h

pub All-append :
    {A : Type 0} (P : A → Type 0) (xs ys : List A) → All P xs → All P ys → All P (xs ++ ys)
All-append P [] ys h k = k
All-append P (x ∷ xs) ys (hx, h) k = (hx, All-append P xs ys h k)
