-- ===== src/Config/Maps.antt =====
-- A `Map` of the language by its values in the order of insertion: an entry keeps its place when it is
-- replaced. What is found under a key is the last item that has it.
use erp_global.Common.{
  false, ◌≡◌, refl, sym, ap, subst, ◌∙◌, inl, inr, Option, none, some, List, [], ◌∷◌, ◌++◌,
  if◌then◌else◌, Bool-cases,
}
use erp_global.Common.Text.{Text, ◌===◌, ===_iff}

-- A later answer where there is one, else the earlier one.
abbrev pub or_earlier : {A : Type 0} → Option A → Option A → Option A
or_earlier none o = o
or_earlier (some a) o = some a

pub or_earlier_assoc :
    {A : Type 0} (a b c : Option A) → or_earlier a (or_earlier b c) ≡ or_earlier (or_earlier a b) c
or_earlier_assoc none b c = refl
or_earlier_assoc (some a) b c = refl

pub or_earlier-none : {A : Type 0} (a : Option A) → or_earlier a none ≡ a
or_earlier-none none = refl
or_earlier-none (some a) = refl

module _ {A : Type 0} (key : A → Text) where
  -- `map.set(key(x), x)`
  unfoldable pub put : A → List A → List A
  put x [] = x ∷ []
  put x (y ∷ ys) = let rest = put x ys in if key y === key x then x ∷ ys else y ∷ rest

  -- `for (const x of xs) map.set(key(x), x)`
  unfoldable pub put_all : List A → List A → List A
  unfolding put
  put_all m [] = m
  put_all m (x ∷ xs) = put_all (put x m) xs

  -- `map.get(k)`, and the last item of a list with the key.
  unfoldable pub last_at : Text → List A → Option A
  last_at k [] = none
  last_at k (x ∷ xs) = or_earlier (last_at k xs) (if key x === k then some x else none)

  pub last_at-append :
      (k : Text) (xs ys : List A) → last_at k (xs ++ ys) ≡ or_earlier (last_at k ys) (last_at k xs)
  unfolding last_at
  last_at-append k [] ys = sym (or_earlier-none _)
  last_at-append k (x ∷ xs) ys =
      ap (λ o. or_earlier o (if key x === k then some x else none)) (last_at-append k xs ys)
      ∙ sym (or_earlier_assoc (last_at k ys) (last_at k xs) _)

  -- No two items have one key.
  unfoldable pub Differ : List A → Type 0
  unfolding last_at
  Differ [] = Unit
  Differ (x ∷ xs) = (last_at (key x) xs ≡ none) × Differ xs

  put_same : (x : A) (m : List A) → Differ m → last_at (key x) (put x m) ≡ some x
  unfolding put last_at Differ
  put_same x [] d = let e = (===_iff (key x) (key x)).1 refl in rw e refl
  put_same x (y ∷ ys) (fresh, d) =
      let e = (===_iff (key x) (key x)).1 refl in
      elim (Bool-cases (key y === key x)) [
        | inl h ↦
            let same = (===_iff (key y) (key x)).0 h in
            let fresh' : last_at (key x) ys ≡ none = rw same at fresh in
            rw h (rw e (rw fresh' refl))
        | inr h ↦ rw h (let ih = put_same x ys d in rw ih refl)
      ]

  put_apart :
      (x : A) (m : List A) (k : Text) → (key x === k) ≡ false → last_at k (put x m) ≡ last_at k m
  unfolding put last_at
  put_apart x [] k e = rw e refl
  put_apart x (y ∷ ys) k e = elim (Bool-cases (key y === key x)) [
    | inl h ↦ let same = (===_iff (key y) (key x)).0 h in rw h (rw same (rw e refl))
    | inr h ↦ rw h (let ih = put_apart x ys k e in rw ih refl)
  ]

  -- What a map has after a write: the written item at its key.
  pub last_at-put :
      (x : A) (m : List A) (k : Text)
      → Differ m
      → last_at k (put x m) ≡ or_earlier (if key x === k then some x else none) (last_at k m)
  last_at-put x m k d = elim (Bool-cases (key x === k)) [
    | inl h ↦
        rw h (subst (λ j. last_at j (put x m) ≡ some x) ((===_iff (key x) k).0 h) (put_same x m d))
    | inr h ↦ rw h (put_apart x m k h)
  ]

  pub put-Differ : (x : A) (m : List A) → Differ m → Differ (put x m)
  unfolding put Differ last_at
  put-Differ x [] d = (refl, tt)
  put-Differ x (y ∷ ys) (fresh, d) = elim (Bool-cases (key y === key x)) [
    | inl h ↦ rw h (let same = (===_iff (key y) (key x)).0 h in (rw same at fresh, d))
    | inr h ↦ rw h (put_apart x ys (key y) (turned x y h) ∙ fresh, put-Differ x ys d)
  ]
    where
      turned : (x y : A) → (key y === key x) ≡ false → (key x === key y) ≡ false
      turned x y h = elim (Bool-cases (key x === key y)) [
        | inl e ↦ let f = (===_iff (key y) (key x)).1 (sym ((===_iff (key x) (key y)).0 e)) in cc
        | inr e ↦ e
      ]

  pub put_all-Differ : (xs m : List A) → Differ m → Differ (put_all m xs)
  unfolding put_all
  put_all-Differ [] m d = d
  put_all-Differ (x ∷ xs) m d = put_all-Differ xs (put x m) (put-Differ x m d)

  pub last_at-put_all :
      (xs m : List A) (k : Text)
      → Differ m
      → last_at k (put_all m xs) ≡ or_earlier (last_at k xs) (last_at k m)
  unfolding put_all last_at
  last_at-put_all [] m k d = refl
  last_at-put_all (x ∷ xs) m k d =
      last_at-put_all xs (put x m) k (put-Differ x m d)
      ∙ ap (or_earlier (last_at k xs)) (last_at-put x m k d)
      ∙ or_earlier_assoc (last_at k xs) _ (last_at k m)
