-- ===== src/Org/Paths.antt =====
-- Materialized paths: `/a/b/` is its parent's path, an id with no slash and a slash. A prefix that ends
-- with a slash is a path above.
use erp_global.Common.{
  ℕ, ◌+◌, ◌≡◌, refl, ap, ap₂, sym, ◌∙◌, ◌≢◌, ◌⊎◌, inl, inr, true, [], ◌∷◌, ◌++◌, append_assoc,
  append-nil, length, length-append, arith,
}
use erp_global.Common.Text.{Text, starts_with, starts_with_sound, starts_with-append, drop-append}
use erp_global.Org.Units.{child_path, shift_path}

-- No slash in the text.
abbrev pub NoSlash : Text → Type 0
NoSlash [] = Unit
NoSlash (c ∷ s) = (c ≢ b'/') × NoSlash s

abbrev pub EndsSlash : Text → Type 0
EndsSlash s = (r : Text) × (s ≡ r ++ (b'/' ∷ []))

pub child_path-EndsSlash : (p id : Text) → EndsSlash (child_path p id)
unfolding child_path
child_path-EndsSlash p id = (p ++ id, sym (append_assoc p id (b'/' ∷ [])))

cons_inj : {a b : ℕ} {s t : Text} → a ∷ s ≡ b ∷ t → (a ≡ b) × (s ≡ t)
cons_inj e = (cc, cc)

NoSlash-before : (z a b : Text) → NoSlash a → a ≡ z ++ (b'/' ∷ b) → ⊥
NoSlash-before [] [] b n e = cc
NoSlash-before (d ∷ z) [] b n e = cc
NoSlash-before [] (c ∷ a) b n e = n.0 (cons_inj e).0
NoSlash-before (d ∷ z) (c ∷ a) b n e = NoSlash-before z a b n.1 (cons_inj e).1

-- What stands behind the last slash but one is determined by the path.
last_segment : (y z a b : Text) → NoSlash a → NoSlash b → y ++ (b'/' ∷ a) ≡ z ++ (b'/' ∷ b) → a ≡ b
last_segment [] [] a b n m e = (cons_inj e).1
last_segment [] (c ∷ z) a b n m e = absurd (NoSlash-before z a b n (cons_inj e).1)
last_segment (c ∷ y) [] a b n m e = absurd (NoSlash-before y b a m (sym (cons_inj e).1))
last_segment (c ∷ y) (d ∷ z) a b n m e = last_segment y z a b n m (cons_inj e).1

append_inj_slash : (a b : Text) → a ++ (b'/' ∷ []) ≡ b ++ (b'/' ∷ []) → a ≡ b
append_inj_slash [] [] e = refl
append_inj_slash [] (c ∷ []) e = cc
append_inj_slash [] (c ∷ d ∷ b) e = cc
append_inj_slash (c ∷ []) [] e = cc
append_inj_slash (c ∷ d ∷ a) [] e = cc
append_inj_slash (c ∷ a) (d ∷ b) e =
    ap₂ (λ (x : ℕ) (s : Text). x ∷ s) (cons_inj e).0 (append_inj_slash a b (cons_inj e).1)

-- Two paths that are equal end in the same id.
pub child_path-id :
    (p q a b : Text)
    → EndsSlash p
    → EndsSlash q
    → NoSlash a
    → NoSlash b
    → child_path p a ≡ child_path q b
    → a ≡ b
unfolding child_path
child_path-id p q a b (y, ep) (z, eq) n m e = last_segment y z a b n m (
    sym (append_assoc y (b'/' ∷ []) a)
    ∙ append_inj_slash _ _ (
        append_assoc (y ++ (b'/' ∷ [])) a (b'/' ∷ [])
        ∙ ap (λ s. s ++ (a ++ (b'/' ∷ []))) (sym ep)
        ∙ e
        ∙ ap (λ s. s ++ (b ++ (b'/' ∷ []))) eq
        ∙ sym (append_assoc (z ++ (b'/' ∷ [])) b (b'/' ∷ [])))
    ∙ append_assoc z (b'/' ∷ []) b)

-- A prefix that ends with a slash ends before the last id, or is the whole path.
prefix_of_id :
    (id r : Text) → NoSlash id → starts_with (id ++ (b'/' ∷ [])) (r ++ (b'/' ∷ [])) ≡ true → r ≡ id
unfolding starts_with
prefix_of_id [] [] n h = refl
prefix_of_id [] (c ∷ []) n h = ground arith
prefix_of_id [] (c ∷ d ∷ r) n h = ground arith
prefix_of_id (c ∷ id) [] n h = absurd (n.0 (ground arith))
prefix_of_id (c ∷ id) (d ∷ r) n h =
    ap₂ (λ (x : ℕ) (s : Text). x ∷ s) (ground arith) (prefix_of_id id r n.1 (ground arith))

pub starts_with-child_path :
    (p id r : Text)
    → NoSlash id
    → starts_with (child_path p id) (r ++ (b'/' ∷ [])) ≡ true
    → (starts_with p (r ++ (b'/' ∷ [])) ≡ true) ⊎ (child_path p id ≡ r ++ (b'/' ∷ []))
unfolding child_path starts_with
starts_with-child_path [] id r n h = inr (ap (λ s. s ++ (b'/' ∷ [])) (sym (prefix_of_id id r n h)))
starts_with-child_path (c ∷ p) id [] n h = inl (ground arith)
starts_with-child_path (c ∷ p) id (d ∷ r) n h =
    cases (starts_with-child_path p id r n (ground arith))
  where
    cases :
        (starts_with p (r ++ (b'/' ∷ [])) ≡ true) ⊎ (child_path p id ≡ r ++ (b'/' ∷ []))
        → (starts_with (c ∷ p) (d ∷ (r ++ (b'/' ∷ []))) ≡ true)
          ⊎ (c ∷ child_path p id ≡ d ∷ (r ++ (b'/' ∷ [])))
    cases (inl k) = inl (ground arith)
    cases (inr k) = inr (ground arith)

-- A path that goes on from `old` goes on in the same way from `new`.
pub shift_path-append : (old new r : Text) → shift_path old new (old ++ r) ≡ new ++ r
unfolding shift_path
shift_path-append old new r = ap (λ s. new ++ s) (drop-append old r)

length-child_path : (p id : Text) → length (child_path p id) ≡ length p + length id + 1
unfolding child_path
length-child_path p id =
    length-append p (id ++ (b'/' ∷ [])) ∙ omega (arith, length-append id (b'/' ∷ []))

-- No unit stands at or above the slash that every path begins with.
pub root-below-none :
    (p id : Text) → EndsSlash p → starts_with (b'/' ∷ []) (child_path p id) ≡ true → ⊥
root-below-none p id (r, e) h =
    let (rest, split) = starts_with_sound (b'/' ∷ []) (child_path p id) h in
    omega (
      arith,
      ap length split,
      length-append (child_path p id) rest,
      length-child_path p id,
      ap length e,
      length-append r (b'/' ∷ []),
    )

-- A child of a shifted path shifts with it.
pub shift_path-child_path :
    (old new p id : Text)
    → starts_with p old ≡ true
    → shift_path old new (child_path p id) ≡ child_path (shift_path old new p) id
unfolding child_path
shift_path-child_path old new p id h =
    let (r, e) = starts_with_sound p old h in
    let here : shift_path old new p ≡ new ++ r =
      ap (shift_path old new) e ∙ shift_path-append old new r in
    ap (λ s. shift_path old new (s ++ (id ++ (b'/' ∷ [])))) e
    ∙ ap (shift_path old new) (append_assoc old r (id ++ (b'/' ∷ [])))
    ∙ shift_path-append old new (r ++ (id ++ (b'/' ∷ [])))
    ∙ sym (append_assoc new r (id ++ (b'/' ∷ [])))
    ∙ ap (λ s. s ++ (id ++ (b'/' ∷ []))) (sym here)

pub starts_with-child_path_self : (p id : Text) → starts_with (child_path p id) p ≡ true
unfolding child_path
starts_with-child_path_self p id = starts_with-append p (id ++ (b'/' ∷ []))

pub shift_path_self : (old new : Text) → shift_path old new old ≡ new
shift_path_self old new =
    ap (shift_path old new) (sym (append-nil old)) ∙ shift_path-append old new [] ∙ append-nil new
