-- ===== src/Contracts/Matching.antt =====
-- `permissionMatches` against an independent description: the segments between dots cover those of
-- the request, one by one.
use erp_global.Common.{
  ℕ, suc, ◌≡◌, refl, ap, sym, ◌∙◌, ◌⊎◌, ◌↔◌, inl, inr, true, false, ◌||◌, List, [], ◌∷◌, All,
  length, Bool-cases, &&_iff, arith,
}
use erp_global.Common.Text.{Text, codes, ◌===◌, includes, split, Text-discrete}
use erp_global.Contracts.{every_seg, permission_matches}
use erp_global.Contracts.Split.{join, join-split, split-lacks}

-- Segment by segment: as many, and each granted one is `*` or the requested one.
pub data Covers : List Text → List Text → Type 0 where
  none_left : Covers [] []
  star : (s : Text) {g r : List Text} → Covers g r → Covers (codes "*" ∷ g) (s ∷ r)
  same : (s : Text) {g r : List Text} → Covers g r → Covers (s ∷ g) (s ∷ r)

Covers-refl : (g : List Text) → Covers g g
Covers-refl [] = none_left
Covers-refl (s ∷ g) = same s (Covers-refl g)

Covers-cons :
    (a b : Text) {g r : List Text} → (a ≡ codes "*") ⊎ (a ≡ b) → Covers g r → Covers (a ∷ g) (b ∷ r)
Covers-cons a b (inl e) c = rw e (star b c)
Covers-cons a b (inr e) c = rw e (same b c)

every_seg_sound : (g r : List Text) → length g ≡ length r → every_seg g r ≡ true → Covers g r
unfolding every_seg
every_seg_sound [] [] l h = none_left
every_seg_sound [] (s ∷ r) l h = absurd (omega arith)
every_seg_sound (a ∷ g) [] l h = absurd (omega arith)
every_seg_sound (a ∷ g) (b ∷ r) l h =
    Covers-cons a b (ground arith)
      (every_seg_sound g r (omega arith) ((&&_iff (a === codes "*" || a === b) _).0 h).1)

every_seg_complete : {g r : List Text} → Covers g r → (length g ≡ length r) × (every_seg g r ≡ true)
unfolding every_seg
every_seg_complete none_left = (refl, refl)
every_seg_complete (star s c) = let (l, h) = every_seg_complete c in (ap suc l, ground arith)
every_seg_complete (same s c) = let (l, h) = every_seg_complete c in (ap suc l, ground arith)

star_has_star : includes (codes "*") b'*' ≡ false → ⊥
unfolding includes
star_has_star e = cc

-- Without a star, covering is equality.
Covers-no_star : {g r : List Text} → All (λ p. includes p b'*' ≡ false) g → Covers g r → g ≡ r
Covers-no_star n none_left = refl
Covers-no_star n (star s c) = absurd (star_has_star n.0)
Covers-no_star n (same s c) = ap (λ l. s ∷ l) (Covers-no_star n.1 c)

split-injective : (sep : ℕ) (a b : Text) → split sep a ≡ split sep b → a ≡ b
split-injective sep a b e = sym (join-split sep a) ∙ ap (join sep) e ∙ join-split sep b

sound : (g r : Text) → permission_matches g r ≡ true → Covers (split b'.' g) (split b'.' r)
unfolding permission_matches
sound g r h = elim (Text-discrete g r) [
  | yes e ↦ rw e (Covers-refl (split b'.' r))
  | no ne ↦ every_seg_sound (split b'.' g) (split b'.' r) (ground arith) (ground arith)
]

complete : (g r : Text) → Covers (split b'.' g) (split b'.' r) → permission_matches g r ≡ true
unfolding permission_matches
complete g r c =
    let (l, e) = every_seg_complete c in
    elim (Bool-cases (includes g b'*')) [
      | inl star_in ↦ ground arith
      | inr plain ↦
          let eq : g ≡ r =
            split-injective b'.' g r (Covers-no_star (split-lacks b'.' b'*' g plain) c) in
          ground arith
    ]

-- A grant covers a request exactly when its segments cover the request's segments.
pub permission_matches_iff :
    (granted requested : Text)
    → (permission_matches granted requested ≡ true)
      ↔ Covers (split b'.' granted) (split b'.' requested)
permission_matches_iff g r = (sound g r, complete g r)

Covers-trans : {a b c : List Text} → Covers a b → Covers b c → Covers a c
Covers-trans none_left none_left = none_left
Covers-trans (star s c) (star t d) = star t (Covers-trans c d)
Covers-trans (star s c) (same t d) = star t (Covers-trans c d)
Covers-trans (same s c) (star t d) = star t (Covers-trans c d)
Covers-trans (same s c) (same t d) = same t (Covers-trans c d)

-- Covering composes: what covers a grant covers all that the grant covers.
pub permission_matches_trans :
    (a b c : Text)
    → permission_matches a b ≡ true
    → permission_matches b c ≡ true
    → permission_matches a c ≡ true
permission_matches_trans a b c h k = complete a c (Covers-trans (sound a b h) (sound b c k))
