-- ===== src/Contracts/Split.antt =====
-- Splitting at a separator loses nothing, and a code unit that the text lacks is in no piece.
use erp_global.Common.{
  ℕ, ◌≡◌, refl, ap, ap₂, sym, ◌∙◌, ◌≢◌, false, List, [], ◌∷◌, ◌++◌, All, Bool-cases, inl, inr, ◌==◌,
  ==_iff, ||_false,
}
use erp_global.Common.Text.{Text, includes, split, cons_head}

-- `pieces.join(sep)`
abbrev pub join : ℕ → List Text → Text
join sep [] = []
join sep (p ∷ []) = p
join sep (p ∷ q ∷ ps) = p ++ (sep ∷ join sep (q ∷ ps))

cons_head-ne-nil : (c : ℕ) (ps : List Text) → cons_head c ps ≢ []
unfolding cons_head
cons_head-ne-nil c [] = cc
cons_head-ne-nil c (p ∷ ps) = cc

pub split-ne-nil : (sep : ℕ) (s : Text) → split sep s ≢ []
unfolding split
split-ne-nil sep [] = cc
split-ne-nil sep (c ∷ s) = elim (Bool-cases (c == sep)) [
  | inl e ↦ rw e (cc)
  | inr e ↦ rw e (cons_head-ne-nil c (split sep s))
]

join-cons_head :
    (sep c : ℕ) (ps : List Text) → ps ≢ [] → join sep (cons_head c ps) ≡ c ∷ join sep ps
unfolding cons_head
join-cons_head sep c [] h = absurd (h refl)
join-cons_head sep c (p ∷ []) h = refl
join-cons_head sep c (p ∷ q ∷ ps) h = refl

join-nil_cons : (sep : ℕ) (ps : List Text) → ps ≢ [] → join sep ([] ∷ ps) ≡ sep ∷ join sep ps
join-nil_cons sep [] h = absurd (h refl)
join-nil_cons sep (p ∷ ps) h = refl

pub join-split : (sep : ℕ) (s : Text) → join sep (split sep s) ≡ s
unfolding split
join-split sep [] = refl
join-split sep (c ∷ s) = elim (Bool-cases (c == sep)) [
  | inl e ↦ rw e (
      join-nil_cons sep (split sep s) (split-ne-nil sep s)
      ∙ ap₂ (λ (a : ℕ) (t : Text). a ∷ t) (sym ((==_iff c sep).0 e)) (join-split sep s))
  | inr e ↦ rw e (
      join-cons_head sep c (split sep s) (split-ne-nil sep s)
      ∙ ap (λ (t : Text). c ∷ t) (join-split sep s))
]

cons_head-lacks :
    (c d : ℕ) (ps : List Text)
    → (c == d) ≡ false
    → All (λ p. includes p c ≡ false) ps
    → All (λ p. includes p c ≡ false) (cons_head d ps)
unfolding cons_head includes
cons_head-lacks c d [] h k = rw h (refl, tt)
cons_head-lacks c d (p ∷ ps) h k = rw h k

-- A text with no `c` has no piece that holds `c`.
pub split-lacks :
    (sep c : ℕ) (s : Text) → includes s c ≡ false → All (λ p. includes p c ≡ false) (split sep s)
unfolding split includes
split-lacks sep c [] h = (refl, tt)
split-lacks sep c (d ∷ s) h =
    let (ne, below) = ||_false (c == d) (includes s c) h in
    let rec : All (λ p. includes p c ≡ false) (split sep s) = split-lacks sep c s below in
    elim (Bool-cases (d == sep)) [
      | inl e ↦ rw e (refl, rec)
      | inr e ↦ rw e (cons_head-lacks c d (split sep s) ne rec)
    ]
