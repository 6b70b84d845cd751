-- ===== src/Events/Bus.antt =====
-- bus.ts: `subjectMatches`, and which events the subjects of the two streams take.
use erp_global.Common.{
  ◌≡◌, ◌≢◌, refl, inl, inr, Bool, true, false, ◌&&◌, not, List, [], ◌∷◌, if◌then◌else◌, Bool-cases,
  sym, subst,
}
use native.Mathlib.Decide.{ℕ_discrete}
use erp_global.Common.Text.{
  Text, Text-discrete, ◌===◌, codes, split, cons_head, starts_with, starts_with_sound,
}
use erp_global.Contracts.Split.{split-ne-nil}
use erp_global.Events.Outbox.{notify_prefix, subject_for}

-- The loop over the tokens of the pattern and of the subject.
unfoldable pub tokens_match : List Text → List Text → Bool
tokens_match [] [] = true
tokens_match [] (x ∷ xs) = false
tokens_match (p ∷ ps) [] = false
tokens_match (p ∷ ps) (x ∷ xs) =
    let rest = tokens_match ps xs in
    if p === codes ">" then true else if not (p === codes "*") && not (p === x) then false else rest

-- `subjectMatches`
unfoldable pub subject_matches : Text → Text → Bool
unfolding tokens_match
subject_matches pattern subject = tokens_match (split b'.' pattern) (split b'.' subject)

after_first : (x : List Text) → x ≢ [] → tokens_match (codes ">" ∷ []) x ≡ true
unfolding tokens_match Text-discrete ℕ_discrete
after_first [] h = absurd (h refl)
after_first (x ∷ xs) h = refl

-- An event goes to the stream of notifications, and not to the one that the audit log reads, exactly
-- when its type is that of a notification.
pub subject_matches-subject_for :
    (type : Text)
    → (subject_matches (codes "notify.>") (subject_for type) ≡ starts_with type notify_prefix)
      × (subject_matches (codes "erp.>") (subject_for type) ≡ not (starts_with type notify_prefix))
unfolding subject_for subject_matches split cons_head tokens_match starts_with Text-discrete
    ℕ_discrete
subject_matches-subject_for type = elim (Bool-cases (starts_with type notify_prefix)) [
  | inl n ↦
      let (r, e) = starts_with_sound type notify_prefix n in
      rw n (
        subst
          (λ t.
            (subject_matches (codes "notify.>") t ≡ true)
            × (subject_matches (codes "erp.>") t ≡ false))
          (sym e) (after_first (split b'.' r) (split-ne-nil b'.' r), refl))
  | inr n ↦ rw n (refl, after_first (split b'.' type) (split-ne-nil b'.' type))
]
