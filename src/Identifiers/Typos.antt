-- ===== src/Identifiers/Typos.antt =====
-- identifiers.ts: what `checkIdentifier` answers, and a digit that is mistyped.
use erp_global.Common.{
  ℕ, ◌≡◌, ◌≢◌, ◌⊎◌, inl, inr, Bool, true, false, Option, some, ◌∷◌, ◌++◌, Bool-cases, arith,
}
use erp_global.Common.Text.{Text}
use erp_global.Common.Action.{ok, err}
use erp_global.Identifiers.Checks.{
  Checksum, by_luhn, by_verhoeff, IdentifierType, passes, digit_does_not_match, not_valid,
  normal_form, check_digits, check_identifier,
}
use erp_global.Identifiers.Verhoeff.{verhoeff_single}
use erp_global.Identifiers.Luhn.{luhn_single}

passes_single :
    (k : Checksum) (p q : Text) (a b : ℕ)
    → (k ≡ by_verhoeff) ⊎ (k ≡ by_luhn)
    → passes k (p ++ (a ∷ q)) ≡ true
    → passes k (p ++ (b ∷ q)) ≡ true
    → a ≡ b
unfolding passes
passes_single k p q a b (inl e) h l =
    verhoeff_single p q a b (ground (arith, e, h)) (ground (arith, e, l))
passes_single k p q a b (inr e) h l =
    luhn_single p q a b (ground (arith, e, h)) (ground (arith, e, l))

module _ (trim to_upper : Text → Text) (reg_exp : Text → Option (Text → Bool)) where
  accepted :
      (t : IdentifierType) (raw v : Text) (re : Text → Bool) (k : Checksum)
      → reg_exp t.pattern ≡ some re
      → t.checksum ≡ some k
      → check_identifier trim to_upper reg_exp t raw ≡ ok v
      → (v ≡ normal_form trim to_upper reg_exp t raw) × (re v ≡ true) × (passes k v ≡ true)
  unfolding check_identifier check_digits
  accepted t raw v re k e c h = ground arith

  refused :
      (t : IdentifierType) (raw : Text) (re : Text → Bool) (k : Checksum)
      → reg_exp t.pattern ≡ some re
      → t.checksum ≡ some k
      → passes k (normal_form trim to_upper reg_exp t raw) ≡ false
      → (check_identifier trim to_upper reg_exp t raw ≡ err (not_valid t.label t.example))
        ⊎ (check_identifier trim to_upper reg_exp t raw ≡ err (digit_does_not_match t.label))
  unfolding check_identifier check_digits
  refused t raw re k e c h = ground arith

  -- Where an identifier with a check digit of Verhoeff or of Luhn is accepted, and the pattern of its
  -- type compiles, what is typed with one digit of it changed is answered with an error: that it is not
  -- valid, or that the check digit does not match.
  pub check_identifier_typo :
      (t : IdentifierType) (raw typo p q : Text) (a b : ℕ) (re : Text → Bool) (k : Checksum)
      → reg_exp t.pattern ≡ some re
      → t.checksum ≡ some k
      → (k ≡ by_verhoeff) ⊎ (k ≡ by_luhn)
      → check_identifier trim to_upper reg_exp t raw ≡ ok (p ++ (a ∷ q))
      → normal_form trim to_upper reg_exp t typo ≡ p ++ (b ∷ q)
      → a ≢ b
      → (check_identifier trim to_upper reg_exp t typo ≡ err (not_valid t.label t.example))
        ⊎ (check_identifier trim to_upper reg_exp t typo ≡ err (digit_does_not_match t.label))
  check_identifier_typo t raw typo p q a b re k e c kinds h n other =
      elim (Bool-cases (passes k (normal_form trim to_upper reg_exp t typo))) [
        | inr no_pass ↦ refused t typo re k e c no_pass
        | inl pass ↦
            absurd
              (other (passes_single k p q a b kinds (accepted t raw _ re k e c h).2 (rw n at pass)))
      ]
