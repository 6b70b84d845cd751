-- ===== src/Identifiers/Examples.antt =====
-- Numbers with check digits, and the theorems applied to them.
use erp_global.Common.{◌≡◌, refl, ◌⊎◌, inl, true, false, none, some, [], arith}
use erp_global.Common.Text.{codes}
use erp_global.Common.Action.{err}
use erp_global.Identifiers.Checks.{
  by_verhoeff, IdentifierType, all_digits, luhn, luhn_mod36, verhoeff, mod11, check_identifier,
  not_valid, digit_does_not_match,
}
use erp_global.Identifiers.Verhoeff.{verhoeff_swap}
use erp_global.Identifiers.Luhn.{luhn_swap}
use erp_global.Identifiers.Typos.{check_identifier_typo}

verhoeff_2363 : verhoeff (codes "2363") ≡ true
unfolding verhoeff all_digits
verhoeff_2363 = refl

luhn_card : luhn (codes "79927398713") ≡ true
unfolding luhn all_digits
luhn_card = refl

gstin : luhn_mod36 (codes "27AAPFU0939F1ZV") ≡ true
unfolding luhn_mod36
gstin = refl

isbn : mod11 (codes "080442957X") ≡ true
unfolding mod11
isbn = refl

verhoeff_swap_example : verhoeff (codes "2633") ≡ false
unfolding verhoeff all_digits
verhoeff_swap_example = verhoeff_swap (codes "2") (codes "3") b'3' b'6' refl (omega arith)

luhn_swap_example : luhn (codes "79927398731") ≡ false
unfolding luhn all_digits
luhn_swap_example = luhn_swap (codes "799273987") [] b'1' b'3' refl (omega arith) (omega arith)

abbrev number_type : IdentifierType
number_type = record {
  key = codes "number";
  label = codes "Number";
  pattern = codes "\\d+";
  checksum = some by_verhoeff;
  uppercase = false;
  example = none;
}

check_identifier_typo_example :
    (check_identifier (λ s. s) (λ s. s) (λ p. some all_digits) number_type (codes "2353")
      ≡ err (not_valid (codes "Number") none))
    ⊎ (check_identifier (λ s. s) (λ s. s) (λ p. some all_digits) number_type (codes "2353")
        ≡ err (digit_does_not_match (codes "Number")))
unfolding check_identifier all_digits
check_identifier_typo_example =
    check_identifier_typo (λ s. s) (λ s. s) (λ p. some all_digits) number_type (codes "2363")
      (codes "2353") (codes "23") (codes "3") b'6' b'5' all_digits by_verhoeff refl refl (inl refl)
      refl refl (omega arith)
