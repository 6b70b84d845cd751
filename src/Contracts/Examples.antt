-- ===== src/Contracts/Examples.antt =====
-- Runs of the permission checks, and their theorems at concrete tokens.
use erp_global.Common.{◌≡◌, refl, ◌↔◌, true, false, none, some, [], ◌∷◌}
use native.Mathlib.Decide.{ℕ_discrete}
use erp_global.Common.Text.{codes, Text-discrete, starts_with, includes, split}
use erp_global.Contracts.{
  Claims, permission_matches, grants, plat_holds, covers_target, has_permission, scope_paths_for,
  is_path_in_scope,
}
use erp_global.Contracts.Matching.{Covers, permission_matches_iff}
use erp_global.Contracts.Scopes.{Holds, has_permission_iff}

abbrev claims : Claims
claims = record {
  acl =
      record { ou = codes "a"; path = codes "/a/"; p = codes "records.*.read" ∷ [] }
      ∷ record { ou = codes "b"; path = codes "/a/b/"; p = codes "records.student.*" ∷ [] }
      ∷ [];
  plat = none;
}

checks : Unit {0}
unfolding permission_matches grants plat_holds covers_target has_permission scope_paths_for
    is_path_in_scope starts_with includes split Text-discrete ℕ_discrete
checks = tt

-- The cases of auth.spec.ts.
wildcards :
    (has_permission claims (codes "records.vehicle.read") none ≡ true)
    × (has_permission claims (codes "records.vehicle.create") none ≡ false)
    × (has_permission claims (codes "records.student.delete") (some (codes "/a/b/c/")) ≡ true)
    × (has_permission claims (codes "records.student.delete") (some (codes "/a/")) ≡ false)
    × (has_permission claims (codes "records.student.delete") (some (codes "/a/bx/")) ≡ false)
unfolding checks
wildcards = (refl, refl, refl, refl, refl)

permission_matches_iff_example :
    (permission_matches (codes "records.*.read") (codes "records.car.read") ≡ true)
    ↔ Covers (split b'.' (codes "records.*.read")) (split b'.' (codes "records.car.read"))
permission_matches_iff_example =
    permission_matches_iff (codes "records.*.read") (codes "records.car.read")

has_permission_iff_example :
    (has_permission claims (codes "records.car.read") (some (codes "/a/b/")) ≡ true)
    ↔ Holds claims (codes "records.car.read") (some (codes "/a/b/"))
has_permission_iff_example =
    has_permission_iff claims (codes "records.car.read") (some (codes "/a/b/"))
