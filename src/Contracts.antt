-- ===== src/Contracts.antt =====
-- packages/contracts/src/permissions.ts and auth.ts: permissions with `*` segments, the access
-- entries of a token, and the checks that every service makes with them.
pub mod Split
pub mod Matching
pub mod Scopes
mod Examples
use erp_global.Common.{
  ℕ, Bool, true, false, ◌&&◌, ◌||◌, not, Option, none, some, List, [], ◌∷◌, map, length, any,
  filter, ◌==◌, if◌then◌else◌,
}
use erp_global.Common.Text.{Text, codes, ◌===◌, starts_with, includes, split}

-- `g.every((seg, i) => seg === '*' || seg === r[i])`; out of range `r[i]` is undefined.
every_seg : List Text → List Text → Bool
every_seg [] r = true
every_seg (seg ∷ g) [] = seg === codes "*" && every_seg g []
every_seg (seg ∷ g) (s ∷ r) = (seg === codes "*" || seg === s) && every_seg g r

-- Does a granted permission, possibly with `*` segments, cover the requested one?
unfoldable pub permission_matches : Text → Text → Bool
unfolding every_seg
permission_matches granted requested =
    if granted === requested
    then true
    else if not (includes granted b'*')
    then false
    else let g = split b'.' granted in
      let r = split b'.' requested in length g == length r && every_seg g r

-- One role assignment, flattened into the token; `path` covers every unit whose path starts with it.
pub record AclEntry : Type 0 where
  pub ou : Text
  pub path : Text
  pub p : List Text

-- The two fields of the token's claims that the checks read.
pub record Claims : Type 0 where
  pub acl : List AclEntry
  pub plat : Option (List Text)

unfoldable pub grants : List Text → Text → Bool
grants granted perm = any (λ g. permission_matches g perm) granted

-- `claims.plat?.includes(perm)`
unfoldable pub plat_holds : Option (List Text) → Text → Bool
plat_holds none perm = false
plat_holds (some keys) perm = any (λ k. k === perm) keys

-- `targetPath === undefined || targetPath.startsWith(path)`
unfoldable pub covers_target : Text → Option Text → Bool
covers_target path none = true
covers_target path (some target) = starts_with target path

-- Does the principal hold `perm`, optionally at (or above) the target path?
unfoldable pub has_permission : Claims → Text → Option Text → Bool
has_permission claims perm target =
    if plat_holds claims.plat perm
    then true
    else any (λ e. grants e.p perm && covers_target e.path target) claims.acl

-- The org paths at which `perm` is granted.
unfoldable pub scope_paths_for : List AclEntry → Text → List Text
scope_paths_for acl perm = map (λ e. e.path) (filter (λ e. grants e.p perm) acl)

unfoldable pub is_path_in_scope : Text → List Text → Bool
is_path_in_scope target scopes = any (λ p. starts_with target p) scopes
