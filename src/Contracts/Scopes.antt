-- ===== src/Contracts/Scopes.antt =====
-- `hasPermission`, `scopePathsFor` and `isPathInScope`: who holds what, and where.
use erp_global.Common.{
  ◌≡◌, refl, ◌⊎◌, ◌↔◌, inl, inr, true, ◌&&◌, Option, none, some, List, [], ◌∷◌, ◌++◌, map,
  append_assoc, any, filter, In, any-In, any_of_In, Bool-cases, &&_iff, arith,
}
use erp_global.Common.Text.{
  Text, ===_iff, starts_with, starts_with_sound, starts_with-append, split,
}
use erp_global.Contracts.{
  AclEntry, Claims, grants, plat_holds, covers_target, has_permission, scope_paths_for,
  is_path_in_scope,
}
use erp_global.Contracts.Matching.{Covers, permission_matches_iff}

-- The list holds a grant whose segments cover those of the permission.
pub Granted : List Text → Text → Type 0
Granted p perm = (g : Text) × In g p × Covers (split b'.' g) (split b'.' perm)

-- An entry of the token covers the target: there is none, or its path begins with the entry's.
pub Reaches : Text → Option Text → Type 0
Reaches path none = Unit
Reaches path (some target) = (r : Text) × (target ≡ path ++ r)

pub Holds : Claims → Text → Option Text → Type 0
Holds claims perm target =
    ((keys : List Text) × (claims.plat ≡ some keys) × In perm keys)
    ⊎ ((e : AclEntry) × In e claims.acl × Granted e.p perm × Reaches e.path target)

pub grants_iff : (p : List Text) (perm : Text) → (grants p perm ≡ true) ↔ Granted p perm
unfolding grants Granted
grants_iff p perm = (
  λ h. let (g, i, m) = any-In _ p h in (g, i, (permission_matches_iff g perm).0 m),
  λ (g, i, c). any_of_In _ g p i ((permission_matches_iff g perm).1 c),
)

covers_target_iff :
    (path : Text) (target : Option Text) → (covers_target path target ≡ true) ↔ Reaches path target
unfolding covers_target Reaches
covers_target_iff path none = (λ _. tt, λ _. refl)
covers_target_iff path (some t) =
    (starts_with_sound t path, λ (r, e). rw e (starts_with-append path r))

plat_holds_iff :
    (plat : Option (List Text)) (perm : Text)
    → (plat_holds plat perm ≡ true) ↔ ((keys : List Text) × (plat ≡ some keys) × In perm keys)
unfolding plat_holds
plat_holds_iff none perm = (λ h. cc, λ (keys, e, i). cc)
plat_holds_iff (some keys) perm = (
  λ h. let (k, i, e) = any-In _ keys h in (keys, refl, rw (← (===_iff k perm).0 e) i),
  λ (l, e, i).
      let same : keys ≡ l = cc in any_of_In _ perm keys (rw same i) ((===_iff perm perm).1 refl),
)

entry_sound :
    (acl : List AclEntry) (perm : Text) (target : Option Text)
    → any (λ e. grants e.p perm && covers_target e.path target) acl ≡ true
    → (e : AclEntry) × In e acl × Granted e.p perm × Reaches e.path target
entry_sound acl perm target h =
    let (e, i, m) = any-In _ acl h in
    let (g, c) = (&&_iff _ _).0 m in
    (e, i, (grants_iff e.p perm).0 g, (covers_target_iff e.path target).0 c)

-- The check holds exactly for a platform key, or for an entry of the token that grants the
-- permission, segment by segment, at a path that begins the target's path.
pub has_permission_iff :
    (claims : Claims) (perm : Text) (target : Option Text)
    → (has_permission claims perm target ≡ true) ↔ Holds claims perm target
unfolding has_permission Holds
has_permission_iff claims perm target = (
  λ h. elim (Bool-cases (plat_holds claims.plat perm)) [
    | inl p ↦ inl ((plat_holds_iff claims.plat perm).0 p)
    | inr n ↦ inr (entry_sound claims.acl perm target (rw n at h))
  ],
  elim [
    | inl p ↦ rw ((plat_holds_iff claims.plat perm).1 p)
    | inr (e, i, g, r) ↦
        let hit : any (λ e. grants e.p perm && covers_target e.path target) claims.acl ≡ true =
          any_of_In _ e claims.acl i
            ((&&_iff _ _).1 ((grants_iff e.p perm).1 g, (covers_target_iff e.path target).1 r)) in
        ground arith
  ],
)

-- What is held at a unit is held at every unit whose path goes on from there.
pub has_permission-append :
    (claims : Claims) (perm path below : Text)
    → has_permission claims perm (some path) ≡ true
    → has_permission claims perm (some (path ++ below)) ≡ true
unfolding Holds Reaches
has_permission-append claims perm path below h =
    (has_permission_iff claims perm _).1 (widen ((has_permission_iff claims perm _).0 h))
  where
    widen : Holds claims perm (some path) → Holds claims perm (some (path ++ below))
    widen (inl p) = inl p
    widen (inr (e, i, g, (r, q))) = inr (e, i, g, (r ++ below, rw q (append_assoc e.path r below)))

scope_entry :
    (target perm : Text) (acl : List AclEntry)
    → any (λ p. starts_with target p) (map (λ e. e.path) (filter (λ e. grants e.p perm) acl))
      ≡ any (λ e. grants e.p perm && covers_target e.path (some target)) acl
unfolding covers_target
scope_entry target perm [] = refl
scope_entry target perm (e ∷ acl) = ground (arith, scope_entry target perm acl)

-- Filtering a list by the scope paths of a permission lets through what checking each member would,
-- for a caller without platform permissions.
pub is_path_in_scope-scope_paths_for :
    (target perm : Text) (acl : List AclEntry)
    → is_path_in_scope target (scope_paths_for acl perm)
      ≡ has_permission (record { acl = acl; plat = none }) perm (some target)
unfolding is_path_in_scope scope_paths_for has_permission plat_holds
is_path_in_scope-scope_paths_for target perm acl = scope_entry target perm acl
