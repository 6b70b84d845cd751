-- ===== src/Access/Holders.antt =====
-- access.service.ts: `rolesOf`, `allRoleHolders`, `roleHolders` and `listAssignments`. The assignments
-- stand in the order of their creation.
use erp_global.Common.{
  ℕ, zero, suc, min, Bool, true, false, ◌&&◌, Option, none, some, List, [], ◌∷◌, ◌++◌, any, filter,
  map, length, ◌==◌, if◌then◌else◌,
}
use mathlib.Core.List.{reverse}
use erp_global.Common.Text.{Text, ◌===◌, codes, split, starts_with}
use erp_global.Contracts.{AclEntry, scope_paths_for}
use erp_global.Contracts.Split.{join}
use erp_global.Access.Roles.{Role, Assignment, State, unique, role_with_id}
use erp_global.Access.Setup.{role_with_key}

pub record HeldRole : Type 0 where
  pub role_id : Text
  pub name : Text
  pub key : Option Text
  pub org_unit_id : Text
  pub path : Text

-- An assignment of a role that is gone is passed over.
unfoldable pub held_roles : List Role → List Assignment → List HeldRole
unfolding role_with_id
held_roles roles [] = []
held_roles roles (a ∷ list) =
    let rest = held_roles roles list in
    elim (role_with_id a.role_id roles) [
      | none ↦ rest
      | some r ↦
          record {
            role_id = a.role_id;
            name = r.name;
            key = r.key;
            org_unit_id = a.org_unit_id;
            path = a.org_unit_path;
          }
          ∷ rest
    ]

unfoldable pub roles_of : Text → State → List HeldRole
unfolding held_roles
roles_of user s = held_roles s.roles (filter (λ a. a.user_id === user) s.assignments)

-- `string | { key: string }`
pub data RoleRef : Type 0 where
  by_id : Text → RoleRef
  by_key : Text → RoleRef

-- Where the source leaves `orgUnitId` out or null, it is `none`.
pub record Holders : Type 0 where
  pub org_unit_id : Option Text
  pub user_ids : List Text

abbrev pub nobody : Holders
nobody = record { org_unit_id = none; user_ids = [] }

abbrev pub users_of : List Assignment → List Text
unfolding unique
users_of list = unique (map (λ a. a.user_id) list)

-- `is_object_id` is the test `/^[a-f0-9]{24}$/`.
unfoldable pub all_role_holders : (Text → Bool) → Text → State → List Text
all_role_holders is_object_id role s =
    if is_object_id role then users_of (filter (λ a. a.role_id === role) s.assignments) else []

abbrev pub is_filled : Text → Bool
is_filled [] = false
is_filled (c ∷ t) = true

-- `path.split('/').filter(Boolean)`
unfoldable pub segments : Text → List Text
unfolding split
segments path = filter is_filled (split b'/' path)

-- `ids.slice(0, i + 1)` for each index `i`.
unfoldable pub slices : List Text → List (List Text)
slices [] = []
slices (x ∷ ids) = (x ∷ []) ∷ map (λ l. x ∷ l) (slices ids)

unfoldable pub path_to : List Text → Text
path_to ids = b'/' ∷ (join b'/' ids ++ (b'/' ∷ []))

unfoldable pub prefixes : Text → List Text
unfolding segments slices path_to
prefixes path = map path_to (slices (segments path))

-- The answer for the assignments of one level, if there are any.
abbrev pub at_level : List Assignment → Holders → Holders
at_level [] rest = rest
at_level (a ∷ list) rest = record {
  org_unit_id = some a.org_unit_id;
  user_ids = users_of (a ∷ list);
}

unfoldable pub nearest : List Assignment → List Text → Holders
nearest list [] = nobody
nearest list (p ∷ ps) =
    let rest = nearest list ps in at_level (filter (λ a. a.org_unit_path === p) list) rest

unfoldable pub depth_of : Assignment → ℕ
unfolding segments
depth_of a = length (segments a.org_unit_path)

-- `Math.min(...)` of the depths; the value for no assignment is not read.
unfoldable pub top_depth : List Assignment → ℕ
unfolding depth_of
top_depth [] = 0
top_depth (a ∷ []) = depth_of a
top_depth (a ∷ b ∷ list) = min (depth_of a) (top_depth (b ∷ list))

-- Company-wide records: the holders nearest the top of the org tree.
unfoldable pub top_holders : List Assignment → Holders
unfolding top_depth depth_of
top_holders list = at_level (filter (λ a. depth_of a == top_depth list) list) nobody

-- An empty path is no path.
unfoldable pub holders_at : Text → Option Text → State → Holders
unfolding top_holders nearest prefixes
holders_at role none s = top_holders (filter (λ a. a.role_id === role) s.assignments)
holders_at role (some []) s = top_holders (filter (λ a. a.role_id === role) s.assignments)
holders_at role (some (c ∷ path)) s =
    nearest
      (filter (λ a. a.role_id === role && any (λ p. p === a.org_unit_path) (prefixes (c ∷ path)))
        s.assignments)
      (reverse (prefixes (c ∷ path)))

unfoldable pub role_holders : RoleRef → Option Text → State → Holders
unfolding role_with_key holders_at
role_holders (by_id id) path s = holders_at id path s
role_holders (by_key []) path s = nobody
role_holders (by_key (c ∷ key)) path s = elim (role_with_key (c ∷ key) s.roles) [
  | none ↦ nobody
  | some r ↦ holders_at r.id path s
]

-- `filter.userId` and `filter.orgUnitId`: a test that is left out or empty lets all pass.
abbrev pub is_asked : Option Text → Text → Bool
is_asked none t = true
is_asked (some []) t = true
is_asked (some (c ∷ asked)) t = t === (c ∷ asked)

-- `.limit(n)`
unfoldable pub take : ℕ → List Assignment → List Assignment
take zero list = []
take (suc n) [] = []
take (suc n) (a ∷ list) = a ∷ take n list

-- Each assignment comes with its role, for the name.
unfoldable pub listed :
    List Text → Option Text → Option Text → State → List (Assignment × Option Role)
unfolding starts_with role_with_id take
listed [] user unit s = []
listed (p ∷ scopes) user unit s =
    map (λ a. (a, role_with_id a.role_id s.roles))
      (take 1000 (
        filter
          (λ a.
            any (λ q. starts_with a.org_unit_path q) (p ∷ scopes)
            && (is_asked user a.user_id && is_asked unit a.org_unit_id))
          s.assignments))

unfoldable pub list_assignments :
    List AclEntry → Option Text → Option Text → State → List (Assignment × Option Role)
unfolding scope_paths_for listed
list_assignments acl user unit s =
    listed (scope_paths_for acl (codes "access.assignment.read")) user unit s
