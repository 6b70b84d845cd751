-- ===== src/Access/Roles.antt =====
-- models.ts and access.service.ts: roles, assignments, the entries of a token, and assigning a role. The
-- list of the tenant permissions is an argument; units and users are asked of other services.
use erp_global.Common.{
  Bool, ◌&&◌, not, Option, none, some, List, [], ◌∷◌, ◌++◌, any, all, find, filter, if◌then◌else◌,
}
use erp_global.Common.Text.{Text, ◌===◌, codes}
use erp_global.Common.Action.{
  Result, ok, err, Action, pure, ensure, or_raise, gets, from_result, transaction, ◌>>=◌, ◌>>◌,
}
use erp_global.Contracts.{AclEntry, Claims, has_permission}

pub record Role : Type 0 where
  pub id : Text
  pub name : Text
  pub permissions : List Text
  pub system : Bool
  pub all_permissions : Bool
  pub key : Option Text

pub record Assignment : Type 0 where
  pub id : Text
  pub user_id : Text
  pub role_id : Text
  pub org_unit_id : Text
  pub org_unit_path : Text

pub data AccessEvent : Type 0 where
  -- the assignment, the user, the role, its name, the unit
  assignment_created assignment_removed : Text → Text → Text → Text → Text → AccessEvent
  -- the role, its name, its permissions
  role_created : Text → Text → List Text → AccessEvent
  -- the role, the old and the new name, the permissions added and removed
  role_updated : Text → Option (Text × Text) → Option (List Text × List Text) → AccessEvent
  -- the role, its name
  role_deleted : Text → Text → AccessEvent

pub record State : Type 0 where
  pub roles : List Role
  pub assignments : List Assignment
  pub outbox : List AccessEvent

pub data AccessError : Type 0 where
  role_not_found unit_not_found user_not_found : AccessError
  unit_inactive user_deactivated outside_access cannot_grant already_assigned : AccessError
  assignment_not_found last_admin : AccessError
  unknown_entity role_name_taken system_role role_in_use : AccessError
  -- the error of a unique index, where the service does not turn it into one of its own
  duplicate_key : AccessError

-- What org-service answers about a unit, and identity-service about a user.
pub record UnitInfo : Type 0 where
  pub id : Text
  pub path : Text
  pub active : Bool

-- `[...new Set(xs)]`
unfoldable pub unique : List Text → List Text
unique [] = []
unique (x ∷ xs) = let rest = unique xs in x ∷ filter (λ y. not (y === x)) rest

unfoldable pub role_with_id : Text → List Role → Option Role
role_with_id id rs = find (λ r. r.id === id) rs

-- `byUnit.get(...) ?? ...`, with the permissions added, and `byUnit.set`.
unfoldable pub add_to_unit : Assignment → List Text → List AclEntry → List AclEntry
unfolding unique
add_to_unit a perms [] =
    record { ou = a.org_unit_id; path = a.org_unit_path; p = unique perms } ∷ []
add_to_unit a perms (e ∷ es) =
    let rest = add_to_unit a perms es in
    if e.ou === a.org_unit_id then record e { p = unique (e.p ++ perms) } ∷ es else e ∷ rest

pub record Input : Type 0 where
  pub user_id : Text
  pub role_id : Text
  pub org_unit_id : Text

unfoldable pub is_same_assignment : Assignment → Assignment → Bool
is_same_assignment a b =
    a.user_id === b.user_id && a.role_id === b.role_id && a.org_unit_id === b.org_unit_id

-- Nobody can hand out permissions they do not hold themselves at that place.
unfoldable pub assert_can_grant :
    Claims → List Text → Option Text → Action State AccessError (Unit {0})
assert_can_grant caller perms path =
    ensure (all (λ p. has_permission caller p path) perms) cannot_grant

unfoldable pub new_assignment : Text → Input → UnitInfo → Assignment
new_assignment id input u = record {
  id = id;
  user_id = input.user_id;
  role_id = input.role_id;
  org_unit_id = u.id;
  org_unit_path = u.path;
}

-- The write, refused by the unique index on user, role and unit.
unfoldable pub insert_assignment : Assignment → Role → State → Result AccessError State
unfolding is_same_assignment
insert_assignment a r s =
    if any (is_same_assignment a) s.assignments
    then err already_assigned
    else ok (record s {
      assignments = s.assignments ++ (a ∷ []);
      outbox = s.outbox ++ (assignment_created a.id a.user_id a.role_id r.name a.org_unit_id ∷ []);
    })

-- `tenant_keys` are the permission keys of a company.
module _ (tenant_keys : List Text) where
  unfoldable pub effective_permissions : Role → List Text
  effective_permissions r =
      if r.all_permissions then tenant_keys ++ (codes "records.*.*" ∷ []) else r.permissions

  -- The loop over the assignments of a user; an assignment of a role that is gone is passed over.
  unfoldable pub acl_from : List Role → List Assignment → List AclEntry → List AclEntry
  unfolding role_with_id add_to_unit effective_permissions
  acl_from roles [] acl = acl
  acl_from roles (a ∷ rest) acl = acl_from roles rest (elim (role_with_id a.role_id roles) [
    | none ↦ acl
    | some r ↦ add_to_unit a (effective_permissions r) acl
  ])

  unfoldable pub acl_for : Text → State → List AclEntry
  unfolding acl_from
  acl_for user s = acl_from s.roles (filter (λ a. a.user_id === user) s.assignments) []

  -- The part of `createAssignment` after the role and the unit were found.
  unfoldable pub assign :
      Claims
      → Role
      → UnitInfo
      → (Text → Result AccessError Bool)
      → Text
      → Input
      → Action State AccessError Assignment
  unfolding effective_permissions assert_can_grant new_assignment insert_assignment
  assign caller role unit is_deactivated id input = do
    ensure unit.active unit_inactive
    ensure (has_permission caller (codes "access.assignment.manage") (some unit.path))
        outside_access
    assert_can_grant caller (effective_permissions role) (some unit.path)
    deactivated ← from_result (is_deactivated input.user_id)
    ensure (not deactivated) user_deactivated
    transaction (insert_assignment (new_assignment id input unit) role)
    pure (new_assignment id input unit)

  -- `unit_of` and `is_deactivated` are the answers of the other services.
  unfoldable pub create_assignment :
      Claims
      → (Text → Result AccessError UnitInfo)
      → (Text → Result AccessError Bool)
      → Text
      → Input
      → Action State AccessError Assignment
  unfolding role_with_id
  create_assignment caller unit_of is_deactivated id input = do
    found ← gets (λ s. role_with_id input.role_id s.roles)
    role ← or_raise found role_not_found
    unit ← from_result (unit_of input.org_unit_id)
    assign caller role unit is_deactivated id input
