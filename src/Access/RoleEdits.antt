-- ===== src/Access/RoleEdits.antt =====
-- access.service.ts: `createRole`, `updateRole`, `deleteRole`, `systemAssign` and `applyOrgMove`. The
-- description of a role is left out.
use erp_global.Common.{
  Bool, false, not, ◌&&◌, Option, none, some, List, [], ◌∷◌, ◌++◌, any, all, find, filter, map,
  if◌then◌else◌, length,
}
use erp_global.Common.Text.{Text, ◌===◌, codes, split, starts_with, drop}
use erp_global.Common.Action.{
  Result, ok, err, Action, pure, ensure, or_raise, gets, from_result, transaction, ◌>>=◌, ◌>>◌,
}
use erp_global.Contracts.{Claims}
use erp_global.Access.Roles.{
  Role, Assignment, role_created, role_updated, role_deleted, State, AccessError, UnitInfo, Input,
  role_not_found, unknown_entity, role_name_taken, system_role, role_in_use, unique, role_with_id,
  assert_can_grant, new_assignment, insert_assignment, is_same_assignment,
}

pub record RoleInput : Type 0 where
  pub name : Option Text
  pub permissions : Option (List Text)

unfoldable pub load_role : Text → Action State AccessError Role
unfolding role_with_id
load_role id = gets (λ s. role_with_id id s.roles) >>= λ found. or_raise found role_not_found

-- `loadRole` of a text that a path of the API gives: `object_id` is the driver's reading of it as an id,
-- none where `isValid` fails, or the form in small letters. Other ids are in that form already.
unfoldable pub load_found : Option Text → Action State AccessError Role
unfolding load_role
load_found none s = (err role_not_found, s)
load_found (some id) s = load_role id s

unfoldable pub load_role_at : (Text → Option Text) → Text → Action State AccessError Role
unfolding load_found
load_role_at object_id id = load_found (object_id id)

-- `p.split('.')[1]`
unfoldable pub entity_of : Text → Text
unfolding split
entity_of p = elim (split b'.' p) [ [] ↦ [] | a ∷ rest ↦ elim rest [ [] ↦ [] | e ∷ more ↦ e ] ]

-- `is_record` is the test of RECORD_PERMISSION_RE.
unfoldable pub named_entities : (Text → Bool) → List Text → List Text
unfolding entity_of
named_entities is_record perms =
    filter (λ e. not (e === codes "*")) (map entity_of (filter is_record perms))

-- The write of a role, refused by the unique index on the name; `same_name` is its collation.
unfoldable pub insert_role : (Text → Text → Bool) → Role → State → Result AccessError State
insert_role same_name r s =
    if any (λ q. same_name q.name r.name) s.roles
    then err role_name_taken
    else ok (record s {
      roles = s.roles ++ (r ∷ []);
      outbox = s.outbox ++ (role_created r.id r.name r.permissions ∷ []);
    })

abbrev pub or_old : {A : Type 0} → Option A → A → A
or_old none a = a
or_old (some b) a = b

unfoldable pub changed_role : RoleInput → Role → Role
unfolding unique
changed_role input r = record r {
  name = or_old input.name r.name;
  permissions = elim input.permissions [ none ↦ r.permissions | some ps ↦ unique ps ];
}

abbrev pub name_change : RoleInput → Role → Option (Text × Text)
name_change input r = elim input.name [ none ↦ none | some n ↦ some (r.name, n) ]

abbrev pub lacks : List Text → Text → Bool
lacks ps p = not (any (λ q. q === p) ps)

unfoldable pub permission_change : RoleInput → Role → Option (List Text × List Text)
unfolding unique
permission_change input r = elim input.permissions [
  | none ↦ none
  | some ps ↦
      some (filter (lacks r.permissions) (unique ps), filter (lacks (unique ps)) r.permissions)
]

unfoldable pub write_role :
    (Text → Text → Bool) → Text → RoleInput → Role → State → Result AccessError State
unfolding changed_role permission_change
write_role same_name id input r s =
    if any (λ q. not (q.id === r.id) && same_name q.name (changed_role input r).name) s.roles
    then err role_name_taken
    else ok (record s {
      roles = map (λ q. if q.id === r.id then changed_role input q else q) s.roles;
      outbox = s.outbox ++ (role_updated id (name_change input r) (permission_change input r) ∷ []);
    })

unfoldable pub erase_role : Text → Role → State → Result AccessError State
erase_role id r s = ok (record s {
  roles = filter (λ q. not (q.id === r.id)) s.roles;
  outbox = s.outbox ++ (role_deleted id r.name ∷ []);
})

unfoldable pub is_used : Text → State → Bool
is_used id s = any (λ a. a.role_id === id) s.assignments

-- `custom_entities` is what config-service answers.
module _ (is_record : Text → Bool) (same_name : Text → Text → Bool)
    (custom_entities : Result AccessError (List Text)) where
  unfoldable pub check_known : List Text → Action State AccessError (Unit {0})
  check_known [] = pure tt
  check_known (e ∷ es) = from_result custom_entities >>= λ known.
      ensure (all (λ n. any (λ k. k === n) known) (e ∷ es)) unknown_entity

  unfoldable pub assert_entities_exist : List Text → Action State AccessError (Unit {0})
  unfolding named_entities check_known
  assert_entities_exist perms = check_known (named_entities is_record perms)

  unfoldable pub create_role : Claims → Text → Text → List Text → Action State AccessError Role
  unfolding assert_entities_exist assert_can_grant unique insert_role load_role
  create_role caller id name permissions = do
    assert_entities_exist (unique permissions)
    assert_can_grant caller (unique permissions) none
    transaction (
        insert_role same_name (record {
          id = id;
          name = name;
          permissions = unique permissions;
          system = false;
          all_permissions = false;
          key = none;
        }))
    load_role id

  -- Adding or removing a permission changes what holders can do: the caller must hold both sets.
  unfoldable pub check_permissions :
      Claims → Role → Option (List Text) → Action State AccessError (Unit {0})
  unfolding assert_entities_exist assert_can_grant unique
  check_permissions caller role none = pure tt
  check_permissions caller role (some ps) = do
    assert_entities_exist (unique ps)
    assert_can_grant caller (unique (unique ps ++ role.permissions)) none

  unfoldable pub update_role :
      (Text → Option Text) → Claims → Text → RoleInput → Action State AccessError Role
  unfolding load_role_at check_permissions write_role
  update_role object_id caller id input = do
    role ← load_role_at object_id id
    ensure (not role.system) system_role
    check_permissions caller role input.permissions
    transaction (write_role same_name id input role)
    load_role_at object_id id

unfoldable pub delete_role :
    (Text → Option Text) → Claims → Text → Action State AccessError (Unit {0})
unfolding load_role_at assert_can_grant is_used erase_role
delete_role object_id caller id = do
  role ← load_role_at object_id id
  ensure (not role.system) system_role
  assert_can_grant caller role.permissions none
  used ← gets (is_used id)
  ensure (not used) role_in_use
  transaction (erase_role id role)

-- The assignment that exists, or a new one with its event, whose mark `automatic` is left out.
unfoldable pub add_unless :
    Option Assignment → Assignment → Role → Action State AccessError Assignment
unfolding insert_assignment
add_unless (some old) a role = pure old
add_unless none a role = transaction (insert_assignment a role) >> pure a

unfoldable pub system_assign :
    (Text → Result AccessError UnitInfo) → Text → Input → Action State AccessError Assignment
unfolding load_role new_assignment add_unless is_same_assignment
system_assign unit_of id input = do
  role ← load_role input.role_id
  unit ← from_result (unit_of input.org_unit_id)
  existing ← gets (λ s. find (is_same_assignment (new_assignment id input unit)) s.assignments)
  add_unless existing (new_assignment id input unit) role

-- Keeps the paths of the assignments in step with the moves of units.
unfoldable pub moved_path : Text → Text → Assignment → Assignment
unfolding starts_with drop
moved_path old new a =
    if starts_with a.org_unit_path old
    then record a { org_unit_path = new ++ drop (length old) a.org_unit_path }
    else a

unfoldable pub apply_org_move : Text → Text → State → State
unfolding moved_path
apply_org_move old new s = record s { assignments = map (moved_path old new) s.assignments }
