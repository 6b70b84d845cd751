-- ===== src/Access/Setup.antt =====
-- access.service.ts: `ensurePackRole`, `bootstrap` and `undoBootstrap`. The descriptions of the roles
-- are left out, and so are the marks `key` and `system` of the event of a new role.
use erp_global.Common.{
  ℕ, ◌+◌, Bool, true, false, ◌||◌, Option, none, some, List, [], ◌∷◌, ◌++◌, any, find, filter,
  length, if◌then◌else◌, ◌&&◌,
}
use mathlib.Core.List.{reverse}
use erp_global.Common.Text.{Text, ◌===◌, codes, starts_with}
use erp_global.Common.Action.{Result, ok, err, Action, pure, gets, transaction, atomic, ◌>>=◌, ◌>>◌}
use erp_global.Access.Roles.{
  Role, Assignment, State, AccessError, role_created, duplicate_key, unique, effective_permissions,
}
use erp_global.Access.RoleEdits.{load_role, assert_entities_exist, add_unless}

unfoldable pub has_key : Text → Role → Bool
has_key key r = elim r.key [ none ↦ false | some k ↦ k === key ]

-- `Roles.findOne({ key })`
unfoldable pub role_with_key : Text → List Role → Option Role
unfolding has_key
role_with_key key rs = find (has_key key) rs

-- The write of a role with a key, refused by the unique indexes on the name and on the key.
unfoldable pub insert_keyed_role :
    (Text → Text → Bool) → Text → Role → List Text → State → Result AccessError State
unfolding has_key
insert_keyed_role same_name key r perms s =
    if any (λ q. same_name q.name r.name || has_key key q) s.roles
    then err duplicate_key
    else ok (record s {
      roles = s.roles ++ (r ∷ []);
      outbox = s.outbox ++ (role_created r.id r.name perms ∷ []);
    })

-- `catch` of the error of a unique index, and of no other.
abbrev pub on_duplicate :
    {A : Type 0}
    → Action State AccessError A
    → Action State AccessError A
    → Action State AccessError A
on_duplicate m k s =
    let (r, s') = m s in
    elim r [ ok a ↦ (ok a, s') | err e ↦ elim e [ duplicate_key ↦ k s' | other ↦ (err other, s') ] ]

abbrev pub pack_role : Text → Text → Text → List Text → Role
pack_role key id name perms = record {
  id = id;
  name = name;
  permissions = perms;
  system = false;
  all_permissions = false;
  key = some key;
}

module _ (is_record : Text → Bool) (same_name : Text → Text → Bool)
    (custom_entities : Result AccessError (List Text)) where
  -- A role with this name exists already (the company's own): keep both, apart.
  unfoldable pub create_pack_role :
      Text → Text → Text → List Text → Action State AccessError (Unit {0})
  unfolding insert_keyed_role
  create_pack_role key id name perms =
      on_duplicate
        (transaction (insert_keyed_role same_name key (pack_role key id name perms) perms))
        (transaction (
          insert_keyed_role same_name key
            (pack_role key id (name ++ (codes " (" ++ (key ++ codes ")"))) perms) perms))

  unfoldable pub ensured :
      Option Role → Text → Text → Text → List Text → Action State AccessError Role
  unfolding unique assert_entities_exist create_pack_role load_role
  ensured (some r) key id name perms = pure r
  ensured none key id name perms = do
    assert_entities_exist is_record same_name custom_entities (unique perms)
    create_pack_role key id name (unique perms)
    load_role id

  -- A role a pack brings, created once by its key. If it exists, it is left as it is.
  unfoldable pub ensure_pack_role : Text → Text → Text → List Text → Action State AccessError Role
  unfolding role_with_key ensured
  ensure_pack_role key id name perms =
      gets (λ s. role_with_key key s.roles) >>= λ existing. ensured existing key id name perms

-- `k.endsWith('.read')`
unfoldable pub is_read_key : Text → Bool
unfolding starts_with
is_read_key k = starts_with (reverse k) (reverse (codes ".read"))

-- `READ_PERMISSIONS`
unfoldable pub read_permissions : List Text → List Text
unfolding is_read_key
read_permissions tenant_keys = filter is_read_key tenant_keys ++ (codes "records.*.read" ∷ [])

pub record SetupInput : Type 0 where
  pub admin_user_id : Text
  pub root_org_unit_id : Text
  pub root_path : Text

-- The ids that the driver gives to what is created.
pub record NewIds : Type 0 where
  pub admin_id : Text
  pub viewer_id : Text
  pub assignment_id : Text

abbrev pub system_role_of : Text → Text → Text → List Text → Bool → Role
system_role_of key id name perms all = record {
  id = id;
  name = name;
  permissions = perms;
  system = true;
  all_permissions = all;
  key = some key;
}

unfoldable pub held_by : Text → Text → List Assignment → Option Assignment
held_by user role list = find (λ a. a.user_id === user && a.role_id === role) list

abbrev pub first_assignment : NewIds → SetupInput → Role → Assignment
first_assignment ids input admin = record {
  id = ids.assignment_id;
  user_id = input.admin_user_id;
  role_id = admin.id;
  org_unit_id = input.root_org_unit_id;
  org_unit_path = input.root_path;
}

-- The assignment of the first administrator, unless there is one.
unfoldable pub assign_admin : NewIds → SetupInput → Role → Action State AccessError Assignment
unfolding held_by add_unless
assign_admin ids input admin =
    gets (λ s. held_by input.admin_user_id admin.id s.assignments) >>= λ existing.
    add_unless existing (first_assignment ids input admin)
      (record admin { name = codes "Tenant Admin" })

abbrev pub admin_role : NewIds → Role
admin_role ids = system_role_of (codes "tenant_admin") ids.admin_id (codes "Tenant Admin") [] true

abbrev pub viewer_role : List Text → NewIds → Role
viewer_role tenant_keys ids =
    system_role_of (codes "viewer") ids.viewer_id (codes "Viewer") (read_permissions tenant_keys)
      false

module _ (tenant_keys : List Text) (same_name : Text → Text → Bool) where
  unfoldable pub upserted : Option Role → Text → Role → Action State AccessError Role
  unfolding insert_keyed_role effective_permissions
  upserted (some r) key new = pure r
  upserted none key new =
      transaction (insert_keyed_role same_name key new (effective_permissions tenant_keys new))
      >> pure new

  unfoldable pub upsert_system_role : Text → Role → Action State AccessError Role
  unfolding role_with_key upserted
  upsert_system_role key new =
      gets (λ s. role_with_key key s.roles) >>= λ found. upserted found key new

  unfoldable pub upsert_admin : NewIds → Action State AccessError Role
  unfolding upsert_system_role
  upsert_admin ids = upsert_system_role (codes "tenant_admin") (admin_role ids)

  unfoldable pub upsert_viewer : NewIds → Action State AccessError Role
  unfolding upsert_system_role
  upsert_viewer ids = upsert_system_role (codes "viewer") (viewer_role tenant_keys ids)

  unfoldable pub bootstrap_steps : NewIds → SetupInput → Action State AccessError (Unit {0})
  unfolding upsert_admin upsert_viewer assign_admin
  bootstrap_steps ids input = do
    admin ← upsert_admin ids
    upsert_viewer ids
    assign_admin ids input admin
    pure tt

  unfoldable pub bootstrap : NewIds → SetupInput → Action State AccessError (Unit {0})
  unfolding bootstrap_steps
  bootstrap ids input = atomic (bootstrap_steps ids input)

-- Undoes `bootstrap` when a sign-up fails: the number of documents deleted.
unfoldable pub undo_bootstrap : Action State AccessError ℕ
undo_bootstrap s =
    (ok (length s.assignments + length s.roles), record s { assignments = []; roles = [] })
