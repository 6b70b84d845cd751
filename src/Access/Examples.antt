-- ===== src/Access/Examples.antt =====
-- Runs of the access service on a concrete company.
use erp_global.Common.{
  ◌≤◌, arith, ◌≡◌, refl, Bool, true, false, ◌&&◌, none, some, [], ◌∷◌, ◌++◌, any, ◌⊎◌, inl, inr,
  Option, ℕ, ap, ◌∙◌, All, All-In,
}
use erp_global.Common.Text.{Text, Text-discrete, ◌===◌, codes, includes, split, starts_with}
use native.Mathlib.Decide.{ℕ_discrete}
use erp_global.Common.Action.{err, Result, ok}
use erp_global.Contracts.{
  AclEntry, Claims, has_permission, permission_matches, plat_holds, grants, covers_target,
}
use erp_global.Access.Roles.{
  assert_can_grant, effective_permissions, assignment_removed, role_with_id, last_admin, Role,
  Assignment, State, AccessError, UnitInfo, Input, acl_for, create_assignment, assign,
  assignment_created,
}
use erp_global.Access.Acl.{gives, has_permission-acl_for}
use erp_global.Access.Removal.{
  remove_assignment, remove, count_at, is_tenant_admin, is_root_level, remove_assignment-count_at,
}
use erp_global.Access.Escalation.{create_assignment-has_permission}
use erp_global.Access.RoleEdits.{apply_org_move}
use erp_global.Org.Invariant.{IsPlainId}
use erp_global.Access.Integrity.{RolesExist}
use erp_global.Access.References.{deletes_role, removes, handle_all, handle_all-RolesExist}
use erp_global.Access.Moves.{InStep, move-InStep}
use erp_global.Org.Units as Org
use erp_global.Org.Units.{OrgUnit, active, Caller, unit_moved}
use erp_global.Org.Handlers.{move}

abbrev viewer : Role
viewer = record {
  id = codes "viewer";
  name = codes "Viewer";
  permissions = codes "org.unit.read" ∷ [];
  system = true;
  all_permissions = false;
  key = some (codes "viewer");
}

abbrev root_entry : AclEntry
root_entry = record { ou = codes "r"; path = codes "/r/"; p = codes "*.*.*" ∷ [] }

abbrev admin : Claims
admin = record { acl = root_entry ∷ []; plat = none }

abbrev company : State
company = record { roles = viewer ∷ []; assignments = []; outbox = [] }

abbrev root : UnitInfo
root = record { id = codes "r"; path = codes "/r/"; active = true }

abbrev unit_of : Text → Result AccessError UnitInfo
unit_of id = ok root

abbrev is_deactivated : Text → Result AccessError Bool
is_deactivated id = ok false

abbrev path_of : Text → Text
path_of u = codes "/" ++ (u ++ codes "/")

abbrev input : Input
input = record { user_id = codes "u2"; role_id = codes "viewer"; org_unit_id = codes "r" }

abbrev made : Assignment
made = record {
  id = codes "a1";
  user_id = codes "u2";
  role_id = codes "viewer";
  org_unit_id = codes "r";
  org_unit_path = codes "/r/";
}

abbrev after : State
after = record company {
  assignments = made ∷ [];
  outbox =
      assignment_created (codes "a1") (codes "u2") (codes "viewer") (codes "Viewer") (codes "r")
      ∷ [];
}

assignment_is_made :
    create_assignment [] admin unit_of is_deactivated (codes "a1") input company ≡ (ok made, after)
unfolding create_assignment has_permission permission_matches plat_holds Text-discrete ℕ_discrete
    assign grants includes split covers_target starts_with
assignment_is_made = refl

viewer_may_read :
    has_permission
      (record { acl = acl_for [] (codes "u2") after; plat = none })
      (codes "org.unit.read")
      (some (codes "/r/x/"))
    ≡ true
unfolding create_assignment has_permission permission_matches plat_holds acl_for Text-discrete
    ℕ_discrete assign grants includes split covers_target starts_with
viewer_may_read = refl

has_permission-acl_for_example :
    has_permission
      (record { acl = acl_for [] (codes "u2") after; plat = none })
      (codes "org.unit.read")
      (some (codes "/r/x/"))
    ≡ any
        (λ a.
          a.user_id === codes "u2"
          && gives [] after.roles (codes "org.unit.read") (codes "/r/x/") a)
        after.assignments
has_permission-acl_for_example =
    has_permission-acl_for [] path_of (codes "org.unit.read") (codes "/r/x/") (codes "u2") after
      (refl, tt)

create_assignment-has_permission_example :
    (has_permission
        (record { acl = acl_for [] (codes "u2") company; plat = none })
        (codes "org.unit.read")
        (some (codes "/r/x/"))
      ≡ true)
    ⊎ (has_permission admin (codes "org.unit.read") (some (codes "/r/x/")) ≡ true)
create_assignment-has_permission_example =
    create_assignment-has_permission [] path_of admin.acl unit_of is_deactivated (codes "a1") input
      made company after (codes "u2") (codes "org.unit.read") (codes "/r/x/") assignment_is_made
      (refl, tt) viewer_may_read

abbrev tenant_admin : Role
tenant_admin = record {
  id = codes "adm";
  name = codes "Tenant Admin";
  permissions = [];
  system = true;
  all_permissions = true;
  key = some (codes "tenant_admin");
}

abbrev first_admin : Assignment
first_admin = record made { id = codes "a2"; user_id = codes "u1"; role_id = codes "adm" }

abbrev second_admin : Assignment
second_admin = record made { id = codes "a3"; user_id = codes "u2"; role_id = codes "adm" }

abbrev two_admins : State
two_admins = record {
  roles = tenant_admin ∷ [];
  assignments = first_admin ∷ second_admin ∷ [];
  outbox = [];
}

abbrev one_admin : State
one_admin = record two_admins {
  assignments = second_admin ∷ [];
  outbox =
      assignment_removed (codes "a2") (codes "u1") (codes "adm") (codes "Tenant Admin") (codes "r")
      ∷ [];
}

admin_is_removed : remove_assignment [] admin (codes "a2") two_admins ≡ (ok tt, one_admin)
unfolding remove_assignment has_permission permission_matches plat_holds Text-discrete ℕ_discrete
    remove grants includes split covers_target starts_with assert_can_grant effective_permissions
admin_is_removed = refl

last_admin_stays : remove_assignment [] admin (codes "a3") one_admin ≡ (err last_admin, one_admin)
unfolding remove_assignment has_permission permission_matches plat_holds Text-discrete ℕ_discrete
    remove grants includes split covers_target starts_with assert_can_grant effective_permissions
last_admin_stays = refl

remove_assignment-count_at_example : 1 ≤ count_at (codes "adm") (codes "/r/") one_admin.assignments
unfolding role_with_id is_tenant_admin is_root_level count_at Text-discrete ℕ_discrete split
remove_assignment-count_at_example =
    remove_assignment-count_at [] admin (codes "a2") (codes "/r/") tenant_admin two_admins one_admin
      refl refl refl (omega arith) admin_is_removed

viewer_plain : IsPlainId some (codes "viewer")
unfolding IsPlainId
viewer_plain = inr refl

handle_all-RolesExist_example : RolesExist (
    handle_all some []
      (λ p. false)
      (λ a b. a === b)
      unit_of
      is_deactivated
      (deletes_role admin (codes "viewer") ∷ removes admin (codes "a1") ∷ [])
      after)
unfolding Text-discrete ℕ_discrete
handle_all-RolesExist_example =
    handle_all-RolesExist some [] (λ p. false) (λ a b. a === b) unit_of is_deactivated
      (deletes_role admin (codes "viewer") ∷ removes admin (codes "a1") ∷ []) after
      (viewer_plain, (tt, tt)) (refl, tt)

abbrev unit : Text → Text → Option Text → ℕ → OrgUnit
unit id path parent depth = record {
  id = id;
  name = id;
  code = none;
  type = codes "Branch";
  parent_id = parent;
  path = path;
  depth = depth;
  status = active;
  custom = codes "{}";
  head_user_id = none;
}

abbrev org : Org.State
org = record {
  units =
      unit (codes "c") (codes "/c/") none 0
      ∷ unit (codes "n") (codes "/c/n/") (some (codes "c")) 1
      ∷ unit (codes "r") (codes "/c/r/") (some (codes "c")) 1
      ∷ [];
  outbox = [];
}

abbrev service : Caller
service = record { is_service = true; claims = record { acl = []; plat = none } }

abbrev below_company : State
below_company = record company { assignments = record made { org_unit_path = codes "/c/r/" } ∷ [] }

ids_apart : All (λ (u : OrgUnit). (u.id ≡ codes "r") → (codes "/c/r/" ≡ u.path)) org.units
unfolding Text-discrete ℕ_discrete
ids_apart = (λ e. ground arith, (λ e. ground arith, (λ e. refl, tt)))

below_company-InStep : InStep org.units below_company.assignments
below_company-InStep a (inr i) u j same = elim i [ ]
below_company-InStep a (inl e) u i same =
    ap (λ (b : Assignment). b.org_unit_path) e
    ∙ All-In (λ (v : OrgUnit). (v.id ≡ codes "r") → (codes "/c/r/" ≡ v.path)) org.units u ids_apart
        i (same ∙ ap (λ (b : Assignment). b.org_unit_id) e)

move-InStep_example :
    ((move some service (codes "r") (codes "n") org).1 ≡ org)
    ⊎ ((old : Text) × (new : Text) × ((move some service (codes "r") (codes "n") org).1.outbox
          ≡ org.outbox ++ (unit_moved (codes "r") old new ∷ []))
        × InStep
            (move some service (codes "r") (codes "n") org).1.units
            (apply_org_move old new below_company).assignments)
move-InStep_example =
    move-InStep some service (codes "r") (codes "n") org below_company below_company-InStep
