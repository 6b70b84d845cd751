-- ===== src/Access/References.antt =====
-- Every assignment refers to a role that exists, after any sequence of the calls of access.service.ts.
use erp_global.Common.{Option, Bool, true, ◌≡◌, List, [], ◌∷◌, map, All, Bool-cases, inl, inr}
use erp_global.Common.Text.{Text, starts_with}
use erp_global.Common.Action.{Result}
use erp_global.Contracts.{Claims}
use erp_global.Access.Roles.{Assignment, State, AccessError, UnitInfo, Input, create_assignment}
use erp_global.Access.Removal.{remove_assignment}
use erp_global.Access.RoleEdits.{
  RoleInput, create_role, update_role, delete_role, system_assign, apply_org_move, moved_path,
}
use erp_global.Access.Setup.{NewIds, SetupInput, ensure_pack_role, bootstrap, undo_bootstrap}
use erp_global.Access.SetupKeeps.{ensure_pack_role-Keeps, bootstrap-Keeps, undo_bootstrap-Keeps}
use erp_global.Org.Invariant.{IsPlainId}
use erp_global.Access.Integrity.{RolesExist, has_role, Keeps}
use erp_global.Access.Requests.{create_role-Keeps, update_role-Keeps, delete_role-Keeps}
use erp_global.Access.Grants.{create_assignment-Keeps, system_assign-Keeps, remove_assignment-Keeps}

-- A call with its arguments. The answer of config-service is one of them; the answers of the other
-- services and the tests of texts are the same for all calls.
pub data Request : Type 0 where
  creates_role : Claims → Text → Text → List Text → Result AccessError (List Text) → Request
  updates_role : Claims → Text → RoleInput → Result AccessError (List Text) → Request
  deletes_role : Claims → Text → Request
  assigns : Claims → Text → Input → Request
  assigns_as_system : Text → Input → Request
  removes : Claims → Text → Request
  moves : Text → Text → Request
  ensures_pack_role : Text → Text → Text → List Text → Result AccessError (List Text) → Request
  bootstraps : NewIds → SetupInput → Request
  undoes_bootstrap : Request

moved_roles :
    (old new : Text) (s : State) (list : List Assignment)
    → All (λ a. has_role s.roles a.role_id ≡ true) list
    → All (λ a. has_role s.roles a.role_id ≡ true) (map (moved_path old new) list)
unfolding moved_path
moved_roles old new s [] h = tt
moved_roles old new s (a ∷ list) (h, hs) = elim (Bool-cases (starts_with a.org_unit_path old)) [
  | inl e ↦ rw e (h, moved_roles old new s list hs)
  | inr e ↦ rw e (h, moved_roles old new s list hs)
]

module _ (object_id : Text → Option Text) (tenant_keys : List Text) (is_record : Text → Bool)
    (same_name : Text → Text → Bool) (unit_of : Text → Result AccessError UnitInfo)
    (is_deactivated : Text → Result AccessError Bool) where
  -- The state after a call, which may have failed.
  unfoldable pub handle : Request → State → State
  unfolding create_role update_role delete_role create_assignment system_assign remove_assignment
      apply_org_move ensure_pack_role bootstrap undo_bootstrap
  handle (creates_role caller id name perms known) s =
      (create_role is_record same_name known caller id name perms s).1
  handle (updates_role caller id input known) s =
      (update_role is_record same_name known object_id caller id input s).1
  handle (deletes_role caller id) s = (delete_role object_id caller id s).1
  handle (assigns caller id input) s =
      (create_assignment tenant_keys caller unit_of is_deactivated id input s).1
  handle (assigns_as_system id input) s = (system_assign unit_of id input s).1
  handle (removes caller id) s = (remove_assignment tenant_keys caller id s).1
  handle (moves old new) s = apply_org_move old new s
  handle (ensures_pack_role key id name perms known) s =
      (ensure_pack_role is_record same_name known key id name perms s).1
  handle (bootstraps ids input) s = (bootstrap tenant_keys same_name ids input s).1
  handle undoes_bootstrap s = (undo_bootstrap s).1

  unfoldable pub handle_all : List Request → State → State
  unfolding handle
  handle_all [] s = s
  handle_all (r ∷ rs) s = handle_all rs (handle r s)

  -- The id of a role to delete is written as the driver writes it, or is none.
  abbrev pub IsSound : Request → Type 0
  IsSound (creates_role caller id name perms known) = Unit
  IsSound (updates_role caller id input known) = Unit
  IsSound (deletes_role caller id) = IsPlainId object_id id
  IsSound (assigns caller id input) = Unit
  IsSound (assigns_as_system id input) = Unit
  IsSound (removes caller id) = Unit
  IsSound (moves old new) = Unit
  IsSound (ensures_pack_role key id name perms known) = Unit
  IsSound (bootstraps ids input) = Unit
  IsSound undoes_bootstrap = Unit

  handle-RolesExist : (r : Request) (s : State) → IsSound r → RolesExist s → RolesExist (handle r s)
  unfolding handle Keeps apply_org_move
  handle-RolesExist (creates_role caller id name perms known) s sound h =
      create_role-Keeps is_record same_name known caller id name perms s h
  handle-RolesExist (updates_role caller id input known) s sound h =
      update_role-Keeps is_record same_name known object_id caller id input s h
  handle-RolesExist (deletes_role caller id) s sound h =
      delete_role-Keeps object_id caller id sound s h
  handle-RolesExist (assigns caller id input) s sound h =
      create_assignment-Keeps tenant_keys caller unit_of is_deactivated id input s h
  handle-RolesExist (assigns_as_system id input) s sound h =
      system_assign-Keeps unit_of id input s h
  handle-RolesExist (removes caller id) s sound h =
      remove_assignment-Keeps tenant_keys caller id s h
  handle-RolesExist (moves old new) s sound h = moved_roles old new s s.assignments h
  handle-RolesExist (ensures_pack_role key id name perms known) s sound h =
      ensure_pack_role-Keeps is_record same_name known key id name perms s h
  handle-RolesExist (bootstraps ids input) s sound h =
      bootstrap-Keeps tenant_keys same_name ids input s h
  handle-RolesExist undoes_bootstrap s sound h = undo_bootstrap-Keeps s h

  -- After any sequence of calls that set up a company or undo it, create, change or delete roles, make
  -- or remove assignments, or follow a move of a unit, whether they succeed or fail, every assignment is
  -- of a role that exists, where this held before. The ids of the roles to delete are written in small
  -- letters, as the driver writes them, or are none; each call runs without another in between.
  pub handle_all-RolesExist :
      (rs : List Request) (s : State) → All IsSound rs → RolesExist s → RolesExist (handle_all rs s)
  unfolding handle_all
  handle_all-RolesExist [] s sound h = h
  handle_all-RolesExist (r ∷ rs) s (sound, sounds) h =
      handle_all-RolesExist rs (handle r s) sounds (handle-RolesExist r s sound h)
