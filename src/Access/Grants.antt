-- ===== src/Access/Grants.antt =====
-- The calls of access.service.ts that make or remove assignments keep the role of every assignment.
use erp_global.Common.{Bool, not, ◌&&◌, ◌≡◌, ◌∙◌, Option, none, some, List, find, leb}
use erp_global.Common.Text.{Text, codes}
use erp_global.Common.Action.{Result, pure, gets, from_result, transaction, ◌>>=◌}
use erp_global.Contracts.{Claims, has_permission}
use erp_global.Access.Roles.{
  Role, Assignment, AccessError, UnitInfo, Input, role_not_found, assignment_not_found, last_admin,
  is_same_assignment, unit_inactive, outside_access, user_deactivated, role_with_id,
  effective_permissions, insert_assignment, new_assignment, create_assignment, assign,
}
use erp_global.Access.Removal.{
  remove_assignment, remove, delete_assignment, delete_one, assignment_with_id, count_at,
  is_tenant_admin, is_root_level,
}
use erp_global.Access.RoleEdits.{load_role, add_unless, system_assign}
use erp_global.Access.Integrity.{
  RolesExist, Keeps, bind-Keeps, ensure-Keeps, from_result-Keeps, pure-Keeps, or_raise-Keeps,
  transaction-Keeps, load_role_bind, Grounded, gets-Keeps, assert_can_grant-Keeps,
}
use erp_global.Access.Writes.{insert_assignment_keeps, insert_assignment_roles, All-delete_one}

-- An assignment of a role that is there is added.
add_assignment-Keeps :
    (a : Assignment) (r : Role) → Keeps (Grounded a.role_id) (transaction (insert_assignment a r))
add_assignment-Keeps a r =
    transaction-Keeps (Grounded a.role_id) (insert_assignment a r) (λ s s' (h, k) e.
      (insert_assignment_keeps a r s s' h k e, insert_assignment_roles a r s s' e a.role_id ∙ k))

assign-Keeps :
    (tenant_keys : List Text) (caller : Claims) (role : Role) (unit : UnitInfo)
    (is_deactivated : Text → Result AccessError Bool) (id : Text) (input : Input)
    → Keeps (Grounded input.role_id) (assign tenant_keys caller role unit is_deactivated id input)
unfolding assign new_assignment
assign-Keeps tenant_keys caller role unit is_deactivated id input =
    let P = Grounded input.role_id in
    bind-Keeps P _ _ (ensure-Keeps P unit.active unit_inactive) (λ a.
      bind-Keeps P _ _
        (ensure-Keeps P (has_permission caller (codes "access.assignment.manage") (some unit.path))
          outside_access)
        (λ b.
          bind-Keeps P _ _
            (assert_can_grant-Keeps P caller (effective_permissions tenant_keys role)
              (some unit.path))
            (λ c. bind-Keeps P _ _ (from_result-Keeps P (is_deactivated input.user_id)) (λ d.
              bind-Keeps P _ _ (ensure-Keeps P (not d) user_deactivated) (λ e.
                bind-Keeps P _ _ (add_assignment-Keeps (new_assignment id input unit) role)
                  (λ f. pure-Keeps P (new_assignment id input unit)))))))

pub create_assignment-Keeps :
    (tenant_keys : List Text) (caller : Claims) (unit_of : Text → Result AccessError UnitInfo)
    (is_deactivated : Text → Result AccessError Bool) (id : Text) (input : Input)
    → Keeps RolesExist (create_assignment tenant_keys caller unit_of is_deactivated id input)
unfolding create_assignment load_role Keeps
create_assignment-Keeps tenant_keys caller unit_of is_deactivated id input s h =
    load_role_bind input.role_id
      (λ role. from_result (unit_of input.org_unit_id) >>= λ unit.
        assign tenant_keys caller role unit is_deactivated id input)
      s
      (λ role same here.
        (bind-Keeps (Grounded input.role_id) (from_result (unit_of input.org_unit_id))
          (λ unit. assign tenant_keys caller role unit is_deactivated id input)
          (from_result-Keeps (Grounded input.role_id) (unit_of input.org_unit_id))
          (λ unit. assign-Keeps tenant_keys caller role unit is_deactivated id input) s
          (h, here)).0)
      h

pub add_unless-Keeps :
    (o : Option Assignment) (a : Assignment) (r : Role)
    → Keeps (Grounded a.role_id) (add_unless o a r)
unfolding add_unless
add_unless-Keeps (some old) a r = pure-Keeps (Grounded a.role_id) old
add_unless-Keeps none a r =
    bind-Keeps (Grounded a.role_id) (transaction (insert_assignment a r)) (λ _. pure a)
      (add_assignment-Keeps a r) (λ _. pure-Keeps (Grounded a.role_id) a)

pub system_assign-Keeps :
    (unit_of : Text → Result AccessError UnitInfo) (id : Text) (input : Input)
    → Keeps RolesExist (system_assign unit_of id input)
unfolding system_assign Keeps new_assignment
system_assign-Keeps unit_of id input s h =
    let P = Grounded input.role_id in
    load_role_bind input.role_id
      (λ role. from_result (unit_of input.org_unit_id) >>= λ unit.
        gets (λ t. find (is_same_assignment (new_assignment id input unit)) t.assignments)
        >>= λ existing. add_unless existing (new_assignment id input unit) role)
      s
      (λ role same here.
        (bind-Keeps P (from_result (unit_of input.org_unit_id))
          (λ unit.
            gets (λ t. find (is_same_assignment (new_assignment id input unit)) t.assignments)
            >>= λ existing. add_unless existing (new_assignment id input unit) role)
          (from_result-Keeps P (unit_of input.org_unit_id))
          (λ unit.
            bind-Keeps P
              (gets (λ t. find (is_same_assignment (new_assignment id input unit)) t.assignments))
              (λ existing. add_unless existing (new_assignment id input unit) role)
              (gets-Keeps P
                (λ t. find (is_same_assignment (new_assignment id input unit)) t.assignments))
              (λ existing. add_unless-Keeps existing (new_assignment id input unit) role))
          s (h, here)).0)
      h

remove-Keeps :
    (tenant_keys : List Text) (caller : Claims) (a : Assignment) (role : Role)
    → Keeps RolesExist (remove tenant_keys caller a role)
unfolding remove delete_assignment
remove-Keeps tenant_keys caller a role =
    bind-Keeps RolesExist _ _
      (assert_can_grant-Keeps RolesExist caller (effective_permissions tenant_keys role)
        (some a.org_unit_path))
      (λ b.
        bind-Keeps RolesExist _ _
          (gets-Keeps RolesExist (λ s. count_at a.role_id a.org_unit_path s.assignments))
          (λ admins.
            bind-Keeps RolesExist _ _
              (ensure-Keeps RolesExist
                (not (is_tenant_admin role && is_root_level a.org_unit_path && leb admins 1))
                last_admin)
              (λ c. transaction-Keeps RolesExist (delete_assignment a role) (λ s s' h e.
                let roles_ : s.roles ≡ s'.roles = cc in
                let list_ : delete_one a.id s.assignments ≡ s'.assignments = cc in
                rw (← list_) (rw (← roles_) (All-delete_one _ a.id s.assignments h))))))

pub remove_assignment-Keeps :
    (tenant_keys : List Text) (caller : Claims) (id : Text)
    → Keeps RolesExist (remove_assignment tenant_keys caller id)
unfolding remove_assignment
remove_assignment-Keeps tenant_keys caller id =
    bind-Keeps RolesExist _ _ (gets-Keeps RolesExist (λ s. assignment_with_id id s.assignments))
      (λ found.
        bind-Keeps RolesExist _ _ (or_raise-Keeps RolesExist found assignment_not_found) (λ a.
          bind-Keeps RolesExist _ _
            (ensure-Keeps RolesExist
              (has_permission caller (codes "access.assignment.manage") (some a.org_unit_path))
              outside_access)
            (λ b.
              bind-Keeps RolesExist _ _
                (gets-Keeps RolesExist (λ s. role_with_id a.role_id s.roles))
                (λ held.
                  bind-Keeps RolesExist _ _ (or_raise-Keeps RolesExist held role_not_found)
                    (λ role. remove-Keeps tenant_keys caller a role)))))
