-- ===== src/Access/Listing.antt =====
-- `listAssignments` of access.service.ts beside the permission check.
use erp_global.Common.{
  ◌≡◌, refl, sym, ap, ◌∙◌, Bool, false, ◌&&◌, Option, none, some, List, [], ◌∷◌, filter, map, arith,
}
use erp_global.Common.Text.{Text, codes}
use erp_global.Contracts.{AclEntry, has_permission, scope_paths_for, is_path_in_scope}
use erp_global.Contracts.Scopes.{is_path_in_scope-scope_paths_for}
use erp_global.Access.Roles.{Assignment, State, role_with_id}
use erp_global.Access.Holders.{is_asked, take, listed, list_assignments}

filter_same :
    (p q : Assignment → Bool) (list : List Assignment)
    → ((a : Assignment) → p a ≡ q a)
    → filter p list ≡ filter q list
filter_same p q [] h = refl
filter_same p q (a ∷ list) h = ground (arith, h a, filter_same p q list h)

nothing_passes : (list : List Assignment) → take 1000 (filter (λ a. false) list) ≡ []
unfolding take
nothing_passes [] = refl
nothing_passes (a ∷ list) = nothing_passes list

listed-filter :
    (scopes : List Text) (user unit : Option Text) (s : State)
    → listed scopes user unit s
      ≡ map
          (λ a. (a, role_with_id a.role_id s.roles))
          (take 1000 (
            filter
              (λ a.
                is_path_in_scope a.org_unit_path scopes
                && (is_asked user a.user_id && is_asked unit a.org_unit_id))
              s.assignments))
unfolding listed is_path_in_scope
listed-filter [] user unit s =
    ap (map (λ a. (a, role_with_id a.role_id s.roles))) (sym (nothing_passes s.assignments))
listed-filter (p ∷ scopes) user unit s = refl

-- `listAssignments` gives the first thousand assignments at which the caller, who has no platform
-- keys, may read assignments, and which are of the user and the unit asked for, each with its role.
pub list_assignments-has_permission :
    (acl : List AclEntry) (user unit : Option Text) (s : State)
    → list_assignments acl user unit s
      ≡ map
          (λ a. (a, role_with_id a.role_id s.roles))
          (take 1000 (
            filter
              (λ a.
                has_permission
                  (record { acl = acl; plat = none })
                  (codes "access.assignment.read")
                  (some a.org_unit_path)
                && (is_asked user a.user_id && is_asked unit a.org_unit_id))
              s.assignments))
unfolding list_assignments
list_assignments-has_permission acl user unit s =
    listed-filter (scope_paths_for acl (codes "access.assignment.read")) user unit s
    ∙ ap (λ l. map (λ a. (a, role_with_id a.role_id s.roles)) (take 1000 l))
        (filter_same _ _ s.assignments (λ a.
          ap (λ b. b && (is_asked user a.user_id && is_asked unit a.org_unit_id))
            (is_path_in_scope-scope_paths_for a.org_unit_path (codes "access.assignment.read")
              acl)))
