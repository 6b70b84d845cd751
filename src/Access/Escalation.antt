-- ===== src/Access/Escalation.antt =====
-- access.service.ts, `createAssignment`: what it needs, and what it gives away.
use erp_global.Common.{
  ◌≡◌, ap, sym, ◌∙◌, subst, Bool, true, false, ◌&&◌, ◌||◌, none, some, List, [], ◌∷◌, ◌++◌, any,
  any-append, any-In, any_of_In, all, all-In, All, All-append_left, Bool-cases, Option-cases, arith,
  ◌⊎◌, inl, inr,
}
use erp_global.Common.Text.{Text, codes, ◌===◌, starts_with, starts_with_trans}
use erp_global.Common.Action.{Result, ok, Result-cases}
use erp_global.Contracts.{
  AclEntry, Claims, has_permission, grants, permission_matches, covers_target, plat_holds,
}
use erp_global.Contracts.Matching.{permission_matches_trans}
use erp_global.Access.Roles.{
  Role, Assignment, State, AccessError, UnitInfo, Input, role_with_id, effective_permissions,
  acl_for, new_assignment, assert_can_grant, insert_assignment, create_assignment, assign,
}
use erp_global.Access.Acl.{gives, has_permission-acl_for}

-- A grant that covers another covers what the other covers.
grants_trans :
    (held : List Text) (g perm : Text)
    → grants held g ≡ true
    → permission_matches g perm ≡ true
    → grants held perm ≡ true
unfolding grants
grants_trans held g perm h k =
    let (x, m, p) = any-In (λ y. permission_matches y g) held h in
    any_of_In (λ y. permission_matches y perm) x held m (permission_matches_trans x g perm p k)

-- A caller that holds all the permissions at a path holds, below it, whatever they cover.
holds_what_it_grants :
    (acl : List AclEntry) (perms : List Text) (perm path target : Text)
    → all (λ p. has_permission (record { acl = acl; plat = none }) p (some path)) perms ≡ true
    → grants perms perm ≡ true
    → starts_with target path ≡ true
    → has_permission (record { acl = acl; plat = none }) perm (some target) ≡ true
unfolding has_permission covers_target plat_holds grants
holds_what_it_grants acl perms perm path target h g st =
    let (p, m, k) = any-In (λ y. permission_matches y perm) perms g in
    let may =
      all-In (λ y. has_permission (record { acl = acl; plat = none }) y (some path)) p perms h m in
    let (e, i, q) = any-In (λ e. grants e.p p && starts_with path e.path) acl may in
    let covers = grants_trans e.p p perm (ground arith) k in
    let above = starts_with_trans target path e.path st (ground arith) in
    any_of_In (λ e. grants e.p perm && starts_with target e.path) e acl i
      (ground (arith, covers, above))

module _ (tenant_keys : List Text) where
  -- An assignment that was made: of a role that exists, at an active unit where the caller may assign and
  -- holds all that the role grants, to a user that is not deactivated.
  pub record Granted (caller : Claims) (unit_of : Text → Result AccessError UnitInfo)
      (is_deactivated : Text → Result AccessError Bool) (id : Text) (input : Input) (s s' : State)
      : Type 0 where
    pub role : Role
    pub unit : UnitInfo
    pub found : role_with_id input.role_id s.roles ≡ some role
    pub answered : unit_of input.org_unit_id ≡ ok unit
    pub active : unit.active ≡ true
    pub may_assign :
        has_permission caller (codes "access.assignment.manage") (some unit.path) ≡ true
    pub holds_all :
        all (λ p. has_permission caller p (some unit.path)) (effective_permissions tenant_keys role)
        ≡ true
    pub user_active : is_deactivated input.user_id ≡ ok false
    pub written : insert_assignment (new_assignment id input unit) role s ≡ ok s'

  assign-Granted :
      (caller : Claims) (role : Role) (unit : UnitInfo)
      (is_deactivated : Text → Result AccessError Bool) (id : Text) (input : Input) (a : Assignment)
      (s s' : State)
      → assign tenant_keys caller role unit is_deactivated id input s ≡ (ok a, s')
      → (unit.active ≡ true)
        × (has_permission caller (codes "access.assignment.manage") (some unit.path) ≡ true)
        × (all
              (λ p. has_permission caller p (some unit.path))
              (effective_permissions tenant_keys role)
            ≡ true)
        × (is_deactivated input.user_id ≡ ok false)
        × (insert_assignment (new_assignment id input unit) role s ≡ ok s')
  unfolding assign assert_can_grant
  assign-Granted caller role unit is_deactivated id input a s s' h = elim (Bool-cases unit.active) [
    | inr e ↦ ground arith
    | inl e ↦
        elim (Bool-cases
          (has_permission caller (codes "access.assignment.manage") (some unit.path))) [
            | inr m ↦ ground arith
            | inl m ↦
                elim (Bool-cases (
                  all (λ p. has_permission caller p (some unit.path))
                    (effective_permissions tenant_keys role))) [
                      | inr g ↦ ground arith
                      | inl g ↦ (e, m, g, ground arith, ground arith)
                    ]
          ]
  ]

  -- `createAssignment` returns only after it found the role and the active unit, after the caller was found
  -- to hold the right to assign and every permission of the role there, and the user was found active.
  pub create_assignment-Granted :
      (caller : Claims) (unit_of : Text → Result AccessError UnitInfo)
      (is_deactivated : Text → Result AccessError Bool) (id : Text) (input : Input) (a : Assignment)
      (s s' : State)
      → create_assignment tenant_keys caller unit_of is_deactivated id input s ≡ (ok a, s')
      → Granted caller unit_of is_deactivated id input s s'
  unfolding create_assignment
  create_assignment-Granted caller unit_of is_deactivated id input a s s' h =
      elim (Option-cases (role_with_id input.role_id s.roles)) [
        | inl e ↦ ground arith
        | inr (role, e) ↦ elim (Result-cases (unit_of input.org_unit_id)) [
          | inr (x, k) ↦ ground arith
          | inl (unit, k) ↦
              let left : assign tenant_keys caller role unit is_deactivated id input s
                  ≡ (ok a, s') =
                ground arith in
              let (act, may, can, user, put) =
                assign-Granted caller role unit is_deactivated id input a s s' left in
              record {
                role = role;
                unit = unit;
                found = e;
                answered = k;
                active = act;
                may_assign = may;
                holds_all = can;
                user_active = user;
                written = put;
              }
        ]
      ]

  inserted :
      (a : Assignment) (r : Role) (s s' : State)
      → insert_assignment a r s ≡ ok s'
      → (s'.assignments ≡ s.assignments ++ (a ∷ [])) × (s'.roles ≡ s.roles)
  unfolding insert_assignment
  inserted a r s s' h = (ground arith, ground arith)

  abbrev token : Text → State → Claims
  token user s = record { acl = acl_for tenant_keys user s; plat = none }

  -- What an assignment that was made gives, its maker holds there.
  given_is_held :
      (acl : List AclEntry) (unit_of : Text → Result AccessError UnitInfo)
      (is_deactivated : Text → Result AccessError Bool) (id : Text) (input : Input) (s s' : State)
      (perm target : Text)
      → (g : Granted (record { acl = acl; plat = none }) unit_of is_deactivated id input s s')
      → gives tenant_keys s.roles perm target (new_assignment id input g.unit) ≡ true
      → has_permission (record { acl = acl; plat = none }) perm (some target) ≡ true
  unfolding new_assignment
  given_is_held acl unit_of is_deactivated id input s s' perm target g h =
      let both : (grants (effective_permissions tenant_keys g.role) perm
            && starts_with target g.unit.path)
          ≡ true =
        sym (
          ap
            (λ o. elim o as (λ _. Bool) [
              | none ↦ false
              | some r ↦
                  grants (effective_permissions tenant_keys r) perm
                  && starts_with target g.unit.path
            ])
            g.found)
        ∙ h in
      holds_what_it_grants acl (effective_permissions tenant_keys g.role) perm g.unit.path target
        g.holds_all (ground arith) (ground arith)

  -- After an assignment that a caller without platform keys made, a user holds a permission at a path only
  -- if the user held it there before, or the caller holds it there; where every assignment has the path of
  -- its unit.
  pub create_assignment-has_permission :
      (path_of : Text → Text) (acl : List AclEntry) (unit_of : Text → Result AccessError UnitInfo)
      (is_deactivated : Text → Result AccessError Bool) (id : Text) (input : Input) (a : Assignment)
      (s s' : State) (user perm target : Text)
      → create_assignment tenant_keys
          (record { acl = acl; plat = none })
          unit_of
          is_deactivated
          id
          input
          s
        ≡ (ok a, s')
      → All (λ x. x.org_unit_path ≡ path_of x.org_unit_id) s'.assignments
      → has_permission (token user s') perm (some target) ≡ true
      → (has_permission (token user s) perm (some target) ≡ true)
        ⊎ (has_permission (record { acl = acl; plat = none }) perm (some target) ≡ true)
  create_assignment-has_permission path_of acl unit_of is_deactivated id input a s s' user perm
        target h paths held =
      let g =
        create_assignment-Granted (record { acl = acl; plat = none }) unit_of is_deactivated id
          input a s s' h in
      let new = new_assignment id input g.unit in
      let (list, same_roles) = inserted new g.role s s' g.written in
      let old_paths =
        All-append_left (λ x. x.org_unit_path ≡ path_of x.org_unit_id) s.assignments (new ∷ [])
          (subst (All (λ x. x.org_unit_path ≡ path_of x.org_unit_id)) list paths) in
      let p : Assignment → Bool =
        λ x. x.user_id === user && gives tenant_keys s.roles perm target x in
      let after =
        sym (
          has_permission-acl_for tenant_keys path_of perm target user s' paths
          ∙ ap
              (λ rs.
                any (λ x. x.user_id === user && gives tenant_keys rs perm target x) s'.assignments)
              same_roles
          ∙ ap (any p) list
          ∙ any-append p s.assignments (new ∷ []))
        ∙ held in
      elim (Bool-cases (any p s.assignments)) [
        | inl e ↦ inl (has_permission-acl_for tenant_keys path_of perm target user s old_paths ∙ e)
        | inr e ↦
            let one : (p new || false) ≡ true = rw e at after in
            inr
              (given_is_held acl unit_of is_deactivated id input s s' perm target g (ground arith))
      ]
