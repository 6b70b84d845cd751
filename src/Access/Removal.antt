-- ===== src/Access/Removal.antt =====
-- access.service.ts, `removeAssignment`: the last administrator of a company stays.
use erp_global.Common.{
  ℕ, ◌+◌, ◌≤◌, ◌≡◌, ap, ap₂, sym, ◌∙◌, subst, Bool, true, false, ◌&&◌, not, Option, none, some,
  List, [], ◌∷◌, ◌++◌, length, find, find-In, filter, leb, ◌==◌, all, if◌then◌else◌, Bool-cases,
  Option-cases, arith, inl, inr,
}
use erp_global.Common.Text.{Text, codes, ◌===◌, ===_iff, split}
use erp_global.Common.Action.{Result, ok, Action, gets, ensure, or_raise, transaction, ◌>>=◌, ◌>>◌}
use erp_global.Contracts.{Claims, has_permission}
use erp_global.Access.Roles.{
  Role, Assignment, State, AccessError, role_not_found, assignment_not_found, outside_access,
  last_admin, assignment_removed, role_with_id, effective_permissions, assert_can_grant,
}

unfoldable pub assignment_with_id : Text → List Assignment → Option Assignment
assignment_with_id id list = find (λ a. a.id === id) list

-- `path.split('/').length === 3`
unfoldable pub is_root_level : Text → Bool
is_root_level path = length (split b'/' path) == 3

unfoldable pub is_tenant_admin : Role → Bool
is_tenant_admin r = elim r.key [ none ↦ false | some k ↦ k === codes "tenant_admin" ]

-- The assignments of a role at a path, as `countDocuments` counts them.
unfoldable pub count_at : Text → Text → List Assignment → ℕ
count_at role path list = length (filter (λ a. a.role_id === role && a.org_unit_path === path) list)

-- `deleteOne`
unfoldable pub delete_one : Text → List Assignment → List Assignment
delete_one id [] = []
delete_one id (a ∷ list) = let rest = delete_one id list in if a.id === id then list else a ∷ rest

unfoldable pub delete_assignment : Assignment → Role → State → Result AccessError State
unfolding delete_one
delete_assignment a r s = ok (record s {
  assignments = delete_one a.id s.assignments;
  outbox = s.outbox ++ (assignment_removed a.id a.user_id a.role_id r.name a.org_unit_id ∷ []);
})

module _ (tenant_keys : List Text) where
  -- The guards of `removeAssignment` after the assignment and its role were found, and the write.
  unfoldable pub remove : Claims → Assignment → Role → Action State AccessError (Unit {0})
  unfolding is_root_level is_tenant_admin count_at delete_assignment
  remove caller a role = do
    assert_can_grant caller (effective_permissions tenant_keys role) (some a.org_unit_path)
    admins ← gets (λ s. count_at a.role_id a.org_unit_path s.assignments)
    ensure (not (is_tenant_admin role && is_root_level a.org_unit_path && leb admins 1)) last_admin
    transaction (delete_assignment a role)

  unfoldable pub remove_assignment : Claims → Text → Action State AccessError (Unit {0})
  unfolding assignment_with_id role_with_id remove
  remove_assignment caller id = do
    found ← gets (λ s. assignment_with_id id s.assignments)
    a ← or_raise found assignment_not_found
    ensure (has_permission caller (codes "access.assignment.manage") (some a.org_unit_path))
        outside_access
    held ← gets (λ s. role_with_id a.role_id s.roles)
    role ← or_raise held role_not_found
    remove caller a role

is_at : Text → Text → Assignment → Bool
is_at role path a = a.role_id === role && a.org_unit_path === path

abbrev one_if : Bool → ℕ
one_if b = if b then 1 else 0

-- Deleting the assignment that was found lowers the count by that assignment.
count-delete_one :
    (id role path : Text) (list : List Assignment) (a : Assignment)
    → find (λ x. x.id === id) list ≡ some a
    → count_at role path (delete_one id list) + one_if (is_at role path a) ≡ count_at role path list
unfolding count_at delete_one is_at
count-delete_one id role path [] a h = ground arith
count-delete_one id role path (x ∷ list) a h = elim (Bool-cases (x.id === id)) [
  | inl e ↦
      let same : x ≡ a = ground arith in
      subst
        (λ y.
          count_at role path (delete_one id (x ∷ list)) + one_if (is_at role path y)
          ≡ count_at role path (x ∷ list))
        same (ground arith)
  | inr e ↦ ground (arith, count-delete_one id role path list a)
]

at_both :
    (role path : Text) (a : Assignment)
    → is_at role path a ≡ true
    → (a.role_id ≡ role) × (a.org_unit_path ≡ path)
unfolding is_at
at_both role path a h = (ground arith, ground arith)

-- A test of the last administrator that did not refuse saw two of them.
two_left :
    (role : Role) (a : Assignment) (list : List Assignment)
    → is_tenant_admin role ≡ true
    → is_root_level a.org_unit_path ≡ true
    → (is_tenant_admin role
        && is_root_level a.org_unit_path
        && leb (count_at a.role_id a.org_unit_path list) 1)
      ≡ false
    → 2 ≤ count_at a.role_id a.org_unit_path list
two_left role a list h k m = ground arith

module _ (tenant_keys : List Text) where
  removed :
      (caller : Claims) (a : Assignment) (role : Role) (s s' : State)
      → remove tenant_keys caller a role s ≡ (ok tt, s')
      → (s'.assignments ≡ delete_one a.id s.assignments)
        × ((is_tenant_admin role
              && is_root_level a.org_unit_path
              && leb (count_at a.role_id a.org_unit_path s.assignments) 1)
            ≡ false)
  unfolding remove delete_assignment assert_can_grant
  removed caller a role s s' h =
      let may =
        all (λ p. has_permission caller p (some a.org_unit_path))
          (effective_permissions tenant_keys role) in
      let last =
        is_tenant_admin role
        && is_root_level a.org_unit_path
        && leb (count_at a.role_id a.org_unit_path s.assignments) 1 in
      elim (Bool-cases may) [
        | inr e ↦ ground arith
        | inl e ↦ elim (Bool-cases last) [ inl l ↦ ground arith | inr l ↦ (ground arith, l) ]
      ]

  -- Where an administrator's role is assigned at a root path, `removeAssignment` leaves one such assignment.
  pub remove_assignment-count_at :
      (caller : Claims) (id path : Text) (admin : Role) (s s' : State)
      → role_with_id admin.id s.roles ≡ some admin
      → is_tenant_admin admin ≡ true
      → is_root_level path ≡ true
      → 1 ≤ count_at admin.id path s.assignments
      → remove_assignment tenant_keys caller id s ≡ (ok tt, s')
      → 1 ≤ count_at admin.id path s'.assignments
  unfolding remove_assignment assignment_with_id
  remove_assignment-count_at caller id path admin s s' found adm root some_left h =
      elim (Option-cases (assignment_with_id id s.assignments)) [
        | inl e ↦ ground arith
        | inr (a, e) ↦ elim (Option-cases (role_with_id a.role_id s.roles)) [
          | inl k ↦ ground arith
          | inr (role, k) ↦
              let left : remove tenant_keys caller a role s ≡ (ok tt, s') = ground arith in
              let (list, more) = removed caller a role s s' left in
              let same_id : a.id ≡ id =
                (===_iff a.id id).0 (find-In (λ x. x.id === id) s.assignments a e).1 in
              let counted = count-delete_one id admin.id path s.assignments a e in
              let after : count_at admin.id path s'.assignments
                  ≡ count_at admin.id path (delete_one id s.assignments) =
                ap (count_at admin.id path) (list ∙ ap (λ x. delete_one x s.assignments) same_id) in
              elim (Bool-cases (is_at admin.id path a)) [
                | inr other ↦ omega (arith, counted, after, some_left, ap one_if other)
                | inl here ↦
                    let (at_role, at_path) = at_both admin.id path a here in
                    let held = subst (λ x. role_with_id x s.roles ≡ some role) at_role k in
                    let same : role ≡ admin = cc in
                    let two =
                      two_left role a s.assignments
                        (subst (λ x. is_tenant_admin x ≡ true) (sym same) adm)
                        (subst (λ x. is_root_level x ≡ true) (sym at_path) root) more in
                    omega (
                      arith,
                      counted,
                      after,
                      two,
                      ap one_if here,
                      ap₂ (λ x y. count_at x y s.assignments) at_role at_path,
                    )
              ]
        ]
      ]
