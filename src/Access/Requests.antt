-- ===== src/Access/Requests.antt =====
-- The calls of access.service.ts that change roles keep the role of every assignment.
use erp_global.Common.{
  sym, subst, Bool, false, not, ◌≡◌, ap, ◌∙◌, inl, inr, Option, none, some, List, [], ◌∷◌, ◌++◌,
  any, all, Bool-cases,
}
use erp_global.Common.Text.{Text, ◌===◌}
use erp_global.Common.Action.{
  Result, ensure, gets, from_result, transaction, ◌>>=◌, ◌>>◌, Result-cases,
}
use erp_global.Contracts.{Claims}
use erp_global.Access.Roles.{
  Role, State, AccessError, role_in_use, system_role, unknown_entity, unique, assert_can_grant,
}
use erp_global.Access.RoleEdits.{
  load_role_at, load_found, RoleInput, erase_role, is_used, named_entities, check_known,
  assert_entities_exist, create_role, check_permissions, update_role, delete_role,
}
use erp_global.Org.Invariant.{IsPlainId}
use erp_global.Access.Integrity.{
  RolesExist, Keeps, bind-Keeps, ensure-Keeps, from_result-Keeps, pure-Keeps, load_role-Keeps,
  transaction-Keeps, load_role_bind, assert_can_grant-Keeps,
}
use erp_global.Access.Writes.{insert_role_keeps, write_role_keeps, erase_role_keeps}

load_role_at-Keeps :
    (object_id : Text → Option Text) (id : Text) → Keeps RolesExist (load_role_at object_id id)
unfolding load_role_at Keeps
load_role_at-Keeps object_id id = found (object_id id)
  where
    found : (o : Option Text) (s : State) → RolesExist s → RolesExist (load_found o s).1
    found none s h = h
    found (some i) s h = load_role-Keeps RolesExist i s h

module _ (is_record : Text → Bool) (same : Text → Text → Bool)
    (known : Result AccessError (List Text)) where
  check_known-Keeps :
      (P : State → Type 0) (es : List Text) → Keeps P (check_known is_record same known es)
  unfolding check_known
  check_known-Keeps P [] = pure-Keeps P tt
  check_known-Keeps P (e ∷ es) =
      bind-Keeps P (from_result known) _ (from_result-Keeps P known)
        (λ k. ensure-Keeps P (all (λ n. any (λ q. q === n) k) (e ∷ es)) unknown_entity)

  pub assert_entities_exist-Keeps :
      (P : State → Type 0) (perms : List Text)
      → Keeps P (assert_entities_exist is_record same known perms)
  unfolding assert_entities_exist
  assert_entities_exist-Keeps P perms = check_known-Keeps P (named_entities is_record perms)

  pub create_role-Keeps :
      (caller : Claims) (id name : Text) (perms : List Text)
      → Keeps RolesExist (create_role is_record same known caller id name perms)
  unfolding create_role
  create_role-Keeps caller id name perms =
      bind-Keeps RolesExist _ _ (assert_entities_exist-Keeps RolesExist (unique perms)) (λ a.
        bind-Keeps RolesExist _ _ (assert_can_grant-Keeps RolesExist caller (unique perms) none)
          (λ b.
            bind-Keeps RolesExist _ _
              (transaction-Keeps RolesExist _ (
                insert_role_keeps same (record {
                  id = id;
                  name = name;
                  permissions = unique perms;
                  system = false;
                  all_permissions = false;
                  key = none;
                })))
              (λ c. load_role-Keeps RolesExist id)))

  check_permissions-Keeps :
      (P : State → Type 0) (caller : Claims) (role : Role) (perms : Option (List Text))
      → Keeps P (check_permissions is_record same known caller role perms)
  unfolding check_permissions
  check_permissions-Keeps P caller role none = pure-Keeps P tt
  check_permissions-Keeps P caller role (some ps) =
      bind-Keeps P _ _ (assert_entities_exist-Keeps P (unique ps))
        (λ a. assert_can_grant-Keeps P caller (unique (unique ps ++ role.permissions)) none)

  pub update_role-Keeps :
      (object_id : Text → Option Text) (caller : Claims) (id : Text) (input : RoleInput)
      → Keeps RolesExist (update_role is_record same known object_id caller id input)
  unfolding update_role
  update_role-Keeps object_id caller id input =
      bind-Keeps RolesExist _ _ (load_role_at-Keeps object_id id) (λ role.
        bind-Keeps RolesExist _ _ (ensure-Keeps RolesExist (not role.system) system_role) (λ a.
          bind-Keeps RolesExist _ _
            (check_permissions-Keeps RolesExist caller role input.permissions)
            (λ b.
              bind-Keeps RolesExist _ _
                (transaction-Keeps RolesExist _ (write_role_keeps same id input role))
                (λ c. load_role_at-Keeps object_id id))))

erase_unused-Keeps :
    (id : Text) (role : Role)
    → role.id ≡ id
    → Keeps RolesExist (
        gets (is_used id) >>= λ used.
        ensure (not used) role_in_use >> transaction (erase_role id role))
unfolding Keeps
erase_unused-Keeps id role same s h = elim (Bool-cases (is_used id s)) [
  | inl u ↦ rw u h
  | inr u ↦ rw u (elim (Result-cases (erase_role id role s)) [
    | inl (s', e) ↦
        rw (e, transaction) (erase_role_keeps id role s s' h (ap (λ i. is_used i s) same ∙ u) e)
    | inr (x, e) ↦ rw (e, transaction) h
  ])
]

erase_checked-Keeps :
    (caller : Claims) (id : Text) (role : Role)
    → role.id ≡ id
    → Keeps RolesExist (
        ensure (not role.system) system_role >>= λ _.
        assert_can_grant caller role.permissions none >>= λ _. gets (is_used id) >>= λ used.
        ensure (not used) role_in_use >> transaction (erase_role id role))
erase_checked-Keeps caller id role same =
    bind-Keeps RolesExist _ _ (ensure-Keeps RolesExist (not role.system) system_role) (λ a.
      bind-Keeps RolesExist _ _ (assert_can_grant-Keeps RolesExist caller role.permissions none)
        (λ b. erase_unused-Keeps id role same))

-- The id is written as the driver writes it, or is none.
pub delete_role-Keeps :
    (object_id : Text → Option Text) (caller : Claims) (id : Text)
    → IsPlainId object_id id
    → Keeps RolesExist (delete_role object_id caller id)
unfolding delete_role Keeps IsPlainId
delete_role-Keeps object_id caller id plain s h =
    let rest = λ (role : Role). ensure (not role.system) system_role >>= λ _.
    assert_can_grant caller role.permissions none >>= λ _. gets (is_used id) >>= λ used.
    ensure (not used) role_in_use >> transaction (erase_role id role) in
    elim plain [
      | inl e ↦ subst (λ o. RolesExist ((load_found o >>= rest) s).1) (sym e) h
      | inr e ↦
          subst (λ o. RolesExist ((load_found o >>= rest) s).1) (sym e)
            (load_role_bind id rest s
              (λ role same here. erase_checked-Keeps caller id role same s h) h)
    ]
