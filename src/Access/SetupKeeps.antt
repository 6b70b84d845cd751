-- ===== src/Access/SetupKeeps.antt =====
-- `ensurePackRole`, `bootstrap` and `undoBootstrap` of access.service.ts keep the role of every
-- assignment.
use erp_global.Common.{
  ◌≡◌, refl, sym, ap, subst, ◌∙◌, inl, inr, Bool, true, ◌||◌, Option, none, some, List, [], ◌∷◌,
  ◌++◌, any, find-In, any_of_In, any-append, All, Bool-cases, arith,
}
use erp_global.Common.Text.{Text, ◌===◌, ===_iff, codes}
use erp_global.Common.Action.{Result, ok, err, Action, transaction, atomic-cases}
use erp_global.Access.Roles.{Role, Assignment, State, AccessError, duplicate_key, unique}
use erp_global.Access.Setup.{
  has_key, role_with_key, insert_keyed_role, pack_role, create_pack_role, on_duplicate, ensured,
  ensure_pack_role, NewIds, SetupInput, first_assignment, assign_admin, held_by, bootstrap,
  bootstrap_steps, undo_bootstrap,
}
use erp_global.Access.Integrity.{
  has_role, RolesExist, Keeps, bind-Keeps, pure-Keeps, load_role-Keeps, transaction-Keeps, All-imp,
}
use erp_global.Access.Requests.{assert_entities_exist-Keeps}
use erp_global.Access.Grants.{add_unless-Keeps}
use erp_global.Access.Again.{Added, bootstrap-inv}

-- More roles, and the same assignments.
more_roles-RolesExist :
    (s t : State)
    → ((p : Role → Bool) → any p s.roles ≡ true → any p t.roles ≡ true)
    → t.assignments ≡ s.assignments
    → RolesExist s
    → RolesExist t
more_roles-RolesExist s t kept same h =
    subst (All (λ (a : Assignment). has_role t.roles a.role_id ≡ true)) (sym same)
      (All-imp _ _ s.assignments (λ a i k. kept (λ r. r.id === a.role_id) k) h)

Added-RolesExist :
    (key : Text) (new r : Role) (s t : State) → Added key new r s t → RolesExist s → RolesExist t
Added-RolesExist key new r s t d = more_roles-RolesExist s t d.kept d.same_assignments

insert_keyed_role_keeps :
    (same_name : Text → Text → Bool) (key : Text) (r : Role) (perms : List Text) (s t : State)
    → RolesExist s
    → insert_keyed_role same_name key r perms s ≡ ok t
    → RolesExist t
unfolding insert_keyed_role
insert_keyed_role_keeps same_name key r perms s t h e =
    elim (Bool-cases (any (λ q. same_name q.name r.name || has_key key q) s.roles)) [
      | inl b ↦ let e1 = rw (b, insert_keyed_role) at e in cc
      | inr b ↦
          let e1 = rw (b, insert_keyed_role) at e in
          let roles_ : s.roles ++ (r ∷ []) ≡ t.roles = cc in
          let list_ : s.assignments ≡ t.assignments = cc in
          more_roles-RolesExist s t
            (λ p k. rw (← roles_) (any-append p s.roles (r ∷ []) ∙ ground arith)) (sym list_) h
    ]

on_duplicate-Keeps :
    {A : Type 0} (P : State → Type 0) (m k : Action State AccessError A)
    → Keeps P m
    → Keeps P k
    → Keeps P (on_duplicate m k)
unfolding Keeps
on_duplicate-Keeps {A} P m k hm hk s h = settled (m s).0 (m s).1 (hm s h)
  where
    settled : (r : Result AccessError A) (t : State) → P t → P (on_duplicate (λ _. (r, t)) k t).1
    settled (ok a) t p = p
    settled (err duplicate_key) t p = hk t p
    settled (err x) t p = p

module _ (is_record : Text → Bool) (same_name : Text → Text → Bool)
    (known : Result AccessError (List Text)) where
  ensured-Keeps :
      (found : Option Role) (key id name : Text) (perms : List Text)
      → Keeps RolesExist (ensured is_record same_name known found key id name perms)
  unfolding ensured create_pack_role
  ensured-Keeps (some r) key id name perms = pure-Keeps RolesExist r
  ensured-Keeps none key id name perms =
      let write = λ (n : Text).
        insert_keyed_role same_name key (pack_role key id n (unique perms)) (unique perms) in
      let apart = name ++ (codes " (" ++ (key ++ codes ")")) in
      let keeps = λ (n : Text). transaction-Keeps RolesExist (write n) (
        insert_keyed_role_keeps same_name key (pack_role key id n (unique perms)) (unique perms)) in
      bind-Keeps RolesExist _ _
        (assert_entities_exist-Keeps is_record same_name known RolesExist (unique perms))
        (λ u.
          bind-Keeps RolesExist _ _
            (on_duplicate-Keeps RolesExist (transaction (write name)) (transaction (write apart))
              (keeps name) (keeps apart))
            (λ v. load_role-Keeps RolesExist id))

  pub ensure_pack_role-Keeps :
      (key id name : Text) (perms : List Text)
      → Keeps RolesExist (ensure_pack_role is_record same_name known key id name perms)
  unfolding ensure_pack_role Keeps
  ensure_pack_role-Keeps key id name perms s h =
      ensured-Keeps (role_with_key key s.roles) key id name perms s h

has_role_with_key :
    (key : Text) (r : Role) (rs : List Role)
    → role_with_key key rs ≡ some r
    → has_role rs r.id ≡ true
unfolding role_with_key
has_role_with_key key r rs h =
    any_of_In (λ q. q.id === r.id) r rs (find-In (has_key key) rs r h).0
      ((===_iff r.id r.id).1 refl)

module _ (tenant_keys : List Text) (same_name : Text → Text → Bool) where
  pub bootstrap-Keeps :
      (ids : NewIds) (input : SetupInput)
      → Keeps RolesExist (bootstrap tenant_keys same_name ids input)
  unfolding bootstrap Keeps assign_admin
  bootstrap-Keeps ids input s h =
      elim (atomic-cases (bootstrap_steps tenant_keys same_name ids input) s) [
        | inr unchanged ↦ subst RolesExist (sym unchanged) h
        | inl (u, done) ↦
            let s' = (bootstrap_steps tenant_keys same_name ids input s).1 in
            let (admin, viewer, a, s1, s2, first, second, given) =
              bootstrap-inv tenant_keys same_name ids input s s' done in
            let before =
              Added-RolesExist _ _ viewer s1 s2 second (Added-RolesExist _ _ admin s s1 first h) in
            let there : has_role s2.roles admin.id ≡ true =
              second.kept (λ r. r.id === admin.id)
                (has_role_with_key (codes "tenant_admin") admin s1.roles first.here) in
            let new = first_assignment ids input admin in
            let found = held_by input.admin_user_id admin.id s2.assignments in
            subst RolesExist (ap (λ p. p.1) given ∙ sym (ap (λ p. p.1) done))
              (add_unless-Keeps found new (record admin { name = codes "Tenant Admin" }) s2
                (before, there)).0
      ]

pub undo_bootstrap-Keeps : Keeps RolesExist undo_bootstrap
unfolding undo_bootstrap Keeps
undo_bootstrap-Keeps s h = tt
