-- ===== src/Access/Again.antt =====
-- `bootstrap` and `ensurePackRole` of access.service.ts may be called again: sign-up and the
-- installation of a pack are tried again when they stop half way.
use erp_global.Common.{
  ◌≡◌, refl, sym, ap, subst, ◌∙◌, Bool, true, ◌&&◌, ◌||◌, Option, none, some, List, [], ◌∷◌, ◌++◌,
  any, find, any-append, ◌⊎◌, inl, inr, Bool-cases, arith,
}
use erp_global.Common.Text.{Text, ◌===◌, ===_iff, codes}
use erp_global.Common.Action.{
  ok, pure, transaction, ◌>>◌, >>=-ok, >>=-inv, transaction-inv, atomic-inv, atomic-ok,
}
use erp_global.Access.Roles.{
  Role, Assignment, State, effective_permissions, insert_assignment, is_same_assignment,
}
use erp_global.Access.RoleEdits.{add_unless}
use erp_global.Access.Setup.{
  has_key, role_with_key, insert_keyed_role, admin_role, viewer_role, upserted, upsert_admin,
  upsert_viewer, bootstrap_steps, upsert_system_role, held_by, assign_admin, bootstrap, SetupInput,
  NewIds, first_assignment,
}

pub find-append_some :
    {A : Type 0} (p : A → Bool) (xs ys : List A) (x : A)
    → find p xs ≡ some x
    → find p (xs ++ ys) ≡ some x
find-append_some p [] ys x h = cc
find-append_some p (y ∷ xs) ys x h = elim (Bool-cases (p y)) [
  | inl e ↦ rw e (rw e at h)
  | inr e ↦ rw e (find-append_some p xs ys x (rw e at h))
]

pub find-append_none :
    {A : Type 0} (p : A → Bool) (xs ys : List A) → find p xs ≡ none → find p (xs ++ ys) ≡ find p ys
find-append_none p [] ys h = refl
find-append_none p (y ∷ xs) ys h = elim (Bool-cases (p y)) [
  | inl e ↦ let k = rw e at h in cc
  | inr e ↦ rw e (find-append_none p xs ys (rw e at h))
]

-- A role with the key is found by it, the one that was there or the new one, and what was found by
-- another key still is.
pub record Added (key : Text) (new r : Role) (s s' : State) : Type 0 where
  pub source : (role_with_key key s.roles ≡ some r) ⊎ (r ≡ new)
  pub here : role_with_key key s'.roles ≡ some r
  pub others :
      (k : Text) (q : Role) → role_with_key k s.roles ≡ some q → role_with_key k s'.roles ≡ some q
  pub same_assignments : s'.assignments ≡ s.assignments
  pub kept : (p : Role → Bool) → any p s.roles ≡ true → any p s'.roles ≡ true

insert_keyed_role-Added :
    (same_name : Text → Text → Bool) (key : Text) (new : Role) (perms : List Text) (s s' : State)
    → new.key ≡ some key
    → role_with_key key s.roles ≡ none
    → insert_keyed_role same_name key new perms s ≡ ok s'
    → Added key new new s s'
unfolding insert_keyed_role role_with_key has_key
insert_keyed_role-Added same_name key new perms s s' keyed absent e =
    elim (Bool-cases (any (λ q. same_name q.name new.name || has_key key q) s.roles)) [
      | inl t ↦ let e1 = rw (t, insert_keyed_role) at e in cc
      | inr t ↦
          let e1 = rw (t, insert_keyed_role) at e in
          let roles_ : s.roles ++ (new ∷ []) ≡ s'.roles = cc in
          let list_ : s.assignments ≡ s'.assignments = cc in
          let mine : has_key key new ≡ true = rw keyed ((===_iff key key).1 refl) in
          record {
            source = inr refl;
            here =
                rw (← roles_)
                  (find-append_none (has_key key) s.roles (new ∷ []) absent ∙ rw mine refl);
            others = λ k q h. rw (← roles_) (find-append_some (has_key k) s.roles (new ∷ []) q h);
            same_assignments = sym list_;
            kept = λ p h. rw (← roles_) (any-append p s.roles (new ∷ []) ∙ ground arith);
          }
    ]

Added-refl :
    (key : Text) (new r : Role) (s : State)
    → role_with_key key s.roles ≡ some r
    → Added key new r s s
Added-refl key new r s h = record {
  source = inl h;
  here = h;
  others = λ k q e. e;
  same_assignments = refl;
  kept = λ p e. e;
}

module _ (tenant_keys : List Text) (same_name : Text → Text → Bool) where
  upsert_system_role_found :
      (key : Text) (new r : Role) (s : State)
      → role_with_key key s.roles ≡ some r
      → upsert_system_role tenant_keys same_name key new s ≡ (ok r, s)
  unfolding upsert_system_role upserted
  upsert_system_role_found key new r s h = ap (λ o. upserted tenant_keys same_name o key new s) h

  upserted-Added :
      (found : Option Role) (key : Text) (new r : Role) (s s' : State)
      → new.key ≡ some key
      → role_with_key key s.roles ≡ found
      → upserted tenant_keys same_name found key new s ≡ (ok r, s')
      → Added key new r s s'
  unfolding upserted
  upserted-Added (some q) key new r s s' keyed h e =
      let same : q ≡ r = cc in
      let still : s ≡ s' = ap (λ p. p.1) e in
      subst (λ t. Added key new r s t) still (Added-refl key new r s (h ∙ ap some same))
  upserted-Added none key new r s s' keyed h e =
      let write = insert_keyed_role same_name key new (effective_permissions tenant_keys new) in
      let (u, t, e1, e2) = >>=-inv (transaction write) (λ _. pure new) r s s' e in
      let same : new ≡ r = cc in
      let still : t ≡ s' = ap (λ p. p.1) e2 in
      subst (λ q. Added key new q s s') same
        (subst (λ v. Added key new new s v) still
          (insert_keyed_role-Added same_name key new _ s t keyed h
            (transaction-inv write u s t e1)))

  upsert_system_role-Added :
      (key : Text) (new r : Role) (s s' : State)
      → new.key ≡ some key
      → upsert_system_role tenant_keys same_name key new s ≡ (ok r, s')
      → Added key new r s s'
  unfolding upsert_system_role
  upsert_system_role-Added key new r s s' keyed e =
      upserted-Added (role_with_key key s.roles) key new r s s' keyed refl e

assign_admin_held :
    (ids : NewIds) (input : SetupInput) (admin : Role) (a : Assignment) (s : State)
    → held_by input.admin_user_id admin.id s.assignments ≡ some a
    → assign_admin ids input admin s ≡ (ok a, s)
unfolding assign_admin add_unless
assign_admin_held ids input admin a s h = rw h refl

insert_assignment-held_by :
    (new : Assignment) (role : Role) (s s' : State)
    → held_by new.user_id new.role_id s.assignments ≡ none
    → insert_assignment new role s ≡ ok s'
    → (s'.roles ≡ s.roles) × (held_by new.user_id new.role_id s'.assignments ≡ some new)
unfolding insert_assignment held_by
insert_assignment-held_by new role s s' n e =
    elim (Bool-cases (any (is_same_assignment new) s.assignments)) [
      | inl t ↦ let e1 = rw (t, insert_assignment) at e in cc
      | inr t ↦
          let e1 = rw (t, insert_assignment) at e in
          let roles_ : s.roles ≡ s'.roles = cc in
          let list_ : s.assignments ++ (new ∷ []) ≡ s'.assignments = cc in
          let p = λ (a : Assignment). a.user_id === new.user_id && a.role_id === new.role_id in
          let mine : p new ≡ true =
            ground (arith, ===_iff new.user_id new.user_id, ===_iff new.role_id new.role_id) in
          (sym roles_, rw (← list_) (find-append_none p s.assignments (new ∷ []) n ∙ rw mine refl))
    ]

add_unless-held_by :
    (found : Option Assignment) (new a : Assignment) (role : Role) (s s' : State)
    → held_by new.user_id new.role_id s.assignments ≡ found
    → add_unless found new role s ≡ (ok a, s')
    → (s'.roles ≡ s.roles)
      × (held_by new.user_id new.role_id s'.assignments ≡ some a)
      × ((found ≡ some a) ⊎ (a ≡ new))
unfolding add_unless
add_unless-held_by (some b) new a role s s' h e =
    let still : s ≡ s' = ap (λ p. p.1) e in
    let same : b ≡ a = cc in
    (
      ap State.roles (sym still),
      ap (λ (t : State). held_by new.user_id new.role_id t.assignments) (sym still)
          ∙ h
          ∙ ap some same,
      inl (ap some same),
    )
add_unless-held_by none new a role s s' h e =
    let write = insert_assignment new role in
    let (u, t, e1, e2) = >>=-inv (transaction write) (λ _. pure new) a s s' e in
    let still : t ≡ s' = ap (λ p. p.1) e2 in
    let same : new ≡ a = cc in
    let (r, k) = insert_assignment-held_by new role s t h (transaction-inv write u s t e1) in
    (
      ap State.roles (sym still) ∙ r,
      ap (λ (t : State). held_by new.user_id new.role_id t.assignments) (sym still)
          ∙ k
          ∙ ap some same,
      inr (sym same),
    )

assign_admin-held_by :
    (ids : NewIds) (input : SetupInput) (admin : Role) (a : Assignment) (s s' : State)
    → assign_admin ids input admin s ≡ (ok a, s')
    → (s'.roles ≡ s.roles)
      × (held_by input.admin_user_id admin.id s'.assignments ≡ some a)
      × ((held_by input.admin_user_id admin.id s.assignments ≡ some a)
          ⊎ (a ≡ first_assignment ids input admin))
unfolding assign_admin
assign_admin-held_by ids input admin a s s' e =
    add_unless-held_by _ (first_assignment ids input admin) a _ s s' refl e

module _ (tenant_keys : List Text) (same_name : Text → Text → Bool) where
  -- The steps of `bootstrap` that returned.
  pub bootstrap-inv :
      (ids : NewIds) (input : SetupInput) (s s' : State)
      → bootstrap tenant_keys same_name ids input s ≡ (ok tt, s')
      → (admin : Role) × (viewer : Role) × (a : Assignment) × (s1 : State) × (s2 : State) × Added
          (codes "tenant_admin")
          (admin_role ids)
          admin
          s
          s1
        × Added (codes "viewer") (viewer_role tenant_keys ids) viewer s1 s2
        × (assign_admin ids input admin s2 ≡ (ok a, s'))
  unfolding bootstrap bootstrap_steps upsert_admin upsert_viewer
  bootstrap-inv ids input s s' e =
      let last = λ (admin : Role). assign_admin ids input admin >> pure tt in
      let first = upsert_admin tenant_keys same_name ids in
      let second = upsert_viewer tenant_keys same_name ids in
      let steps = bootstrap_steps tenant_keys same_name ids input in
      let (admin, s1, e1, rest) =
        >>=-inv first (λ admin. second >> last admin) tt s s' (atomic-inv steps tt s s' e) in
      let (viewer, s2, e2, rest2) = >>=-inv second (λ _. last admin) tt s1 s' rest in
      let (a, s3, e3, rest3) =
        >>=-inv (assign_admin ids input admin) (λ _. pure tt) tt s2 s' rest2 in
      let still : s3 ≡ s' = ap (λ p. p.1) rest3 in
      (
        admin,
        viewer,
        a,
        s1,
        s2,
        upsert_system_role-Added tenant_keys same_name _ (admin_role ids) admin s s1 refl e1,
        upsert_system_role-Added tenant_keys same_name _ (viewer_role tenant_keys ids) viewer s1 s2
            refl e2,
        e3 ∙ ap (λ t. (ok a, t)) still,
      )

  -- `bootstrap` that returned has left a role under the key of the administrator's role, which was
  -- there before or holds all permissions and is one of the system's, and an assignment of it to the
  -- given user, which was there before or is at the root unit and its path. Called again for the same
  -- user, with whatever new ids, it returns and writes nothing.
  pub bootstrap-again :
      (ids ids' : NewIds) (input : SetupInput) (s s' : State)
      → bootstrap tenant_keys same_name ids input s ≡ (ok tt, s')
      → (bootstrap tenant_keys same_name ids' input s' ≡ (ok tt, s'))
        × ((admin : Role) × (a : Assignment) × (role_with_key (codes "tenant_admin") s'.roles
              ≡ some admin)
            × (held_by input.admin_user_id admin.id s'.assignments ≡ some a)
            × ((role_with_key (codes "tenant_admin") s.roles ≡ some admin)
                ⊎ ((admin.all_permissions ≡ true) × (admin.system ≡ true)))
            × ((held_by input.admin_user_id admin.id s.assignments ≡ some a)
                ⊎ ((a.org_unit_id ≡ input.root_org_unit_id) × (a.org_unit_path ≡ input.root_path))))
  unfolding bootstrap bootstrap_steps upsert_admin upsert_viewer
  bootstrap-again ids ids' input s s' e =
      let (admin, viewer, a, s1, s2, first, second, given) = bootstrap-inv ids input s s' e in
      let (r, held, given_) = assign_admin-held_by ids input admin a s2 s' given in
      let h1 = ap (role_with_key (codes "tenant_admin")) r ∙ second.others _ admin first.here in
      let h2 = ap (role_with_key (codes "viewer")) r ∙ second.here in
      let last = λ (admin : Role). assign_admin ids' input admin >> pure tt in
      (
        atomic-ok (bootstrap_steps tenant_keys same_name ids' input) tt s' s' (
            >>=-ok (upsert_admin tenant_keys same_name ids')
              (λ admin. upsert_viewer tenant_keys same_name ids' >> last admin) admin s' s'
              (upsert_system_role_found tenant_keys same_name (codes "tenant_admin")
                (admin_role ids') admin s' h1)
            ∙ >>=-ok (upsert_viewer tenant_keys same_name ids') (λ _. last admin) viewer s' s'
                (upsert_system_role_found tenant_keys same_name (codes "viewer")
                  (viewer_role tenant_keys ids') viewer s' h2)
            ∙ >>=-ok (assign_admin ids' input admin) (λ _. pure tt) a s' s'
                (assign_admin_held ids' input admin a s' held)),
        (
          admin,
          a,
          h1,
          held,
          elim first.source [
            | inl f ↦ inl f
            | inr n ↦ inr (ap Role.all_permissions n, ap Role.system n)
          ],
          elim given_ [
            | inl f ↦ inl (
                ap (held_by input.admin_user_id admin.id)
                  (sym (second.same_assignments ∙ first.same_assignments))
                ∙ f)
            | inr n ↦ inr (ap Assignment.org_unit_id n, ap Assignment.org_unit_path n)
          ],
        ),
      )
