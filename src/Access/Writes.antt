-- ===== src/Access/Writes.antt =====
-- The writes of access.service.ts, one by one: every assignment is still of a role that exists.
use erp_global.Common.{
  Bool, true, false, not, ◌&&◌, ◌||◌, ◌≡◌, refl, sym, ap, ap₂, ◌∙◌, inl, inr, List, [], ◌∷◌, ◌++◌,
  any, filter, map, if◌then◌else◌, Bool-cases, any_of_In, any-append, All, All-append, arith,
}
use erp_global.Common.Text.{Text, ◌===◌, ===_iff}
use erp_global.Common.Action.{ok}
use erp_global.Access.Roles.{Role, Assignment, State, is_same_assignment, insert_assignment}
use erp_global.Access.Removal.{delete_one}
use erp_global.Access.RoleEdits.{
  RoleInput, insert_role, write_role, erase_role, changed_role, is_used,
}
use erp_global.Access.Integrity.{has_role, RolesExist, All-imp}

pub insert_role_keeps :
    (same : Text → Text → Bool) (r : Role) (s s' : State)
    → RolesExist s
    → insert_role same r s ≡ ok s'
    → RolesExist s'
unfolding insert_role
insert_role_keeps same r s s' h e = elim (Bool-cases (any (λ q. same q.name r.name) s.roles)) [
  | inl t ↦ let e1 = rw (t, insert_role) at e in cc
  | inr t ↦
      let e1 = rw (t, insert_role) at e in
      let roles_ : s.roles ++ (r ∷ []) ≡ s'.roles = cc in
      let list_ : s.assignments ≡ s'.assignments = cc in
      rw (← list_) (
        rw (← roles_) (
          All-imp _ _ s.assignments
            (λ a i k. any-append (λ q. q.id === a.role_id) s.roles (r ∷ []) ∙ ground arith) h))
]

has_role-map :
    (f : Role → Role) (id : Text) (rs : List Role)
    → ((r : Role) → (f r).id ≡ r.id)
    → has_role (map f rs) id ≡ has_role rs id
has_role-map f id [] h = refl
has_role-map f id (r ∷ rs) h =
    ap₂ (λ (a : Text) (b : Bool). (a === id) || b) (h r) (has_role-map f id rs h)

pub write_role_keeps :
    (same : Text → Text → Bool) (id : Text) (input : RoleInput) (r : Role) (s s' : State)
    → RolesExist s
    → write_role same id input r s ≡ ok s'
    → RolesExist s'
unfolding write_role changed_role
write_role_keeps same id input r s s' h e =
    elim (Bool-cases
      (any (λ q. not (q.id === r.id) && same q.name (changed_role input r).name) s.roles)) [
        | inl t ↦ let e1 = rw (t, write_role) at e in cc
        | inr t ↦
            let e1 = rw (t, write_role) at e in
            let roles_ : map (λ q. if q.id === r.id then changed_role input q else q) s.roles
                ≡ s'.roles =
              cc in
            let list_ : s.assignments ≡ s'.assignments = cc in
            rw (← list_) (
              rw (← roles_) (
                All-imp _ _ s.assignments
                  (λ a i k.
                    has_role-map _ a.role_id s.roles (λ q. elim (Bool-cases (q.id === r.id)) [
                      | inl b ↦ rw b refl
                      | inr b ↦ rw b refl
                    ])
                    ∙ k)
                  h))
      ]

-- Roles other than the erased one stay.
has_role-filter :
    (id other : Text) (rs : List Role)
    → (other === id) ≡ false
    → has_role (filter (λ q. not (q.id === id)) rs) other ≡ has_role rs other
has_role-filter id other [] h = refl
has_role-filter id other (r ∷ rs) h = elim (Bool-cases (r.id === id)) [
  | inl e ↦
      let same = (===_iff r.id id).0 e in
      rw e (rw same (ground (arith, has_role-filter id other rs h, turned id other h)))
  | inr e ↦ rw e (ap (λ b. (r.id === other) || b) (has_role-filter id other rs h))
]
  where
    turned : (a b : Text) → (b === a) ≡ false → (a === b) ≡ false
    turned a b h = elim (Bool-cases (a === b)) [
      | inl e ↦ let f = (===_iff b a).1 (sym ((===_iff a b).0 e)) in cc
      | inr e ↦ e
    ]

pub erase_role_keeps :
    (id : Text) (role : Role) (s s' : State)
    → RolesExist s
    → is_used role.id s ≡ false
    → erase_role id role s ≡ ok s'
    → RolesExist s'
unfolding erase_role is_used
erase_role_keeps id role s s' h unused e =
    let roles_ : filter (λ q. not (q.id === role.id)) s.roles ≡ s'.roles = cc in
    let list_ : s.assignments ≡ s'.assignments = cc in
    rw (← list_) (
      rw (← roles_) (
        All-imp _ _ s.assignments
          (λ a i k.
            has_role-filter role.id a.role_id s.roles (elim (Bool-cases (a.role_id === role.id)) [
              | inl b ↦
                  let u =
                    any_of_In (λ (x : Assignment). x.role_id === role.id) a s.assignments i b in
                  cc
              | inr b ↦ b
            ])
            ∙ k)
          h))

pub insert_assignment_keeps :
    (a : Assignment) (r : Role) (s s' : State)
    → RolesExist s
    → has_role s.roles a.role_id ≡ true
    → insert_assignment a r s ≡ ok s'
    → RolesExist s'
unfolding insert_assignment
insert_assignment_keeps a r s s' h k e =
    elim (Bool-cases (any (is_same_assignment a) s.assignments)) [
      | inl t ↦ let e1 = rw (t, insert_assignment) at e in cc
      | inr t ↦
          let e1 = rw (t, insert_assignment) at e in
          let roles_ : s.roles ≡ s'.roles = cc in
          let list_ : s.assignments ++ (a ∷ []) ≡ s'.assignments = cc in
          rw (← list_) (rw (← roles_) (All-append _ s.assignments (a ∷ []) h (k, tt)))
    ]

pub insert_assignment_roles :
    (a : Assignment) (r : Role) (s s' : State)
    → insert_assignment a r s ≡ ok s'
    → (id : Text) → has_role s'.roles id ≡ has_role s.roles id
unfolding insert_assignment
insert_assignment_roles a r s s' e id =
    elim (Bool-cases (any (is_same_assignment a) s.assignments)) [
      | inl t ↦ let e1 = rw (t, insert_assignment) at e in cc
      | inr t ↦
          let e1 = rw (t, insert_assignment) at e in
          let roles_ : s.roles ≡ s'.roles = cc in rw (← roles_) refl
    ]

pub All-delete_one :
    (P : Assignment → Type 0) (id : Text) (list : List Assignment)
    → All P list
    → All P (delete_one id list)
unfolding delete_one
All-delete_one P id [] h = tt
All-delete_one P id (a ∷ list) (h, hs) = elim (Bool-cases (a.id === id)) [
  | inl e ↦ rw e hs
  | inr e ↦ rw e (h, All-delete_one P id list hs)
]
