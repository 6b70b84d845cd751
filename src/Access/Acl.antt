-- ===== src/Access/Acl.antt =====
-- access.service.ts, `aclFor`: the entries of a token against the assignments of the user.
use erp_global.Common.{
  ◌≡◌, refl, ap, sym, ◌∙◌, subst, Bool, true, false, ◌&&◌, ◌||◌, not, none, some, List, [], ◌∷◌,
  ◌++◌, any, any-append, any-filter, All, All-filter, filter, Bool-cases, Option-cases, arith, inl,
  inr,
}
use erp_global.Common.Text.{Text, ◌===◌, ===_iff, starts_with}
use erp_global.Contracts.{
  AclEntry, has_permission, grants, permission_matches, covers_target, plat_holds,
}
use erp_global.Access.Roles.{
  Role, Assignment, State, unique, role_with_id, add_to_unit, effective_permissions, acl_from,
  acl_for,
}

any-filter-not :
    (p : Text → Bool) (x : Text) (ys : List Text)
    → p x ≡ false
    → any p (filter (λ y. not (y === x)) ys) ≡ any p ys
any-filter-not p x [] h = refl
any-filter-not p x (y ∷ ys) h = elim (Bool-cases (y === x)) [
  | inl e ↦
      let same : y ≡ x = (===_iff y x).0 e in
      let off : p y ≡ false = subst (λ z. p z ≡ false) (sym same) h in
      ground (arith, any-filter-not p x ys h)
  | inr e ↦ ground (arith, any-filter-not p x ys h)
]

any-unique : (p : Text → Bool) (xs : List Text) → any p (unique xs) ≡ any p xs
unfolding unique
any-unique p [] = refl
any-unique p (x ∷ xs) = elim (Bool-cases (p x)) [
  | inl e ↦ ground arith
  | inr e ↦ ground (arith, any-filter-not p x (unique xs) e, any-unique p xs)
]

-- Is the permission held at the path by one of the entries?
abbrev holds : Text → Text → List AclEntry → Bool
holds perm target acl = any (λ e. grants e.p perm && starts_with target e.path) acl

-- The entries have the paths of the units.
abbrev HasPaths : (Text → Text) → List AclEntry → Type 0
HasPaths path_of acl = All (λ e. e.path ≡ path_of e.ou) acl

grants-unique-append :
    (perm : Text) (xs ys : List Text)
    → grants (unique (xs ++ ys)) perm ≡ (grants xs perm || grants ys perm)
unfolding grants
grants-unique-append perm xs ys =
    any-unique (λ g. permission_matches g perm) (xs ++ ys)
    ∙ any-append (λ g. permission_matches g perm) xs ys

grants-unique : (perm : Text) (xs : List Text) → grants (unique xs) perm ≡ grants xs perm
unfolding grants
grants-unique perm xs = any-unique (λ g. permission_matches g perm) xs

add_here :
    (a : Assignment) (perms : List Text) (e : AclEntry) (es : List AclEntry)
    → e.ou === a.org_unit_id ≡ true
    → add_to_unit a perms (e ∷ es) ≡ record e { p = unique (e.p ++ perms) } ∷ es
unfolding add_to_unit
add_here a perms e es m = ground arith

add_there :
    (a : Assignment) (perms : List Text) (e : AclEntry) (es : List AclEntry)
    → e.ou === a.org_unit_id ≡ false
    → add_to_unit a perms (e ∷ es) ≡ e ∷ add_to_unit a perms es
unfolding add_to_unit
add_there a perms e es m = ground arith

holds-add_to_unit :
    (path_of : Text → Text) (perm target : Text) (a : Assignment) (perms : List Text)
    (acl : List AclEntry)
    → a.org_unit_path ≡ path_of a.org_unit_id
    → HasPaths path_of acl
    → holds perm target (add_to_unit a perms acl)
      ≡ (holds perm target acl || (grants perms perm && starts_with target a.org_unit_path))
unfolding add_to_unit
holds-add_to_unit path_of perm target a perms [] h k =
    let same = grants-unique perm perms in ground (arith, same)
holds-add_to_unit path_of perm target a perms (e ∷ es) h (ke, k) =
    elim (Bool-cases (e.ou === a.org_unit_id)) [
      | inl m ↦
          let path : e.path ≡ a.org_unit_path =
            ke ∙ ap path_of ((===_iff e.ou a.org_unit_id).0 m) ∙ sym h in
          ap (holds perm target) (add_here a perms e es m)
          ∙ ground (arith, grants-unique-append perm e.p perms, ap (starts_with target) path)
      | inr m ↦
          ap (holds perm target) (add_there a perms e es m)
          ∙ ground (arith, holds-add_to_unit path_of perm target a perms es h k)
    ]

HasPaths-add_to_unit :
    (path_of : Text → Text) (a : Assignment) (perms : List Text) (acl : List AclEntry)
    → a.org_unit_path ≡ path_of a.org_unit_id
    → HasPaths path_of acl
    → HasPaths path_of (add_to_unit a perms acl)
unfolding add_to_unit
HasPaths-add_to_unit path_of a perms [] h k = (h, tt)
HasPaths-add_to_unit path_of a perms (e ∷ es) h (ke, k) =
    elim (Bool-cases (e.ou === a.org_unit_id)) [
      | inl m ↦ subst (HasPaths path_of) (sym (add_here a perms e es m)) (ke, k)
      | inr m ↦
          subst (HasPaths path_of) (sym (add_there a perms e es m))
            (ke, HasPaths-add_to_unit path_of a perms es h k)
    ]

or_assoc : (a b c : Bool) → ((a || b) || c) ≡ (a || (b || c))
or_assoc a b c = ground arith

module _ (tenant_keys : List Text) where
  -- Does the assignment give the permission at the path?
  abbrev pub gives : List Role → Text → Text → Assignment → Bool
  gives roles perm target a = elim (role_with_id a.role_id roles) [
    | none ↦ false
    | some r ↦
        grants (effective_permissions tenant_keys r) perm && starts_with target a.org_unit_path
  ]

  -- The entries after one assignment.
  after_one : List Role → Assignment → List AclEntry → List AclEntry
  after_one roles a acl = elim (role_with_id a.role_id roles) [
    | none ↦ acl
    | some r ↦ add_to_unit a (effective_permissions tenant_keys r) acl
  ]

  holds-after_one :
      (path_of : Text → Text) (perm target : Text) (roles : List Role) (a : Assignment)
      (acl : List AclEntry)
      → a.org_unit_path ≡ path_of a.org_unit_id
      → HasPaths path_of acl
      → (holds perm target (after_one roles a acl)
          ≡ (holds perm target acl || gives roles perm target a))
        × HasPaths path_of (after_one roles a acl)
  unfolding after_one
  holds-after_one path_of perm target roles a acl h k =
      elim (Option-cases (role_with_id a.role_id roles)) [
        | inl e ↦
            let same : after_one roles a acl ≡ acl =
              ap
                (λ o. elim o [
                  | none ↦ acl
                  | some r ↦ add_to_unit a (effective_permissions tenant_keys r) acl
                ])
                e in
            let no : gives roles perm target a ≡ false =
              ap
                (λ o. elim o [
                  | none ↦ false
                  | some r ↦
                      grants (effective_permissions tenant_keys r) perm
                      && starts_with target a.org_unit_path
                ])
                e in
            (ground (arith, ap (holds perm target) same, no), subst (HasPaths path_of) (sym same) k)
        | inr (r, e) ↦
            let perms = effective_permissions tenant_keys r in
            let same : after_one roles a acl ≡ add_to_unit a perms acl =
              ap
                (λ o. elim o [
                  | none ↦ acl
                  | some r ↦ add_to_unit a (effective_permissions tenant_keys r) acl
                ])
                e in
            let it : gives roles perm target a
                ≡ (grants perms perm && starts_with target a.org_unit_path) =
              ap
                (λ o. elim o [
                  | none ↦ false
                  | some r ↦
                      grants (effective_permissions tenant_keys r) perm
                      && starts_with target a.org_unit_path
                ])
                e in
            (
              ap (holds perm target) same
                  ∙ holds-add_to_unit path_of perm target a perms acl h k
                  ∙ ap (λ b. holds perm target acl || b) (sym it),
              subst (HasPaths path_of) (sym same) (HasPaths-add_to_unit path_of a perms acl h k),
            )
      ]

  holds-acl_from :
      (path_of : Text → Text) (perm target : Text) (roles : List Role) (list : List Assignment)
      (acl : List AclEntry)
      → All (λ a. a.org_unit_path ≡ path_of a.org_unit_id) list
      → HasPaths path_of acl
      → holds perm target (acl_from tenant_keys roles list acl)
        ≡ (holds perm target acl || any (gives roles perm target) list)
  unfolding acl_from after_one
  holds-acl_from path_of perm target roles [] acl h k = ground arith
  holds-acl_from path_of perm target roles (a ∷ list) acl (ha, h) k =
      let (e, k') = holds-after_one path_of perm target roles a acl ha k in
      holds-acl_from path_of perm target roles list (after_one roles a acl) h k'
      ∙ ap (λ b. b || any (gives roles perm target) list) e
      ∙ or_assoc (holds perm target acl) (gives roles perm target a)
          (any (gives roles perm target) list)

  -- Where an assignment's path is the path of its unit, the token of a user holds a permission at a path
  -- exactly when one of the user's assignments gives it: its role still exists and grants the permission,
  -- and its unit's path begins that path.
  pub has_permission-acl_for :
      (path_of : Text → Text) (perm target user : Text) (s : State)
      → All (λ a. a.org_unit_path ≡ path_of a.org_unit_id) s.assignments
      → has_permission (record { acl = acl_for tenant_keys user s; plat = none }) perm (some target)
        ≡ any (λ a. a.user_id === user && gives s.roles perm target a) s.assignments
  unfolding has_permission acl_for covers_target plat_holds
  has_permission-acl_for path_of perm target user s h =
      holds-acl_from path_of perm target s.roles (filter (λ a. a.user_id === user) s.assignments) []
        (All-filter (λ a. a.org_unit_path ≡ path_of a.org_unit_id) (λ a. a.user_id === user)
          s.assignments h)
        tt
      ∙ any-filter (λ a. a.user_id === user) (gives s.roles perm target) s.assignments
