-- ===== src/Access/Integrity.antt =====
-- Every assignment of access.service.ts is of a role that exists, whichever calls are made.
use erp_global.Common.{
  Bool, true, false, ◌≡◌, refl, sym, ap, subst, inl, inr, Option, none, some, List, [], ◌∷◌, any,
  all, find, Option-cases, In, find-In, any_of_In, All,
}
use erp_global.Common.Text.{Text, ◌===◌, ===_iff}
use erp_global.Common.Action.{
  Result, ok, Action, pure, ensure, or_raise, from_result, gets, transaction, ◌>>=◌, Result-cases,
  >>=-ok, >>=-err,
}
use erp_global.Contracts.{Claims, has_permission}
use erp_global.Access.Roles.{
  Role, Assignment, State, AccessError, cannot_grant, assert_can_grant, role_not_found,
  role_with_id,
}
use erp_global.Access.RoleEdits.{load_role}

-- The role of an assignment exists.
abbrev pub has_role : List Role → Text → Bool
has_role roles id = any (λ r. r.id === id) roles

abbrev pub RolesExist : State → Type 0
RolesExist s = All (λ a. has_role s.roles a.role_id ≡ true) s.assignments

-- An action keeps what holds of the state, wherever it stops.
unfoldable pub Keeps : {A : Type 0} → (State → Type 0) → Action State AccessError A → Type 0
Keeps P m = (s : State) → P s → P (m s).1

module _ (P : State → Type 0) where
  pub bind-Keeps :
      {A B : Type 0} (m : Action State AccessError A) (k : A → Action State AccessError B)
      → Keeps P m
      → ((a : A) → Keeps P (k a))
      → Keeps P (m >>= k)
  unfolding Keeps
  bind-Keeps m k hm hk s h = elim (Result-cases (m s).0) [
    | inl (a, e) ↦
        subst (λ p. P p.1) (sym (>>=-ok m k a s (m s).1 (ap (λ r. (r, (m s).1)) e)))
          (hk a (m s).1 (hm s h))
    | inr (x, e) ↦
        subst (λ p. P p.1) (sym (>>=-err m k x s (m s).1 (ap (λ r. (r, (m s).1)) e))) (hm s h)
  ]

  pub ensure-Keeps : (b : Bool) (e : AccessError) → Keeps P (ensure b e)
  unfolding Keeps
  ensure-Keeps true e s h = h
  ensure-Keeps false e s h = h

  pub from_result-Keeps : {A : Type 0} (r : Result AccessError A) → Keeps P (from_result r)
  unfolding Keeps
  from_result-Keeps r s h = h

  pub pure-Keeps : {A : Type 0} (a : A) → Keeps P (pure a)
  unfolding Keeps
  pure-Keeps a s h = h

  pub or_raise-Keeps : {A : Type 0} (o : Option A) (e : AccessError) → Keeps P (or_raise o e)
  unfolding Keeps
  or_raise-Keeps none e s h = h
  or_raise-Keeps (some a) e s h = h

  pub load_role-Keeps : (id : Text) → Keeps P (load_role id)
  unfolding Keeps load_role
  load_role-Keeps id s h = or_raise-Keeps (role_with_id id s.roles) _ s h

  pub transaction-Keeps :
      (f : State → Result AccessError State)
      → ((s s' : State) → P s → f s ≡ ok s' → P s')
      → Keeps P (transaction f)
  unfolding Keeps
  transaction-Keeps f k s h = elim (Result-cases (f s)) [
    | inl (s', e) ↦ rw (e, transaction) (k s s' h e)
    | inr (x, e) ↦ rw (e, transaction) h
  ]

-- What follows the loading of a role knows that the role is there.
pub load_role_bind :
    {B : Type 0} (id : Text) (k : Role → Action State AccessError B) (s : State)
    → ((role : Role) → role.id ≡ id → has_role s.roles id ≡ true → RolesExist (k role s).1)
    → RolesExist s
    → RolesExist ((load_role id >>= k) s).1
unfolding load_role role_with_id
load_role_bind id k s next h = elim (Option-cases (find (λ r. r.id === id) s.roles)) [
  | inl n ↦
      subst (λ p. RolesExist p.1)
        (sym
          (>>=-err (load_role id) k role_not_found s s (ap (λ o. or_raise o role_not_found s) n)))
        h
  | inr (role, n) ↦
      let (i, e) = find-In (λ (r : Role). r.id === id) s.roles role n in
      subst (λ p. RolesExist p.1)
        (sym (>>=-ok (load_role id) k role s s (ap (λ o. or_raise o role_not_found s) n)))
        (next role ((===_iff role.id id).0 e)
          (any_of_In (λ (r : Role). r.id === id) role s.roles i e))
]

pub All-imp :
    (P Q : Assignment → Type 0) (list : List Assignment)
    → ((a : Assignment) → In a list → P a → Q a)
    → All P list
    → All Q list
All-imp P Q [] k h = tt
All-imp P Q (a ∷ list) k (h, hs) = (k a (inl refl) h, All-imp P Q list (λ b i. k b (inr i)) hs)

abbrev pub Grounded : Text → State → Type 0
Grounded id s = RolesExist s × (has_role s.roles id ≡ true)

pub gets-Keeps : (P : State → Type 0) {A : Type 0} (f : State → A) → Keeps P (gets f)
unfolding Keeps
gets-Keeps P f s h = h

pub assert_can_grant-Keeps :
    (P : State → Type 0) (caller : Claims) (perms : List Text) (path : Option Text)
    → Keeps P (assert_can_grant caller perms path)
unfolding assert_can_grant
assert_can_grant-Keeps P caller perms path =
    ensure-Keeps P (all (λ p. has_permission caller p path) perms) cannot_grant
