-- ===== src/Access/PackRoles.antt =====
-- `ensurePackRole` of access.service.ts: what it makes, and that it may be called again.
use erp_global.Common.{
  ◌≡◌, refl, sym, ap, ◌∙◌, ◌⊎◌, inl, inr, Bool, true, ◌||◌, none, some, List, [], ◌∷◌, ◌++◌, any,
  find, Bool-cases, Option-cases,
}
use erp_global.Common.Text.{Text, ◌===◌, ===_iff, codes}
use erp_global.Common.Action.{
  Result, ok, err, or_raise, transaction, ◌>>◌, >>=-inv, transaction-inv,
}
use erp_global.Access.Roles.{
  Role, State, AccessError, role_created, duplicate_key, role_not_found, role_with_id, unique,
}
use erp_global.Access.RoleEdits.{load_role, assert_entities_exist}
use erp_global.Access.Setup.{
  has_key, role_with_key, insert_keyed_role, on_duplicate, pack_role, create_pack_role, ensured,
  ensure_pack_role,
}
use erp_global.Access.Integrity.{Keeps}
use erp_global.Access.Requests.{assert_entities_exist-Keeps}
use erp_global.Access.Again.{find-append_none}

-- The state with one more role and its event.
abbrev pub with_role : Role → State → State
with_role r s = record s {
  roles = s.roles ++ (r ∷ []);
  outbox = s.outbox ++ (role_created r.id r.name r.permissions ∷ []);
}

insert_keyed_role-with_role :
    (same_name : Text → Text → Bool) (key : Text) (new : Role) (s s' : State)
    → insert_keyed_role same_name key new new.permissions s ≡ ok s'
    → s' ≡ with_role new s
unfolding insert_keyed_role
insert_keyed_role-with_role same_name key new s s' e =
    elim (Bool-cases (any (λ q. same_name q.name new.name || has_key key q) s.roles)) [
      | inl t ↦ let e1 = rw (t, insert_keyed_role) at e in cc
      | inr t ↦ let e1 = rw (t, insert_keyed_role) at e in sym (cc)
    ]

-- The second write is made in the state before the first, which failed whole.
on_duplicate-inv :
    (r : Result AccessError State) (g : State → Result AccessError State) (s t : State)
    → on_duplicate (transaction (λ _. r)) (transaction g) s ≡ (ok tt, t)
    → (r ≡ ok t) ⊎ (g s ≡ ok t)
on_duplicate-inv (ok u) g s t e = inl (ap ok (ap (λ p. p.1) e))
on_duplicate-inv (err duplicate_key) g s t e = inr (transaction-inv g tt s t e)
on_duplicate-inv (err x) g s t e = let k = ap (λ p. p.0) e in cc

-- The name asked for, or that name with the key behind it.
abbrev pub IsNamed : Text → Text → Text → Type 0
IsNamed key name n = (n ≡ name) ⊎ (n ≡ name ++ (codes " (" ++ (key ++ codes ")")))

module _ (is_record : Text → Bool) (same_name : Text → Text → Bool)
    (known : Result AccessError (List Text)) where
  create_pack_role-with_role :
      (key id name : Text) (perms : List Text) (s t : State)
      → create_pack_role is_record same_name known key id name perms s ≡ (ok tt, t)
      → (n : Text) × IsNamed key name n × (t ≡ with_role (pack_role key id n perms) s)
  unfolding create_pack_role
  create_pack_role-with_role key id name perms s t e =
      let write = λ (n : Text). insert_keyed_role same_name key (pack_role key id n perms) perms in
      let apart = name ++ (codes " (" ++ (key ++ codes ")")) in
      elim (on_duplicate-inv (write name s) (write apart) s t e) [
        | inl h ↦ (name, inl refl, insert_keyed_role-with_role same_name key _ s t h)
        | inr h ↦ (apart, inr refl, insert_keyed_role-with_role same_name key _ s t h)
      ]

  -- What `ensurePackRole` makes where no role has the key.
  ensured-with_role :
      (key id name : Text) (perms : List Text) (r : Role) (s s' : State)
      → role_with_id id s.roles ≡ none
      → ensured is_record same_name known none key id name perms s ≡ (ok r, s')
      → (n : Text) × IsNamed key name n
        × (r ≡ pack_role key id n (unique perms))
        × (s' ≡ with_role r s)
  unfolding ensured load_role role_with_id Keeps
  ensured-with_role key id name perms r s s' fresh e =
      let check = assert_entities_exist is_record same_name known (unique perms) in
      let make = create_pack_role is_record same_name known key id name (unique perms) in
      let (u, s1, e1, rest) = >>=-inv check (λ _. make >> load_role id) r s s' e in
      let (v, s2, e2, rest2) = >>=-inv make (λ _. load_role id) r s1 s' rest in
      let same : s1 ≡ s =
        ap (λ p. p.1) (sym e1)
        ∙ assert_entities_exist-Keeps is_record same_name known (λ t. t ≡ s) (unique perms) s
            refl in
      let (n, named, written) = create_pack_role-with_role key id name (unique perms) s1 s2 e2 in
      let made = pack_role key id n (unique perms) in
      let at_end : s2 ≡ with_role made s = written ∙ ap (with_role made) same in
      let found : find (λ q. q.id === id) s2.roles ≡ some made =
        ap (λ (t : State). find (λ q. q.id === id) t.roles) at_end
        ∙ find-append_none (λ q. q.id === id) s.roles (made ∷ []) fresh
        ∙ rw ((===_iff id id).1 refl) refl in
      let loaded = ap (λ o. or_raise o role_not_found s2) (sym found) ∙ rest2 in
      let made_ : made ≡ r = cc in
      let still : s2 ≡ s' = ap (λ p. p.1) loaded in
      (n, named, sym made_, sym still ∙ at_end ∙ ap (λ q. with_role q s) made_)

  ensure_pack_role_found :
      (key id name : Text) (perms : List Text) (r : Role) (s : State)
      → role_with_key key s.roles ≡ some r
      → ensure_pack_role is_record same_name known key id name perms s ≡ (ok r, s)
  unfolding ensure_pack_role ensured
  ensure_pack_role_found key id name perms r s h =
      ap (λ o. ensured is_record same_name known o key id name perms s) h

  ensure_pack_role-cases :
      (key id name : Text) (perms : List Text) (r : Role) (s s' : State)
      → role_with_id id s.roles ≡ none
      → ensure_pack_role is_record same_name known key id name perms s ≡ (ok r, s')
      → ((role_with_key key s.roles ≡ some r) × (s' ≡ s))
        ⊎ ((n : Text) × IsNamed key name n
            × (role_with_key key s.roles ≡ none)
            × (r ≡ pack_role key id n (unique perms))
            × (s' ≡ with_role r s))
  unfolding ensure_pack_role ensured
  ensure_pack_role-cases key id name perms r s s' fresh e =
      elim (Option-cases (role_with_key key s.roles)) [
        | inr (q, h) ↦
            let k = sym (ensure_pack_role_found key id name perms q s h) ∙ e in
            let same : q ≡ r = cc in inl (h ∙ ap some same, sym (ap (λ p. p.1) k))
        | inl n ↦
            let k = ap (λ o. ensured is_record same_name known o key id name perms s) (sym n) ∙ e in
            let (m, named, made, written) = ensured-with_role key id name perms r s s' fresh k in
            inr (m, named, n, made, written)
      ]

-- `ensurePackRole` that returned gives the role that had the key, with nothing written, or adds one
-- role with the key and its event: its permissions are those asked for, each once, and its name is the
-- one asked for, or that with the key behind it. Called again with the same key, whatever else it is
-- given, it gives the same role and writes nothing. The id of a new role is that of no other.
pub ensure_pack_role-again :
    (is_record : Text → Bool) (same_name : Text → Text → Bool)
    (known known' : Result AccessError (List Text)) (key id id' name name' : Text)
    (perms perms' : List Text) (r : Role) (s s' : State)
    → role_with_id id s.roles ≡ none
    → ensure_pack_role is_record same_name known key id name perms s ≡ (ok r, s')
    → (((role_with_key key s.roles ≡ some r) × (s' ≡ s))
        ⊎ ((n : Text) × IsNamed key name n
            × (role_with_key key s.roles ≡ none)
            × (r ≡ pack_role key id n (unique perms))
            × (s' ≡ with_role r s)))
      × (ensure_pack_role is_record same_name known' key id' name' perms' s' ≡ (ok r, s'))
unfolding role_with_key has_key
ensure_pack_role-again is_record same_name known known' key id id' name name' perms perms' r s s'
      fresh e =
    let made = ensure_pack_role-cases is_record same_name known key id name perms r s s' fresh e in
    let found : role_with_key key s'.roles ≡ some r = elim made [
      | inl (h, same) ↦ ap (λ (t : State). role_with_key key t.roles) same ∙ h
      | inr (n, named, h, is, written) ↦
          let mine : has_key key r ≡ true = ap (has_key key) is ∙ (===_iff key key).1 refl in
          ap (λ (t : State). role_with_key key t.roles) written
          ∙ find-append_none (has_key key) s.roles (r ∷ []) h
          ∙ rw mine refl
    ] in
    (made, ensure_pack_role_found is_record same_name known' key id' name' perms' r s' found)
