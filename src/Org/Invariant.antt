-- ===== src/Org/Invariant.antt =====
-- Every handler of the service keeps the tree, whatever it answers.
use erp_global.Common.{
  ◌+◌, ◌≡◌, ◌≢◌, refl, subst, sym, ap, ◌∙◌, true, false, not, Option, none, some, List, [], ◌∷◌,
  ◌++◌, In, ◌⊎◌, inl, inr, find-In, any, ◌&&◌, Option-cases, leb, arith,
}
use erp_global.Common.Text.{Text, ===_iff, starts_with}
use erp_global.Common.Action.{Result, ok}
use erp_global.Org.Units.{
  active, inactive, has_parent, set_status, is_active, OrgUnit, State, Caller, OrgError, max_depth,
  unit_with_id, deepest_below, moved_units, CreateInput, UpdateInput, new_unit, insert_unit,
}
use erp_global.Org.Handlers.{
  find_by_id, get, move, create, deactivate, custom_change, update, root_unit, bootstrap,
}
use erp_global.Org.Paths.{NoSlash}
use erp_global.Org.Tree.{IsTree, top, below}
use erp_global.Org.Move.{moved_units-IsTree}
use erp_global.Org.Edits.{insert-IsTree, set_status-IsTree, updated_units-IsTree}

pub unit_with_id-In :
    (id : Text) (us : List OrgUnit) (u : OrgUnit)
    → unit_with_id id us ≡ some u
    → In u us × (u.id ≡ id)
unfolding unit_with_id
unit_with_id-In id us u h = let (i, e) = find-In _ us u h in (i, (===_iff u.id id).0 e)

active_of : (u : OrgUnit) → is_active u.status ≡ true → u.status ≡ active
active_of u h = ground arith

module _ (object_id : Text → Option Text) where
  -- The id is written as the driver writes it, or it is none.
  unfoldable pub IsPlainId : Text → Type 0
  IsPlainId id = (object_id id ≡ none) ⊎ (object_id id ≡ some id)

  pub find_by_id-In :
      (id : Text) (us : List OrgUnit) (u : OrgUnit)
      → find_by_id object_id id us ≡ some u
      → In u us × (object_id id ≡ some u.id)
  unfolding find_by_id
  find_by_id-In id us u h = elim (Option-cases (object_id id)) [
    | inl e ↦ let k = rw (e, find_by_id) at h in cc
    | inr (o, e) ↦
        let k = rw (e, find_by_id) at h in
        let (i, same) = unit_with_id-In o us u k in (i, e ∙ ap some (sym same))
  ]

  plain_id :
      (id : Text) (us : List OrgUnit) (u : OrgUnit)
      → IsPlainId id
      → find_by_id object_id id us ≡ some u
      → u.id ≡ id
  unfolding IsPlainId
  plain_id id us u (inl e) h = let k = (find_by_id-In id us u h).1 in cc
  plain_id id us u (inr e) h = let k = (find_by_id-In id us u h).1 in cc

  pub get-state : (caller : Caller) (id : Text) (s : State) → (get object_id caller id s).1 ≡ s
  unfolding get
  get-state caller id s = ground arith

  move_step :
      (id new_parent : Text) (us : List OrgUnit) (unit parent : OrgUnit)
      → IsPlainId id
      → IsTree us
      → find_by_id object_id id us ≡ some unit
      → find_by_id object_id new_parent us ≡ some parent
      → not (starts_with parent.path unit.path) ≡ true
      → is_active parent.status ≡ true
      → not (
          leb (max_depth + unit.depth) (deepest_below unit.path unit.depth us + (parent.depth + 1)))
        ≡ true
      → IsTree (moved_units id unit parent us)
  move_step id new_parent us unit parent plain t hu hp out alive deep =
      subst (λ i. IsTree (moved_units i unit parent us)) (plain_id id us unit plain hu)
        (moved_units-IsTree us unit parent
          (record {
            tree = t;
            unit_in = (find_by_id-In id us unit hu).0;
            parent_in = (find_by_id-In new_parent us parent hp).0;
            outside = ground arith;
            alive = active_of parent alive;
          })
          (ground arith))

  -- `move` keeps the tree: ids stay distinct, every path is the parent's path and the id, every depth
  -- the parent's and one, no active unit is below an inactive one, and no unit is too deep. This holds
  -- whatever the caller may do and whatever `move` answers, where the id is written as the driver does.
  pub move-IsTree :
      (caller : Caller) (id new_parent : Text) (s : State)
      → IsPlainId id
      → IsTree s.units
      → IsTree (move object_id caller id new_parent s).1.units
  unfolding move
  move-IsTree caller id new_parent s plain t = grind (arith, get-state, move_step)

  deactivate_step :
      (id : Text) (us : List OrgUnit) (unit : OrgUnit)
      → IsPlainId id
      → IsTree us
      → find_by_id object_id id us ≡ some unit
      → any (λ u. is_active u.status && has_parent id u) us ≡ false
      → IsTree (set_status unit.id inactive us)
  deactivate_step id us unit plain t h none_active = set_status-IsTree unit.id us t (
      subst (λ i. any (λ u. is_active u.status && has_parent i u) us ≡ false)
        (sym (plain_id id us unit plain h)) none_active)

  -- `deactivate` keeps the tree, whatever it answers; so no active unit is left below an inactive one.
  -- The id is written as the driver does.
  pub deactivate-IsTree :
      (caller : Caller) (id : Text) (s : State)
      → IsPlainId id
      → IsTree s.units
      → IsTree (deactivate object_id caller id s).1.units
  unfolding deactivate
  deactivate-IsTree caller id s plain t = grind (arith, get-state, deactivate_step)

  module _ (validate_custom : Option Text → Option Text → Text → Result OrgError Text) where
    custom_change-state :
        (c : Option Text) (u : OrgUnit) (s : State)
        → (custom_change object_id validate_custom c u s).1 ≡ s
    unfolding custom_change
    custom_change-state none u s = refl
    custom_change-state (some c) u s = ground arith

    -- `update` keeps the tree, whatever it answers.
    pub update-IsTree :
        (user_status : Text → Option Text) (caller : Caller) (id : Text) (patch : UpdateInput)
        (s : State)
        → IsTree s.units
        → IsTree (update object_id validate_custom user_status caller id patch s).1.units
    unfolding update
    update-IsTree user_status caller id patch s t =
        grind (arith, get-state, custom_change-state, updated_units-IsTree)

    insert_unit-eq :
        (doc : OrgUnit) (us vs : List OrgUnit) → insert_unit doc us ≡ ok vs → us ++ (doc ∷ []) ≡ vs
    unfolding insert_unit
    insert_unit-eq doc us vs h = ground arith

    create_step :
        (input : CreateInput) (id custom : Text) (us vs : List OrgUnit) (parent : OrgUnit)
        → IsTree us
        → ((u : OrgUnit) → In u us → u.id ≢ id)
        → NoSlash id
        → find_by_id object_id input.parent_id us ≡ some parent
        → is_active parent.status ≡ true
        → not (leb max_depth (parent.depth + 1)) ≡ true
        → insert_unit (new_unit input id parent custom) us ≡ ok vs
        → IsTree vs
    unfolding insert_unit new_unit
    create_step input id custom us vs parent t fresh plain hp alive deep done =
        let (i, _) = find_by_id-In input.parent_id us parent hp in
        let grown : IsTree (us ++ (new_unit input id parent custom ∷ [])) =
          insert-IsTree us (new_unit input id parent custom) t fresh plain
            (below parent i refl refl refl (λ _. active_of parent alive)) (ground arith) in
        subst IsTree (insert_unit-eq (new_unit input id parent custom) us vs done) grown

    -- `create` keeps the tree, where the new id is fresh and has no slash; whatever it answers.
    pub create-IsTree :
        (caller : Caller) (input : CreateInput) (id : Text) (s : State)
        → IsTree s.units
        → ((u : OrgUnit) → In u s.units → u.id ≢ id)
        → NoSlash id
        → IsTree (create object_id validate_custom caller input id s).1.units
    unfolding create
    create-IsTree caller input id s t fresh plain = grind (arith, get-state, create_step)

bootstrap_units :
    (name id : Text) (s : State)
    → ((bootstrap name id s).1.units ≡ s.units)
      ⊎ ((bootstrap name id s).1.units ≡ s.units ++ (root_unit name id ∷ []))
unfolding bootstrap
bootstrap_units name id s = ground arith

-- `bootstrap` keeps the tree, where the new id is fresh and has no slash.
pub bootstrap-IsTree :
    (name id : Text) (s : State)
    → IsTree s.units
    → ((u : OrgUnit) → In u s.units → u.id ≢ id)
    → NoSlash id
    → IsTree (bootstrap name id s).1.units
unfolding root_unit
bootstrap-IsTree name id s t fresh plain = elim (bootstrap_units name id s) [
  | inl e ↦ subst IsTree (sym e) t
  | inr e ↦
      subst IsTree (sym e)
        (insert-IsTree s.units (root_unit name id) t fresh plain (top refl refl refl) (omega arith))
]
