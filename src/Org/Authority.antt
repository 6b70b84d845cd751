-- ===== src/Org/Authority.antt =====
-- The handlers write only what the caller may write, and each write goes with its event.
use erp_global.Common.{
  ◌+◌, ◌<◌, ◌≡◌, ◌⊎◌, inl, inr, true, Option, false, none, some, [], ◌∷◌, ◌++◌, any, ◌&&◌,
  Option-cases, arith,
}
use erp_global.Common.Text.{Text, codes, starts_with}
use erp_global.Org.Units.{
  active, inactive, is_active, OrgUnit, State, Caller, max_depth, child_path, deepest_below,
  moved_units, set_status, has_parent, in_scope, unit_moved, unit_deactivated,
}
use erp_global.Org.Handlers.{find_by_id, get, move, deactivate}
use erp_global.Org.Invariant.{get-state}

module _ (object_id : Text → Option Text) where
  -- What a `move` that writes has checked, and all that it writes.
  pub record Moved (caller : Caller) (id new_parent : Text) (s s' : State) : Type 0 where
    pub unit : OrgUnit
    pub parent : OrgUnit
    pub found : find_by_id object_id id s.units ≡ some unit
    pub parent_found : find_by_id object_id new_parent s.units ≡ some parent
    pub may_take : in_scope caller (codes "org.unit.move") unit.path ≡ true
    pub may_put : in_scope caller (codes "org.unit.move") parent.path ≡ true
    pub outside : starts_with parent.path unit.path ≡ false
    pub written : s'.units ≡ moved_units id unit parent s.units
    pub announced :
        s'.outbox ≡ s.outbox ++ (unit_moved id unit.path (child_path parent.path id) ∷ [])

  move_found :
      (caller : Caller) (id new_parent : Text) (s : State) (unit parent : OrgUnit)
      → find_by_id object_id id s.units ≡ some unit
      → find_by_id object_id new_parent s.units ≡ some parent
      → let s' = (move object_id caller id new_parent s).1 in
        (s' ≡ s)
        ⊎ (in_scope caller (codes "org.unit.move") unit.path ≡ true)
          × (in_scope caller (codes "org.unit.move") parent.path ≡ true)
          × (starts_with parent.path unit.path ≡ false)
          × (s'.units ≡ moved_units id unit parent s.units)
          × (s'.outbox ≡ s.outbox ++ (unit_moved id unit.path (child_path parent.path id) ∷ []))
  unfolding move
  move_found caller id new_parent s unit parent hu hp = grind (arith, get-state)

  move_lost :
      (caller : Caller) (id new_parent : Text) (s : State)
      → (find_by_id object_id id s.units ≡ none) ⊎ (find_by_id object_id new_parent s.units ≡ none)
      → (move object_id caller id new_parent s).1 ≡ s
  unfolding move
  move_lost caller id new_parent s h = ground arith

  -- `move` leaves everything as it was, or the given ids find a unit and a new parent, the caller may
  -- move units at both, the parent is not below the unit, and the writes are those of the move, whose
  -- new paths have the id as the caller wrote it, with one event.
  pub move_writes :
      (caller : Caller) (id new_parent : Text) (s : State)
      → let s' = (move object_id caller id new_parent s).1 in
        (s' ≡ s) ⊎ Moved caller id new_parent s s'
  move_writes caller id new_parent s = elim (Option-cases (find_by_id object_id id s.units)) [
    | inl lost ↦ inl (move_lost caller id new_parent s (inl lost))
    | inr (unit, hu) ↦ elim (Option-cases (find_by_id object_id new_parent s.units)) [
      | inl lost ↦ inl (move_lost caller id new_parent s (inr lost))
      | inr (parent, hp) ↦ elim (move_found caller id new_parent s unit parent hu hp) [
        | inl same ↦ inl same
        | inr (take, put, out, written, announced) ↦ inr (record {
          unit = unit;
          parent = parent;
          found = hu;
          parent_found = hp;
          may_take = take;
          may_put = put;
          outside = out;
          written = written;
          announced = announced;
        })
      ]
    ]
  ]

  pub record Deactivated (caller : Caller) (id : Text) (s s' : State) : Type 0 where
    pub unit : OrgUnit
    pub found : find_by_id object_id id s.units ≡ some unit
    pub may : in_scope caller (codes "org.unit.deactivate") unit.path ≡ true
    pub childless : any (λ u. is_active u.status && has_parent id u) s.units ≡ false
    pub written : s'.units ≡ set_status unit.id inactive s.units
    pub announced : s'.outbox ≡ s.outbox ++ (unit_deactivated id unit.path ∷ [])

  -- `move` does move: the ids of a unit with a parent and of an active unit that is neither below it
  -- nor already its parent, a caller with the permission at both, and a hierarchy that stays below the
  -- limit. The writes then are those of the move, and the answer is the caller's view of the unit.
  pub move_succeeds :
      (caller : Caller) (id new_parent top : Text) (s : State) (unit parent : OrgUnit)
      → find_by_id object_id id s.units ≡ some unit
      → find_by_id object_id new_parent s.units ≡ some parent
      → unit.parent_id ≡ some top
      → in_scope caller (codes "org.unit.move") unit.path ≡ true
      → in_scope caller (codes "org.unit.move") parent.path ≡ true
      → starts_with parent.path unit.path ≡ false
      → parent.status ≡ active
      → has_parent parent.id unit ≡ false
      → deepest_below unit.path unit.depth s.units + (parent.depth + 1) < max_depth + unit.depth
      → let s' : State = record {
        units = moved_units id unit parent s.units;
        outbox = s.outbox ++ (unit_moved id unit.path (child_path parent.path id) ∷ []);
      } in
        move object_id caller id new_parent s ≡ get object_id caller id s'
  unfolding move
  move_succeeds caller id new_parent top s unit parent hu hp up take put out alive other deep =
      ground arith

  deactivate_found :
      (caller : Caller) (id : Text) (s : State) (unit : OrgUnit)
      → find_by_id object_id id s.units ≡ some unit
      → let s' = (deactivate object_id caller id s).1 in
        (s' ≡ s)
        ⊎ (in_scope caller (codes "org.unit.deactivate") unit.path ≡ true)
          × (any (λ u. is_active u.status && has_parent id u) s.units ≡ false)
          × (s'.units ≡ set_status unit.id inactive s.units)
          × (s'.outbox ≡ s.outbox ++ (unit_deactivated id unit.path ∷ []))
  unfolding deactivate
  deactivate_found caller id s unit hu = grind (arith, get-state)

  deactivate_lost :
      (caller : Caller) (id : Text) (s : State)
      → find_by_id object_id id s.units ≡ none
      → (deactivate object_id caller id s).1 ≡ s
  unfolding deactivate
  deactivate_lost caller id s h = ground arith

  -- `deactivate` leaves everything as it was, or the caller may deactivate at the unit, no active unit
  -- has it for a parent, and it writes the status with one event.
  pub deactivate_writes :
      (caller : Caller) (id : Text) (s : State)
      → let s' = (deactivate object_id caller id s).1 in (s' ≡ s) ⊎ Deactivated caller id s s'
  deactivate_writes caller id s = elim (Option-cases (find_by_id object_id id s.units)) [
    | inl lost ↦ inl (deactivate_lost caller id s lost)
    | inr (unit, hu) ↦ elim (deactivate_found caller id s unit hu) [
      | inl same ↦ inl same
      | inr (may, childless, written, announced) ↦ inr (record {
        unit = unit;
        found = hu;
        may = may;
        childless = childless;
        written = written;
        announced = announced;
      })
    ]
  ]
