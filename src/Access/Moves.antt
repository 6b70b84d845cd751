-- ===== src/Access/Moves.antt =====
-- `applyOrgMove` of access.service.ts beside `move` of org.service.ts: the copies of the paths in the
-- assignments follow the units.
use erp_global.Common.{
  Option, ℕ, ◌+◌, true, false, ◌≡◌, refl, sym, ap, ◌∙◌, ◌⊎◌, inl, inr, List, [], ◌∷◌, ◌++◌, map, In,
  In-map, Bool-cases, length,
}
use erp_global.Common.Text.{Text, ◌===◌, starts_with, drop}
use erp_global.Org.Units.{
  OrgUnit, child_path, shift_path, shift_unit, set_parent, is_below, moved_units, unit_with_id,
  Caller, unit_moved,
}
use erp_global.Org.Handlers.{move}
use erp_global.Org.Authority.{move_writes}
use erp_global.Org.Units as Org
use erp_global.Access.Roles.{Assignment, State}
use erp_global.Access.RoleEdits.{moved_path, apply_org_move}

-- Every assignment has the path of its unit.
abbrev pub InStep : List OrgUnit → List Assignment → Type 0
InStep us list =
    (a : Assignment)
    → In a list
    → (u : OrgUnit) → In u us
    → u.id ≡ a.org_unit_id
    → a.org_unit_path ≡ u.path

set_parent-id : (id parent : Text) (u : OrgUnit) → (set_parent id parent u).id ≡ u.id
unfolding set_parent
set_parent-id id parent u = elim (Bool-cases (u.id === id)) [
  | inl e ↦ rw e refl
  | inr e ↦ rw e refl
]

set_parent-path : (id parent : Text) (u : OrgUnit) → (set_parent id parent u).path ≡ u.path
unfolding set_parent
set_parent-path id parent u = elim (Bool-cases (u.id === id)) [
  | inl e ↦ rw e refl
  | inr e ↦ rw e refl
]

-- A unit after a move: the same id, and the path that an assignment's copy gets too.
moved_path_same :
    (old new : Text) (from to : ℕ) (id parent : Text) (u : OrgUnit) (a : Assignment)
    → a.org_unit_path ≡ u.path
    → (moved_path old new a).org_unit_path
      ≡ (set_parent id parent (shift_unit old new from to u)).path
unfolding moved_path shift_unit shift_path
moved_path_same old new from to id parent u a e = elim (Bool-cases (starts_with u.path old)) [
  | inl h ↦
      let k : starts_with a.org_unit_path old ≡ true = rw e h in
      rw k (rw h (ap (λ p. new ++ drop (length old) p) e ∙ sym (set_parent-path id parent _)))
  | inr h ↦
      let k : starts_with a.org_unit_path old ≡ false = rw e h in
      rw k (rw h (e ∙ sym (set_parent-path id parent u)))
]

moved_id :
    (old new : Text) (from to : ℕ) (id parent : Text) (u : OrgUnit)
    → (set_parent id parent (shift_unit old new from to u)).id ≡ u.id
unfolding shift_unit
moved_id old new from to id parent u =
    set_parent-id id parent _
    ∙ elim (Bool-cases (starts_with u.path old)) [ inl h ↦ rw h refl | inr h ↦ rw h refl ]

moved_path-org_unit_id :
    (old new : Text) (a : Assignment) → (moved_path old new a).org_unit_id ≡ a.org_unit_id
unfolding moved_path
moved_path-org_unit_id old new a = elim (Bool-cases (starts_with a.org_unit_path old)) [
  | inl h ↦ rw h refl
  | inr h ↦ rw h refl
]

moved_units-InStep :
    (us : List OrgUnit) (list : List Assignment) (id : Text) (unit parent : OrgUnit)
    → InStep us list
    → InStep
        (moved_units id unit parent us)
        (map (moved_path unit.path (child_path parent.path id)) list)
unfolding moved_units
moved_units-InStep us list id unit parent h a i u j same =
    let (b, k, ea) = In-map _ list a i in
    let (v, l, eu) = In-map _ us u j in
    let old = unit.path in
    let new = child_path parent.path id in
    let ids : v.id ≡ b.org_unit_id =
      sym (moved_id old new unit.depth (parent.depth + 1) unit.id parent.id v)
      ∙ ap (λ (w : OrgUnit). w.id) (sym eu)
      ∙ same
      ∙ ap (λ (c : Assignment). c.org_unit_id) ea
      ∙ moved_path-org_unit_id old new b in
    ap (λ (c : Assignment). c.org_unit_path) ea
    ∙ moved_path_same old new unit.depth (parent.depth + 1) unit.id parent.id v b (h b k v l ids)
    ∙ ap (λ (w : OrgUnit). w.path) (sym eu)

-- A call of `move` writes nothing, or it records one event, and applying that event to the access
-- service's state gives every assignment the path that its unit has after the move, where each had the
-- path of its unit before.
pub move-InStep :
    (object_id : Text → Option Text) (caller : Caller) (id new_parent : Text) (org : Org.State)
    (s : State)
    → InStep org.units s.assignments
    → ((move object_id caller id new_parent org).1 ≡ org)
      ⊎ ((old : Text) × (new : Text) × ((move object_id caller id new_parent org).1.outbox
            ≡ org.outbox ++ (unit_moved id old new ∷ []))
          × InStep
              (move object_id caller id new_parent org).1.units
              (apply_org_move old new s).assignments)
unfolding apply_org_move unit_with_id
move-InStep object_id caller id new_parent org s h =
    elim (move_writes object_id caller id new_parent org) [
      | inl same ↦ inl same
      | inr w ↦ inr (
        w.unit.path,
        child_path w.parent.path id,
        w.announced,
        rw w.written (moved_units-InStep org.units s.assignments id w.unit w.parent h),
      )
    ]
