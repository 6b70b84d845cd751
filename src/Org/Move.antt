-- ===== src/Org/Move.antt =====
-- Moving a subtree: every path, depth and parent link stays right.
use erp_global.Common.{
  ℕ, ◌+◌, ◌-◌, ◌≤◌, ◌<◌, ◌≡◌, refl, ap, ap₂, subst, sym, ◌∙◌, ◌≢◌, inl, inr, true, false, some,
  List, [], ◌∷◌, map, In, In-map, map-In, Bool-cases, arith,
}
use erp_global.Common.Text.{Text, starts_with, starts_with_refl, starts_with_trans, Text-discrete}
use erp_global.Org.Units.{
  active, OrgUnit, max_depth, child_path, shift_path, shift_unit, set_parent, deepest_below,
  moved_units,
}
use erp_global.Org.Paths.{
  NoSlash, shift_path_self, shift_path-child_path, starts_with-child_path_self,
}
use erp_global.Org.Tree.{
  IsPlaced, top, below, IsTree, starts_with_parent, starts_with_top, depth_below,
}

-- Every unit below the path is at most as deep as the deepest.
deepest_below_bound :
    (path : Text) (d : ℕ) (us : List OrgUnit) (u : OrgUnit)
    → In u us
    → starts_with u.path path ≡ true
    → u.depth ≤ deepest_below path d us
unfolding deepest_below
deepest_below_bound path d [] u i h = elim i [ ]
deepest_below_bound path d (v ∷ us) u (inl e) h = rw (← e) (rw (h, deepest_below) (omega arith))
deepest_below_bound path d (v ∷ us) u (inr i) h =
    let rec : u.depth ≤ deepest_below path d us = deepest_below_bound path d us u i h in
    elim (Bool-cases (starts_with v.path path)) [ inl e ↦ rw e (omega arith) | inr e ↦ rw e rec ]

module _ (unit parent : OrgUnit) where
  relocate : OrgUnit → OrgUnit
  relocate u =
      set_parent unit.id parent.id
        (shift_unit unit.path (child_path parent.path unit.id) unit.depth (parent.depth + 1) u)

  relocate_same : (u : OrgUnit) → ((relocate u).id ≡ u.id) × ((relocate u).status ≡ u.status)
  unfolding relocate set_parent shift_unit
  relocate_same u = (ground arith, ground arith)

  relocate_inside :
      (u : OrgUnit)
      → starts_with u.path unit.path ≡ true
      → ((relocate u).path ≡ shift_path unit.path (child_path parent.path unit.id) u.path)
        × ((relocate u).depth ≡ u.depth + (parent.depth + 1) - unit.depth)
  unfolding relocate set_parent shift_unit
  relocate_inside u h = (ground arith, ground arith)

  relocate_outside :
      (u : OrgUnit)
      → starts_with u.path unit.path ≡ false
      → ((relocate u).path ≡ u.path) × ((relocate u).depth ≡ u.depth)
  unfolding relocate set_parent shift_unit
  relocate_outside u h = (ground arith, ground arith)

  relocate-parent_ne : (u : OrgUnit) → u.id ≢ unit.id → (relocate u).parent_id ≡ u.parent_id
  unfolding relocate set_parent shift_unit
  relocate-parent_ne u h = ground arith

  relocate-parent_self : (u : OrgUnit) → u.id ≡ unit.id → (relocate u).parent_id ≡ some parent.id
  unfolding relocate set_parent shift_unit
  relocate-parent_self u h = ground arith

-- The moved unit has a parent, and the new parent is an active unit that is not below it.
pub record Movable (us : List OrgUnit) (unit parent : OrgUnit) : Type 0 where
  pub tree : IsTree us
  pub unit_in : In unit us
  pub parent_in : In parent us
  pub outside : starts_with parent.path unit.path ≡ false
  pub alive : parent.status ≡ active

module _ (us : List OrgUnit) (unit parent : OrgUnit) (m : Movable us unit parent) where
  abbrev move_unit : OrgUnit → OrgUnit
  move_unit u = relocate unit parent u

  IsPlaced-self : IsPlaced (map move_unit us) (move_unit unit)
  IsPlaced-self =
      let inside = relocate_inside unit parent unit (starts_with_refl unit.path) in
      let out = relocate_outside unit parent parent m.outside in
      below (move_unit parent) (map-In move_unit us parent m.parent_in)
        (relocate-parent_self unit parent unit refl
          ∙ ap some (sym (relocate_same unit parent parent).0))
        (inside.0
          ∙ shift_path_self unit.path (child_path parent.path unit.id)
          ∙ ap₂ child_path (sym out.0) (sym (relocate_same unit parent unit).0))
        (omega (arith, inside.1, out.1)) (λ _. (relocate_same unit parent parent).1 ∙ m.alive)

  IsPlaced-inside :
      (u p : OrgUnit)
      → In u us
      → In p us
      → u.id ≢ unit.id
      → u.parent_id ≡ some p.id
      → u.path ≡ child_path p.path u.id
      → u.depth ≡ p.depth + 1
      → (u.status ≡ active → p.status ≡ active)
      → starts_with u.path unit.path ≡ true
      → starts_with p.path unit.path ≡ true
      → IsPlaced (map move_unit us) (move_unit u)
  IsPlaced-inside u p i j ne pe e d live hu hp =
      let iu = relocate_inside unit parent u hu in
      let ipp = relocate_inside unit parent p hp in
      let deep : unit.depth ≤ p.depth = depth_below us m.tree p.depth p unit j m.unit_in refl hp in
      below (move_unit p) (map-In move_unit us p j)
        (relocate-parent_ne unit parent u ne ∙ pe ∙ ap some (sym (relocate_same unit parent p).0))
        (iu.0
          ∙ ap (shift_path unit.path (child_path parent.path unit.id)) e
          ∙ shift_path-child_path unit.path (child_path parent.path unit.id) p.path u.id hp
          ∙ ap₂ child_path (sym ipp.0) (sym (relocate_same unit parent u).0))
        (omega (arith, iu.1, ipp.1))
        (λ a. (relocate_same unit parent p).1 ∙ live (sym (relocate_same unit parent u).1 ∙ a))

  IsPlaced-outside :
      (u p : OrgUnit)
      → In p us
      → u.id ≢ unit.id
      → u.parent_id ≡ some p.id
      → u.path ≡ child_path p.path u.id
      → u.depth ≡ p.depth + 1
      → (u.status ≡ active → p.status ≡ active)
      → starts_with u.path unit.path ≡ false
      → starts_with p.path unit.path ≡ false
      → IsPlaced (map move_unit us) (move_unit u)
  IsPlaced-outside u p j ne pe e d live hu hp =
      let iu = relocate_outside unit parent u hu in
      let ipp = relocate_outside unit parent p hp in
      below (move_unit p) (map-In move_unit us p j)
        (relocate-parent_ne unit parent u ne ∙ pe ∙ ap some (sym (relocate_same unit parent p).0))
        (iu.0 ∙ e ∙ ap₂ child_path (sym ipp.0) (sym (relocate_same unit parent u).0))
        (omega (arith, iu.1, ipp.1))
        (λ a. (relocate_same unit parent p).1 ∙ live (sym (relocate_same unit parent u).1 ∙ a))

  IsPlaced-other :
      (u : OrgUnit) → In u us → u.id ≢ unit.id → IsPlaced (map move_unit us) (move_unit u)
  IsPlaced-other u i ne = elim (m.tree.placed u i) [
    | top pe e d ↦ elim (Bool-cases (starts_with u.path unit.path)) [
      | inl h ↦ absurd (ne (ap (λ w. w.id) (starts_with_top us m.tree u unit i m.unit_in e h)))
      | inr h ↦
          let out = relocate_outside unit parent u h in
          top (relocate-parent_ne unit parent u ne ∙ pe)
            (out.0 ∙ e ∙ ap (child_path (b'/' ∷ [])) (sym (relocate_same unit parent u).0))
            (out.1 ∙ d)
    ]
    | below p j pe e d live ↦ elim (Bool-cases (starts_with u.path unit.path)) [
      | inl h ↦ elim (starts_with_parent us m.tree u unit p.path i m.unit_in e h) [
        | inl k ↦ IsPlaced-inside u p i j ne pe e d live h k
        | inr same ↦ absurd (ne (ap (λ w. w.id) same))
      ]
      | inr h ↦ elim (Bool-cases (starts_with p.path unit.path)) [
        | inl k ↦ cc (
          h,
          starts_with_trans u.path p.path unit.path
              (ap (λ s. starts_with s p.path) e ∙ starts_with-child_path_self p.path u.id) k,
        )
        | inr k ↦ IsPlaced-outside u p j ne pe e d live h k
      ]
    ]
  ]

  IsPlaced-all : (u : OrgUnit) → In u us → IsPlaced (map move_unit us) (move_unit u)
  IsPlaced-all u i = elim (Text-discrete u.id unit.id) [
    | yes e ↦
        let same : u ≡ unit = m.tree.distinct u unit i m.unit_in e in
        subst (λ v. IsPlaced (map move_unit us) (move_unit v)) (sym same) IsPlaced-self
    | no ne ↦ IsPlaced-other u i ne
  ]

  shallow_all :
      deepest_below unit.path unit.depth us + (parent.depth + 1) < max_depth + unit.depth
      → (u : OrgUnit) → In u us
      → (move_unit u).depth < max_depth
  shallow_all deep u i = elim (Bool-cases (starts_with u.path unit.path)) [
    | inl h ↦
        let most = deepest_below_bound unit.path unit.depth us u i h in
        let least = depth_below us m.tree u.depth u unit i m.unit_in refl h in
        omega (arith, (relocate_inside unit parent u h).1)
    | inr h ↦ omega (arith, (relocate_outside unit parent u h).1, m.tree.shallow u i)
  ]

-- The writes of `move` keep the tree, where its checks have passed.
pub moved_units-IsTree :
    (us : List OrgUnit) (unit parent : OrgUnit)
    → Movable us unit parent
    → deepest_below unit.path unit.depth us + (parent.depth + 1) < max_depth + unit.depth
    → IsTree (moved_units unit.id unit parent us)
unfolding moved_units relocate
moved_units-IsTree us unit parent m deep = record {
  distinct = λ u v i j e.
      let (x, ix, ex) = In-map (relocate unit parent) us u i in
      let (y, iy, ey) = In-map (relocate unit parent) us v j in
      ex
      ∙ ap (relocate unit parent) (
          m.tree.distinct x y ix iy (
            sym (relocate_same unit parent x).0
            ∙ ap (λ w. w.id) (sym ex)
            ∙ e
            ∙ ap (λ w. w.id) ey
            ∙ (relocate_same unit parent y).0))
      ∙ sym ey;
  plain = λ u i.
      let (x, ix, ex) = In-map (relocate unit parent) us u i in
      subst NoSlash (sym (ap (λ w. w.id) ex ∙ (relocate_same unit parent x).0)) (m.tree.plain x ix);
  placed = λ u i.
      let (x, ix, ex) = In-map (relocate unit parent) us u i in
      subst (IsPlaced (map (relocate unit parent) us)) (sym ex)
        (IsPlaced-all us unit parent m x ix);
  shallow = λ u i.
      let (x, ix, ex) = In-map (relocate unit parent) us u i in
      omega (arith, ap (λ w. w.depth) ex, shallow_all us unit parent m deep x ix);
}
