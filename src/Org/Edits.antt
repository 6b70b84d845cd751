-- ===== src/Org/Edits.antt =====
-- Inserting a unit, and edits that leave the places alone.
use erp_global.Common.{
  ◌+◌, ◌<◌, ◌≡◌, ap, ap₂, subst, sym, ◌∙◌, ◌≢◌, inl, inr, true, false, ◌&&◌, Option, some, List, [],
  ◌∷◌, ◌++◌, map, any, In, In-map, map-In, In-append, append-In_left, any_of_In, arith,
}
use erp_global.Common.Text.{Text, Text-discrete}
use erp_global.Org.Units.{
  active, inactive, is_active, OrgUnit, max_depth, child_path, has_parent, set_status,
  updated_units, UpdateInput, HeadChange,
}
use erp_global.Org.Paths.{NoSlash}
use erp_global.Org.Tree.{IsPlaced, top, below, IsTree}

IsPlaced-append : (us vs : List OrgUnit) (u : OrgUnit) → IsPlaced us u → IsPlaced (us ++ vs) u
IsPlaced-append us vs u (top a b c) = top a b c
IsPlaced-append us vs u (below p i a b c d) = below p (append-In_left us vs p i) a b c d

In-one : (u v : OrgUnit) → In u (v ∷ []) → u ≡ v
In-one u v (inl e) = e
In-one u v (inr i) = elim i [ ]

-- A new unit with a fresh id in a right place.
pub insert-IsTree :
    (us : List OrgUnit) (doc : OrgUnit)
    → IsTree us
    → ((u : OrgUnit) → In u us → u.id ≢ doc.id)
    → NoSlash doc.id
    → IsPlaced us doc
    → doc.depth < max_depth
    → IsTree (us ++ (doc ∷ []))
insert-IsTree us doc t fresh plain placed shallow = record {
  distinct = λ u v i j e. elim (In-append us (doc ∷ []) u i) [
    | inl a ↦ elim (In-append us (doc ∷ []) v j) [
      | inl b ↦ t.distinct u v a b e
      | inr b ↦ absurd (fresh u a (e ∙ ap (λ w. w.id) (In-one v doc b)))
    ]
    | inr a ↦ elim (In-append us (doc ∷ []) v j) [
      | inl b ↦ absurd (fresh v b (sym e ∙ ap (λ w. w.id) (In-one u doc a)))
      | inr b ↦ In-one u doc a ∙ sym (In-one v doc b)
    ]
  ];
  plain = λ u i. elim (In-append us (doc ∷ []) u i) [
    | inl a ↦ t.plain u a
    | inr a ↦ subst (λ w. NoSlash w.id) (sym (In-one u doc a)) plain
  ];
  placed = λ u i. elim (In-append us (doc ∷ []) u i) [
    | inl a ↦ IsPlaced-append us (doc ∷ []) u (t.placed u a)
    | inr a ↦
        subst (IsPlaced (us ++ (doc ∷ []))) (sym (In-one u doc a))
          (IsPlaced-append us (doc ∷ []) doc placed)
  ];
  shallow = λ u i. elim (In-append us (doc ∷ []) u i) [
    | inl a ↦ t.shallow u a
    | inr a ↦ subst (λ w. w.depth < max_depth) (sym (In-one u doc a)) shallow
  ];
}

-- What an edit must leave alone, and when it may change a status.
pub record Edit (us : List OrgUnit) (f : OrgUnit → OrgUnit) : Type 0 where
  pub same_id : (u : OrgUnit) → (f u).id ≡ u.id
  pub same_parent : (u : OrgUnit) → (f u).parent_id ≡ u.parent_id
  pub same_path : (u : OrgUnit) → (f u).path ≡ u.path
  pub same_depth : (u : OrgUnit) → (f u).depth ≡ u.depth
  pub live :
      (u p : OrgUnit)
      → In u us
      → u.parent_id ≡ some p.id
      → (u.status ≡ active → p.status ≡ active)
      → (f u).status ≡ active
      → (f p).status ≡ active

module _ (us : List OrgUnit) (f : OrgUnit → OrgUnit) (t : IsTree us) (edit : Edit us f) where
  Edit-IsPlaced : (u : OrgUnit) → In u us → IsPlaced us u → IsPlaced (map f us) (f u)
  Edit-IsPlaced u i (top a b c) =
      top (edit.same_parent u ∙ a)
        (edit.same_path u ∙ b ∙ ap (child_path (b'/' ∷ [])) (sym (edit.same_id u)))
        (edit.same_depth u ∙ c)
  Edit-IsPlaced u i (below p j a b c d) =
      below (f p) (map-In f us p j) (edit.same_parent u ∙ a ∙ ap some (sym (edit.same_id p)))
        (edit.same_path u ∙ b ∙ ap₂ child_path (sym (edit.same_path p)) (sym (edit.same_id u)))
        (edit.same_depth u ∙ c ∙ ap (λ n. n + 1) (sym (edit.same_depth p))) (edit.live u p i a d)

  pub Edit-IsTree : IsTree (map f us)
  Edit-IsTree = record {
    distinct = λ u v i j e.
        let (x, ix, ex) = In-map f us u i in
        let (y, iy, ey) = In-map f us v j in
        ex
        ∙ ap f (
            t.distinct x y ix iy (
              sym (edit.same_id x)
              ∙ ap (λ w. w.id) (sym ex)
              ∙ e
              ∙ ap (λ w. w.id) ey
              ∙ edit.same_id y))
        ∙ sym ey;
    plain = λ u i.
        let (x, ix, ex) = In-map f us u i in
        subst NoSlash (sym (ap (λ w. w.id) ex ∙ edit.same_id x)) (t.plain x ix);
    placed = λ u i.
        let (x, ix, ex) = In-map f us u i in
        subst (IsPlaced (map f us)) (sym ex) (Edit-IsPlaced x ix (t.placed x ix));
    shallow = λ u i.
        let (x, ix, ex) = In-map f us u i in
        omega (arith, ap (λ w. w.depth) ex, edit.same_depth x, t.shallow x ix);
  }

active_child :
    (id : Text) (us : List OrgUnit) (u : OrgUnit)
    → In u us
    → u.status ≡ active
    → u.parent_id ≡ some id
    → any (λ u. is_active u.status && has_parent id u) us ≡ true
unfolding has_parent
active_child id us u i a e = any_of_In _ u us i (ground arith)

-- A unit with no active child can be made inactive.
pub set_status-IsTree :
    (id : Text) (us : List OrgUnit)
    → IsTree us
    → any (λ u. is_active u.status && has_parent id u) us ≡ false
    → IsTree (set_status id inactive us)
unfolding set_status
set_status-IsTree id us t none_active = Edit-IsTree us _ t (record {
  same_id = λ u. ground arith;
  same_parent = λ u. ground arith;
  same_path = λ u. ground arith;
  same_depth = λ u. ground arith;
  live = λ u p i pe live a. elim (Text-discrete p.id id) [
    | yes e ↦ cc (none_active, active_child id us u i (ground arith) (pe ∙ ap some e))
    | no ne ↦ ground arith
  ];
})

pub updated_units-IsTree :
    (id : Text) (patch : UpdateInput) (custom : Option Text) (head : HeadChange) (us : List OrgUnit)
    → IsTree us
    → IsTree (updated_units id patch custom head us)
unfolding updated_units
updated_units-IsTree id patch custom head us t = Edit-IsTree us _ t (record {
  same_id = λ u. ground arith;
  same_parent = λ u. ground arith;
  same_path = λ u. ground arith;
  same_depth = λ u. ground arith;
  live = λ u p i pe live a. ground arith;
})
