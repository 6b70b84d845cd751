-- ===== src/Org/Tree.antt =====
-- What it means that the units form a tree whose paths, depths and statuses agree with the parents.
use erp_global.Common.{
  ℕ, zero, suc, ◌+◌, ◌≤◌, ◌<◌, ◌≡◌, refl, ap, ap₂, sym, ◌∙◌, ◌⊎◌, inl, inr, true, none, some, List,
  [], ◌∷◌, In, arith,
}
use erp_global.Common.Text.{Text, starts_with}
use erp_global.Org.Units.{active, OrgUnit, max_depth, child_path}
use erp_global.Org.Paths.{
  NoSlash, EndsSlash, child_path-EndsSlash, child_path-id, starts_with-child_path, root-below-none,
}

-- The unit is a top unit, or stands below a unit of the list; an active one below an active one.
pub data IsPlaced (us : List OrgUnit) (u : OrgUnit) : Type 0 where
  top : u.parent_id ≡ none → u.path ≡ child_path (b'/' ∷ []) u.id → u.depth ≡ 0 → IsPlaced us u
  below :
      (p : OrgUnit)
      → In p us
      → u.parent_id ≡ some p.id
      → u.path ≡ child_path p.path u.id
      → u.depth ≡ p.depth + 1
      → (u.status ≡ active → p.status ≡ active)
      → IsPlaced us u

pub record IsTree (us : List OrgUnit) : Type 0 where
  pub distinct : (u v : OrgUnit) → In u us → In v us → u.id ≡ v.id → u ≡ v
  pub plain : (u : OrgUnit) → In u us → NoSlash u.id
  pub placed : (u : OrgUnit) → In u us → IsPlaced us u
  pub shallow : (u : OrgUnit) → In u us → u.depth < max_depth

module _ (us : List OrgUnit) (t : IsTree us) where
  pub path-EndsSlash : (u : OrgUnit) → In u us → EndsSlash u.path
  path-EndsSlash u i = elim (t.placed u i) [
    | top _ e _ ↦ rw e (child_path-EndsSlash (b'/' ∷ []) u.id)
    | below p _ _ e _ _ ↦ rw e (child_path-EndsSlash p.path u.id)
  ]

  -- The path of a unit, whatever its place: a path that ends with a slash, its id and a slash.
  pub path_parts : (u : OrgUnit) → In u us → (p : Text) × EndsSlash p × (u.path ≡ child_path p u.id)
  path_parts u i = elim (t.placed u i) [
    | top _ e _ ↦ (b'/' ∷ [], ([], refl), e)
    | below p j _ e _ _ ↦ (p.path, path-EndsSlash p j, e)
  ]

  -- No two units share a path.
  pub path_distinct : (u v : OrgUnit) → In u us → In v us → u.path ≡ v.path → u ≡ v
  path_distinct u v i j e =
      let (p, ep, eu) = path_parts u i in
      let (q, eq, ev) = path_parts v j in
      t.distinct u v i j
        (child_path-id p q u.id v.id ep eq (t.plain u i) (t.plain v j) (sym eu ∙ e ∙ ev))

  -- A path above a child, other than the child's own, is above the parent or the parent's own.
  pub starts_with_parent :
      (u v : OrgUnit) (p : Text)
      → In u us
      → In v us
      → u.path ≡ child_path p u.id
      → starts_with u.path v.path ≡ true
      → (starts_with p v.path ≡ true) ⊎ (u ≡ v)
  starts_with_parent u v p i j e h =
      let (r, er) = path-EndsSlash v j in
      elim (starts_with-child_path p u.id r (t.plain u i) (ap₂ starts_with (sym e) (sym er) ∙ h)) [
        | inl k ↦ inl (ap (starts_with p) er ∙ k)
        | inr k ↦ inr (path_distinct u v i j (e ∙ k ∙ sym er))
      ]

  -- The unit that stands at `v`'s path stands at or below `v`: it is `v`, or its parent is below `v`.
  pub starts_with_top :
      (u v : OrgUnit)
      → In u us
      → In v us
      → u.path ≡ child_path (b'/' ∷ []) u.id
      → starts_with u.path v.path ≡ true
      → u ≡ v
  starts_with_top u v i j e h = elim (starts_with_parent u v (b'/' ∷ []) i j e h) [
    | inl k ↦
        let (p, ends, ev) = path_parts v j in
        absurd (root-below-none p v.id ends (ap (starts_with (b'/' ∷ [])) (sym ev) ∙ k))
    | inr same ↦ same
  ]

  -- Going down the tree, the depth does not fall.
  pub depth_below :
      (n : ℕ) (u v : OrgUnit)
      → In u us
      → In v us
      → u.depth ≡ n
      → starts_with u.path v.path ≡ true
      → v.depth ≤ n
  depth_below zero u v i j d h = elim (t.placed u i) [
    | top _ e _ ↦ omega (arith, ap (λ w. w.depth) (starts_with_top u v i j e h))
    | below p _ _ _ e _ ↦ absurd (omega arith)
  ]
  depth_below (suc n) u v i j d h = elim (t.placed u i) [
    | top _ _ e ↦ absurd (omega arith)
    | below p k _ e deep _ ↦ elim (starts_with_parent u v p.path i j e h) [
      | inl above ↦ let rec : v.depth ≤ n = depth_below n p v k j (omega arith) above in omega arith
      | inr same ↦ omega (arith, ap (λ w. w.depth) same)
    ]
  ]
