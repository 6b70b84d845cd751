-- ===== src/Access/Nearest.antt =====
-- `roleHolders` of access.service.ts beside the organization tree.
use erp_global.Common.{
  ℕ, zero, suc, ◌≡◌, ◌≢◌, refl, sym, ap, subst, ◌∙◌, ◌⊎◌, inl, inr, none, some, List, [], ◌∷◌, ◌++◌,
  filter, In, arith,
}
use mathlib.Core.List.{reverse, reverse-append}
use erp_global.Common.Text.{Text, ◌===◌}
use erp_global.Org.Units.{OrgUnit}
use erp_global.Org.Tree.{IsTree, top, below, path-EndsSlash}
use erp_global.Access.Roles.{Assignment, State}
use erp_global.Access.Holders.{nobody, by_id, role_holders, prefixes, at_level, nearest, holders_at}
use erp_global.Access.Levels.{
  IsWritten, child_path-IsWritten, top-IsWritten, prefixes-child_path, prefixes_top,
  holders_at-nearest,
}

-- The assignments of a role at the path of a unit.
abbrev pub held_here : Text → OrgUnit → State → List Assignment
held_here role u s =
    filter (λ a. a.org_unit_path === u.path) (filter (λ a. a.role_id === role) s.assignments)

module _ (us : List OrgUnit) (t : IsTree us) (named : (u : OrgUnit) → In u us → u.id ≢ []) where
  path-IsWritten : (n : ℕ) (u : OrgUnit) → In u us → u.depth ≡ n → IsWritten u.path
  path-IsWritten zero u i d = elim (t.placed u i) [
    | top _ e _ ↦ subst IsWritten (sym e) (top-IsWritten u.id (t.plain u i) (named u i))
    | below p j _ e deep _ ↦ absurd (omega arith)
  ]
  path-IsWritten (suc n) u i d = elim (t.placed u i) [
    | top _ e _ ↦ subst IsWritten (sym e) (top-IsWritten u.id (t.plain u i) (named u i))
    | below p j _ e deep _ ↦ subst IsWritten (sym e) (
        child_path-IsWritten p.path u.id (path-EndsSlash us t p j) (t.plain u i) (named u i)
          (path-IsWritten n p j (omega arith)))
  ]

  holders_at_unit :
      (role : Text) (u : OrgUnit) (s : State) (ps : List Text)
      → In u us
      → prefixes u.path ≡ ps ++ (u.path ∷ [])
      → holders_at role (some u.path) s
        ≡ at_level
            (held_here role u s)
            (nearest (filter (λ a. a.role_id === role) s.assignments) (reverse ps))
  unfolding nearest
  holders_at_unit role u s ps i e =
      holders_at-nearest role u.path s (path-IsWritten u.depth u i refl)
      ∙ ap (λ l. nearest (filter (λ a. a.role_id === role) s.assignments) l)
          (ap reverse e ∙ reverse-append ps (u.path ∷ []))

  -- Who holds a role at a unit of the organization tree: the users with the role at the unit itself,
  -- each once, or, where nobody has it there, whoever holds it at the parent unit; nobody, where there
  -- is no parent. The ids of the units are not empty.
  pub role_holders-parent :
      (role : Text) (u : OrgUnit) (s : State)
      → In u us
      → ((u.parent_id ≡ none)
          × (role_holders (by_id role) (some u.path) s ≡ at_level (held_here role u s) nobody))
        ⊎ ((p : OrgUnit) × In p us
            × (u.parent_id ≡ some p.id)
            × (role_holders (by_id role) (some u.path) s
                ≡ at_level (held_here role u s) (role_holders (by_id role) (some p.path) s)))
  unfolding role_holders nearest
  role_holders-parent role u s i = elim (t.placed u i) [
    | top none_ e _ ↦ inl (
      none_,
      holders_at_unit role u s [] i
          (ap prefixes e ∙ prefixes_top u.id (t.plain u i) (named u i) ∙ ap (λ q. q ∷ []) (sym e)),
    )
    | below p j is e _ _ ↦
        let written = path-IsWritten p.depth p j refl in
        let levels : prefixes u.path ≡ prefixes p.path ++ (u.path ∷ []) =
          ap prefixes e
          ∙ prefixes-child_path p.path u.id (path-EndsSlash us t p j) (t.plain u i) (named u i)
              written
          ∙ ap (λ q. prefixes p.path ++ (q ∷ [])) (sym e) in
        inr (
          p,
          j,
          is,
          holders_at_unit role u s (prefixes p.path) i levels
              ∙ ap (at_level (held_here role u s)) (sym (holders_at-nearest role p.path s written)),
        )
  ]
