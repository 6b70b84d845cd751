-- ===== src/Config/Rollback.antt =====
-- What a rollback by `withArchivedLeftovers` of diff.ts gives covers all that exists now: in the
-- company's layer, in each override and in the packs.
use erp_global.Common.{
  Bool, true, false, ◌||◌, ◌≡◌, refl, sym, ◌∙◌, inl, inr, Option, none, some, List, [], ◌∷◌, ◌++◌,
  any, Bool-cases, any-append, All, All-append, All-append_left, All-append_right,
}
use erp_global.Common.Text.{Text, ◌===◌, ===_iff}
use erp_global.Config.Layers.{ConfigLayer, empty_layer, merge_layers}
use erp_global.Config.Entities.{PatchDiffer}
use erp_global.Config.Replay.{LayerDiffer, merge_layers-LayerDiffer}
use erp_global.Config.Overrides.{OrgUnitLayer, TenantConfig, unit_layer, to_list}
use erp_global.Config.Archive.{
  keep, keep_unit, keep_units, retire_all, retired_layer, packs_of, with_archived_leftovers,
}
use erp_global.Config.Leftovers.{
  IsCovered, IsCovered-trans, keep-IsCovered, keep-IsCovered_target, names_field,
}
use erp_global.Config.Retired.{
  layer_names, merge_layers-names_field, retire_all-names_field, retired_layer_earlier,
  retired_layer_pushed, retire_all-PatchDiffer, retired_layer-LayerDiffer,
}

-- The override of a unit is there, and covers a layer.
abbrev pub HasCover : List (Text × OrgUnitLayer) → Text → ConfigLayer → Type 0
HasCover us id l = (t : OrgUnitLayer) × (unit_layer id us ≡ some t) × IsCovered l t.layer

keep_unit-HasCover :
    (still : List Text) (us : List (Text × OrgUnitLayer)) (id : Text) (l : OrgUnitLayer)
    → HasCover (keep_unit still us id l) id l.layer
unfolding keep_unit unit_layer
keep_unit-HasCover still [] id l =
    let same = (===_iff id id).1 refl in
    (
      record { layer = keep still empty_layer l.layer; path = l.path; name = l.name },
      rw same refl,
      keep-IsCovered still empty_layer l.layer,
    )
keep_unit-HasCover still ((j, t) ∷ us) id l = elim (Bool-cases (j === id)) [
  | inl e ↦ rw e (
    record t { layer = keep still t.layer l.layer },
    rw e refl,
    keep-IsCovered still t.layer l.layer,
  )
  | inr e ↦ let (t', f, c) = keep_unit-HasCover still us id l in rw e (t', rw e f, c)
]

keep_unit_keeps :
    (still : List Text) (us : List (Text × OrgUnitLayer)) (id j : Text) (l : OrgUnitLayer)
    (m : ConfigLayer)
    → HasCover us j m
    → HasCover (keep_unit still us id l) j m
unfolding keep_unit unit_layer
keep_unit_keeps still [] id j l m (t, e, c) = cc
keep_unit_keeps still ((k, u) ∷ us) id j l m (t, e, c) = elim (Bool-cases (k === id)) [
  | inl p ↦ rw p (elim (Bool-cases (k === j)) [
    | inl q ↦
        let same : u ≡ t = (let e1 = rw (q, unit_layer) at e in cc) in
        (
          record u { layer = keep still u.layer l.layer },
          rw q refl,
          IsCovered-trans m u.layer _ (rw same c) (keep-IsCovered_target still u.layer l.layer),
        )
    | inr q ↦ (t, rw q (rw (q, unit_layer) at e), c)
  ])
  | inr p ↦ rw p (elim (Bool-cases (k === j)) [
    | inl q ↦ (t, rw q (rw (q, unit_layer) at e), c)
    | inr q ↦
        let (t', f, c') = keep_unit_keeps still us id j l m (t, rw (q, unit_layer) at e, c) in
        (t', rw q f, c')
  ])
]

keep_units_keeps :
    (still : List Text) (from us : List (Text × OrgUnitLayer)) (j : Text) (m : ConfigLayer)
    → HasCover us j m
    → HasCover (keep_units still us from) j m
unfolding keep_units
keep_units_keeps still [] us j m h = h
keep_units_keeps still ((id, l) ∷ from) us j m h =
    keep_units_keeps still from _ j m (keep_unit_keeps still us id j l m h)

keep_units-HasCover :
    (still : List Text) (from us : List (Text × OrgUnitLayer)) (j : Text) (l : OrgUnitLayer)
    → unit_layer j from ≡ some l
    → HasCover (keep_units still us from) j l.layer
unfolding keep_units unit_layer
keep_units-HasCover still [] us j l h = cc
keep_units-HasCover still ((id, m) ∷ from) us j l h = elim (Bool-cases (id === j)) [
  | inl e ↦
      let same : m ≡ l = (let h1 = rw (e, unit_layer) at h in cc) in
      rw (← same) (
        rw (← (===_iff id j).0 e)
          (keep_units_keeps still from _ id m.layer (keep_unit-HasCover still us id m)))
  | inr e ↦ keep_units-HasCover still from _ j l (rw (e, unit_layer) at h)
]

||_true : (b : Bool) → (b || true) ≡ true
||_true true = refl
||_true false = refl

module _ {Pack : Type 0} (pack_layers : List Pack → Option ConfigLayer → List ConfigLayer)
    (before : Text → Text → Bool) where
  -- The layers of the packs and what they left behind, with objects of distinct keys.
  abbrev pub PacksDiffer : TenantConfig Pack → Type 0
  PacksDiffer c = All LayerDiffer (pack_layers c.packs none ++ to_list c.retired)

  packs_field :
      (target current : TenantConfig Pack) (e f : Text)
      → PacksDiffer target
      → PacksDiffer current
      → any (names_field e f) (packs_of pack_layers before current).entities ≡ true
      → any
          (names_field e f)
          (packs_of pack_layers before
            (with_archived_leftovers pack_layers before target current)).entities
        ≡ true
  unfolding with_archived_leftovers packs_of
  packs_field target current e f d c h =
      let packs = pack_layers target.packs none in
      let pushed =
        retire_all (merge_layers before (packs ++ to_list target.retired)).entities
          (merge_layers before
            (pack_layers current.packs none ++ to_list current.retired)).entities in
      let pushed_differ : All PatchDiffer pushed =
        retire_all-PatchDiffer _ _ (merge_layers-LayerDiffer before _ c) in
      let retired = retired_layer target.retired pushed in
      let differ : All LayerDiffer (packs ++ to_list retired) =
        All-append LayerDiffer packs (to_list retired)
          (All-append_left LayerDiffer packs (to_list target.retired) d)
          (retired_layer-LayerDiffer target.retired pushed
            (All-append_right LayerDiffer packs (to_list target.retired) d) pushed_differ) in
      merge_layers-names_field before (packs ++ to_list retired) e f differ
      ∙ any-append (layer_names e f) packs (to_list retired)
      ∙ elim (retire_all-names_field e f
          (merge_layers before (packs ++ to_list target.retired)).entities _ h) [
            | inr i ↦
                rw (retired_layer_pushed e f target.retired pushed i)
                  (||_true (any (layer_names e f) packs))
            | inl i ↦
                let had : (any (layer_names e f) packs
                      || any (layer_names e f) (to_list target.retired))
                    ≡ true =
                  sym (any-append (layer_names e f) packs (to_list target.retired))
                  ∙ sym (merge_layers-names_field before (packs ++ to_list target.retired) e f d)
                  ∙ i in
                elim (Bool-cases (any (layer_names e f) packs)) [
                  | inl p ↦ rw p refl
                  | inr p ↦ rw p (retired_layer_earlier e f target.retired pushed (rw p at had))
                ]
          ]

  -- What rolling back with `withArchivedLeftovers` gives has every entity, field, picklist and number
  -- series of the company's layer now and of the target's; for each override now it has an override of
  -- that unit with all of its entities, fields, picklists and number series; and its packs, with the
  -- layer of what they no longer define, have every field of an entity that the packs have now. Nothing
  -- is said of the other lists. The objects of the packs' layers have distinct keys.
  pub with_archived_leftovers-IsCovered :
      (target current : TenantConfig Pack)
      → PacksDiffer target
      → PacksDiffer current
      → IsCovered current.company
          (with_archived_leftovers pack_layers before target current).company
        × IsCovered target.company
            (with_archived_leftovers pack_layers before target current).company
        × ((id : Text) (l : OrgUnitLayer)
            → unit_layer id current.org_units ≡ some l
            → HasCover
                (with_archived_leftovers pack_layers before target current).org_units
                id
                l.layer)
        × ((e f : Text)
            → any (names_field e f) (packs_of pack_layers before current).entities ≡ true
            → any
                (names_field e f)
                (packs_of pack_layers before
                  (with_archived_leftovers pack_layers before target current)).entities
              ≡ true)
  unfolding with_archived_leftovers
  with_archived_leftovers-IsCovered target current d c = (
    keep-IsCovered _ target.company current.company,
    keep-IsCovered_target _ target.company current.company,
    λ id l h. keep_units-HasCover _ current.org_units target.org_units id l h,
    λ e f h. packs_field target current e f d c h,
  )
