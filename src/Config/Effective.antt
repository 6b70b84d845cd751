-- ===== src/Config/Effective.antt =====
-- The configuration at a unit of the organization tree: `layersFor` merged, and the settings and
-- entities that `resolveEffective` of merge.ts gives out.
use erp_global.Common.{
  Bool, ◌≡◌, ◌≢◌, refl, sym, ap, ◌∙◌, Option, some, List, [], ◌∷◌, ◌++◌, map, append_assoc,
  append-nil, subst, All, All-append_left, In,
}
use mathlib.Core.List.{map-append}
use erp_global.Common.Text.{Text}
use erp_global.Org.Units.{OrgUnit, child_path}
use erp_global.Org.Tree.{IsTree, top, below, path-EndsSlash}
use erp_global.Config.Layers.{ConfigLayer, merge_layers}
use erp_global.Config.Views.{View, view, override, empty_view, replay}
use erp_global.Config.Replay.{LayerDiffer, merge_layers-replay}
use erp_global.Config.Overrides.{
  TenantConfig, path_ids, own_override, overrides, layers_for, to_list, path_ids-child_path,
  overrides-append,
}

replay-append : (v : View) (vs ws : List View) → replay v (vs ++ ws) ≡ replay (replay v vs) ws
unfolding replay
replay-append v [] ws = refl
replay-append v (w ∷ vs) ws = replay-append (override v w) vs ws

-- The path of a unit goes on from that of its parent.
path-child_path :
    (us : List OrgUnit) (p u : OrgUnit)
    → IsTree us
    → In p us
    → In u us
    → u.parent_id ≡ some p.id
    → u.path ≡ child_path p.path u.id
path-child_path us p u t i j h = elim (t.placed u j) [
  | top none_ _ _ ↦ cc
  | below q k is e _ _ ↦
      let same : q.id ≡ p.id = cc in
      e ∙ ap (λ (v : OrgUnit). child_path v.path u.id) (t.distinct q p k i same)
]

module _ {Pack : Type 0} (pack_layers : List Pack → Option ConfigLayer → List ConfigLayer) where
  -- The layers at a unit are those at its parent, and its own override.
  layers_for-own_override :
      (base : List ConfigLayer) (config : TenantConfig Pack) (us : List OrgUnit) (p u : OrgUnit)
      → IsTree us
      → In p us
      → In u us
      → u.parent_id ≡ some p.id
      → u.id ≢ []
      → layers_for pack_layers base config (some u.path)
        ≡ layers_for pack_layers base config (some p.path) ++ own_override config.org_units u.id
  unfolding layers_for overrides
  layers_for-own_override base config us p u t i j h ne =
      let packs = pack_layers config.packs (some config.company) in
      let above = overrides config.org_units (path_ids (some p.path)) in
      let own = own_override config.org_units u.id in
      let along : overrides config.org_units (path_ids (some u.path)) ≡ above ++ own =
        ap (λ r. overrides config.org_units (path_ids (some r))) (path-child_path us p u t i j h)
        ∙ ap (overrides config.org_units)
            (path_ids-child_path p.path u.id (path-EndsSlash us t p i) (t.plain u j) ne)
        ∙ overrides-append config.org_units (path_ids (some p.path)) (u.id ∷ [])
        ∙ ap (λ r. above ++ r) (append-nil own) in
      ap (λ r. base ++ (packs ++ (to_list config.retired ++ (config.company ∷ r)))) along
      ∙ sym (
          append_assoc base _ own
          ∙ ap (λ r. base ++ r)
              (append_assoc packs _ own
                ∙ ap (λ r. packs ++ r)
                    (append_assoc (to_list config.retired) (config.company ∷ above) own)))

  -- The merged configuration at a unit of an organization tree says what the one at its parent says,
  -- overridden by the unit's own layer where it has one. The objects of the layers have distinct keys,
  -- and the id of the unit is not empty.
  pub merge_layers-own_override :
      (before : Text → Text → Bool) (base : List ConfigLayer) (config : TenantConfig Pack)
      (us : List OrgUnit) (p u : OrgUnit)
      → IsTree us
      → In p us
      → In u us
      → u.parent_id ≡ some p.id
      → u.id ≢ []
      → All LayerDiffer (layers_for pack_layers base config (some u.path))
      → view (merge_layers before (layers_for pack_layers base config (some u.path)))
        ≡ replay
            (view (merge_layers before (layers_for pack_layers base config (some p.path))))
            (map view (own_override config.org_units u.id))
  merge_layers-own_override before base config us p u t i j h ne d =
      let at_parent = layers_for pack_layers base config (some p.path) in
      let own = own_override config.org_units u.id in
      let along = layers_for-own_override base config us p u t i j h ne in
      let d' : All LayerDiffer (at_parent ++ own) = subst (All LayerDiffer) along d in
      ap (λ ls. view (merge_layers before ls)) along
      ∙ merge_layers-replay before (at_parent ++ own) d'
      ∙ ap (replay empty_view) (map-append view at_parent own)
      ∙ replay-append empty_view (map view at_parent) (map view own)
      ∙ ap (λ v. replay v (map view own))
          (sym
            (merge_layers-replay before at_parent (All-append_left LayerDiffer at_parent own d')))
