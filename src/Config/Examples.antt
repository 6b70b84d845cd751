-- ===== src/Config/Examples.antt =====
-- A company with one branch: its configuration merged, and the theorems about the layers applied.
use erp_global.Common.{
  Bool, true, false, ◌≡◌, ◌≢◌, refl, Option, none, some, List, [], ◌∷◌, map, any, In, All-In, inl,
  inr, sym, ap, ◌∙◌, ◌<◌, arith,
}
use native.Mathlib.Decide.{ℕ_discrete}
use erp_global.Common.Text.{Text, Text-discrete, codes, ◌===◌, ===_iff}
use erp_global.Org.Units.{OrgUnit, active, child_path, max_depth}
use erp_global.Org.Paths.{NoSlash}
use erp_global.Org.Tree.{IsTree, IsPlaced, top, below}
use erp_global.Config.Maps.{last_at, Differ}
use erp_global.Config.Layers.{Field, EntityPatch, ConfigLayer, empty_layer, merge_layers}
use erp_global.Config.Views.{view, empty_view, replay}
use erp_global.Config.Replay.{merge_layers-replay}
use erp_global.Config.Overrides.{
  OrgUnitLayer, TenantConfig, layers_for, path_ids, own_override, unit_layer,
}
use erp_global.Config.Effective.{merge_layers-own_override}
use erp_global.Config.Archive.{with_archived_leftovers, packs_of}
use erp_global.Config.Leftovers.{IsCovered, names_field}
use erp_global.Config.Rollback.{HasCover, with_archived_leftovers-IsCovered}

abbrev before : Text → Text → Bool
before a b = true

abbrev field : Text → Field
field k = record { key = k; archived = false; content = codes "text" }

abbrev patch : List Field → EntityPatch
patch fs = record {
  key = codes "student";
  fields = fs;
  props = (codes "kind", codes "custom") ∷ [];
  tax = none;
  roles = none;
}

abbrev company_layer : ConfigLayer
company_layer = record empty_layer { entities = patch (field (codes "name") ∷ []) ∷ [] }

abbrev branch_layer : ConfigLayer
branch_layer = record empty_layer { entities = patch (field (codes "house") ∷ []) ∷ [] }

abbrev pack : List Text → Option ConfigLayer → List ConfigLayer
pack packs company = []

abbrev config : TenantConfig Text
config = record {
  company = company_layer;
  org_units = (codes "b", record { layer = branch_layer; path = codes "/a/b/"; name = none }) ∷ [];
  packs = [];
  retired = none;
}

-- The branch adds a field to the entity of the company.
merged_fields :
    map EntityPatch.fields (merge_layers before (company_layer ∷ branch_layer ∷ [])).entities
    ≡ (field (codes "name") ∷ field (codes "house") ∷ []) ∷ []
unfolding merge_layers Text-discrete ℕ_discrete
merged_fields = refl

merge_layers-replay_example :
    view (merge_layers before (company_layer ∷ branch_layer ∷ []))
    ≡ replay empty_view (view company_layer ∷ view branch_layer ∷ [])
unfolding Differ last_at
merge_layers-replay_example =
    merge_layers-replay before (company_layer ∷ branch_layer ∷ [])
      ((((refl, tt), tt), tt), ((((refl, tt), tt), tt), tt))

abbrev unit : Text → Option Text → Text → OrgUnit
unit id parent path = record {
  id = id;
  name = id;
  code = none;
  type = codes "branch";
  parent_id = parent;
  path = path;
  depth = 0;
  status = active;
  custom = [];
  head_user_id = none;
}

abbrev top_unit : OrgUnit
top_unit = unit (codes "a") none (codes "/a/")

abbrev branch : OrgUnit
branch = record (unit (codes "b") (some (codes "a")) (codes "/a/b/")) { depth = 1 }

branch_ids : path_ids (some (codes "/a/b/")) ≡ codes "a" ∷ codes "b" ∷ []
unfolding path_ids
branch_ids = refl

abbrev units : List OrgUnit
units = top_unit ∷ branch ∷ []

ids_apart : codes "a" ≢ codes "b"
unfolding Text-discrete ℕ_discrete
ids_apart h = let e : (codes "a" === codes "b") ≡ true = (===_iff (codes "a") (codes "b")).1 h in cc

units-distinct : (u v : OrgUnit) → In u units → In v units → u.id ≡ v.id → u ≡ v
units-distinct u v (inl a) (inl b) e = a ∙ sym b
units-distinct u v (inl a) (inr (inl b)) e =
    absurd (ids_apart (ap (λ x. x.id) (sym a) ∙ e ∙ ap (λ x. x.id) b))
units-distinct u v (inr (inl a)) (inl b) e =
    absurd (ids_apart (ap (λ x. x.id) (sym b) ∙ sym e ∙ ap (λ x. x.id) a))
units-distinct u v (inr (inl a)) (inr (inl b)) e = a ∙ sym b
units-distinct u v (inl a) (inr (inr b)) e = absurd b
units-distinct u v (inr (inl a)) (inr (inr b)) e = absurd b
units-distinct u v (inr (inr a)) j e = absurd a

units-IsPlaced : (u : OrgUnit) → In u units → IsPlaced units u
unfolding child_path
units-IsPlaced u (inl e) = rw e (top refl refl refl)
units-IsPlaced u (inr (inl e)) = rw e (below top_unit (inl refl) refl refl refl (λ _. refl))
units-IsPlaced u (inr (inr i)) = absurd i

units-IsTree : IsTree units
units-IsTree = record {
  distinct = units-distinct;
  plain = λ u i. All-In (λ w. NoSlash w.id) units u (omega arith) i;
  placed = units-IsPlaced;
  shallow = λ u i. All-In (λ w. w.depth < max_depth) units u (omega arith) i;
}

merge_layers-own_override_example :
    view (merge_layers before (layers_for pack (empty_layer ∷ []) config (some branch.path)))
    ≡ replay
        (view
          (merge_layers before (layers_for pack (empty_layer ∷ []) config (some top_unit.path))))
        (map view (own_override config.org_units branch.id))
unfolding layers_for Differ last_at Text-discrete ℕ_discrete
merge_layers-own_override_example =
    merge_layers-own_override pack before (empty_layer ∷ []) config units top_unit branch
      units-IsTree (inl refl) (inr (inl refl)) refl (λ h. cc)
      (tt, ((((refl, tt), tt), tt), ((((refl, tt), tt), tt), tt)))

-- Back to a configuration with nothing in it.
abbrev bare : TenantConfig Text
bare = record config { company = empty_layer; org_units = [] }

with_archived_leftovers-IsCovered_example :
    IsCovered config.company (with_archived_leftovers pack before bare config).company
    × IsCovered bare.company (with_archived_leftovers pack before bare config).company
    × ((id : Text) (l : OrgUnitLayer)
        → unit_layer id config.org_units ≡ some l
        → HasCover (with_archived_leftovers pack before bare config).org_units id l.layer)
    × ((e f : Text)
        → any (names_field e f) (packs_of pack before config).entities ≡ true
        → any
            (names_field e f)
            (packs_of pack before (with_archived_leftovers pack before bare config)).entities
          ≡ true)
with_archived_leftovers-IsCovered_example =
    with_archived_leftovers-IsCovered pack before bare config tt tt

archived_fields :
    map EntityPatch.fields (with_archived_leftovers pack before bare config).company.entities
    ≡ (record (field (codes "name")) { archived = true } ∷ []) ∷ []
unfolding with_archived_leftovers Text-discrete ℕ_discrete
archived_fields = refl
