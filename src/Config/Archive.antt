-- ===== src/Config/Archive.antt =====
-- diff.ts: `withArchivedLeftovers`, the rollback that keeps what exists now as archived.
use erp_global.Common.{
  Bool, true, not, Option, none, some, List, [], ◌∷◌, ◌++◌, any, find, filter, map, if◌then◌else◌,
}
use erp_global.Common.Text.{Text, codes, ◌===◌}
use erp_global.Config.Maps.{put}
use erp_global.Config.Layers.{
  Field, Item, name_of, EntityPatch, Kind, picklists, numbering, ConfigLayer, empty_layer,
  merge_layers,
}
use erp_global.Config.Overrides.{OrgUnitLayer, TenantConfig, to_list}

abbrev pub archive_field : Field → Field
archive_field f = record f { archived = true }

-- `{ ...e, archived: true, fields }`
unfoldable pub archive_entity : EntityPatch → List Field → EntityPatch
unfolding put
archive_entity e fields = record e {
  fields = fields;
  props = put name_of (codes "archived", codes "true") e.props;
}

abbrev pub has_field : Text → List Field → Bool
has_field k fs = any (λ f. f.key === k) fs

-- `if (!te.fields.some(…)) te.fields.push({ ...cf, archived: true })`, for each field.
unfoldable pub keep_fields : List Field → List Field → List Field
keep_fields to [] = to
keep_fields to (f ∷ from) =
    keep_fields (if has_field f.key to then to else to ++ (archive_field f ∷ [])) from

-- An entity that the target does not have in this layer.
unfoldable pub kept_entity : List Text → EntityPatch → EntityPatch
unfolding archive_entity
kept_entity still_defined ce =
    let fields = map archive_field ce.fields in
    if any (λ k. k === ce.key) still_defined
    then record { key = ce.key; fields = fields; props = []; tax = none; roles = none }
    else archive_entity ce fields

unfoldable pub keep_entity : List Text → List EntityPatch → EntityPatch → List EntityPatch
unfolding keep_fields kept_entity
keep_entity still_defined [] ce = kept_entity still_defined ce ∷ []
keep_entity still_defined (te ∷ to) ce =
    let rest = keep_entity still_defined to ce in
    if te.key === ce.key
    then record te { fields = keep_fields te.fields ce.fields } ∷ to
    else te ∷ rest

unfoldable pub keep_entities : List Text → List EntityPatch → List EntityPatch → List EntityPatch
unfolding keep_entity
keep_entities still_defined to [] = to
keep_entities still_defined to (ce ∷ from) =
    keep_entities still_defined (keep_entity still_defined to ce) from

unfoldable pub keep_items : List Item → List Item → List Item
keep_items to [] = to
keep_items to (x ∷ from) =
    keep_items (if any (λ i. i.key === x.key) to then to else to ++ (x ∷ [])) from

unfoldable pub keep_lists : (Kind → List Item) → (Kind → List Item) → Kind → List Item
unfolding keep_items
keep_lists to from picklists = keep_items (to picklists) (from picklists)
keep_lists to from numbering = keep_items (to numbering) (from numbering)
keep_lists to from k = to k

unfoldable pub keep : List Text → ConfigLayer → ConfigLayer → ConfigLayer
unfolding keep_entities keep_lists
keep still_defined to from = record to {
  entities = keep_entities still_defined to.entities from.entities;
  lists = keep_lists to.lists from.lists;
}

-- An entity with only the fields that are missing, if any is.
unfoldable pub retire_fields : Text → List Field → List EntityPatch
retire_fields key [] = []
retire_fields key (f ∷ fs) =
    record { key = key; fields = map archive_field (f ∷ fs); props = []; tax = none; roles = none }
    ∷ []

-- What is pushed for an entity, by what the target's packs have of it.
unfoldable pub retire_as : Option EntityPatch → EntityPatch → List EntityPatch
unfolding archive_entity retire_fields
retire_as none e = archive_entity e (map archive_field e.fields) ∷ []
retire_as (some t) e = retire_fields e.key (filter (λ f. not (has_field f.key t.fields)) e.fields)

unfoldable pub retire_entity : List EntityPatch → EntityPatch → List EntityPatch
unfolding retire_as
retire_entity target_packs e = retire_as (find (λ x. x.key === e.key) target_packs) e

unfoldable pub retire_all : List EntityPatch → List EntityPatch → List EntityPatch
unfolding retire_entity
retire_all target_packs [] = []
retire_all target_packs (e ∷ es) = retire_entity target_packs e ++ retire_all target_packs es

-- `if (retired.entities.length) result.retired = retired`
unfoldable pub retired_if_any :
    Option ConfigLayer → ConfigLayer → List EntityPatch → Option ConfigLayer
retired_if_any earlier retired [] = earlier
retired_if_any earlier retired (e ∷ es) = some (record retired { entities = e ∷ es })

unfoldable pub retired_layer : Option ConfigLayer → List EntityPatch → Option ConfigLayer
unfolding retired_if_any
retired_layer none pushed = retired_if_any none empty_layer pushed
retired_layer (some l) pushed = retired_if_any (some l) l (l.entities ++ pushed)

-- One override: it is made where the target has none, and keeps what the current one has.
unfoldable pub keep_unit :
    List Text → List (Text × OrgUnitLayer) → Text → OrgUnitLayer → List (Text × OrgUnitLayer)
unfolding keep
keep_unit still_defined [] id l =
    (id, record { layer = keep still_defined empty_layer l.layer; path = l.path; name = l.name })
    ∷ []
keep_unit still_defined ((j, t) ∷ us) id l =
    let rest = keep_unit still_defined us id l in
    if j === id
    then (j, record t { layer = keep still_defined t.layer l.layer }) ∷ us
    else (j, t) ∷ rest

unfoldable pub keep_units :
    List Text → List (Text × OrgUnitLayer) → List (Text × OrgUnitLayer) → List (Text × OrgUnitLayer)
unfolding keep_unit
keep_units still_defined us [] = us
keep_units still_defined us ((id, l) ∷ from) =
    keep_units still_defined (keep_unit still_defined us id l) from

-- `pack_layers` is `packLayers` of packs.ts.
module _ {Pack : Type 0} (pack_layers : List Pack → Option ConfigLayer → List ConfigLayer)
    (before : Text → Text → Bool) where
  unfoldable pub packs_of : TenantConfig Pack → ConfigLayer
  unfolding merge_layers
  packs_of c = merge_layers before (pack_layers c.packs none ++ to_list c.retired)

  unfoldable pub with_archived_leftovers : TenantConfig Pack → TenantConfig Pack → TenantConfig Pack
  unfolding keep packs_of retire_all retired_layer keep_units
  with_archived_leftovers target current =
      let still_defined =
        map EntityPatch.key target.company.entities ++ (codes "user" ∷ codes "org_unit" ∷ []) in
      let pushed = retire_all (packs_of target).entities (packs_of current).entities in
      record {
        company = keep still_defined target.company current.company;
        org_units = keep_units still_defined target.org_units current.org_units;
        packs = target.packs;
        retired = retired_layer target.retired pushed;
      }
