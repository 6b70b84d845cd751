-- ===== src/Config/Replay.antt =====
-- `mergeLayers` against the replay of the layers: a later layer overrides, under each key.
use erp_global.Common.{Bool, ◌≡◌, refl, ap, ◌∙◌, List, [], ◌∷◌, map, All}
use erp_global.Common.Text.{Text}
use erp_global.Config.Maps.{last_at, Differ, put_all-Differ, last_at-put_all}
use erp_global.Config.Layers.{
  Item, name_of, Kind, ConfigLayer, Merging, add_layer, add_layers, nothing_yet, merge_tax_setups,
  merge_layers, merge_calendars, merge_given, present,
}
use erp_global.Config.Calendars.{
  has_calendar-merge_calendars, weekend-merge_calendars, hours-merge_calendars,
  working_hours_only-merge_calendars, holiday_on-merge_calendars,
}
use erp_global.Config.Views.{
  at_entity, field_of, prop_of, tax_of, role_of, tax_item, tax_default, tax_round, calendar_value,
  holiday_on, has_calendar, view, override, empty_view, replay,
}
use erp_global.Config.Entities.{
  PatchDiffer, Sound, field_of-Overrides, prop_of-Overrides, tax_of-Overrides, role_of-Overrides,
  at_entity-put_entities, put_entities-Sound,
}
use erp_global.Config.Taxes.{
  tax_item-merge_tax_setups, tax_default-merge_tax_setups, tax_round-merge_tax_setups,
}

-- The properties of each entity of a layer have different names, as those of an object do.
abbrev pub LayerDiffer : ConfigLayer → Type 0
LayerDiffer l = All PatchDiffer l.entities

-- The maps of the loop have one entry for each key.
record Mapped (m : Merging) : Type 0 where
  entities : Sound m.entities
  lists : (k : Kind) → Differ Item.key (m.lists k)
  settings : Differ name_of m.settings

add_layer-Mapped :
    (m : Merging) (l : ConfigLayer) → LayerDiffer l → Mapped m → Mapped (add_layer m l)
unfolding add_layer
add_layer-Mapped m l h d = record {
  entities = put_entities-Sound l.entities m.entities d.entities h;
  lists = λ k. put_all-Differ Item.key (l.lists k) (m.lists k) (d.lists k);
  settings = put_all-Differ name_of l.settings m.settings d.settings;
}

-- What the loop has so far, as a layer that is viewed.
abbrev so_far : (Text → Text → Bool) → Merging → ConfigLayer
so_far before m = record {
  entities = m.entities;
  lists = m.lists;
  taxes = merge_tax_setups m.taxes;
  calendar = merge_calendars before m.calendars;
  settings = m.settings;
}

-- One layer more overrides what the loop has.
add_layer-override :
    (before : Text → Text → Bool) (m : Merging) (l : ConfigLayer)
    → LayerDiffer l
    → Mapped m
    → view (so_far before (add_layer m l)) ≡ override (view (so_far before m)) (view l)
unfolding add_layer view override
add_layer-override before m l h d = λ i. record {
  field = λ e f.
      at_entity-put_entities (field_of f) (field_of-Overrides f) e l.entities m.entities d.entities
        h i;
  prop = λ e k.
      at_entity-put_entities (prop_of k) (prop_of-Overrides k) e l.entities m.entities d.entities h
        i;
  tax = λ e k.
      at_entity-put_entities (tax_of k) (tax_of-Overrides k) e l.entities m.entities d.entities h i;
  role = λ e r.
      at_entity-put_entities (role_of r) (role_of-Overrides r) e l.entities m.entities d.entities h
        i;
  item = λ k x. last_at-put_all Item.key (l.lists k) (m.lists k) x (d.lists k) i;
  tax_list = λ k x. tax_item-merge_tax_setups k x m.taxes l.taxes i;
  tax_category = tax_default-merge_tax_setups m.taxes l.taxes i;
  tax_rounding = tax_round-merge_tax_setups m.taxes l.taxes i;
  setting = λ k. last_at-put_all name_of l.settings m.settings k d.settings i;
  calendar_given = has_calendar-merge_calendars before m.calendars l.calendar i;
  weekend = weekend-merge_calendars before m.calendars l.calendar i;
  hours = hours-merge_calendars before m.calendars l.calendar i;
  working_hours_only = working_hours_only-merge_calendars before m.calendars l.calendar i;
  holiday = λ x. holiday_on-merge_calendars before x m.calendars l.calendar i;
}

add_layers-replay :
    (before : Text → Text → Bool) (m : Merging) (ls : List ConfigLayer)
    → All LayerDiffer ls
    → Mapped m
    → view (so_far before (add_layers m ls)) ≡ replay (view (so_far before m)) (map view ls)
unfolding add_layers replay
add_layers-replay before m [] h d = refl
add_layers-replay before m (l ∷ ls) (h, hs) d =
    add_layers-replay before (add_layer m l) ls hs (add_layer-Mapped m l h d)
    ∙ ap (λ v. replay v (map view ls)) (add_layer-override before m l h d)

nothing_yet-Mapped : Mapped nothing_yet
unfolding Differ
nothing_yet-Mapped = record { entities = (tt, tt); lists = λ k. tt; settings = tt }

add_layers-Mapped :
    (m : Merging) (ls : List ConfigLayer) → All LayerDiffer ls → Mapped m → Mapped (add_layers m ls)
unfolding add_layers
add_layers-Mapped m [] h d = d
add_layers-Mapped m (l ∷ ls) (h, hs) d =
    add_layers-Mapped (add_layer m l) ls hs (add_layer-Mapped m l h d)

-- A merge keeps the keys of each object different.
pub merge_layers-LayerDiffer :
    (before : Text → Text → Bool) (ls : List ConfigLayer)
    → All LayerDiffer ls
    → LayerDiffer (merge_layers before ls)
unfolding merge_layers
merge_layers-LayerDiffer before ls h =
    let d = add_layers-Mapped nothing_yet ls h nothing_yet-Mapped in d.entities.1

nothing_yet-view : (before : Text → Text → Bool) → view (so_far before nothing_yet) ≡ empty_view
unfolding merge_calendars merge_given present calendar_value holiday_on has_calendar view at_entity
    last_at merge_tax_setups tax_item tax_default tax_round
nothing_yet-view before = refl

-- The merged layers say what the layers say when they are replayed one after the other, each
-- overriding those before it: every field, property, tax setting and role of every entity, every item
-- of every keyed list, the tax lists and settings, the settings, whether there is a calendar, its
-- weekend and hours, and the holiday of every date. The objects have distinct keys; the order of the
-- dates in the calendar is any.
pub merge_layers-replay :
    (before : Text → Text → Bool) (ls : List ConfigLayer)
    → All LayerDiffer ls
    → view (merge_layers before ls) ≡ replay empty_view (map view ls)
unfolding merge_layers view
merge_layers-replay before ls h =
    add_layers-replay before nothing_yet ls h nothing_yet-Mapped
    ∙ ap (λ v. replay v (map view ls)) (nothing_yet-view before)
