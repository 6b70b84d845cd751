-- ===== src/Config/Layers.antt =====
-- merge.ts: `mergeLayers` with `mergeEntity`, `mergeTaxSetups` of tax.ts and `mergeCalendars` of
-- identifiers.ts. A layer by its entities, its keyed lists, its taxes, calendar and settings.
use erp_global.Common.{Bool, Option, none, some, List, [], ◌∷◌, ◌++◌, if◌then◌else◌}
use erp_global.Common.Text.{Text}
use erp_global.Config.Maps.{or_earlier, put, put_all, last_at}

pub record Field : Type 0 where
  pub key : Text
  pub archived : Bool
  pub content : Text

-- An item of a keyed list: its key (the entity of a form, a list view or a workflow) and the rest.
pub record Item : Type 0 where
  pub key : Text
  pub content : Text

-- An object by its entries, whose values are texts here.
abbrev pub Props : Type 0
Props = List (Text × Text)

abbrev pub name_of : Text × Text → Text
name_of e = e.0

-- `props` holds the properties that may be missing from a patch: kind, labels, icon and so on.
pub record EntityPatch : Type 0 where
  pub key : Text
  pub fields : List Field
  pub props : Props
  pub tax : Option Props
  pub roles : Option (List Text)

-- The keyed lists of a layer.
pub data Kind : Type 0 where
  picklists : Kind
  forms : Kind
  list_views : Kind
  numbering : Kind
  workflows : Kind
  rules : Kind
  automations : Kind
  templates : Kind
  print_templates : Kind
  reports : Kind
  dashboards : Kind
  identifier_types : Kind

pub data TaxKind : Type 0 where
  components : TaxKind
  categories : TaxKind
  tax_rules : TaxKind

pub record TaxSetup : Type 0 where
  pub lists : TaxKind → List Item
  pub default_category : Option Text
  pub round_total : Option Text

-- The holidays by their dates.
pub record WorkCalendar : Type 0 where
  pub weekend : Option Text
  pub hours : Option Text
  pub working_hours_only : Option Text
  pub holidays : Option (List Item)

-- A list that a saved layer does not have is the empty one, as `normalizeLayer` fills it in.
pub record ConfigLayer : Type 0 where
  pub entities : List EntityPatch
  pub lists : Kind → List Item
  pub taxes : Option TaxSetup
  pub calendar : Option WorkCalendar
  pub settings : Props

abbrev pub empty_layer : ConfigLayer
empty_layer = record {
  entities = [];
  lists = λ k. [];
  taxes = none;
  calendar = none;
  settings = [];
}

unfoldable pub merge_tax : Option Props → Option Props → Option Props
unfolding put_all
merge_tax none patch = patch
merge_tax (some prev) none = some prev
merge_tax (some prev) (some patch) = some (put_all name_of prev patch)

unfoldable pub merge_roles : Option (List Text) → Option (List Text) → Option (List Text)
unfolding put_all
merge_roles none patch = patch
merge_roles (some prev) none = some prev
merge_roles (some prev) (some patch) = some (put_all (λ r. r) [] (prev ++ patch))

unfoldable pub merge_entity : Option EntityPatch → EntityPatch → EntityPatch
unfolding put_all merge_tax merge_roles
merge_entity none patch = patch
merge_entity (some prev) patch = record {
  key = patch.key;
  fields = put_all Field.key (put_all Field.key [] prev.fields) patch.fields;
  props = put_all name_of prev.props patch.props;
  tax = merge_tax prev.tax patch.tax;
  roles = merge_roles prev.roles patch.roles;
}

-- `for (const e of layer.entities) entities.set(e.key, mergeEntity(entities.get(e.key), e))`
unfoldable pub put_entities : List EntityPatch → List EntityPatch → List EntityPatch
unfolding put last_at merge_entity
put_entities m [] = m
put_entities m (e ∷ es) =
    put_entities (put EntityPatch.key (merge_entity (last_at EntityPatch.key e.key m) e) m) es

unfoldable pub present : {A : Type 0} → List (Option A) → List A
present [] = []
present (none ∷ os) = present os
present (some a ∷ os) = a ∷ present os

-- `byKey` of mergeTaxSetups, and `last`.
unfoldable pub tax_list : TaxKind → List TaxSetup → List Item → List Item
unfolding put_all
tax_list k [] m = m
tax_list k (t ∷ ts) m = tax_list k ts (put_all Item.key m (t.lists k))

unfoldable pub last_value : {A : Type 0} → (A → Option Text) → List A → Option Text → Option Text
last_value f [] v = v
last_value f (t ∷ ts) v = last_value f ts (or_earlier (f t) v)

unfoldable pub merge_present : List TaxSetup → Option TaxSetup
unfolding tax_list last_value
merge_present [] = none
merge_present (t ∷ ts) = some (record {
  lists = λ k. tax_list k (t ∷ ts) [];
  default_category = last_value TaxSetup.default_category (t ∷ ts) none;
  round_total = last_value TaxSetup.round_total (t ∷ ts) none;
})

unfoldable pub merge_tax_setups : List (Option TaxSetup) → Option TaxSetup
unfolding present merge_present
merge_tax_setups list = merge_present (present list)

unfoldable pub all_holidays : List WorkCalendar → List Item → List Item
unfolding put_all
all_holidays [] m = m
all_holidays (c ∷ cs) m =
    all_holidays cs (elim c.holidays [ none ↦ m | some hs ↦ put_all Item.key m hs ])

-- What the loop of `mergeLayers` carries.
pub record Merging : Type 0 where
  pub entities : List EntityPatch
  pub lists : Kind → List Item
  pub taxes : List (Option TaxSetup)
  pub calendars : List (Option WorkCalendar)
  pub settings : Props

unfoldable pub add_layer : Merging → ConfigLayer → Merging
unfolding put_entities put_all
add_layer m l = record {
  entities = put_entities m.entities l.entities;
  lists = λ k. put_all Item.key (m.lists k) (l.lists k);
  taxes = m.taxes ++ (l.taxes ∷ []);
  calendars = m.calendars ++ (l.calendar ∷ []);
  settings = put_all name_of m.settings l.settings;
}

unfoldable pub add_layers : Merging → List ConfigLayer → Merging
unfolding add_layer
add_layers m [] = m
add_layers m (l ∷ ls) = add_layers (add_layer m l) ls

abbrev pub nothing_yet : Merging
nothing_yet = record { entities = []; lists = λ k. []; taxes = []; calendars = []; settings = [] }

-- `before` is `a.localeCompare(b) <= 0`, by which the dates of the holidays are sorted.
module _ (before : Text → Text → Bool) where
  unfoldable pub insert : Item → List Item → List Item
  insert x [] = x ∷ []
  insert x (y ∷ ys) =
      let rest = insert x ys in if before x.key y.key then x ∷ (y ∷ ys) else y ∷ rest

  unfoldable pub sort : List Item → List Item
  unfolding insert
  sort [] = []
  sort (x ∷ xs) = insert x (sort xs)

  unfoldable pub merge_given : List WorkCalendar → Option WorkCalendar
  unfolding all_holidays last_value sort
  merge_given [] = none
  merge_given (c ∷ cs) = some (record {
    weekend = last_value WorkCalendar.weekend (c ∷ cs) none;
    hours = last_value WorkCalendar.hours (c ∷ cs) none;
    working_hours_only = last_value WorkCalendar.working_hours_only (c ∷ cs) none;
    holidays = some (sort (all_holidays (c ∷ cs) []));
  })

  unfoldable pub merge_calendars : List (Option WorkCalendar) → Option WorkCalendar
  unfolding present merge_given
  merge_calendars list = merge_given (present list)

  unfoldable pub merge_layers : List ConfigLayer → ConfigLayer
  unfolding add_layers merge_tax_setups merge_calendars
  merge_layers ls =
      let m = add_layers nothing_yet ls in
      record {
        entities = m.entities;
        lists = m.lists;
        taxes = merge_tax_setups m.taxes;
        calendar = merge_calendars m.calendars;
        settings = m.settings;
      }
