-- ===== src/Config/Views.antt =====
-- What a layer of configuration says, forgetting the order of its lists: under each key the item that
-- is last. A later layer overrides what it says, and leaves the rest.
use erp_global.Common.{Bool, true, false, ◌||◌, Option, none, some, List, [], ◌∷◌, if◌then◌else◌}
use erp_global.Common.Text.{Text, ◌===◌}
use erp_global.Config.Maps.{or_earlier, last_at}
use erp_global.Config.Layers.{
  Field, Item, name_of, EntityPatch, Kind, TaxKind, TaxSetup, WorkCalendar, ConfigLayer,
}

-- What the patches of the entity `e` say, of which the last that says something counts.
unfoldable pub at_entity :
    {B : Type 0} → (EntityPatch → Option B) → Text → List EntityPatch → Option B
at_entity get e [] = none
at_entity get e (p ∷ ps) = or_earlier (at_entity get e ps) (if p.key === e then get p else none)

unfoldable pub field_of : Text → EntityPatch → Option Field
unfolding last_at
field_of f p = last_at Field.key f p.fields

unfoldable pub prop_of : Text → EntityPatch → Option (Text × Text)
unfolding last_at
prop_of k p = last_at name_of k p.props

unfoldable pub tax_of : Text → EntityPatch → Option (Text × Text)
unfolding last_at
tax_of k p = elim p.tax [ none ↦ none | some t ↦ last_at name_of k t ]

unfoldable pub role_of : Text → EntityPatch → Option Text
unfolding last_at
role_of r p = elim p.roles [ none ↦ none | some rs ↦ last_at (λ x. x) r rs ]

unfoldable pub tax_item : TaxKind → Text → Option TaxSetup → Option Item
unfolding last_at
tax_item k x none = none
tax_item k x (some t) = last_at Item.key x (t.lists k)

unfoldable pub tax_default : Option TaxSetup → Option Text
tax_default none = none
tax_default (some t) = t.default_category

unfoldable pub tax_round : Option TaxSetup → Option Text
tax_round none = none
tax_round (some t) = t.round_total

unfoldable pub calendar_value : (WorkCalendar → Option Text) → Option WorkCalendar → Option Text
calendar_value f none = none
calendar_value f (some c) = f c

-- The holiday on a date.
unfoldable pub holiday_on : Text → Option WorkCalendar → Option Item
unfolding last_at
holiday_on d none = none
holiday_on d (some c) = elim c.holidays [ none ↦ none | some hs ↦ last_at Item.key d hs ]

unfoldable pub has_calendar : Option WorkCalendar → Bool
has_calendar none = false
has_calendar (some c) = true

pub record View : Type 0 where
  pub field : Text → Text → Option Field
  pub prop : Text → Text → Option (Text × Text)
  pub tax : Text → Text → Option (Text × Text)
  pub role : Text → Text → Option Text
  pub item : Kind → Text → Option Item
  pub tax_list : TaxKind → Text → Option Item
  pub tax_category : Option Text
  pub tax_rounding : Option Text
  pub setting : Text → Option (Text × Text)
  pub calendar_given : Bool
  pub weekend : Option Text
  pub hours : Option Text
  pub working_hours_only : Option Text
  pub holiday : Text → Option Item

unfoldable pub view : ConfigLayer → View
unfolding at_entity field_of prop_of tax_of role_of tax_item tax_default tax_round last_at
    calendar_value holiday_on has_calendar
view l = record {
  field = λ e f. at_entity (field_of f) e l.entities;
  prop = λ e k. at_entity (prop_of k) e l.entities;
  tax = λ e k. at_entity (tax_of k) e l.entities;
  role = λ e r. at_entity (role_of r) e l.entities;
  item = λ k x. last_at Item.key x (l.lists k);
  tax_list = λ k x. tax_item k x l.taxes;
  tax_category = tax_default l.taxes;
  tax_rounding = tax_round l.taxes;
  setting = λ k. last_at name_of k l.settings;
  calendar_given = has_calendar l.calendar;
  weekend = calendar_value WorkCalendar.weekend l.calendar;
  hours = calendar_value WorkCalendar.hours l.calendar;
  working_hours_only = calendar_value WorkCalendar.working_hours_only l.calendar;
  holiday = λ d. holiday_on d l.calendar;
}

unfoldable pub override : View → View → View
override v w = record {
  field = λ e f. or_earlier (w.field e f) (v.field e f);
  prop = λ e k. or_earlier (w.prop e k) (v.prop e k);
  tax = λ e k. or_earlier (w.tax e k) (v.tax e k);
  role = λ e r. or_earlier (w.role e r) (v.role e r);
  item = λ k x. or_earlier (w.item k x) (v.item k x);
  tax_list = λ k x. or_earlier (w.tax_list k x) (v.tax_list k x);
  tax_category = or_earlier w.tax_category v.tax_category;
  tax_rounding = or_earlier w.tax_rounding v.tax_rounding;
  setting = λ k. or_earlier (w.setting k) (v.setting k);
  calendar_given = v.calendar_given || w.calendar_given;
  weekend = or_earlier w.weekend v.weekend;
  hours = or_earlier w.hours v.hours;
  working_hours_only = or_earlier w.working_hours_only v.working_hours_only;
  holiday = λ d. or_earlier (w.holiday d) (v.holiday d);
}

abbrev pub empty_view : View
empty_view = record {
  field = λ e f. none;
  prop = λ e k. none;
  tax = λ e k. none;
  role = λ e r. none;
  item = λ k x. none;
  tax_list = λ k x. none;
  tax_category = none;
  tax_rounding = none;
  setting = λ k. none;
  calendar_given = false;
  weekend = none;
  hours = none;
  working_hours_only = none;
  holiday = λ d. none;
}

-- Layers replayed one after the other.
unfoldable pub replay : View → List View → View
unfolding override
replay v [] = v
replay v (w ∷ ws) = replay (override v w) ws
