-- ===== src/Config/Calendars.antt =====
-- `mergeCalendars` of merge.ts: what the merged calendar says when one more layer is added.
use erp_global.Common.{
  Bool, true, ◌||◌, subst, ◌⊎◌, ◌≡◌, refl, sym, ap, ◌∙◌, Option, none, some, List, [], ◌∷◌, ◌++◌,
  append-nil, inl, inr, Bool-cases, if◌then◌else◌, arith,
}
use erp_global.Common.Text.{Text, ◌===◌, ===_iff}
use erp_global.Config.Maps.{
  or_earlier, or_earlier-none, last_at, Differ, put_all, put_all-Differ, last_at-put_all,
}
use erp_global.Config.Layers.{
  Item, WorkCalendar, present, last_value, all_holidays, insert, sort, merge_given, merge_calendars,
}
use erp_global.Config.Taxes.{present-append, last_value-append}
use erp_global.Config.Views.{calendar_value, holiday_on, has_calendar}

all_holidays-append :
    (ps qs : List WorkCalendar) (m : List Item)
    → all_holidays (ps ++ qs) m ≡ all_holidays qs (all_holidays ps m)
unfolding all_holidays
all_holidays-append [] qs m = refl
all_holidays-append (p ∷ ps) qs m = all_holidays-append ps qs _

-- What one calendar adds to the holidays so far.
abbrev with_days : Option (List Item) → List Item → List Item
with_days o m = elim o [ none ↦ m | some hs ↦ put_all Item.key m hs ]

with_days-Differ :
    (o : Option (List Item)) (m : List Item) → Differ Item.key m → Differ Item.key (with_days o m)
with_days-Differ none m d = d
with_days-Differ (some hs) m d = put_all-Differ Item.key hs m d

all_holidays-Differ :
    (ps : List WorkCalendar) (m : List Item)
    → Differ Item.key m
    → Differ Item.key (all_holidays ps m)
unfolding all_holidays
all_holidays-Differ [] m d = d
all_holidays-Differ (p ∷ ps) m d = all_holidays-Differ ps _ (with_days-Differ p.holidays m d)

last_at-with_days :
    (o : Option (List Item)) (m : List Item) (x : Text)
    → Differ Item.key m
    → last_at Item.key x (with_days o m)
      ≡ or_earlier (elim o [ none ↦ none | some hs ↦ last_at Item.key x hs ]) (last_at Item.key x m)
last_at-with_days none m x d = refl
last_at-with_days (some hs) m x d = last_at-put_all Item.key hs m x d

earlier_none : {A : Type 0} (a b : Option A) → or_earlier a b ≡ none → (a ≡ none) × (b ≡ none)
earlier_none none b h = (refl, h)
earlier_none (some a) b h = cc

or_earlier_swap :
    {A : Type 0} (a b c : Option A)
    → (b ≡ none) ⊎ (c ≡ none)
    → or_earlier (or_earlier a b) c ≡ or_earlier (or_earlier a c) b
or_earlier_swap a b c (inl e) =
    ap (λ o. or_earlier (or_earlier a o) c) e
    ∙ ap (λ o. or_earlier o c) (or_earlier-none a)
    ∙ sym (ap (or_earlier (or_earlier a c)) e ∙ or_earlier-none _)
or_earlier_swap a b c (inr e) =
    ap (or_earlier (or_earlier a b)) e
    ∙ or_earlier-none _
    ∙ sym (ap (λ o. or_earlier (or_earlier a o) b) e ∙ ap (λ o. or_earlier o b) (or_earlier-none a))

-- The answer of one item of a list.
abbrev at : Text → Item → Option Item
at k x = if x.key === k then some x else none

one_none : (x y : Item) (k : Text) → at x.key y ≡ none → (at k x ≡ none) ⊎ (at k y ≡ none)
one_none x y k h = elim (Bool-cases (x.key === k)) [
  | inl e ↦ inr (subst (λ j. at j y ≡ none) ((===_iff x.key k).0 e) h)
  | inr e ↦ inl (rw e refl)
]

module _ (before : Text → Text → Bool) where
  -- A sort of items with different keys loses none and adds none.
  last_at-insert :
      (x : Item) (ys : List Item) (k : Text)
      → last_at Item.key x.key ys ≡ none
      → last_at Item.key k (insert before x ys) ≡ last_at Item.key k (x ∷ ys)
  unfolding insert last_at
  last_at-insert x [] k fresh = refl
  last_at-insert x (y ∷ ys) k fresh = elim (Bool-cases (before x.key y.key)) [
    | inl b ↦ rw b refl
    | inr b ↦
        let (tail, head) = earlier_none (last_at Item.key x.key ys) (at x.key y) fresh in
        rw b (
          ap (λ o. or_earlier o (at k y)) (last_at-insert x ys k tail)
          ∙ or_earlier_swap (last_at Item.key k ys) (at k x) (at k y) (one_none x y k head))
  ]

  last_at-sort :
      (xs : List Item) (k : Text)
      → Differ Item.key xs
      → last_at Item.key k (sort before xs) ≡ last_at Item.key k xs
  unfolding sort Differ last_at
  last_at-sort [] k d = refl
  last_at-sort (x ∷ xs) k (fresh, d) =
      last_at-insert x (sort before xs) k (last_at-sort xs x.key d ∙ fresh)
      ∙ ap (λ o. or_earlier o (if x.key === k then some x else none)) (last_at-sort xs k d)

  holiday_given :
      (d : Text) (ps : List WorkCalendar)
      → holiday_on d (merge_given before ps) ≡ last_at Item.key d (all_holidays ps [])
  unfolding holiday_on merge_given Differ
  holiday_given d [] = refl
  holiday_given d (p ∷ ps) =
      last_at-sort (all_holidays (p ∷ ps) []) d (all_holidays-Differ (p ∷ ps) [] tt)

  pub holiday_on-merge_calendars :
      (d : Text) (cs : List (Option WorkCalendar)) (c : Option WorkCalendar)
      → holiday_on d (merge_calendars before (cs ++ (c ∷ [])))
        ≡ or_earlier (holiday_on d c) (holiday_on d (merge_calendars before cs))
  unfolding merge_calendars present holiday_on Differ all_holidays
  holiday_on-merge_calendars d cs none =
      ap (λ ps. holiday_on d (merge_given before ps))
        (present-append cs (none ∷ []) ∙ append-nil (present cs))
  holiday_on-merge_calendars d cs (some c) =
      ap (λ ps. holiday_on d (merge_given before ps)) (present-append cs (some c ∷ []))
      ∙ holiday_given d (present cs ++ (c ∷ []))
      ∙ ap (last_at Item.key d) (all_holidays-append (present cs) (c ∷ []) [])
      ∙ last_at-with_days c.holidays (all_holidays (present cs) []) d
          (all_holidays-Differ (present cs) [] tt)
      ∙ ap (or_earlier (holiday_on d (some c))) (sym (holiday_given d (present cs)))

  module _ (f : WorkCalendar → Option Text)
      (given : (ps : List WorkCalendar)
        → calendar_value f (merge_given before ps) ≡ last_value f ps none) where
    value-merge_calendars :
        (cs : List (Option WorkCalendar)) (c : Option WorkCalendar)
        → calendar_value f (merge_calendars before (cs ++ (c ∷ [])))
          ≡ or_earlier (calendar_value f c) (calendar_value f (merge_calendars before cs))
    unfolding merge_calendars present calendar_value
    value-merge_calendars cs none =
        ap (λ ps. calendar_value f (merge_given before ps))
          (present-append cs (none ∷ []) ∙ append-nil (present cs))
    value-merge_calendars cs (some c) =
        ap (λ ps. calendar_value f (merge_given before ps)) (present-append cs (some c ∷ []))
        ∙ given (present cs ++ (c ∷ []))
        ∙ last_value-append f (present cs) c none
        ∙ ap (or_earlier (f c)) (sym (given (present cs)))

  weekend_given :
      (ps : List WorkCalendar)
      → calendar_value WorkCalendar.weekend (merge_given before ps)
        ≡ last_value WorkCalendar.weekend ps none
  unfolding calendar_value merge_given last_value
  weekend_given [] = refl
  weekend_given (p ∷ ps) = refl

  hours_given :
      (ps : List WorkCalendar)
      → calendar_value WorkCalendar.hours (merge_given before ps)
        ≡ last_value WorkCalendar.hours ps none
  unfolding calendar_value merge_given last_value
  hours_given [] = refl
  hours_given (p ∷ ps) = refl

  working_hours_only_given :
      (ps : List WorkCalendar)
      → calendar_value WorkCalendar.working_hours_only (merge_given before ps)
        ≡ last_value WorkCalendar.working_hours_only ps none
  unfolding calendar_value merge_given last_value
  working_hours_only_given [] = refl
  working_hours_only_given (p ∷ ps) = refl

  pub weekend-merge_calendars :
      (cs : List (Option WorkCalendar)) (c : Option WorkCalendar)
      → calendar_value WorkCalendar.weekend (merge_calendars before (cs ++ (c ∷ [])))
        ≡ or_earlier
            (calendar_value WorkCalendar.weekend c)
            (calendar_value WorkCalendar.weekend (merge_calendars before cs))
  weekend-merge_calendars = value-merge_calendars WorkCalendar.weekend weekend_given

  pub hours-merge_calendars :
      (cs : List (Option WorkCalendar)) (c : Option WorkCalendar)
      → calendar_value WorkCalendar.hours (merge_calendars before (cs ++ (c ∷ [])))
        ≡ or_earlier
            (calendar_value WorkCalendar.hours c)
            (calendar_value WorkCalendar.hours (merge_calendars before cs))
  hours-merge_calendars = value-merge_calendars WorkCalendar.hours hours_given

  pub working_hours_only-merge_calendars :
      (cs : List (Option WorkCalendar)) (c : Option WorkCalendar)
      → calendar_value WorkCalendar.working_hours_only (merge_calendars before (cs ++ (c ∷ [])))
        ≡ or_earlier
            (calendar_value WorkCalendar.working_hours_only c)
            (calendar_value WorkCalendar.working_hours_only (merge_calendars before cs))
  working_hours_only-merge_calendars =
      value-merge_calendars WorkCalendar.working_hours_only working_hours_only_given

  has_given :
      (ps : List WorkCalendar) (c : WorkCalendar)
      → has_calendar (merge_given before (ps ++ (c ∷ []))) ≡ true
  unfolding has_calendar merge_given
  has_given [] c = refl
  has_given (p ∷ ps) c = refl

  pub has_calendar-merge_calendars :
      (cs : List (Option WorkCalendar)) (c : Option WorkCalendar)
      → has_calendar (merge_calendars before (cs ++ (c ∷ [])))
        ≡ (has_calendar (merge_calendars before cs) || has_calendar c)
  unfolding merge_calendars present has_calendar
  has_calendar-merge_calendars cs none =
      ap (λ ps. has_calendar (merge_given before ps))
        (present-append cs (none ∷ []) ∙ append-nil (present cs))
      ∙ ground arith
  has_calendar-merge_calendars cs (some c) =
      ap (λ ps. has_calendar (merge_given before ps)) (present-append cs (some c ∷ []))
      ∙ has_given (present cs) c
      ∙ ground arith
