-- ===== src/Config/Leftovers.antt =====
-- A rollback by `withArchivedLeftovers` of diff.ts loses no entity, field or list item that exists now.
use erp_global.Common.{
  Bool, true, ◌&&◌, ◌||◌, ◌≡◌, refl, ap, ◌∙◌, inl, inr, List, [], ◌∷◌, any, map, Bool-cases,
  any-append, arith,
}
use erp_global.Common.Text.{Text, ◌===◌, ===_iff}
use erp_global.Config.Layers.{Field, Item, EntityPatch, picklists, numbering, ConfigLayer}
use erp_global.Config.Archive.{
  archive_field, archive_entity, has_field, keep_fields, kept_entity, keep_entity, keep_entities,
  keep_items, keep,
}

keep_fields_mono :
    (k : Text) (from to : List Field)
    → has_field k to ≡ true
    → has_field k (keep_fields to from) ≡ true
unfolding keep_fields
keep_fields_mono k [] to h = h
keep_fields_mono k (f ∷ from) to h =
    keep_fields_mono k from _ (elim (Bool-cases (has_field f.key to)) [
      | inl e ↦ rw e h
      | inr e ↦ rw e (any-append (λ g. g.key === k) to (archive_field f ∷ []) ∙ ground arith)
    ])

keep_fields_gain :
    (k : Text) (from to : List Field)
    → has_field k from ≡ true
    → has_field k (keep_fields to from) ≡ true
unfolding keep_fields
keep_fields_gain k [] to h = cc
keep_fields_gain k (f ∷ from) to h = elim (Bool-cases (f.key === k)) [
  | inr e ↦ keep_fields_gain k from _ (ground arith)
  | inl e ↦ keep_fields_mono k from _ (elim (Bool-cases (has_field f.key to)) [
    | inl p ↦ rw p (rw (← (===_iff f.key k).0 e) p)
    | inr p ↦ rw p (any-append (λ g. g.key === k) to (archive_field f ∷ []) ∙ ground arith)
  ])
]

pub has_field-archive :
    (k : Text) (fs : List Field) → has_field k (map archive_field fs) ≡ has_field k fs
has_field-archive k [] = refl
has_field-archive k (f ∷ fs) = ap (λ b. (f.key === k) || b) (has_field-archive k fs)

-- A test of entities that stays when fields are added, and passes to the entity that takes them in.
module _ (test : EntityPatch → Bool)
    (grow : (te : EntityPatch) (fs : List Field)
      → test te ≡ true
      → test (record te { fields = keep_fields te.fields fs }) ≡ true)
    (gain : (te ce : EntityPatch)
      → (te.key === ce.key) ≡ true
      → test ce ≡ true
      → test (record te { fields = keep_fields te.fields ce.fields }) ≡ true)
    (made : (still : List Text) (ce : EntityPatch)
      → test ce ≡ true
      → test (kept_entity still ce) ≡ true) where
  keep_entity_mono :
      (still : List Text) (to : List EntityPatch) (ce : EntityPatch)
      → any test to ≡ true
      → any test (keep_entity still to ce) ≡ true
  unfolding keep_entity
  keep_entity_mono still [] ce h = cc
  keep_entity_mono still (te ∷ to) ce h = elim (Bool-cases (te.key === ce.key)) [
    | inl e ↦ rw e (elim (Bool-cases (test te)) [
      | inl p ↦ ground (arith, grow te ce.fields p)
      | inr p ↦ ground arith
    ])
    | inr e ↦ rw e (elim (Bool-cases (test te)) [
      | inl p ↦ ground arith
      | inr p ↦ ground (arith, keep_entity_mono still to ce)
    ])
  ]

  keep_entity_gain :
      (still : List Text) (to : List EntityPatch) (ce : EntityPatch)
      → test ce ≡ true
      → any test (keep_entity still to ce) ≡ true
  unfolding keep_entity
  keep_entity_gain still [] ce h = ground (arith, made still ce h)
  keep_entity_gain still (te ∷ to) ce h = elim (Bool-cases (te.key === ce.key)) [
    | inl e ↦ rw e (ground (arith, gain te ce e h))
    | inr e ↦ rw e (ground (arith, keep_entity_gain still to ce h))
  ]

  keep_entities_mono :
      (still : List Text) (from to : List EntityPatch)
      → any test to ≡ true
      → any test (keep_entities still to from) ≡ true
  unfolding keep_entities
  keep_entities_mono still [] to h = h
  keep_entities_mono still (ce ∷ from) to h =
      keep_entities_mono still from _ (keep_entity_mono still to ce h)

  keep_entities_gain :
      (still : List Text) (from to : List EntityPatch)
      → any test from ≡ true
      → any test (keep_entities still to from) ≡ true
  unfolding keep_entities
  keep_entities_gain still [] to h = cc
  keep_entities_gain still (ce ∷ from) to h = elim (Bool-cases (test ce)) [
    | inl e ↦ keep_entities_mono still from _ (keep_entity_gain still to ce e)
    | inr e ↦ keep_entities_gain still from _ (ground arith)
  ]

-- A layer defines an entity, and a field of it.
abbrev pub names_entity : Text → EntityPatch → Bool
names_entity e p = p.key === e

abbrev pub names_field : Text → Text → EntityPatch → Bool
names_field e f p = p.key === e && has_field f p.fields

abbrev pub has_item : Text → List Item → Bool
has_item x is = any (λ i. i.key === x) is

-- Every entity, field, picklist and number series of the first layer is in the second.
pub record IsCovered (from to : ConfigLayer) : Type 0 where
  pub entity :
      (e : Text)
      → any (names_entity e) from.entities ≡ true
      → any (names_entity e) to.entities ≡ true
  pub field :
      (e f : Text)
      → any (names_field e f) from.entities ≡ true
      → any (names_field e f) to.entities ≡ true
  pub picklist :
      (x : Text) → has_item x (from.lists picklists) ≡ true → has_item x (to.lists picklists) ≡ true
  pub series :
      (x : Text) → has_item x (from.lists numbering) ≡ true → has_item x (to.lists numbering) ≡ true

pub IsCovered-trans : (a b c : ConfigLayer) → IsCovered a b → IsCovered b c → IsCovered a c
IsCovered-trans a b c p q = record {
  entity = λ e h. q.entity e (p.entity e h);
  field = λ e f h. q.field e f (p.field e f h);
  picklist = λ x h. q.picklist x (p.picklist x h);
  series = λ x h. q.series x (p.series x h);
}

keep_items_mono :
    (k : Text) (from to : List Item) → has_item k to ≡ true → has_item k (keep_items to from) ≡ true
unfolding keep_items
keep_items_mono k [] to h = h
keep_items_mono k (x ∷ from) to h =
    keep_items_mono k from _ (elim (Bool-cases (has_item x.key to)) [
      | inl e ↦ rw e h
      | inr e ↦ rw e (any-append (λ i. i.key === k) to (x ∷ []) ∙ ground arith)
    ])

keep_items_gain :
    (k : Text) (from to : List Item)
    → has_item k from ≡ true
    → has_item k (keep_items to from) ≡ true
unfolding keep_items
keep_items_gain k [] to h = cc
keep_items_gain k (x ∷ from) to h = elim (Bool-cases (x.key === k)) [
  | inr e ↦ keep_items_gain k from _ (ground arith)
  | inl e ↦ keep_items_mono k from _ (elim (Bool-cases (has_item x.key to)) [
    | inl p ↦ rw p (rw (← (===_iff x.key k).0 e) p)
    | inr p ↦ rw p (any-append (λ i. i.key === k) to (x ∷ []) ∙ ground arith)
  ])
]

entity_made :
    (e : Text) (still : List Text) (ce : EntityPatch)
    → names_entity e ce ≡ true
    → names_entity e (kept_entity still ce) ≡ true
unfolding kept_entity archive_entity
entity_made e still ce h = elim (Bool-cases (any (λ k. k === ce.key) still)) [
  | inl p ↦ rw p h
  | inr p ↦ rw p h
]

field_made :
    (e f : Text) (still : List Text) (ce : EntityPatch)
    → names_field e f ce ≡ true
    → names_field e f (kept_entity still ce) ≡ true
unfolding kept_entity archive_entity
field_made e f still ce h = elim (Bool-cases (any (λ k. k === ce.key) still)) [
  | inl p ↦ rw p (rw (has_field-archive f ce.fields) h)
  | inr p ↦ rw p (rw (has_field-archive f ce.fields) h)
]

field_grow :
    (e f : Text) (te : EntityPatch) (fs : List Field)
    → names_field e f te ≡ true
    → names_field e f (record te { fields = keep_fields te.fields fs }) ≡ true
field_grow e f te fs h = ground (arith, keep_fields_mono f fs te.fields)

field_gain :
    (e f : Text) (te ce : EntityPatch)
    → (te.key === ce.key) ≡ true
    → names_field e f ce ≡ true
    → names_field e f (record te { fields = keep_fields te.fields ce.fields }) ≡ true
field_gain e f te ce same h =
    rw ((===_iff te.key ce.key).0 same) (ground (arith, keep_fields_gain f ce.fields te.fields))

entity_gain :
    (e : Text) (te ce : EntityPatch)
    → (te.key === ce.key) ≡ true
    → names_entity e ce ≡ true
    → names_entity e (record te { fields = keep_fields te.fields ce.fields }) ≡ true
entity_gain e te ce same h = rw ((===_iff te.key ce.key).0 same) h

-- What is kept covers both the target's layer and the current one.
pub keep-IsCovered_target :
    (still : List Text) (to from : ConfigLayer) → IsCovered to (keep still to from)
unfolding keep
keep-IsCovered_target still to from = record {
  entity = λ e h.
      keep_entities_mono (names_entity e) (λ te fs k. k) (entity_gain e) (entity_made e) still
        from.entities to.entities h;
  field = λ e f h.
      keep_entities_mono (names_field e f) (field_grow e f) (field_gain e f) (field_made e f) still
        from.entities to.entities h;
  picklist = λ x h. keep_items_mono x (from.lists picklists) (to.lists picklists) h;
  series = λ x h. keep_items_mono x (from.lists numbering) (to.lists numbering) h;
}

pub keep-IsCovered :
    (still : List Text) (to from : ConfigLayer) → IsCovered from (keep still to from)
unfolding keep
keep-IsCovered still to from = record {
  entity = λ e h.
      keep_entities_gain (names_entity e) (λ te fs k. k) (entity_gain e) (entity_made e) still
        from.entities to.entities h;
  field = λ e f h.
      keep_entities_gain (names_field e f) (field_grow e f) (field_gain e f) (field_made e f) still
        from.entities to.entities h;
  picklist = λ x h. keep_items_gain x (from.lists picklists) (to.lists picklists) h;
  series = λ x h. keep_items_gain x (from.lists numbering) (to.lists numbering) h;
}
