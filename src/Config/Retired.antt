-- ===== src/Config/Retired.antt =====
-- The packs' part of `withArchivedLeftovers` of diff.ts: the layer of what the packs no longer define.
use erp_global.Common.{
  Bool, true, false, ◌&&◌, ◌||◌, not, ◌≡◌, refl, sym, ap, ap₂, ◌∙◌, ◌⊎◌, inl, inr, Option, none,
  some, List, [], ◌∷◌, ◌++◌, any, find, filter, map, if◌then◌else◌, Bool-cases, &&_iff,
  Option-cases, any-append, find-In, any_of_In, All, All-append, arith,
}
use erp_global.Common.Text.{Text, ◌===◌, ===_iff}
use erp_global.Config.Maps.{or_earlier, put-Differ, Differ, last_at}
use erp_global.Config.Layers.{Field, name_of, EntityPatch, ConfigLayer, empty_layer, merge_layers}
use erp_global.Config.Views.{at_entity, field_of, View, view, override, empty_view, replay}
use erp_global.Config.Entities.{PatchDiffer}
use erp_global.Config.Replay.{LayerDiffer, merge_layers-replay}
use erp_global.Config.Overrides.{to_list}
use erp_global.Config.Archive.{
  archive_entity, has_field, retire_fields, retire_as, retire_entity, retire_all, retired_if_any,
  retired_layer,
}
use erp_global.Config.Leftovers.{names_field, has_field-archive}

abbrev is_some : {A : Type 0} → Option A → Bool
is_some none = false
is_some (some a) = true

is_some-or_earlier :
    {A : Type 0} (a b : Option A) → is_some (or_earlier a b) ≡ (is_some b || is_some a)
is_some-or_earlier none none = refl
is_some-or_earlier none (some b) = refl
is_some-or_earlier (some a) none = refl
is_some-or_earlier (some a) (some b) = refl

is_some-last_at : (f : Text) (fs : List Field) → is_some (last_at Field.key f fs) ≡ has_field f fs
unfolding last_at
is_some-last_at f [] = refl
is_some-last_at f (g ∷ fs) =
    is_some-or_earlier (last_at Field.key f fs) (if g.key === f then some g else none)
    ∙ ap₂ (λ (a b : Bool). a || b) (one (g.key === f)) (is_some-last_at f fs)
  where
    one : (b : Bool) → is_some (if b then some g else none) ≡ b
    one true = refl
    one false = refl

is_some-at_entity :
    (e f : Text) (es : List EntityPatch)
    → is_some (at_entity (field_of f) e es) ≡ any (names_field e f) es
unfolding at_entity field_of
is_some-at_entity e f [] = refl
is_some-at_entity e f (p ∷ es) =
    is_some-or_earlier (at_entity (field_of f) e es)
      (if p.key === e then last_at Field.key f p.fields else none)
    ∙ ap₂ (λ (a b : Bool). a || b) (one (p.key === e)) (is_some-at_entity e f es)
  where
    one :
        (b : Bool)
        → is_some (if b then last_at Field.key f p.fields else none) ≡ (b && has_field f p.fields)
    one true = is_some-last_at f p.fields
    one false = refl

abbrev pub layer_names : Text → Text → ConfigLayer → Bool
layer_names e f l = any (names_field e f) l.entities

replay-field :
    (e f : Text) (v : View) (ls : List ConfigLayer)
    → is_some ((replay v (map view ls)).field e f)
      ≡ (is_some (v.field e f) || any (layer_names e f) ls)
unfolding replay view override
replay-field e f v [] = ground arith
replay-field e f v (l ∷ ls) =
    replay-field e f (override v (view l)) ls
    ∙ rw (is_some-or_earlier ((view l).field e f) (v.field e f))
        (rw (is_some-at_entity e f l.entities) (ground arith))

-- A merge has the fields that one of its layers has.
pub merge_layers-names_field :
    (before : Text → Text → Bool) (ls : List ConfigLayer) (e f : Text)
    → All LayerDiffer ls
    → any (names_field e f) (merge_layers before ls).entities ≡ any (layer_names e f) ls
unfolding view
merge_layers-names_field before ls e f h =
    sym (is_some-at_entity e f (merge_layers before ls).entities)
    ∙ ap (λ (v : View). is_some (v.field e f)) (merge_layers-replay before ls h)
    ∙ replay-field e f empty_view ls

missing-has_field :
    (f : Text) (t fs : List Field)
    → has_field f fs ≡ true
    → has_field f t ≡ false
    → has_field f (filter (λ g. not (has_field g.key t)) fs) ≡ true
missing-has_field f t [] h k = cc
missing-has_field f t (g ∷ fs) h k = elim (Bool-cases (g.key === f)) [
  | inl e ↦
      let gone : has_field g.key t ≡ false = rw ((===_iff g.key f).0 e) k in rw gone (ground arith)
  | inr e ↦ elim (Bool-cases (has_field g.key t)) [
    | inl p ↦ rw p (missing-has_field f t fs (ground arith) k)
    | inr p ↦ rw p (ground (arith, missing-has_field f t fs))
  ]
]

retire_fields-names_field :
    (e f key : Text) (fs : List Field)
    → (key === e) ≡ true
    → has_field f fs ≡ true
    → any (names_field e f) (retire_fields key fs) ≡ true
unfolding retire_fields
retire_fields-names_field e f key [] same h = cc
retire_fields-names_field e f key (g ∷ fs) same h = rw (has_field-archive f fs) (ground arith)

retire_entity-names_field :
    (e f : Text) (target : List EntityPatch) (p : EntityPatch)
    → names_field e f p ≡ true
    → (any (names_field e f) target ≡ true)
      ⊎ (any (names_field e f) (retire_entity target p) ≡ true)
unfolding retire_entity retire_as archive_entity
retire_entity-names_field e f target p h =
    elim (Option-cases (find (λ x. x.key === p.key) target)) [
      | inl n ↦ inr (rw n (rw (has_field-archive f p.fields) (ground arith)))
      | inr (x, n) ↦
          let (i, same) = find-In (λ (y : EntityPatch). y.key === p.key) target x n in
          elim (Bool-cases (has_field f x.fields)) [
            | inl k ↦ inl (
                any_of_In (names_field e f) x target i
                  (rw ((===_iff x.key p.key).0 same) (ground arith)))
            | inr k ↦
                let (here, fields) = (&&_iff (p.key === e) (has_field f p.fields)).0 h in
                inr (
                  rw n (
                    retire_fields-names_field e f p.key _ here
                      (missing-has_field f x.fields p.fields fields k)))
          ]
    ]

-- A field of the packs now is in the target's packs, or in what is pushed.
pub retire_all-names_field :
    (e f : Text) (target es : List EntityPatch)
    → any (names_field e f) es ≡ true
    → (any (names_field e f) target ≡ true) ⊎ (any (names_field e f) (retire_all target es) ≡ true)
unfolding retire_all
retire_all-names_field e f target [] h = cc
retire_all-names_field e f target (p ∷ es) h = elim (Bool-cases (names_field e f p)) [
  | inl k ↦ elim (retire_entity-names_field e f target p k) [
    | inl a ↦ inl a
    | inr a ↦ inr (
        any-append (names_field e f) (retire_entity target p) (retire_all target es) ∙ ground arith)
  ]
  | inr k ↦ elim (retire_all-names_field e f target es (ground arith)) [
    | inl a ↦ inl a
    | inr a ↦ inr (
        any-append (names_field e f) (retire_entity target p) (retire_all target es) ∙ ground arith)
  ]
]

if_any :
    (e f : Text) (earlier : Option ConfigLayer) (l : ConfigLayer) (es : List EntityPatch)
    → any (names_field e f) es ≡ true
    → any (layer_names e f) (to_list (retired_if_any earlier l es)) ≡ true
unfolding retired_if_any
if_any e f earlier l [] h = cc
if_any e f earlier l (p ∷ es) h = ground arith

-- The retired layer has what it had, and what is pushed.
pub retired_layer_earlier :
    (e f : Text) (earlier : Option ConfigLayer) (pushed : List EntityPatch)
    → any (layer_names e f) (to_list earlier) ≡ true
    → any (layer_names e f) (to_list (retired_layer earlier pushed)) ≡ true
unfolding retired_layer retired_if_any
retired_layer_earlier e f none pushed h = cc
retired_layer_earlier e f (some l) pushed h =
    if_any e f (some l) l (l.entities ++ pushed)
      (any-append (names_field e f) l.entities pushed ∙ ground arith)

pub retired_layer_pushed :
    (e f : Text) (earlier : Option ConfigLayer) (pushed : List EntityPatch)
    → any (names_field e f) pushed ≡ true
    → any (layer_names e f) (to_list (retired_layer earlier pushed)) ≡ true
unfolding retired_layer
retired_layer_pushed e f none pushed h = if_any e f none empty_layer pushed h
retired_layer_pushed e f (some l) pushed h =
    if_any e f (some l) l (l.entities ++ pushed)
      (any-append (names_field e f) l.entities pushed ∙ ground arith)

retire_entity-PatchDiffer :
    (target : List EntityPatch) (p : EntityPatch)
    → PatchDiffer p
    → All PatchDiffer (retire_entity target p)
unfolding retire_entity retire_as archive_entity retire_fields Differ
retire_entity-PatchDiffer target p (d, u) =
    elim (Option-cases (find (λ x. x.key === p.key) target)) [
      | inl n ↦ rw n ((put-Differ name_of _ p.props d, u), tt)
      | inr (x, n) ↦ rw n (fields_only p.key _)
    ]
  where
    fields_only : (key : Text) (fs : List Field) → All PatchDiffer (retire_fields key fs)
    fields_only key [] = tt
    fields_only key (f ∷ fs) = ((tt, tt), tt)

pub retire_all-PatchDiffer :
    (target es : List EntityPatch) → All PatchDiffer es → All PatchDiffer (retire_all target es)
unfolding retire_all
retire_all-PatchDiffer target [] h = tt
retire_all-PatchDiffer target (p ∷ es) (h, hs) =
    All-append PatchDiffer _ _ (retire_entity-PatchDiffer target p h)
      (retire_all-PatchDiffer target es hs)

pub retired_layer-LayerDiffer :
    (earlier : Option ConfigLayer) (pushed : List EntityPatch)
    → All LayerDiffer (to_list earlier)
    → All PatchDiffer pushed
    → All LayerDiffer (to_list (retired_layer earlier pushed))
unfolding retired_layer retired_if_any
retired_layer-LayerDiffer none [] h k = tt
retired_layer-LayerDiffer none (p ∷ es) h k = (k, tt)
retired_layer-LayerDiffer (some l) pushed (h, u) k =
    go (l.entities ++ pushed) (All-append PatchDiffer l.entities pushed h k)
  where
    go :
        (es : List EntityPatch)
        → All PatchDiffer es
        → All LayerDiffer (to_list (retired_if_any (some l) l es))
    go [] d = (h, tt)
    go (p ∷ es) d = (d, tt)
