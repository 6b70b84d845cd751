-- ===== src/Config/Overrides.antt =====
-- merge.ts: `pathIds` and `layersFor`, over the paths of the organization tree.
use erp_global.Common.{
  ℕ, Bool, true, false, ◌≡◌, ◌≢◌, refl, sym, ap, ap₂, ◌∙◌, inl, inr, Option, none, some, List, [],
  ◌∷◌, ◌++◌, filter, append_assoc, append-nil, if◌then◌else◌, Bool-cases, ◌==◌, ==_iff, arith,
}
use erp_global.Common.Text.{Text, split, cons_head, ◌===◌}
use erp_global.Contracts.Split.{split-ne-nil}
use erp_global.Org.Units.{child_path}
use erp_global.Org.Paths.{NoSlash, EndsSlash}
use erp_global.Config.Layers.{ConfigLayer}

pub record OrgUnitLayer : Type 0 where
  pub layer : ConfigLayer
  pub path : Text
  pub name : Option Text

-- The overrides stand under the ids of their units. `Pack` is an installed pack.
pub record TenantConfig (Pack : Type 0) : Type 0 where
  pub company : ConfigLayer
  pub org_units : List (Text × OrgUnitLayer)
  pub packs : List Pack
  pub retired : Option ConfigLayer

unfoldable pub filled : Text → Bool
filled [] = false
filled (c ∷ s) = true

-- `(path ?? '').split('/').filter(Boolean)`
unfoldable pub path_ids : Option Text → List Text
unfolding split filled
path_ids none = filter filled (split b'/' [])
path_ids (some path) = filter filled (split b'/' path)

-- `config.orgUnits[id]`
unfoldable pub unit_layer : Text → List (Text × OrgUnitLayer) → Option OrgUnitLayer
unit_layer id [] = none
unit_layer id ((j, l) ∷ us) = if j === id then some l else unit_layer id us

unfoldable pub own_override : List (Text × OrgUnitLayer) → Text → List ConfigLayer
unfolding unit_layer
own_override us id = elim (unit_layer id us) [ none ↦ [] | some l ↦ l.layer ∷ [] ]

unfoldable pub overrides : List (Text × OrgUnitLayer) → List Text → List ConfigLayer
unfolding own_override
overrides us [] = []
overrides us (id ∷ ids) = own_override us id ++ overrides us ids

abbrev pub to_list : {A : Type 0} → Option A → List A
to_list none = []
to_list (some a) = a ∷ []

-- `pack_layers` is `packLayers` of packs.ts.
module _ {Pack : Type 0} (pack_layers : List Pack → Option ConfigLayer → List ConfigLayer) where
  unfoldable pub layers_for : List ConfigLayer → TenantConfig Pack → Option Text → List ConfigLayer
  unfolding path_ids overrides
  layers_for base config org_path =
      base
      ++ (pack_layers config.packs (some config.company)
          ++ (to_list config.retired
              ++ (config.company ∷ overrides config.org_units (path_ids org_path))))

cons_head-append :
    (c : ℕ) (ps qs : List Text) → ps ≢ [] → cons_head c (ps ++ qs) ≡ cons_head c ps ++ qs
unfolding cons_head
cons_head-append c [] qs h = absurd (h refl)
cons_head-append c (p ∷ ps) qs h = refl

split-append : (sep : ℕ) (s t : Text) → split sep (s ++ (sep ∷ t)) ≡ split sep s ++ split sep t
unfolding split
split-append sep [] t = let e = (==_iff sep sep).1 refl in rw e refl
split-append sep (c ∷ s) t = elim (Bool-cases (c == sep)) [
  | inl e ↦ rw e (ap (λ ps. [] ∷ ps) (split-append sep s t))
  | inr e ↦ rw e (
      ap (cons_head c) (split-append sep s t)
      ∙ cons_head-append c (split sep s) (split sep t) (split-ne-nil sep s))
]

split-NoSlash : (id : Text) → NoSlash id → split b'/' id ≡ id ∷ []
unfolding split cons_head
split-NoSlash [] h = refl
split-NoSlash (c ∷ id) (h, hs) = elim (Bool-cases (c == b'/')) [
  | inl e ↦ absurd (h ((==_iff c b'/').0 e))
  | inr e ↦ rw e (rw (split-NoSlash id hs) refl)
]

filter-append :
    (ps qs : List Text) → filter filled (ps ++ qs) ≡ filter filled ps ++ filter filled qs
filter-append [] qs = refl
filter-append (p ∷ ps) qs = ground (arith, filter-append ps qs)

abbrev ids_of : Text → List Text
ids_of t = filter filled (split b'/' t)

ids_of-append : (s t : Text) → ids_of (s ++ (b'/' ∷ t)) ≡ ids_of s ++ ids_of t
ids_of-append s t =
    ap (filter filled) (split-append b'/' s t) ∙ filter-append (split b'/' s) (split b'/' t)

ids_of_slash : (s : Text) → ids_of (s ++ (b'/' ∷ [])) ≡ ids_of s
unfolding split filled
ids_of_slash s = ids_of-append s [] ∙ append-nil (ids_of s)

ids_of_one : (id : Text) → NoSlash id → id ≢ [] → ids_of id ≡ id ∷ []
unfolding filled
ids_of_one [] plain ne = absurd (ne refl)
ids_of_one (c ∷ s) plain ne = ap (filter filled) (split-NoSlash (c ∷ s) plain)

-- The units on the path of a child: those on the path of its parent, and itself.
pub path_ids-child_path :
    (p id : Text)
    → EndsSlash p
    → NoSlash id
    → id ≢ []
    → path_ids (some (child_path p id)) ≡ path_ids (some p) ++ (id ∷ [])
unfolding path_ids child_path
path_ids-child_path p id (q, e) plain ne =
    ap (λ r. ids_of (r ++ (id ++ (b'/' ∷ [])))) e
    ∙ ap ids_of (append_assoc q (b'/' ∷ []) (id ++ (b'/' ∷ [])))
    ∙ ids_of-append q (id ++ (b'/' ∷ []))
    ∙ ap₂ (λ (r s : List Text). r ++ s) (sym (ids_of_slash q) ∙ ap ids_of (sym e))
        (ids_of_slash id ∙ ids_of_one id plain ne)

pub overrides-append :
    (us : List (Text × OrgUnitLayer)) (ids js : List Text)
    → overrides us (ids ++ js) ≡ overrides us ids ++ overrides us js
unfolding overrides
overrides-append us [] js = refl
overrides-append us (id ∷ ids) js =
    ap (λ r. own_override us id ++ r) (overrides-append us ids js)
    ∙ sym (append_assoc (own_override us id) (overrides us ids) (overrides us js))
