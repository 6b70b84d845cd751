-- ===== src/Org/Handlers.antt =====
-- The handlers of org.service.ts. The checks of a handler run before its transaction, which writes all
-- that it writes or nothing; `get` at the end checks the caller's right to read once more.
use erp_global.Common.{
  ℕ, ◌+◌, true, false, ◌&&◌, not, Option, none, some, List, [], ◌∷◌, ◌++◌, any, find, length, leb,
  if◌then◌else◌,
}
use erp_global.Common.Text.{Text, codes, starts_with}
use erp_global.Common.Action.{
  Result, ok, err, pure, gets, ensure, or_raise, from_result, transaction, ◌>>=◌, ◌>>◌,
}
use erp_global.Org.Units.{
  max_depth, active, inactive, is_active, OrgUnit, OrgError, not_found, parent_inactive, too_deep,
  code_used, top_unit, under_itself, target_inactive, active_children, unit_created, unit_updated,
  unit_moved, unit_deactivated, Caller, Method, assert_scope, unit_with_id, has_parent,
  deepest_below, code_taken, child_path, CreateInput, UpdateInput, new_unit, insert_unit,
  moved_units, set_status, head_change, is_some, nothing_set, updated_units,
}

-- `object_id` is the driver's reading of a text as an id: `none` where `ObjectId.isValid` fails, or the
-- hexadecimal form in small letters of the `ObjectId` that `findById` makes of it, which the text itself
-- need not have.
module _ (object_id : Text → Option Text) where
  -- `isValid` and `findById`.
  unfoldable pub find_by_id : Text → List OrgUnit → Option OrgUnit
  find_by_id id us = elim (object_id id) [ none ↦ none | some i ↦ unit_with_id i us ]

  unfoldable pub load : Text → Method OrgUnit
  load id = gets (λ s. find_by_id id s.units) >>= λ found. or_raise found not_found

  unfoldable pub get : Caller → Text → Method OrgUnit
  unfolding load assert_scope
  get caller id = do
    unit ← load id
    assert_scope caller (codes "org.unit.read") unit.path
    pure unit

  -- Moves a unit and its whole subtree under a new parent.
  unfoldable pub move : Caller → Text → Text → Method OrgUnit
  unfolding load assert_scope deepest_below
  move caller id new_parent = do
    unit ← load id
    ensure (elim unit.parent_id [ none ↦ false | some _ ↦ true ]) top_unit
    parent ← load new_parent
    assert_scope caller (codes "org.unit.move") unit.path
    assert_scope caller (codes "org.unit.move") parent.path
    ensure (not (starts_with parent.path unit.path)) under_itself
    ensure (is_active parent.status) target_inactive
    if has_parent parent.id unit then pure unit else (do
      deepest ← gets (λ s. deepest_below unit.path unit.depth s.units)
      ensure (not (leb (max_depth + unit.depth) (deepest + (parent.depth + 1)))) too_deep
      transaction λ s. ok (record {
        units = moved_units id unit parent s.units;
        outbox = s.outbox ++ (unit_moved id unit.path (child_path parent.path id) ∷ []);
      })
      get caller id)

  unfoldable pub deactivate : Caller → Text → Method OrgUnit
  unfolding load assert_scope
  deactivate caller id = do
    unit ← load id
    assert_scope caller (codes "org.unit.deactivate") unit.path
    ensure (elim unit.parent_id [ none ↦ false | some _ ↦ true ]) top_unit
    children ← gets (λ s. any (λ u. is_active u.status && has_parent id u) s.units)
    ensure (not children) active_children
    transaction λ s. ok (record {
      units = set_status unit.id inactive s.units;
      outbox = s.outbox ++ (unit_deactivated id unit.path ∷ []);
    })
    get caller id

  -- `validate_custom` is the check of the custom fields by the configuration service.
  module _ (validate_custom : Option Text → Option Text → Text → Result OrgError Text) where
    -- `id` is the new `ObjectId`.
    unfoldable pub create : Caller → CreateInput → Text → Method OrgUnit
    unfolding load assert_scope
    create caller input id = do
      parent ← load input.parent_id
      assert_scope caller (codes "org.unit.create") parent.path
      ensure (is_active parent.status) parent_inactive
      ensure (not (leb max_depth (parent.depth + 1))) too_deep
      custom ← from_result (validate_custom input.custom none parent.path)
      let doc = new_unit input id parent custom
      transaction λ s. elim (insert_unit doc s.units) [
        | err e ↦ err e
        | ok us ↦ ok (record {
          units = us;
          outbox = s.outbox ++ (unit_created id doc.parent_id doc.path ∷ []);
        })
      ]
      get caller id

    unfoldable pub custom_change : Option Text → OrgUnit → Method (Option Text)
    custom_change none unit = pure none
    custom_change (some c) unit = do
      custom ← from_result (validate_custom (some c) (some unit.custom) unit.path)
      pure (some custom)

    unfoldable pub update : (Text → Option Text) → Caller → Text → UpdateInput → Method OrgUnit
    unfolding load assert_scope
    update user_status caller id patch = do
      unit ← load id
      assert_scope caller (codes "org.unit.update") unit.path
      head ← from_result (head_change user_status unit patch.head)
      custom ← custom_change patch.custom unit
      if nothing_set patch head then pure unit else (do
        transaction λ s.
            if code_taken unit.id patch.code s.units
            then err code_used
            else ok (record {
              units = updated_units unit.id patch custom head s.units;
              outbox = s.outbox ++ (unit_updated id ∷ []);
            })
        get caller id)

-- The document of the top unit of a new company.
unfoldable pub root_unit : Text → Text → OrgUnit
root_unit name id = record {
  id = id;
  name = name;
  code = none;
  type = codes "Company";
  parent_id = none;
  path = child_path (b'/' ∷ []) id;
  depth = 0;
  status = active;
  custom = codes "{}";
  head_user_id = none;
}

-- Creates the top unit once; `id` is the new `ObjectId`.
unfoldable pub bootstrap : Text → Text → Method (Text × Text)
bootstrap name id = do
  existing ← gets (λ s. find (λ u. not (is_some u.parent_id)) s.units)
  elim existing [
    | some u ↦ pure (u.id, u.path)
    | none ↦ (do
      let doc = root_unit name id
      transaction λ s. ok (record {
        units = s.units ++ (doc ∷ []);
        outbox = s.outbox ++ (unit_created id none doc.path ∷ []);
      })
      pure (id, doc.path))
  ]

-- Undoes `bootstrap` when a sign-up fails: the number of units deleted.
unfoldable pub undo_bootstrap : Method ℕ
undo_bootstrap = do
  n ← gets (λ s. length s.units)
  transaction λ s. ok (record s { units = [] })
  pure n
