-- ===== src/Org/Units.antt =====
-- org-unit.model.ts and the helpers of org.service.ts: the documents of one company's organization
-- units, the writes of the handlers to the collection, and the checks that they make.
use erp_global.Common.{
  ℕ, ◌+◌, ◌-◌, Bool, true, false, ◌&&◌, ◌||◌, not, Option, none, some, List, [], ◌∷◌, ◌++◌, map,
  any, find, length, max, if◌then◌else◌,
}
use erp_global.Common.Text.{Text, codes, ◌===◌, starts_with, drop}
use erp_global.Common.Action.{Result, ok, err, Action, ensure}
use erp_global.Contracts.{Claims, has_permission}

-- The deepest hierarchy allowed.
abbrev pub max_depth : ℕ
max_depth = 15

pub data Status : Type 0 where
  active inactive : Status

abbrev pub is_active : Status → Bool
is_active active = true
is_active inactive = false

-- `custom` is the JSON of the custom fields.
pub record OrgUnit : Type 0 where
  pub id : Text
  pub name : Text
  pub code : Option Text
  pub type : Text
  pub parent_id : Option Text
  pub path : Text
  pub depth : ℕ
  pub status : Status
  pub custom : Text
  pub head_user_id : Option Text

-- The messages of the exceptions that the service throws.
pub data OrgError : Type 0 where
  not_found forbidden parent_inactive too_deep code_used top_unit under_itself : OrgError
  target_inactive active_children bad_head bad_custom : OrgError

-- What the service writes to the outbox.
pub data OrgEvent : Type 0 where
  unit_created : Text → Option Text → Text → OrgEvent
  unit_updated : Text → OrgEvent
  unit_moved : Text → Text → Text → OrgEvent
  unit_deactivated : Text → Text → OrgEvent

pub record State : Type 0 where
  pub units : List OrgUnit
  pub outbox : List OrgEvent

-- The request's context: the actor's type, and the entries of the token.
pub record Caller : Type 0 where
  pub is_service : Bool
  pub claims : Claims

abbrev pub Method : Type 0 → Type 0
Method A = Action State OrgError A

unfoldable pub in_scope : Caller → Text → Text → Bool
in_scope caller perm path =
    if caller.is_service then true else has_permission caller.claims perm (some path)

-- Throws unless the caller holds `perm` at `path` or above it.
unfoldable pub assert_scope : Caller → Text → Text → Method (Unit {0})
assert_scope caller perm path = ensure (in_scope caller perm path) forbidden

unfoldable pub unit_with_id : Text → List OrgUnit → Option OrgUnit
unit_with_id id = find (λ u. u.id === id)

-- The documents whose path matches the regular expression `^path`, the path escaped.
abbrev pub is_below : Text → OrgUnit → Bool
is_below path u = starts_with u.path path

-- `u.parentId === id`
unfoldable pub has_parent : Text → OrgUnit → Bool
has_parent id u = elim u.parent_id [ none ↦ false | some p ↦ p === id ]

-- What `updateMany` writes to every unit below the moved one: `$concat` of the new path and the rest
-- of the old, and `$add` of the difference in depth, which is no less than 0 in a tree.
unfoldable pub shift_path : Text → Text → Text → Text
shift_path old new path = new ++ drop (length old) path

unfoldable pub shift_unit : Text → Text → ℕ → ℕ → OrgUnit → OrgUnit
shift_unit old new from to u =
    if is_below old u
    then record u { path = shift_path old new u.path; depth = u.depth + to - from }
    else u

unfoldable pub set_parent : Text → Text → OrgUnit → OrgUnit
set_parent id parent u = if u.id === id then record u { parent_id = some parent } else u

-- The depth of the deepest unit below `path`, or `d`, the depth of the unit that stands at `path`.
unfoldable pub deepest_below : Text → ℕ → List OrgUnit → ℕ
deepest_below path d [] = d
deepest_below path d (u ∷ us) =
    let rest = deepest_below path d us in if is_below path u then max u.depth rest else rest

-- The unique index on the codes: another unit has this code.
unfoldable pub code_taken : Text → Option Text → List OrgUnit → Bool
code_taken id none us = false
code_taken id (some c) us =
    any (λ u. not (u.id === id) && elim u.code [ none ↦ false | some d ↦ d === c ]) us

-- `path.slice()` of a child: the parent's path, the child's id and a slash.
unfoldable pub child_path : Text → Text → Text
child_path parent id = parent ++ (id ++ (b'/' ∷ []))

pub record CreateInput : Type 0 where
  pub parent_id : Text
  pub name : Text
  pub code : Option Text
  pub type : Text
  pub custom : Option Text

pub record UpdateInput : Type 0 where
  pub name : Option Text
  pub code : Option Text
  pub type : Option Text
  pub custom : Option Text
  pub head : Option (Option Text)

-- `input.code || undefined`
unfoldable pub code_or_none : Option Text → Option Text
code_or_none (some []) = none
code_or_none code = code

unfoldable pub or_else : {A : Type 0} → Option A → A → A
or_else none a = a
or_else (some b) a = b

-- The document that `create` inserts.
unfoldable pub new_unit : CreateInput → Text → OrgUnit → Text → OrgUnit
new_unit input id parent custom = record {
  id = id;
  name = input.name;
  code = code_or_none input.code;
  type = input.type;
  parent_id = some parent.id;
  path = child_path parent.path id;
  depth = parent.depth + 1;
  status = active;
  custom = custom;
  head_user_id = none;
}

unfoldable pub insert_unit : OrgUnit → List OrgUnit → Result OrgError (List OrgUnit)
insert_unit u us = if code_taken u.id u.code us then err code_used else ok (us ++ (u ∷ []))

-- The writes of `move`, to every unit below the old path and to the moved unit's parent; `id` is the
-- text that the call gave.
unfoldable pub moved_units : Text → OrgUnit → OrgUnit → List OrgUnit → List OrgUnit
unfolding shift_unit set_parent
moved_units id unit parent us =
    map
      (λ u.
        set_parent unit.id parent.id
          (shift_unit unit.path (child_path parent.path id) unit.depth (parent.depth + 1) u))
      us

unfoldable pub set_status : Text → Status → List OrgUnit → List OrgUnit
set_status id st = map (λ u. if u.id === id then record u { status = st } else u)

-- The change of the head that an update asks for.
pub data HeadChange : Type 0 where
  keep unset : HeadChange
  set_to : Text → HeadChange

-- `user_status` is the status of a user in the identity service. `null` clears the head, and a new
-- head must be a user who is not deactivated.
unfoldable pub head_change :
    (Text → Option Text) → OrgUnit → Option (Option Text) → Result OrgError HeadChange
head_change user_status unit none = ok keep
head_change user_status unit (some none) = elim unit.head_user_id [
  | none ↦ ok keep
  | some _ ↦ ok unset
]
head_change user_status unit (some (some [])) = ok keep
head_change user_status unit (some (some (c ∷ h))) =
    if elim unit.head_user_id [ none ↦ false | some old ↦ old === (c ∷ h) ]
    then ok keep
    else elim (user_status (c ∷ h)) [
      | none ↦ err bad_head
      | some st ↦ if st === codes "deactivated" then err bad_head else ok (set_to (c ∷ h))
    ]

unfoldable pub is_some : {A : Type 0} → Option A → Bool
is_some none = false
is_some (some _) = true

-- Nothing to `$set` and nothing to `$unset`.
unfoldable pub nothing_set : UpdateInput → HeadChange → Bool
nothing_set patch keep =
    not (is_some patch.name || is_some patch.code || is_some patch.type || is_some patch.custom)
nothing_set patch _ = false

unfoldable pub new_head : HeadChange → Option Text → Option Text
new_head keep old = old
new_head unset old = none
new_head (set_to h) old = some h

unfoldable pub updated_units :
    Text → UpdateInput → Option Text → HeadChange → List OrgUnit → List OrgUnit
unfolding or_else new_head
updated_units id patch custom head = map λ u.
    if u.id === id
    then record u {
      name = or_else patch.name u.name;
      code = elim patch.code [ none ↦ u.code | some c ↦ some c ];
      type = or_else patch.type u.type;
      custom = or_else custom u.custom;
      head_user_id = new_head head u.head_user_id;
    }
    else u
