-- ===== src/Tenancy/Plugin.antt =====
-- plugin.ts: `tenantPlugin`, one function for each hook. A hook that returns gives what it leaves of its
-- argument, one that throws gives the error.
use erp_global.Common.{
  Bool, true, false, ◌&&◌, Option, none, some, List, [], ◌∷◌, ◌++◌, any, if◌then◌else◌,
}
use erp_global.Common.Text.{Text, ◌===◌, codes}
use erp_global.Common.Action.{Result, ok, err}
use erp_global.Tenancy.Context.{
  RequestContext, TenancyError, isolation_violation, require_tenant_id, bypass,
}

-- A defined value of an object: a text, null, or any other value, by a text that tells it.
pub data Unknown : Type 0 where
  text : Text → Unknown
  null : Unknown
  other : Text → Unknown

-- An object, by its entries; an entry whose value is undefined counts as none. `get` is `o[k]`, which
-- may be undefined; `set` is `{ ...o, [k]: v }`, and `o[k] = v` on the object itself.
abbrev pub Fields : Type 0
Fields = List (Text × Unknown)

unfoldable pub get : Text → Fields → Option Unknown
get k [] = none
get k ((j, v) ∷ fs) = if j === k then some v else get k fs

unfoldable pub set : Text → Unknown → Fields → Fields
set k v [] = (k, v) ∷ []
set k v ((j, w) ∷ fs) = let rest = set k v fs in if j === k then (k, v) ∷ fs else (j, w) ∷ rest

abbrev pub tenant_field : Text
tenant_field = codes "tenantId"

-- Runs what follows where a check passes.
abbrev pub then_check :
    {A B : Type 0} → Result TenancyError A → (A → Result TenancyError B) → Result TenancyError B
then_check (ok a) k = k a
then_check (err e) k = err e

-- `if (!test) throw e`
abbrev pub require : Bool → TenancyError → Result TenancyError (Unit {0})
require true e = ok tt
require false e = err e

unfoldable pub assert_same_tenant : Option Unknown → Text → Text → Result TenancyError (Unit {0})
assert_same_tenant none tenant_id place = ok tt
assert_same_tenant (some (text s)) tenant_id place =
    require (s === tenant_id) (isolation_violation place)
assert_same_tenant (some null) tenant_id place = err (isolation_violation place)
assert_same_tenant (some (other n)) tenant_id place = err (isolation_violation place)

-- An update: an array of stages, or an object, by the fields that stand outside of operators, the
-- operators with their fields, and the operators that have the tenant field with the value undefined,
-- where `in` finds it and the driver has nothing to write.
pub data Update : Type 0 where
  pipeline : Update
  document : Fields → List (Text × Fields) → List Text → Update

unfoldable pub operator_fields : Text → List (Text × Fields) → Fields
operator_fields op [] = []
operator_fields op ((o, fs) ∷ ops) = if o === op then fs else operator_fields op ops

abbrev pub set_operators : List Text
set_operators = codes "$set" ∷ codes "$setOnInsert" ∷ []

abbrev pub guarded_operators : List Text
guarded_operators =
    codes "$unset"
    ∷ codes "$rename"
    ∷ codes "$inc"
    ∷ codes "$push"
    ∷ codes "$pull"
    ∷ codes "$addToSet"
    ∷ codes "$pop"
    ∷ codes "$min"
    ∷ codes "$max"
    ∷ codes "$mul"
    ∷ codes "$currentDate"
    ∷ []

unfoldable pub guard_sets : List Text → List (Text × Fields) → Text → Result TenancyError (Unit {0})
unfolding operator_fields assert_same_tenant get
guard_sets [] ops tenant_id = ok tt
guard_sets (op ∷ names) ops tenant_id =
    then_check
      (assert_same_tenant (get tenant_field (operator_fields op ops)) tenant_id
        (codes "update " ++ op))
      (λ _. guard_sets names ops tenant_id)

-- `TENANT_FIELD in part` holds of a key whose value is undefined too.
unfoldable pub guard_others :
    List Text → List (Text × Fields) → List Text → Result TenancyError (Unit {0})
unfolding operator_fields get
guard_others [] ops blank = ok tt
guard_others (op ∷ names) ops blank = elim (get tenant_field (operator_fields op ops)) [
  | some v ↦ err (isolation_violation (codes "update " ++ op))
  | none ↦
      let rest = guard_others names ops blank in
      if any (λ b. b === op) blank then err (isolation_violation (codes "update " ++ op)) else rest
]

unfoldable pub guard_update : Option Update → Text → Result TenancyError (Unit {0})
unfolding assert_same_tenant guard_sets guard_others get
guard_update none tenant_id = ok tt
guard_update (some pipeline) tenant_id = ok tt
guard_update (some (document top ops blank)) tenant_id =
    then_check (assert_same_tenant (get tenant_field top) tenant_id (codes "update")) (λ _.
      then_check (guard_sets set_operators ops tenant_id)
        (λ _. guard_others guarded_operators ops blank))

unfoldable pub scope_filter : Option Fields → Text → Text → Result TenancyError Fields
unfolding assert_same_tenant get set
scope_filter none tenant_id place = ok (set tenant_field (text tenant_id) [])
scope_filter (some filter) tenant_id place =
    then_check (assert_same_tenant (get tenant_field filter) tenant_id place)
      (λ _. ok (set tenant_field (text tenant_id) filter))

pub record Query : Type 0 where
  pub op : Text
  pub filter : Fields
  pub update : Option Update
  pub upsert : Bool

-- The hook of the queries that filter: `countDocuments`, `find`, `updateOne`, `deleteMany` and so on.
unfoldable pub pre_query : Option RequestContext → Query → Result TenancyError Query
unfolding assert_same_tenant guard_update get set
pre_query ctx q =
    if bypass ctx
    then ok q
    else then_check (require_tenant_id ctx) (λ tenant_id.
      then_check
        (assert_same_tenant (get tenant_field q.filter) tenant_id (q.op ++ codes " filter"))
        (λ _.
          then_check (guard_update q.update tenant_id)
            (λ _. ok (record q { filter = set tenant_field (text tenant_id) q.filter }))))

unfoldable pub pre_estimated_count : Option RequestContext → Result TenancyError (Unit {0})
pre_estimated_count ctx =
    require (bypass ctx) (isolation_violation (codes "estimatedDocumentCount"))

-- `current` counts as true: it is defined, and neither null nor the empty text.
unfoldable pub is_set : Option Unknown → Bool
is_set none = false
is_set (some (text [])) = false
is_set (some null) = false
is_set (some v) = true

-- What `insertMany` and `insertOne` do to a document: only an undefined tenant is filled in.
unfoldable pub own_or_same : Fields → Text → Text → Result TenancyError Fields
unfolding assert_same_tenant get set
own_or_same doc tenant_id place = elim (get tenant_field doc) [
  | none ↦ ok (set tenant_field (text tenant_id) doc)
  | some v ↦ then_check (assert_same_tenant (some v) tenant_id place) (λ _. ok doc)
]

unfoldable pub own_if_nullish : Fields → Text → Result TenancyError Fields
unfolding assert_same_tenant get set
own_if_nullish doc tenant_id = elim (get tenant_field doc) [
  | none ↦ ok (set tenant_field (text tenant_id) doc)
  | some null ↦ ok (set tenant_field (text tenant_id) doc)
  | some v ↦ then_check (assert_same_tenant (some v) tenant_id (codes "save")) (λ _. ok doc)
]

-- The hook `validate`: a document without a tenant gets that of the context.
unfoldable pub pre_validate : Option RequestContext → Fields → Result TenancyError Fields
unfolding is_set own_if_nullish get
pre_validate ctx doc =
    if bypass ctx && is_set (get tenant_field doc)
    then ok doc
    else then_check (require_tenant_id ctx) (λ tenant_id. own_if_nullish doc tenant_id)

unfoldable pub pre_save : Option RequestContext → Fields → Result TenancyError Fields
unfolding assert_same_tenant get
pre_save ctx doc =
    if bypass ctx
    then ok doc
    else then_check (require_tenant_id ctx) (λ tenant_id.
      then_check (assert_same_tenant (get tenant_field doc) tenant_id (codes "save")) (λ _. ok doc))

unfoldable pub own_all : List Fields → Text → Result TenancyError (List Fields)
unfolding own_or_same
own_all [] tenant_id = ok []
own_all (d ∷ ds) tenant_id =
    then_check (own_or_same d tenant_id (codes "insertMany"))
      (λ d'. then_check (own_all ds tenant_id) (λ ds'. ok (d' ∷ ds')))

unfoldable pub pre_insert_many :
    Option RequestContext → List Fields → Result TenancyError (List Fields)
unfolding own_all
pre_insert_many ctx docs =
    if bypass ctx
    then ok docs
    else then_check (require_tenant_id ctx) (λ tenant_id. own_all docs tenant_id)

-- An operation of `bulkWrite`: an insert, or another kind with its body (`filter`, `update`,
-- `replacement`, `upsert`).
pub data BulkOp : Type 0 where
  insert_one : Fields → BulkOp
  change : Text → Option Fields → Option Update → Option Fields → Bool → BulkOp

unfoldable pub own_replacement : Option Fields → Text → Result TenancyError (Option Fields)
unfolding assert_same_tenant get set
own_replacement none tenant_id = ok none
own_replacement (some r) tenant_id =
    then_check (assert_same_tenant (get tenant_field r) tenant_id (codes "bulkWrite replaceOne"))
      (λ _. ok (some (set tenant_field (text tenant_id) r)))

unfoldable pub own_bulk : BulkOp → Text → Result TenancyError BulkOp
unfolding own_or_same scope_filter guard_update own_replacement
own_bulk (insert_one doc) tenant_id =
    then_check (own_or_same doc tenant_id (codes "bulkWrite insertOne")) (λ d. ok (insert_one d))
own_bulk (change kind filter update replacement upsert) tenant_id =
    then_check (scope_filter filter tenant_id (codes "bulkWrite " ++ kind)) (λ f.
      then_check (guard_update update tenant_id) (λ _.
        then_check (own_replacement replacement tenant_id)
          (λ r. ok (change kind (some f) update r upsert))))

unfoldable pub own_bulks : List BulkOp → Text → Result TenancyError (List BulkOp)
unfolding own_bulk
own_bulks [] tenant_id = ok []
own_bulks (o ∷ os) tenant_id =
    then_check (own_bulk o tenant_id)
      (λ o'. then_check (own_bulks os tenant_id) (λ os'. ok (o' ∷ os')))

unfoldable pub pre_bulk_write :
    Option RequestContext → List BulkOp → Result TenancyError (List BulkOp)
unfolding own_bulks
pre_bulk_write ctx ops =
    if bypass ctx
    then ok ops
    else then_check (require_tenant_id ctx) (λ tenant_id. own_bulks ops tenant_id)
