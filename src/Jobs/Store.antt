-- ===== src/Jobs/Store.antt =====
-- jobs.ts: `JobStore` over the jobs of models.ts. Times are milliseconds; the tenant of the context, the
-- reading of the clock and the id of a new job are arguments.
use erp_global.Common.{
  ℕ, ◌+◌, ◌-◌, ◌*◌, ◌^◌, min, Bool, true, false, ◌&&◌, not, Option, none, some, List, [], ◌∷◌, ◌++◌,
  any, filter, map, if◌then◌else◌, ltb, leb, ◌==◌,
}
use erp_global.Common.Text.{Text, ◌===◌}

pub data JobKind : Type 0 where
  task : JobKind
  schedule : JobKind
  digest : JobKind
  status_sync : JobKind

abbrev pub is_kind : JobKind → JobKind → Bool
is_kind task task = true
is_kind schedule schedule = true
is_kind digest digest = true
is_kind status_sync status_sync = true
is_kind _ _ = false

pub record Job : Type 0 where
  pub id : Text
  pub tenant_id : Text
  pub kind : JobKind
  pub key : Text
  pub due_at : ℕ
  pub lease_until : Option ℕ
  pub attempts : ℕ
  pub payload : Option Text

abbrev pub lease_ms : ℕ
lease_ms = 60000

-- `{ tenantId, kind, key }`
abbrev pub has_name : Text → JobKind → Text → Job → Bool
has_name tenant kind key j = j.tenant_id === tenant && is_kind j.kind kind && j.key === key

abbrev pub new_job : Text → Text → JobKind → Text → ℕ → Option Text → Job
new_job id tenant kind key due_at payload = record {
  id = id;
  tenant_id = tenant;
  kind = kind;
  key = key;
  due_at = due_at;
  lease_until = none;
  attempts = 0;
  payload = payload;
}

abbrev pub moved : ℕ → Option Text → Job → Job
moved due_at payload j = record j {
  due_at = due_at;
  payload = payload;
  lease_until = none;
  attempts = 0;
}

unfoldable pub put : Text → Text → JobKind → Text → ℕ → Option Text → List Job → List Job
put id tenant kind key due_at payload js =
    if any (has_name tenant kind key) js
    then map (λ j. if has_name tenant kind key j then moved due_at payload j else j) js
    else js ++ (new_job id tenant kind key due_at payload ∷ [])

unfoldable pub ensure_job : Text → Text → JobKind → Text → ℕ → Option Text → List Job → List Job
ensure_job id tenant kind key due_at payload js =
    if any (has_name tenant kind key) js
    then js
    else js ++ (new_job id tenant kind key due_at payload ∷ [])

unfoldable pub remove : Text → JobKind → Text → List Job → List Job
remove tenant kind key js = filter (λ j. not (has_name tenant kind key j)) js

unfoldable pub remove_many : Text → JobKind → List Text → List Job → List Job
remove_many tenant kind keys js =
    filter (λ j. not (j.tenant_id === tenant && is_kind j.kind kind && any (λ k. k === j.key) keys))
      js

unfoldable pub list_kind : Text → JobKind → List Job → List Job
list_kind tenant kind js = filter (λ j. j.tenant_id === tenant && is_kind j.kind kind) js

-- A job that a worker may take: due, and without a lease that still runs.
abbrev pub is_free : Option ℕ → ℕ → Bool
is_free none clock = true
is_free (some t) clock = ltb t clock

abbrev pub can_claim : ℕ → ℕ → Job → Bool
can_claim now clock j = leb j.due_at now && is_free j.lease_until clock

-- The first of those that are due earliest.
abbrev pub earlier_of : Job → Option Job → Job
earlier_of j none = j
earlier_of j (some k) = if leb j.due_at k.due_at then j else k

unfoldable pub next_due : ℕ → ℕ → List Job → Option Job
next_due now clock [] = none
next_due now clock (j ∷ js) =
    let rest = next_due now clock js in
    if can_claim now clock j then some (earlier_of j rest) else rest

abbrev pub leased : ℕ → Job → Job
leased clock j = record j { lease_until = some (clock + lease_ms); attempts = j.attempts + 1 }

-- The clock is read for the filter and again for the new lease.
unfoldable pub claim : ℕ → ℕ → ℕ → List Job → Option Job × List Job
unfolding next_due
claim now clock later js = elim (next_due now clock js) [
  | none ↦ (none, js)
  | some k ↦ (some (leased later k), map (λ j. if j.id === k.id then leased later j else j) js)
]

unfoldable pub finish : Job → List Job → List Job
finish job js =
    map (λ j. if j.id === job.id then record j { lease_until = none; attempts = 0 } else j)
      (filter (λ j. not (j.id === job.id && j.due_at == job.due_at)) js)

abbrev pub wait_of : ℕ → ℕ
wait_of attempts = min (60000 * 2 ^ (attempts - 1)) 3600000

unfoldable pub retry_later : Job → ℕ → List Job → List Job
retry_later job clock js =
    map
      (λ j.
        if j.id === job.id
        then record j { due_at = clock + wait_of job.attempts; lease_until = none }
        else j)
      js
