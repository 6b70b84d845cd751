-- ===== src/Jobs/Scheduler.antt =====
-- scheduler.ts: one pass of `runDue` over the jobs, with the handlers of other services as parameters.
use erp_global.Common.{ℕ, zero, suc, Bool, true, false, Option, none, some, List}
use erp_global.Common.Text.{Text}
use erp_global.Common.Action.{Result, ok, err}
use erp_global.Jobs.Store.{
  Job, JobKind, task, schedule, digest, status_sync, put, remove, claim, finish, retry_later,
}

-- What the handlers answer: `onTaskTimer`, `pushStatus`, `runSchedule` with the next time, and the digest
-- with the time of the next one. They may throw, and may change jobs themselves.
pub record Handlers (E : Type 0) : Type 0 where
  pub on_task_timer : Text → Text → List Job → Result E (Unit {0}) × List Job
  pub push_status : Text → Text → List Job → Result E Bool × List Job
  pub run_schedule : Text → Text → ℕ → List Job → Result E (Option ℕ) × List Job
  pub send_digest : Text → List Job → Result E ℕ × List Job

abbrev pub max_runs : ℕ
max_runs = 500

-- What follows a handler's answer, by the kind of the job: `finish` or `retryLater`, or the next run.
unfoldable pub after_run : {E : Type 0} → Result E Bool → Job → ℕ → List Job → List Job
unfolding finish retry_later
after_run (ok true) job clock js = finish job js
after_run (ok false) job clock js = retry_later job clock js
after_run (err e) job clock js = retry_later job clock js

unfoldable pub after_schedule :
    {E : Type 0} → Result E (Option ℕ) → Job → Text → ℕ → List Job → List Job
unfolding put remove retry_later
after_schedule (ok (some at)) job id clock js =
    put id job.tenant_id schedule job.key at job.payload js
after_schedule (ok none) job id clock js = remove job.tenant_id schedule job.key js
after_schedule (err e) job id clock js = retry_later job clock js

unfoldable pub after_digest : {E : Type 0} → Result E ℕ → Job → Text → ℕ → List Job → List Job
unfolding put retry_later
after_digest (ok at) job id clock js = put id job.tenant_id digest job.key at none js
after_digest (err e) job id clock js = retry_later job clock js

abbrev pub as_done : {E : Type 0} → Result E (Unit {0}) → Result E Bool
as_done (ok u) = ok true
as_done (err e) = err e

module _ {E : Type 0} (h : Handlers E) where
  unfoldable pub execute_kind : JobKind → Job → Text → ℕ → List Job → List Job
  unfolding after_run after_schedule after_digest
  execute_kind task job id clock js =
      let (r, js') = h.on_task_timer job.tenant_id job.key js in after_run (as_done r) job clock js'
  execute_kind status_sync job id clock js =
      let (r, js') = h.push_status job.tenant_id job.key js in after_run r job clock js'
  execute_kind schedule job id clock js =
      let (r, js') = h.run_schedule job.tenant_id job.key job.due_at js in
      after_schedule r job id clock js'
  execute_kind digest job id clock js =
      let (r, js') = h.send_digest job.tenant_id js in after_digest r job id clock js'

  -- `execute`: the clock is read where a job is to be retried; `id` is that of a job that `put` may make.
  unfoldable pub execute : Job → Text → ℕ → List Job → List Job
  unfolding execute_kind
  execute job id clock js = execute_kind job.kind job id clock js

  -- The loop of `runDue`: how many jobs ran, and the jobs after it. `clock` and `ids` give the readings
  -- of the clock and the ids of the round that has so many rounds left.
  unfoldable pub rounds : ℕ → ℕ → (ℕ → ℕ) → (ℕ → Text) → List Job → ℕ × List Job
  unfolding claim execute
  rounds zero until clock ids js = (0, js)
  rounds (suc n) until clock ids js =
      let (found, js') = claim until (clock n) (clock n) js in
      elim found [
        | none ↦ (0, js')
        | some job ↦
            let (count, after) = rounds n until clock ids (execute job (ids n) (clock n) js') in
            (suc count, after)
      ]

  unfoldable pub run_due : ℕ → (ℕ → ℕ) → (ℕ → Text) → List Job → ℕ × List Job
  unfolding rounds
  run_due until clock ids js = rounds max_runs until clock ids js
