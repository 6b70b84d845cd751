-- ===== src/Jobs/Examples.antt =====
-- A job that two workers want, and the theorems about the jobs applied to it.
use erp_global.Common.{
  ◌≡◌, ◌≢◌, ◌<◌, refl, sym, subst, ◌∙◌, inl, inr, none, some, List, [], ◌∷◌, All, false, arith,
}
use native.Mathlib.Decide.{ℕ_discrete}
use erp_global.Common.Text.{Text, Text-discrete, codes}
use erp_global.Jobs.Store.{Job, task, new_job, leased, claim, remove}
use erp_global.Common.Action.{ok, err}
use erp_global.Jobs.Scheduler.{Handlers, run_due}
use erp_global.Jobs.Pass.{due, remove_lt}
use erp_global.Jobs.Settling.{AreSettling}
use erp_global.Jobs.Drained.{Drains, run_due-Drains}
use erp_global.Jobs.Lease.{Call, claims, handed_out, IdsDiffer, claim-handed_out}

abbrev reminder : Job
reminder = new_job (codes "j") (codes "t") task (codes "k") 100 none

abbrev jobs : List Job
jobs = reminder ∷ []

jobs-IdsDiffer : IdsDiffer jobs
jobs-IdsDiffer x y (inl a) (inl b) e = a ∙ sym b
jobs-IdsDiffer x y (inr a) j e = absurd a
jobs-IdsDiffer x y (inl a) (inr b) e = absurd b

-- Another worker tries twice while the lease runs.
abbrev others : List Call
others = claims 200 200 200 ∷ claims 60000 60000 60000 ∷ []

others_answers : handed_out others (claim 150 150 150 jobs).1 ≡ none ∷ none ∷ []
unfolding handed_out Text-discrete ℕ_discrete
others_answers = refl

claim-handed_out_example :
    All
      (λ a. (x : Job) → a ≡ some x → x.id ≢ codes "j")
      (handed_out others (claim 150 150 150 jobs).1)
unfolding claim Text-discrete ℕ_discrete
claim-handed_out_example =
    claim-handed_out 150 150 150 jobs (leased 150 reminder) others jobs-IdsDiffer refl
      (omega arith, (omega arith, tt))

-- The task is done and its job removed by the handler itself.
abbrev handlers : Handlers Text
handlers = record {
  on_task_timer = λ t k js. (ok tt, remove t task k js);
  push_status = λ t k js. (ok false, js);
  run_schedule = λ t k d js. (ok none, js);
  send_digest = λ t js. (err (codes "no mail"), js);
}

handlers-AreSettling : AreSettling 150 handlers
handlers-AreSettling = record {
  task_jobs = λ j js i d k. inr (
      subst (λ q. due 150 (remove j.tenant_id q j.key js) < due 150 js) k (remove_lt 150 j js i d));
  push_jobs = λ j js i d k. inl (i, omega arith);
  schedule_jobs = λ j js i d k. inl (i, omega arith);
  schedule_late = λ t k d js at e. let bad : none ≡ some at = cc in cc;
  digest_jobs = λ j js i d k. inl (i, omega arith);
  digest_late = λ t js at e. cc;
}

-- The reminder runs once and is gone.
reminder_runs : run_due handlers 150 (λ m. 200) (λ m. codes "n") jobs ≡ (1, [])
unfolding run_due remove Text-discrete ℕ_discrete
reminder_runs = refl

run_due-Drains_example :
    Drains handlers 150 handlers-AreSettling
      (λ m. 200)
      jobs
      (run_due handlers 150 (λ m. 200) (λ m. codes "n") jobs)
run_due-Drains_example =
    run_due-Drains handlers 150 handlers-AreSettling (λ m. 200) (λ m. codes "n") jobs (omega arith)
      (λ m. omega arith)
