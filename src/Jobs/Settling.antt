-- ===== src/Jobs/Settling.antt =====
-- The handlers of a pass of `runDue`, by what they do to the jobs, and what the pass does after each.
use erp_global.Common.{
  ℕ, ◌+◌, ◌≤◌, ◌<◌, Bool, true, false, ◌&&◌, not, ◌≡◌, refl, subst, inl, inr, Option, none, some,
  List, [], ◌∷◌, ◌++◌, ◌⊎◌, any, filter, In, leb, ◌==◌, if◌then◌else◌, Bool-cases, arith,
}
use erp_global.Common.Text.{Text, ◌===◌}
use erp_global.Common.Action.{Result, ok, err}
use erp_global.Jobs.Store.{
  Job, JobKind, task, schedule, digest, status_sync, has_name, moved, new_job, put, remove, finish,
  wait_of, retry_later,
}
use erp_global.Jobs.Scheduler.{Handlers, after_run, after_schedule, after_digest}
use erp_global.Jobs.Pass.{
  is_due, due, due-map_le, due-filter_le, wait_pos, finish_lt, retry_later_lt, put_lt, remove_lt,
}

module _ (until : ℕ) where
  -- Without the job among them, what follows a handler makes no job due.
  finish_le : (job : Job) (js : List Job) → (due until) (finish job js) ≤ (due until) js
  unfolding finish
  finish_le job js =
      let a =
        (due-map_le until)
          (λ j. if j.id === job.id then record j { lease_until = none; attempts = 0 } else j)
          (filter (λ j. not (j.id === job.id && j.due_at == job.due_at)) js)
          (λ y h. elim (Bool-cases (y.id === job.id)) [ inl e ↦ rw e at h | inr e ↦ rw e at h ]) in
      let b = (due-filter_le until) (λ j. not (j.id === job.id && j.due_at == job.due_at)) js in
      omega arith

  retry_later_le :
      (job : Job) (clock : ℕ) (js : List Job)
      → until ≤ clock
      → (due until) (retry_later job clock js) ≤ (due until) js
  unfolding retry_later
  retry_later_le job clock js late =
      let w = (wait_pos until) job.attempts in
      let gone : leb (clock + wait_of job.attempts) until ≡ false = ground arith in
      (due-map_le until)
        (λ j.
          if j.id === job.id
          then record j { due_at = clock + wait_of job.attempts; lease_until = none }
          else j)
        js
        (λ y h. elim (Bool-cases (y.id === job.id)) [
          | inl e ↦ let h1 = rw e at h in cc
          | inr e ↦ rw e at h
        ])

  due-append_none :
      (js : List Job) (x : Job)
      → (is_due until) x ≡ false
      → (due until) (js ++ (x ∷ [])) ≤ (due until) js
  due-append_none [] x e = ground arith
  due-append_none (y ∷ js) x e = ground (arith, due-append_none js x e)

  put_le :
      (id tenant : Text) (k : JobKind) (key : Text) (at : ℕ) (payload : Option Text) (js : List Job)
      → until < at
      → (due until) (put id tenant k key at payload js) ≤ (due until) js
  unfolding put
  put_le id tenant k key at payload js late =
      let gone : leb at until ≡ false = ground arith in
      elim (Bool-cases (any (has_name tenant k key) js)) [
        | inl f ↦ rw f (
            (due-map_le until) (λ j. if has_name tenant k key j then moved at payload j else j) js
              (λ y h. elim (Bool-cases (has_name tenant k key y)) [
                | inl e ↦ let h1 = rw e at h in cc
                | inr e ↦ rw e at h
              ]))
        | inr f ↦ rw f (due-append_none js (new_job id tenant k key at payload) gone)
      ]

  remove_le :
      (tenant : Text) (k : JobKind) (key : Text) (js : List Job)
      → (due until) (remove tenant k key js) ≤ (due until) js
  unfolding remove
  remove_le tenant k key js = (due-filter_le until) _ js

  -- What a handler that runs the job does to the jobs: it makes none due, and takes the job from those
  -- that are due, or leaves it as it is.
  abbrev pub Settles : Job → List Job → List Job → Type 0
  Settles job js js' =
      (In job js' × ((due until) js' ≤ (due until) js)) ⊎ ((due until) js' < (due until) js)

  -- Handlers of other services, by what they do to the jobs and the next times they set.
  pub record AreSettling {E : Type 0} (h : Handlers E) : Type 0 where
    pub task_jobs :
        (job : Job) (js : List Job)
        → In job js
        → (is_due until) job ≡ true
        → job.kind ≡ task
        → Settles job js (h.on_task_timer job.tenant_id job.key js).1
    pub push_jobs :
        (job : Job) (js : List Job)
        → In job js
        → (is_due until) job ≡ true
        → job.kind ≡ status_sync
        → Settles job js (h.push_status job.tenant_id job.key js).1
    pub schedule_jobs :
        (job : Job) (js : List Job)
        → In job js
        → (is_due until) job ≡ true
        → job.kind ≡ schedule
        → Settles job js (h.run_schedule job.tenant_id job.key job.due_at js).1
    pub schedule_late :
        (t k : Text) (d : ℕ) (js : List Job) (at : ℕ)
        → (h.run_schedule t k d js).0 ≡ ok (some at)
        → until < at
    pub digest_jobs :
        (job : Job) (js : List Job)
        → In job js
        → (is_due until) job ≡ true
        → job.kind ≡ digest
        → Settles job js (h.send_digest job.tenant_id js).1
    pub digest_late :
        (t : Text) (js : List Job) (at : ℕ) → (h.send_digest t js).0 ≡ ok at → until < at

  settled_lt :
      (after : List Job → List Job) (job : Job) (js js' : List Job)
      → Settles job js js'
      → (In job js' → (due until) (after js') < (due until) js')
      → (due until) (after js') ≤ (due until) js'
      → (due until) (after js') < (due until) js
  settled_lt after job js js' (inl (i, le)) lt le' = let l = lt i in omega arith
  settled_lt after job js js' (inr l) lt le' = omega arith

  module _ {E : Type 0} where
    after_run_le :
        (r : Result E Bool) (job : Job) (clock : ℕ) (js : List Job)
        → until ≤ clock
        → (due until) (after_run r job clock js) ≤ (due until) js
    unfolding after_run
    after_run_le (ok true) job clock js late = finish_le job js
    after_run_le (ok false) job clock js late = retry_later_le job clock js late
    after_run_le (err e) job clock js late = retry_later_le job clock js late

    after_schedule_le :
        (r : Result E (Option ℕ)) (job : Job) (id : Text) (clock : ℕ) (js : List Job)
        → ((at : ℕ) → r ≡ ok (some at) → until < at)
        → until ≤ clock
        → (due until) (after_schedule r job id clock js) ≤ (due until) js
    unfolding after_schedule
    after_schedule_le (ok (some at)) job id clock js later late =
        put_le id job.tenant_id schedule job.key at job.payload js (later at refl)
    after_schedule_le (ok none) job id clock js later late =
        remove_le job.tenant_id schedule job.key js
    after_schedule_le (err e) job id clock js later late = retry_later_le job clock js late

    after_digest_le :
        (r : Result E ℕ) (job : Job) (id : Text) (clock : ℕ) (js : List Job)
        → ((at : ℕ) → r ≡ ok at → until < at)
        → until ≤ clock
        → (due until) (after_digest r job id clock js) ≤ (due until) js
    unfolding after_digest
    after_digest_le (ok at) job id clock js later late =
        put_le id job.tenant_id digest job.key at none js (later at refl)
    after_digest_le (err e) job id clock js later late = retry_later_le job clock js late

    after_run_lt :
        (r : Result E Bool) (job : Job) (clock : ℕ) (js : List Job)
        → until ≤ clock
        → In job js
        → (is_due until) job ≡ true
        → (due until) (after_run r job clock js) < (due until) js
    unfolding after_run
    after_run_lt (ok true) job clock js late i d = (finish_lt until) job js i d
    after_run_lt (ok false) job clock js late i d = (retry_later_lt until) job clock js late i d
    after_run_lt (err e) job clock js late i d = (retry_later_lt until) job clock js late i d

    after_schedule_lt :
        (r : Result E (Option ℕ)) (job : Job) (id : Text) (clock : ℕ) (js : List Job)
        → job.kind ≡ schedule
        → ((at : ℕ) → r ≡ ok (some at) → until < at)
        → until ≤ clock
        → In job js
        → (is_due until) job ≡ true
        → (due until) (after_schedule r job id clock js) < (due until) js
    unfolding after_schedule
    after_schedule_lt (ok (some at)) job id clock js k later late i d =
        subst (λ q. (due until) (put id job.tenant_id q job.key at job.payload js) < (due until) js)
          k ((put_lt until) id job at job.payload js (later at refl) i d)
    after_schedule_lt (ok none) job id clock js k later late i d =
        subst (λ q. (due until) (remove job.tenant_id q job.key js) < (due until) js) k
          ((remove_lt until) job js i d)
    after_schedule_lt (err e) job id clock js k later late i d =
        (retry_later_lt until) job clock js late i d

    after_digest_lt :
        (r : Result E ℕ) (job : Job) (id : Text) (clock : ℕ) (js : List Job)
        → job.kind ≡ digest
        → ((at : ℕ) → r ≡ ok at → until < at)
        → until ≤ clock
        → In job js
        → (is_due until) job ≡ true
        → (due until) (after_digest r job id clock js) < (due until) js
    unfolding after_digest
    after_digest_lt (ok at) job id clock js k later late i d =
        subst (λ q. (due until) (put id job.tenant_id q job.key at none js) < (due until) js) k
          ((put_lt until) id job at none js (later at refl) i d)
    after_digest_lt (err e) job id clock js k later late i d =
        (retry_later_lt until) job clock js late i d

    pub after_run-Settles :
        (r : Result E Bool) (job : Job) (clock : ℕ) (js js' : List Job)
        → until ≤ clock
        → (is_due until) job ≡ true
        → Settles job js js'
        → (due until) (after_run r job clock js') < (due until) js
    after_run-Settles r job clock js js' late d m =
        settled_lt (after_run r job clock) job js js' m (λ i. after_run_lt r job clock js' late i d)
          (after_run_le r job clock js' late)

    pub after_schedule-Settles :
        (r : Result E (Option ℕ)) (job : Job) (id : Text) (clock : ℕ) (js js' : List Job)
        → job.kind ≡ schedule
        → ((at : ℕ) → r ≡ ok (some at) → until < at)
        → until ≤ clock
        → (is_due until) job ≡ true
        → Settles job js js'
        → (due until) (after_schedule r job id clock js') < (due until) js
    after_schedule-Settles r job id clock js js' k later late d m =
        settled_lt (after_schedule r job id clock) job js js' m
          (λ i. after_schedule_lt r job id clock js' k later late i d)
          (after_schedule_le r job id clock js' later late)

    pub after_digest-Settles :
        (r : Result E ℕ) (job : Job) (id : Text) (clock : ℕ) (js js' : List Job)
        → job.kind ≡ digest
        → ((at : ℕ) → r ≡ ok at → until < at)
        → until ≤ clock
        → (is_due until) job ≡ true
        → Settles job js js'
        → (due until) (after_digest r job id clock js') < (due until) js
    after_digest-Settles r job id clock js js' k later late d m =
        settled_lt (after_digest r job id clock) job js js' m
          (λ i. after_digest_lt r job id clock js' k later late i d)
          (after_digest_le r job id clock js' later late)
