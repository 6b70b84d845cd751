-- ===== src/Jobs/Drained.antt =====
-- A pass of `runDue` in scheduler.ts ends with no job that is due and free.
use erp_global.Common.{
  ℕ, zero, suc, ◌+◌, ◌≤◌, ◌<◌, true, ◌≡◌, refl, sym, ap, subst, inl, inr, Option, none, some, List,
  [], ◌∷◌, map, In, map-In, if◌then◌else◌, Bool-cases, arith,
}
use erp_global.Common.Text.{Text, ◌===◌, ===_iff}
use erp_global.Jobs.Store.{
  Job, JobKind, task, schedule, digest, status_sync, claim, next_due, leased,
}
use erp_global.Jobs.Lease.{claim-cases}
use erp_global.Jobs.Scheduler.{Handlers, max_runs, execute_kind, execute, rounds, run_due}
use erp_global.Jobs.Pass.{is_due, due, due-map_le}
use erp_global.Jobs.Settling.{
  AreSettling, after_run-Settles, after_schedule-Settles, after_digest-Settles,
}

module _ {E : Type 0} (h : Handlers E) (until : ℕ) (mild : AreSettling until h) where
  execute_kind_lt :
      (k : JobKind) (job : Job) (id : Text) (clock : ℕ) (js : List Job)
      → job.kind ≡ k
      → until ≤ clock
      → In job js
      → is_due until job ≡ true
      → due until (execute_kind h k job id clock js) < due until js
  unfolding execute_kind
  execute_kind_lt task job id clock js k late i d =
      after_run-Settles until _ job clock js _ late d (mild.task_jobs job js i d k)
  execute_kind_lt status_sync job id clock js k late i d =
      after_run-Settles until _ job clock js _ late d (mild.push_jobs job js i d k)
  execute_kind_lt schedule job id clock js k late i d =
      after_schedule-Settles until _ job id clock js _ k
        (mild.schedule_late job.tenant_id job.key job.due_at js) late d
        (mild.schedule_jobs job js i d k)
  execute_kind_lt digest job id clock js k late i d =
      after_digest-Settles until _ job id clock js _ k (mild.digest_late job.tenant_id js) late d
        (mild.digest_jobs job js i d k)

  none_due : (clock : ℕ) (js : List Job) → due until js ≡ 0 → next_due until clock js ≡ none
  unfolding next_due
  none_due clock [] e = refl
  none_due clock (j ∷ js) e = elim (Bool-cases (is_due until j)) [
    | inl d ↦ absurd (ground arith)
    | inr d ↦ let rest : due until js ≡ 0 = ground arith in rw d (none_due clock js rest)
  ]

  -- A claimed job stands in the collection, as due as before.
  claimed-In :
      (later : ℕ) (js : List Job) (k : Job)
      → In k js
      → In (leased later k) (map (λ j. if j.id === k.id then leased later j else j) js)
  claimed-In later js k i =
      let same = (===_iff k.id k.id).1 refl in
      subst (λ x. In x (map (λ j. if j.id === k.id then leased later j else j) js)) (rw same refl)
        (map-In (λ j. if j.id === k.id then leased later j else j) js k i)

  -- What a pass leaves: nothing that is due and free at some reading of the clock, and each run has
  -- taken one due job off.
  abbrev pub Drains : (ℕ → ℕ) → List Job → ℕ × List Job → Type 0
  Drains clock js end =
      (end.0 + due until end.1 ≤ due until js) × ((m : ℕ) × (next_due until (clock m) end.1 ≡ none))

  rounds_next :
      (n : ℕ) (clock : ℕ → ℕ) (ids : ℕ → Text) (js : List Job) (p : Option Job × List Job)
      → claim until (clock n) (clock n) js ≡ p
      → rounds h (suc n) until clock ids js ≡ elim p.0 [
        | none ↦ (0, p.1)
        | some job ↦
            let (count, after) = rounds h n until clock ids (execute h job (ids n) (clock n) p.1) in
            (suc count, after)
      ]
  unfolding rounds
  rounds_next n clock ids js p e =
      ap
        (λ q. elim q.0 [
          | none ↦ (0, q.1)
          | some job ↦
              let (count, after) =
                rounds h n until clock ids (execute h job (ids n) (clock n) q.1) in
              (suc count, after)
        ])
        e

  rounds-Drains :
      (n : ℕ) (clock : ℕ → ℕ) (ids : ℕ → Text) (js : List Job)
      → due until js ≤ n
      → ((m : ℕ) → until ≤ clock m)
      → Drains clock js (rounds h n until clock ids js)
  unfolding rounds execute
  rounds-Drains zero clock ids js few late = (omega arith, (0, none_due (clock 0) js (omega arith)))
  rounds-Drains (suc n) clock ids js few late = elim (claim-cases until (clock n) (clock n) js) [
    | inl (e, c) ↦
        subst (Drains clock js) (sym (rounds_next n clock ids js _ c)) (omega arith, (n, e))
    | inr (k, i, can, c) ↦
        let after = map (λ j. if j.id === k.id then leased (clock n) j else j) js in
        let job = leased (clock n) k in
        let same : due until after ≤ due until js =
          due-map_le until (λ j. if j.id === k.id then leased (clock n) j else j) js
            (λ y d. elim (Bool-cases (y.id === k.id)) [ inl e ↦ rw e at d | inr e ↦ rw e at d ]) in
        let lt =
          execute_kind_lt job.kind job (ids n) (clock n) after refl (late n)
            (claimed-In (clock n) js k i) (ground (arith, can)) in
        let (fewer, (m, e)) =
          rounds-Drains n clock ids (execute_kind h job.kind job (ids n) (clock n) after)
            (omega arith) late in
        subst (Drains clock js) (sym (rounds_next n clock ids js _ c)) (omega arith, (m, e))
  ]

  -- A pass of `runDue` over at most 500 jobs that are due ends with no job that is due and free at some
  -- reading of the clock, and each of its runs takes one due job off, whether the handler succeeds or
  -- throws. The clock does not read before the time of the pass, and the handlers set later times, make
  -- no job due, and leave the job that runs as it is or take one from those that are due.
  pub run_due-Drains :
      (clock : ℕ → ℕ) (ids : ℕ → Text) (js : List Job)
      → due until js ≤ max_runs
      → ((m : ℕ) → until ≤ clock m)
      → Drains clock js (run_due h until clock ids js)
  unfolding run_due
  run_due-Drains clock ids js few late = rounds-Drains max_runs clock ids js few late
