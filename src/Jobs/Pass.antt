-- ===== src/Jobs/Pass.antt =====
-- A pass of `runDue` in scheduler.ts: it runs the jobs that are due, and leaves none.
use erp_global.Common.{
  ℕ, zero, suc, ◌+◌, ◌^◌, ◌-◌, ◌≤◌, ◌<◌, Bool, true, false, ◌&&◌, not, ◌≡◌, refl, subst, inl, inr,
  Option, none, List, [], ◌∷◌, filter, map, length, In, any_of_In, leb, ◌==◌, ==_iff, if◌then◌else◌,
  Bool-cases, arith,
}
use erp_global.Common.Text.{Text, ◌===◌, ===_iff}
use erp_global.Jobs.Store.{
  Job, JobKind, task, schedule, digest, status_sync, is_kind, has_name, moved, put, remove, finish,
  wait_of, retry_later,
}

two_pow_pos : (n : ℕ) → 1 ≤ 2 ^ n
two_pow_pos zero = omega arith
two_pow_pos (suc n) = omega (arith, two_pow_pos n)

module _ (until : ℕ) where
  abbrev pub is_due : Job → Bool
  is_due j = leb j.due_at until

  abbrev pub due : List Job → ℕ
  due js = length (filter is_due js)

  pub due-map_le :
      (f : Job → Job) (js : List Job)
      → ((y : Job) → is_due (f y) ≡ true → is_due y ≡ true)
      → due (map f js) ≤ due js
  due-map_le f [] h = omega arith
  due-map_le f (y ∷ js) h = ground (arith, due-map_le f js h, h y)

  due-map_lt :
      (f : Job → Job) (js : List Job) (x : Job)
      → ((y : Job) → is_due (f y) ≡ true → is_due y ≡ true)
      → In x js
      → is_due x ≡ true
      → is_due (f x) ≡ false
      → due (map f js) < due js
  due-map_lt f [] x h i d n = elim i [ ]
  due-map_lt f (y ∷ js) x h (inl e) d n =
      let d' = subst (λ z. is_due z ≡ true) e d in
      let n' = subst (λ z. is_due (f z) ≡ false) e n in ground (arith, due-map_le f js h)
  due-map_lt f (y ∷ js) x h (inr i) d n = ground (arith, due-map_lt f js x h i d n, h y)

  pub due-filter_le : (q : Job → Bool) (js : List Job) → due (filter q js) ≤ due js
  due-filter_le q [] = omega arith
  due-filter_le q (y ∷ js) = ground (arith, due-filter_le q js)

  due-filter_lt :
      (q : Job → Bool) (js : List Job) (x : Job)
      → In x js
      → is_due x ≡ true
      → q x ≡ false
      → due (filter q js) < due js
  due-filter_lt q [] x i d n = elim i [ ]
  due-filter_lt q (y ∷ js) x (inl e) d n =
      let d' = subst (λ z. is_due z ≡ true) e d in
      let n' = subst (λ z. q z ≡ false) e n in ground (arith, due-filter_le q js)
  due-filter_lt q (y ∷ js) x (inr i) d n = ground (arith, due-filter_lt q js x i d n)

  pub finish_lt :
      (job : Job) (js : List Job) → In job js → is_due job ≡ true → due (finish job js) < due js
  unfolding finish
  finish_lt job js i d =
      let a =
        due-map_le
          (λ j. if j.id === job.id then record j { lease_until = none; attempts = 0 } else j)
          (filter (λ j. not (j.id === job.id && j.due_at == job.due_at)) js)
          (λ y h. elim (Bool-cases (y.id === job.id)) [ inl e ↦ rw e at h | inr e ↦ rw e at h ]) in
      let same = (===_iff job.id job.id).1 refl in
      let now_ = (==_iff job.due_at job.due_at).1 refl in
      let b =
        due-filter_lt (λ j. not (j.id === job.id && j.due_at == job.due_at)) js job i d
          (rw same (rw now_ refl)) in
      omega arith

  pub wait_pos : (n : ℕ) → 0 < wait_of n
  wait_pos n = omega (arith, two_pow_pos (n - 1))

  pub retry_later_lt :
      (job : Job) (clock : ℕ) (js : List Job)
      → until ≤ clock
      → In job js
      → is_due job ≡ true
      → due (retry_later job clock js) < due js
  unfolding retry_later
  retry_later_lt job clock js late i d =
      let w = wait_pos job.attempts in
      let gone : leb (clock + wait_of job.attempts) until ≡ false = ground arith in
      due-map_lt
        (λ j.
          if j.id === job.id
          then record j { due_at = clock + wait_of job.attempts; lease_until = none }
          else j)
        js job
        (λ y h. elim (Bool-cases (y.id === job.id)) [
          | inl e ↦ let h1 = rw e at h in cc
          | inr e ↦ rw e at h
        ])
        i d (let same = (===_iff job.id job.id).1 refl in rw same gone)

  is_kind_same : (k : JobKind) → is_kind k k ≡ true
  is_kind_same task = refl
  is_kind_same schedule = refl
  is_kind_same digest = refl
  is_kind_same status_sync = refl

  own_name : (job : Job) → has_name job.tenant_id job.kind job.key job ≡ true
  own_name job =
      let a = (===_iff job.tenant_id job.tenant_id).1 refl in
      let b = is_kind_same job.kind in let c = (===_iff job.key job.key).1 refl in rw a (rw b c)

  -- `put` under the job's own name moves it to a later time.
  pub put_lt :
      (id : Text) (job : Job) (at : ℕ) (payload : Option Text) (js : List Job)
      → until < at
      → In job js
      → is_due job ≡ true
      → due (put id job.tenant_id job.kind job.key at payload js) < due js
  unfolding put
  put_lt id job at payload js late i d =
      let own = own_name job in
      let found = any_of_In (has_name job.tenant_id job.kind job.key) job js i own in
      let gone : leb at until ≡ false = ground arith in
      rw found (
        due-map_lt
          (λ j. if has_name job.tenant_id job.kind job.key j then moved at payload j else j) js job
          (λ y h. elim (Bool-cases (has_name job.tenant_id job.kind job.key y)) [
            | inl e ↦ let h1 = rw e at h in cc
            | inr e ↦ rw e at h
          ])
          i d (rw own gone))

  pub remove_lt :
      (job : Job) (js : List Job)
      → In job js
      → is_due job ≡ true
      → due (remove job.tenant_id job.kind job.key js) < due js
  unfolding remove
  remove_lt job js i d = due-filter_lt _ js job i d (let own = own_name job in rw own refl)
