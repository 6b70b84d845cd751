-- ===== src/Jobs/Lease.antt =====
-- The lease of jobs.ts: while it runs, no worker takes the job again.
use erp_global.Common.{
  ℕ, ◌+◌, ◌≤◌, true, false, ◌≡◌, ◌≢◌, refl, sym, ap, subst, ◌∙◌, ◌⊎◌, inl, inr, Option, none, some,
  List, [], ◌∷◌, any, map, if◌then◌else◌, ltb, leb, In, All, All-In, All-filter, All-append,
  Bool-cases, Option-cases, arith,
}
use erp_global.Common.Text.{Text, ◌===◌, ===_iff}
use erp_global.Jobs.Store.{
  Job, JobKind, lease_ms, has_name, put, ensure_job, remove, remove_many, is_free, can_claim,
  next_due, leased, claim, finish, wait_of, retry_later,
}

-- A call of the store, by any worker or handler.
pub data Call : Type 0 where
  claims : ℕ → ℕ → ℕ → Call
  puts : Text → Text → JobKind → Text → ℕ → Option Text → Call
  ensures : Text → Text → JobKind → Text → ℕ → Option Text → Call
  removes : Text → JobKind → Text → Call
  removes_many : Text → JobKind → List Text → Call
  finishes : Job → Call
  retries : Job → ℕ → Call

-- The job that a call hands out, and the jobs after it.
unfoldable pub run_call : Call → List Job → Option Job × List Job
unfolding put ensure_job remove remove_many claim finish retry_later
run_call (claims now clock later) js = claim now clock later js
run_call (puts id tenant kind key due_at payload) js =
    (none, put id tenant kind key due_at payload js)
run_call (ensures id tenant kind key due_at payload) js =
    (none, ensure_job id tenant kind key due_at payload js)
run_call (removes tenant kind key) js = (none, remove tenant kind key js)
run_call (removes_many tenant kind keys) js = (none, remove_many tenant kind keys js)
run_call (finishes job) js = (none, finish job js)
run_call (retries job clock) js = (none, retry_later job clock js)

unfoldable pub handed_out : List Call → List Job → List (Option Job)
unfolding run_call
handed_out [] js = []
handed_out (c ∷ cs) js = (run_call c js).0 ∷ handed_out cs (run_call c js).1

-- A call that leaves the lease of the job `j` until `end` alone: a claim while it runs, and any call but
-- a `put` under the job's name and a `finish` or `retryLater` of the job. New jobs have other ids.
abbrev pub Spares : Job → ℕ → Call → Type 0
Spares j end (claims now clock later) = clock ≤ end
Spares j end (puts id tenant kind key due_at payload) =
    (id ≢ j.id) × (has_name tenant kind key j ≡ false)
Spares j end (ensures id tenant kind key due_at payload) = id ≢ j.id
Spares j end (removes tenant kind key) = Unit
Spares j end (removes_many tenant kind keys) = Unit
Spares j end (finishes job) = job.id ≢ j.id
Spares j end (retries job clock) = job.id ≢ j.id

-- The job `j` as the collection holds it while it is leased.
abbrev Held : Job → ℕ → Job → Type 0
Held j end x =
    x.id ≡ j.id
    → (x.lease_until ≡ some end) × (x.tenant_id ≡ j.tenant_id) × (x.kind ≡ j.kind) × (x.key ≡ j.key)

All-map :
    (P : Job → Type 0) (f : Job → Job) (js : List Job)
    → ((x : Job) → P x → P (f x))
    → All P js
    → All P (map f js)
All-map P f [] h a = tt
All-map P f (x ∷ js) h (p, a) = (h x p, All-map P f js h a)

next_due-In :
    (now clock : ℕ) (js : List Job) (k : Job)
    → next_due now clock js ≡ some k
    → In k js × (can_claim now clock k ≡ true)
unfolding next_due
next_due-In now clock [] k h = cc
next_due-In now clock (j ∷ js) k h = elim (Bool-cases (can_claim now clock j)) [
  | inr e ↦ let (i, c) = next_due-In now clock js k (rw (e, next_due) at h) in (inr i, c)
  | inl e ↦ elim (Option-cases (next_due now clock js)) [
    | inl n ↦
        let same : j ≡ k = (let h1 = rw (e, n, next_due) at h in cc) in
        (inl (sym same), subst (λ x. can_claim now clock x ≡ true) same e)
    | inr (r, n) ↦
        let (i, c) = next_due-In now clock js r n in
        elim (Bool-cases (leb j.due_at r.due_at)) [
          | inl l ↦
              let same : j ≡ k = (let h1 = rw (e, n, l, next_due) at h in cc) in
              (inl (sym same), subst (λ x. can_claim now clock x ≡ true) same e)
          | inr l ↦
              let same : r ≡ k = (let h1 = rw (e, n, l, next_due) at h in cc) in
              (inr (subst (λ x. In x js) same i), subst (λ x. can_claim now clock x ≡ true) same c)
        ]
  ]
]

-- What a claim does: nothing where no job is free and due, else a new lease on one that is.
pub claim-cases :
    (now clock later : ℕ) (js : List Job)
    → ((next_due now clock js ≡ none) × (claim now clock later js ≡ (none, js)))
      ⊎ ((k : Job) × In k js
          × (can_claim now clock k ≡ true)
          × (claim now clock later js
              ≡ (some (leased later k), map (λ j. if j.id === k.id then leased later j else j) js)))
unfolding claim
claim-cases now clock later js = elim (Option-cases (next_due now clock js)) [
  | inl n ↦ inl (n, rw (n, claim) refl)
  | inr (k, n) ↦ let (i, c) = next_due-In now clock js k n in inr (k, i, c, rw (n, claim) refl)
]

module _ (j : Job) (end : ℕ) where
  -- A job that is held cannot be claimed before the lease ends.
  Held-apart :
      (now clock : ℕ) (js : List Job) (k : Job)
      → All (Held j end) js
      → clock ≤ end
      → In k js
      → can_claim now clock k ≡ true
      → k.id ≢ j.id
  Held-apart now clock js k hs before i c same =
      let (lease, a, b, d) = All-In (Held j end) js k hs i same in
      let free : is_free k.lease_until clock ≡ true = ground arith in
      let free' : ltb end clock ≡ true = rw lease at free in ground arith

  changed_others :
      (f : Job → Job) (a : Text) (js : List Job)
      → a ≢ j.id
      → ((x : Job) → (f x).id ≡ x.id)
      → All (Held j end) js
      → All (Held j end) (map (λ x. if x.id === a then f x else x) js)
  changed_others f a js apart same hs =
      All-map (Held j end) _ js
        (λ x h. elim (Bool-cases (x.id === a)) [
          | inl e ↦ rw e (λ i. absurd (apart (sym ((===_iff x.id a).0 e) ∙ sym (same x) ∙ i)))
          | inr e ↦ rw e h
        ])
        hs

  renamed_false :
      (tenant : Text) (kind : JobKind) (key : Text) (x : Job)
      → Held j end x
      → x.id ≡ j.id
      → has_name tenant kind key j ≡ false
      → has_name tenant kind key x ≡ false
  renamed_false tenant kind key x h same e = let (l, a, b, c) = h same in rw (a, b, c) e

  run_call-Held :
      (c : Call) (js : List Job)
      → Spares j end c
      → All (Held j end) js
      → All (Held j end) (run_call c js).1
  unfolding run_call put ensure_job remove remove_many finish retry_later
  run_call-Held (claims now clock later) js before hs = elim (claim-cases now clock later js) [
    | inl (n, e) ↦ rw e hs
    | inr (k, i, can, e) ↦ rw e (
        changed_others (leased later) k.id js (Held-apart now clock js k hs before i can)
          (λ x. refl) hs)
  ]
  run_call-Held (puts id tenant kind key due_at payload) js (fresh, other) hs =
      elim (Bool-cases (any (has_name tenant kind key) js)) [
        | inl e ↦ rw e (
            All-map (Held j end) _ js
              (λ x h. elim (Bool-cases (has_name tenant kind key x)) [
                | inl n ↦ rw n (λ same. let f = renamed_false tenant kind key x h same other in cc)
                | inr n ↦ rw n h
              ])
              hs)
        | inr e ↦ rw e (All-append (Held j end) js _ hs ((λ same. absurd (fresh same)), tt))
      ]
  run_call-Held (ensures id tenant kind key due_at payload) js fresh hs =
      elim (Bool-cases (any (has_name tenant kind key) js)) [
        | inl e ↦ rw e hs
        | inr e ↦ rw e (All-append (Held j end) js _ hs ((λ same. absurd (fresh same)), tt))
      ]
  run_call-Held (removes tenant kind key) js s hs = All-filter (Held j end) _ js hs
  run_call-Held (removes_many tenant kind keys) js s hs = All-filter (Held j end) _ js hs
  run_call-Held (finishes job) js apart hs =
      changed_others (λ x. record x { lease_until = none; attempts = 0 }) job.id _ apart (λ x. refl)
        (All-filter (Held j end) _ js hs)
  run_call-Held (retries job clock) js apart hs =
      changed_others (λ x. record x { due_at = clock + wait_of job.attempts; lease_until = none })
        job.id js apart (λ x. refl) hs

  handed_out_apart :
      (cs : List Call) (js : List Job)
      → All (Spares j end) cs
      → All (Held j end) js
      → All (λ a. (x : Job) → a ≡ some x → x.id ≢ j.id) (handed_out cs js)
  unfolding handed_out
  handed_out_apart [] js s hs = tt
  handed_out_apart (c ∷ cs) js (s, ss) hs =
      (one c js s hs, handed_out_apart cs _ ss (run_call-Held c js s hs))
    where
      one :
          (c : Call) (js : List Job)
          → Spares j end c
          → All (Held j end) js
          → (x : Job) → (run_call c js).0 ≡ some x
          → x.id ≢ j.id
      one (claims now clock later) js before hs x e = elim (claim-cases now clock later js) [
        | inl (n, a) ↦ λ same. let bad : none ≡ some x = ap (λ p. p.0) (sym a) ∙ e in cc
        | inr (k, i, can, a) ↦
            let is : some (leased later k) ≡ some x = ap (λ p. p.0) (sym a) ∙ e in
            let taken : leased later k ≡ x = cc in
            λ same. Held-apart now clock js k hs before i can (ap (λ (y : Job). y.id) taken ∙ same)
      ]
      one (puts id tenant kind key due_at payload) js s hs x e = cc
      one (ensures id tenant kind key due_at payload) js s hs x e = cc
      one (removes tenant kind key) js s hs x e = cc
      one (removes_many tenant kind keys) js s hs x e = cc
      one (finishes job) js s hs x e = cc
      one (retries job clock) js s hs x e = cc

All-map-In :
    (P : Job → Type 0) (f : Job → Job) (js : List Job)
    → ((x : Job) → In x js → P (f x))
    → All P (map f js)
All-map-In P f [] h = tt
All-map-In P f (x ∷ js) h = (h x (inl refl), All-map-In P f js (λ y i. h y (inr i)))

-- A collection whose ids differ.
abbrev pub IdsDiffer : List Job → Type 0
IdsDiffer js = (x y : Job) → In x js → In y js → x.id ≡ y.id → x ≡ y

leased-Held :
    (later : ℕ) (js : List Job) (k : Job)
    → IdsDiffer js
    → In k js
    → All
        (Held (leased later k) (later + lease_ms))
        (map (λ x. if x.id === k.id then leased later x else x) js)
leased-Held later js k distinct i = All-map-In _ _ js (λ x m. elim (Bool-cases (x.id === k.id)) [
  | inl e ↦
      let same : x ≡ k = distinct x k m i ((===_iff x.id k.id).0 e) in
      rw e (λ h. (
        refl,
        ap (λ (y : Job). y.tenant_id) same,
        ap (λ (y : Job). y.kind) same,
        ap (λ (y : Job). y.key) same,
      ))
  | inr e ↦ rw e (λ h. let f = (===_iff x.id k.id).1 h in cc)
])

-- A job that a worker has claimed is handed out to no other worker by any calls that come after, in any
-- order, until the lease of a minute has ended: as long as the later claims read the clock before that,
-- nobody puts a job under the same name, finishes it or retries it, and new jobs have ids of their own.
-- The ids in the collection differ.
pub claim-handed_out :
    (now clock later : ℕ) (js : List Job) (j : Job) (cs : List Call)
    → IdsDiffer js
    → (claim now clock later js).0 ≡ some j
    → All (Spares j (later + lease_ms)) cs
    → All (λ a. (x : Job) → a ≡ some x → x.id ≢ j.id) (handed_out cs (claim now clock later js).1)
claim-handed_out now clock later js j cs distinct h spares = elim (claim-cases now clock later js) [
  | inl (n, a) ↦ let bad : none ≡ some j = ap (λ p. p.0) (sym a) ∙ h in cc
  | inr (k, i, can, a) ↦
      let is : some (leased later k) ≡ some j = ap (λ p. p.0) (sym a) ∙ h in
      let taken : leased later k ≡ j = cc in
      handed_out_apart j (later + lease_ms) cs _ spares (
        rw a (
          subst
            (λ (x : Job).
              All (Held x (later + lease_ms))
                (map (λ y. if y.id === k.id then leased later y else y) js))
            taken (leased-Held later js k distinct i)))
]
