-- ===== src/Otp/Traffic.antt =====
-- otp.service.ts: the codes that are sent over the life of the collection, where the check of the rate
-- and the write of a code have no other request between them.
use erp_global.Common.{
  ℕ, ◌+◌, ◌≤◌, ◌≡◌, refl, Bool, inl, inr, List, [], ◌∷◌, length, filter, ltb, Bool-cases, arith,
}
use erp_global.Common.Text.{Text}
use erp_global.Common.Action.{ok}
use erp_global.Otp.Challenges.{Challenge, State, hour_ms}
use erp_global.Otp.Service.{IssueOtp, IssuedOtp, Drawn, issue}
use erp_global.Otp.Checking.{
  update_first, may_try, count_try, try_code, may_use, mark_used, use_code, record_failure,
}
use erp_global.Otp.Rate.{in_hour, IsRateLimited, issue-IsRateLimited}

module _ (sha256 mac : Text → Text) where
  -- The states that the calls leave. Between a try and the use of the code others may write.
  pub data Served : State → Type 0 where
    opened : Served (record { challenges = []; outbox = [] })
    sends :
        {s s' : State} (o : IssueOtp) (d : Drawn) (asked now : ℕ) (r : IssuedOtp)
        → Served s
        → asked ≤ now
        → issue sha256 mac o d asked now s ≡ (ok r, s')
        → Served s'
    counts_try : {s : State} (id : Text) (now : ℕ) → Served s → Served (try_code id now s).1
    uses_up : {s : State} (id : Text) (now : ℕ) → Served s → Served (use_code id now s).1
    fails : {s : State} (c : Challenge) → Served s → Served (record_failure c s)
    -- The index on `createdAt` removes challenges after an hour.
    expires :
        {s : State} (now : ℕ)
        → Served s
        → Served
            (record s { challenges = filter (λ c. ltb now (c.created_at + hour_ms)) s.challenges })

  filter-update_first :
      (p q : Challenge → Bool) (f : Challenge → Challenge) (cs : List Challenge)
      → ((c : Challenge) → p (f c) ≡ p c)
      → length (filter p (update_first q f cs).1) ≡ length (filter p cs)
  unfolding update_first
  filter-update_first p q f [] same = refl
  filter-update_first p q f (c ∷ cs) same = elim (Bool-cases (q c)) [
    | inl e ↦ let h = same c in rw e (ground arith)
    | inr e ↦ let ih = filter-update_first p q f cs same in rw e (ground (arith, ih))
  ]

  filter-filter_le :
      (p q : Challenge → Bool) (cs : List Challenge)
      → length (filter p (filter q cs)) ≤ length (filter p cs)
  filter-filter_le p q [] = omega arith
  filter-filter_le p q (c ∷ cs) = ground (arith, filter-filter_le p q cs)

  -- After any sequence of calls that issue, try and use codes, no key was sent more than five codes
  -- within any hour. An issue checks the rate and writes with no other call in between, and the clock
  -- does not run backwards meanwhile; the calls may otherwise come in any order.
  pub Served-IsRateLimited : (s : State) → Served s → IsRateLimited s
  unfolding try_code use_code record_failure count_try mark_used
  Served-IsRateLimited s opened key t = omega arith
  Served-IsRateLimited s (sends {s = b} o d asked now r before le e) key t =
      issue-IsRateLimited sha256 mac o d asked now r b s le (Served-IsRateLimited b before) e key t
  Served-IsRateLimited s (counts_try {s = b} id now before) key t = omega (
    arith,
    filter-update_first (in_hour key t) (may_try id now) count_try b.challenges (λ c. refl),
    Served-IsRateLimited b before key t,
  )
  Served-IsRateLimited s (uses_up {s = b} id now before) key t = omega (
    arith,
    filter-update_first (in_hour key t) (may_use id) (mark_used now) b.challenges (λ c. refl),
    Served-IsRateLimited b before key t,
  )
  Served-IsRateLimited s (fails {s = b} c before) key t = Served-IsRateLimited b before key t
  Served-IsRateLimited s (expires {s = b} now before) key t = omega (
    arith,
    filter-filter_le (in_hour key t) (λ c. ltb now (c.created_at + hour_ms)) b.challenges,
    Served-IsRateLimited b before key t,
  )
