-- ===== src/Otp/Rate.antt =====
-- otp.service.ts, `checkRate` and `issue`: how many codes a number or a user is sent.
use erp_global.Common.{
  ℕ, suc, ◌+◌, ◌≤◌, ◌<◌, ◌≡◌, refl, ap, sym, ◌∙◌, subst, Bool, true, false, ◌&&◌, List, [], ◌∷◌,
  ◌++◌, length, map, filter, length-filter_mono, length-filter-append, length-filter-map, ltb, leb,
  Bool-cases, Option-cases, arith, ◌⊎◌, inl, inr,
}
use erp_global.Common.Text.{Text, ◌===◌}
use erp_global.Common.Action.{ok, err, >>=-ok, >>=-err}
use erp_global.Otp.Challenges.{
  Challenge, State, OtpError, too_many, too_soon, per_hour, hour_ms, Purpose,
}
use erp_global.Otp.Service.{
  IssueOtp, IssuedOtp, Drawn, insert_newest, newest_first, is_recent, recent, last_unused, wait_for,
  check_rate, retires, retire, new_challenge, issue, write_issue,
}

-- Issued for `key` after `t`, within an hour.
abbrev pub in_hour : Text → ℕ → Challenge → Bool
in_hour key t c = c.rate_key === key && (ltb t c.created_at && leb c.created_at (t + hour_ms))

-- Never more than five codes for one key in an hour, whenever the hour begins.
abbrev pub IsRateLimited : State → Type 0
IsRateLimited s = (key : Text) (t : ℕ) → length (filter (in_hour key t) s.challenges) ≤ per_hour

length-insert_newest :
    (c : Challenge) (cs : List Challenge) → length (insert_newest c cs) ≡ suc (length cs)
unfolding insert_newest
length-insert_newest c [] = refl
length-insert_newest c (d ∷ ds) = ground (arith, length-insert_newest c ds)

length-newest_first : (cs : List Challenge) → length (newest_first cs) ≡ length cs
unfolding newest_first
length-newest_first [] = refl
length-newest_first (c ∷ cs) =
    length-insert_newest c (newest_first cs) ∙ ap suc (length-newest_first cs)

-- A rate check that passes found fewer than five recent codes, and it writes nothing.
check_rate-cases :
    (key : Text) (now : ℕ) (s : State)
    → ((check_rate key now s ≡ (ok tt, s))
        × (length (filter (is_recent key now) s.challenges) < per_hour))
      ⊎ ((e : OtpError) × (check_rate key now s ≡ (err e, s)))
unfolding check_rate recent
check_rate-cases key now s =
    let found = recent key now s.challenges in
    let len = length-newest_first (filter (is_recent key now) s.challenges) in
    elim (Option-cases (wait_for (last_unused found) now)) [
      | inl e ↦ elim (Bool-cases (ltb (length found) per_hour)) [
        | inl b ↦ inl (ground arith, ground (arith, len))
        | inr b ↦ inr (too_many, ground arith)
      ]
      | inr (w, e) ↦ inr (too_soon w, ground arith)
    ]

pub issued :
    (sha256 mac : Text → Text) (o : IssueOtp) (d : Drawn) (asked now : ℕ) (r : IssuedOtp)
    (s s' : State)
    → issue sha256 mac o d asked now s ≡ (ok r, s')
    → (length (filter (is_recent o.rate_key asked) s.challenges) < per_hour)
      × (s'.challenges
          ≡ map (retire o.rate_key o.purpose now) s.challenges
            ++ (new_challenge sha256 mac o d now ∷ []))
unfolding issue write_issue
issued sha256 mac o d asked now r s s' h = elim (check_rate-cases o.rate_key asked s) [
  | inl (e, few) ↦ (
    few,
    ap (λ x. x.1.challenges)
        (sym h
          ∙ >>=-ok (check_rate o.rate_key asked) (λ _. write_issue sha256 mac o d now) tt s s e),
  )
  | inr (x, e) ↦
      let clash =
        sym (>>=-err (check_rate o.rate_key asked) (λ _. write_issue sha256 mac o d now) x s s e)
        ∙ h in
      ground arith
]

retire-in_hour :
    (key k : Text) (p : Purpose) (now t : ℕ) (c : Challenge)
    → in_hour key t (retire k p now c) ≡ in_hour key t c
unfolding retire retires
retire-in_hour key k p now t c = elim (Bool-cases (retires k p c)) [ inl e ↦ rw e | inr e ↦ rw e ]

in_hour-is_recent :
    (key : Text) (t asked now : ℕ) (c : Challenge)
    → asked ≤ now
    → now ≤ t + hour_ms
    → in_hour key t c ≡ true
    → is_recent key asked c ≡ true
unfolding is_recent
in_hour-is_recent key t asked now c h g e = ground arith

window :
    (a b : Text) (t now : ℕ)
    → (a === b && (ltb t now && leb now (t + hour_ms))) ≡ true
    → (a ≡ b) × (now ≤ t + hour_ms)
window a b t now e = (ground arith, ground arith)

length-filter_one : (p : Challenge → Bool) (c : Challenge) → length (filter p (c ∷ [])) ≤ 1
length-filter_one p c = ground arith

length-filter_none :
    (p : Challenge → Bool) (c : Challenge) → p c ≡ false → length (filter p (c ∷ [])) ≡ 0
length-filter_none p c e = ground arith

-- After a code is issued, no key has been sent more than five codes within any hour, if that held
-- before. The clock does not run backwards between the check and the write.
pub issue-IsRateLimited :
    (sha256 mac : Text → Text) (o : IssueOtp) (d : Drawn) (asked now : ℕ) (r : IssuedOtp)
    (s s' : State)
    → asked ≤ now
    → IsRateLimited s
    → issue sha256 mac o d asked now s ≡ (ok r, s')
    → IsRateLimited s'
unfolding new_challenge
issue-IsRateLimited sha256 mac o d asked now r s s' le i h key t =
    let (few, cs) = issued sha256 mac o d asked now r s s' h in
    let p = in_hour key t in
    let new = new_challenge sha256 mac o d now in
    let total =
      ap (λ x. length (filter p x)) cs
      ∙ length-filter-append p (map (retire o.rate_key o.purpose now) s.challenges) (new ∷ []) in
    let kept =
      length-filter-map p (retire o.rate_key o.purpose now) s.challenges
        (retire-in_hour key o.rate_key o.purpose now t) in
    elim (Bool-cases (p new)) [
      | inl e ↦
          let (k, u) = window o.rate_key key t now e in
          let fits = length-filter_mono p (is_recent o.rate_key asked) s.challenges (λ c x.
            subst (λ q. is_recent q asked c ≡ true) (sym k)
              (in_hour-is_recent key t asked now c le u x)) in
          omega (arith, total, kept, fits, few, length-filter_one p new)
      | inr e ↦ omega (arith, total, kept, length-filter_none p new e, i key t)
    ]
