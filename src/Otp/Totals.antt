-- ===== src/Otp/Totals.antt =====
-- otp.service.ts: the tries and the uses that the challenges with an id still allow, and what each write
-- takes of them.
use erp_global.Common.{
  ℕ, ◌+◌, ◌-◌, ◌*◌, ◌≤◌, ◌≡◌, refl, ap, ◌∙◌, subst, Bool, true, false, ◌&&◌, some, List, [], ◌∷◌,
  ◌++◌, map, filter, ltb, if◌then◌else◌, Bool-cases, arith, inl, inr,
}
use erp_global.Common.Text.{Text, ◌===◌}
use erp_global.Common.Action.{ok}
use erp_global.Otp.Challenges.{Challenge, State, max_attempts, is_unused, Purpose}
use erp_global.Otp.Service.{IssueOtp, IssuedOtp, Drawn, retires, retire, new_challenge, issue}
use erp_global.Otp.Checking.{
  update_first, may_try, count_try, try_code, may_use, mark_used, use_code, was_found,
  record_failure,
}
use erp_global.Otp.Rate.{issued}

-- The sum of a weight.
abbrev pub total {ℓ} : {A : Type ℓ} → (A → ℕ) → List A → ℕ
total w [] = 0
total w (x ∷ xs) = w x + total w xs

abbrev pub one_if : Bool → ℕ
one_if b = if b then 1 else 0

-- How often an id stands in a list.
abbrev pub count : Text → List Text → ℕ
count id xs = total (λ x. one_if (x === id)) xs

-- What the challenges with an id still allow: tries, and uses.
abbrev pub tries_left : Text → Challenge → ℕ
tries_left id c = if c.id === id then max_attempts - c.attempts else 0

abbrev pub uses_left : Text → Challenge → ℕ
uses_left id c = one_if (c.id === id && is_unused c)

module _ (w : Challenge → ℕ) where
  total-append : (xs ys : List Challenge) → total w (xs ++ ys) ≡ total w xs + total w ys
  total-append [] ys = omega arith
  total-append (x ∷ xs) ys = omega (arith, total-append xs ys)

  total-map_le :
      (f : Challenge → Challenge) (cs : List Challenge)
      → ((c : Challenge) → w (f c) ≤ w c)
      → total w (map f cs) ≤ total w cs
  total-map_le f [] h = omega arith
  total-map_le f (c ∷ cs) h = omega (arith, h c, total-map_le f cs h)

  pub total-filter_le :
      (p : Challenge → Bool) (cs : List Challenge) → total w (filter p cs) ≤ total w cs
  total-filter_le p [] = omega arith
  total-filter_le p (c ∷ cs) = ground (arith, total-filter_le p cs)

  -- An update that lowers the weight of what it changes by `k` lowers the sum by `k`.
  total-update_first :
      (p : Challenge → Bool) (f : Challenge → Challenge) (k : ℕ) (cs : List Challenge)
      → ((c : Challenge) → p c ≡ true → w (f c) + k ≤ w c)
      → was_found (update_first p f cs).0 ≡ true
      → total w (update_first p f cs).1 + k ≤ total w cs
  unfolding update_first was_found
  total-update_first p f k [] h e = ground arith
  total-update_first p f k (c ∷ cs) h e = elim (Bool-cases (p c)) [
    | inl b ↦ ground (arith, h c b)
    | inr b ↦ ground (arith, total-update_first p f k cs h)
  ]

  total-update_first_le :
      (p : Challenge → Bool) (f : Challenge → Challenge) (cs : List Challenge)
      → ((c : Challenge) → p c ≡ true → w (f c) ≤ w c)
      → total w (update_first p f cs).1 ≤ total w cs
  unfolding update_first
  total-update_first_le p f [] h = omega arith
  total-update_first_le p f (c ∷ cs) h = elim (Bool-cases (p c)) [
    | inl b ↦ ground (arith, h c b)
    | inr b ↦ ground (arith, total-update_first_le p f cs h)
  ]

counted_try :
    (id j : Text) (now : ℕ) (c : Challenge)
    → may_try id now c ≡ true
    → tries_left j (count_try c) + one_if (id === j) ≤ tries_left j c
unfolding may_try count_try
counted_try id j now c h =
    let e : c.id ≡ id = ground arith in
    let k : ltb c.attempts max_attempts ≡ true = ground arith in
    subst
      (λ x.
        tries_left j (record c { attempts = c.attempts + 1 }) + one_if (x === j) ≤ tries_left j c)
      e (ground arith)

used_up :
    (id j : Text) (now : ℕ) (c : Challenge)
    → may_use id c ≡ true
    → uses_left j (mark_used now c) + one_if (id === j) ≤ uses_left j c
unfolding may_use mark_used is_unused
used_up id j now c h =
    let e : c.id ≡ id = ground arith in
    let k : is_unused c ≡ true = ground arith in
    subst (λ x. uses_left j (record c { used_at = some now }) + one_if (x === j) ≤ uses_left j c) e
      (ground arith)

-- A try that is counted takes one of the tries of its challenge, and no use.
pub try_code-left :
    (id j : Text) (now : ℕ) (s s' : State) (c : Challenge)
    → try_code id now s ≡ (some c, s')
    → (one_if (id === j) + total (tries_left j) s'.challenges ≤ total (tries_left j) s.challenges)
      × (total (uses_left j) s'.challenges ≤ total (uses_left j) s.challenges)
unfolding try_code was_found count_try is_unused
try_code-left id j now s s' c h =
    let cs : (update_first (may_try id now) count_try s.challenges).1 ≡ s'.challenges =
      ap (λ p. p.1.challenges) h in
    let found : was_found (update_first (may_try id now) count_try s.challenges).0 ≡ true =
      ap (λ p. was_found p.0) h in
    let less =
      total-update_first (tries_left j) (may_try id now) count_try (one_if (id === j)) s.challenges
        (counted_try id j now) found in
    let same =
      total-update_first_le (uses_left j) (may_try id now) count_try s.challenges
        (λ c e. omega arith) in
    (
      omega (arith, less, ap (total (tries_left j)) cs),
      omega (arith, same, ap (total (uses_left j)) cs),
    )

-- A use that succeeds takes the one use of its challenge.
pub use_code-left :
    (id j : Text) (now : ℕ) (s s' : State) (b : Bool)
    → use_code id now s ≡ (b, s')
    → (one_if (b && id === j) + total (uses_left j) s'.challenges
        ≤ total (uses_left j) s.challenges)
      × (total (tries_left j) s'.challenges ≤ total (tries_left j) s.challenges)
unfolding use_code mark_used may_use is_unused
use_code-left id j now s s' b h =
    let cs : (update_first (may_use id) (mark_used now) s.challenges).1 ≡ s'.challenges =
      ap (λ p. p.1.challenges) h in
    let found : was_found (update_first (may_use id) (mark_used now) s.challenges).0 ≡ b =
      ap (λ p. p.0) h in
    let same_tries =
      total-update_first_le (tries_left j) (may_use id) (mark_used now) s.challenges
        (λ c e. omega arith) in
    let kept_uses =
      total-update_first_le (uses_left j) (may_use id) (mark_used now) s.challenges
        (λ c e. ground (arith, used_up id j now c e)) in
    (
      elim (Bool-cases b) [
        | inl e ↦
            let less =
              total-update_first (uses_left j) (may_use id) (mark_used now) (one_if (id === j))
                s.challenges (used_up id j now) (found ∙ e) in
            ground (arith, less, ap (total (uses_left j)) cs)
        | inr e ↦ ground (arith, kept_uses, ap (total (uses_left j)) cs)
      ],
      omega (arith, same_tries, ap (total (tries_left j)) cs),
    )

retire_le :
    (j key : Text) (p : Purpose) (now : ℕ) (c : Challenge)
    → (tries_left j (retire key p now c) ≤ tries_left j c)
      × (uses_left j (retire key p now c) ≤ uses_left j c)
unfolding retire retires is_unused
retire_le j key p now c = elim (Bool-cases (retires key p c)) [
  | inl e ↦ ground arith
  | inr e ↦ ground arith
]

-- An issue adds the tries and the use of the new challenge.
pub issue-left :
    (sha256 mac : Text → Text) (o : IssueOtp) (d : Drawn) (asked now : ℕ) (r : IssuedOtp)
    (s s' : State) (j : Text)
    → issue sha256 mac o d asked now s ≡ (ok r, s')
    → (total (tries_left j) s'.challenges
        ≤ total (tries_left j) s.challenges + max_attempts * one_if (d.id === j))
      × (total (uses_left j) s'.challenges ≤ total (uses_left j) s.challenges + one_if (d.id === j))
unfolding new_challenge is_unused
issue-left sha256 mac o d asked now r s s' j h =
    let cs = (issued sha256 mac o d asked now r s s' h).1 in
    let new = new_challenge sha256 mac o d now in
    let kept = map (retire o.rate_key o.purpose now) s.challenges in
    let a =
      total-map_le (tries_left j) (retire o.rate_key o.purpose now) s.challenges
        (λ c. (retire_le j o.rate_key o.purpose now c).0) in
    let b =
      total-map_le (uses_left j) (retire o.rate_key o.purpose now) s.challenges
        (λ c. (retire_le j o.rate_key o.purpose now c).1) in
    let k : tries_left j new ≤ max_attempts * one_if (d.id === j) = ground arith in
    let u : uses_left j new ≤ one_if (d.id === j) = ground arith in
    (
      omega
          (arith, ap (total (tries_left j)) cs, total-append (tries_left j) kept (new ∷ []), a, k),
      omega (arith, ap (total (uses_left j)) cs, total-append (uses_left j) kept (new ∷ []), b, u),
    )

pub count_fresh :
    (id j : Text) (ids : List Text) → count id ids ≡ 0 → count j ids ≤ 1 → count j (id ∷ ids) ≤ 1
count_fresh id j ids h k = elim (Bool-cases (id === j)) [
  | inl e ↦
      let same : id ≡ j = ground arith in
      let none_yet : count j ids ≡ 0 = subst (λ x. count x ids ≡ 0) same h in
      omega (arith, none_yet, ap one_if e)
  | inr e ↦ omega (arith, k, ap one_if e)
]

pub count_accepted :
    (id j : Text) (b : Bool) (ids : List Text)
    → count j (if b then id ∷ ids else ids) ≡ one_if (b && id === j) + count j ids
count_accepted id j true ids = refl
count_accepted id j false ids = omega arith

pub failure_keeps :
    (b : Bool) (c : Challenge) (s : State)
    → (if b then s else record_failure c s).challenges ≡ s.challenges
unfolding record_failure
failure_keeps true c s = refl
failure_keeps false c s = refl
