-- ===== src/Otp/Consume.antt =====
-- otp.service.ts, `consume` and `issue`: which codes are accepted.
use erp_global.Common.{
  ℕ, ◌<◌, ◌≢◌, ◌≡◌, refl, ap, sym, ◌∙◌, subst, Bool, true, false, not, Option, none, some, List, [],
  ◌∷◌, ◌++◌, map, find, find-In, find_of_In, All, In, if◌then◌else◌, Bool-cases, Option-cases,
  arith, inl, inr, ◌↔◌,
}
use erp_global.Common.Text.{Text, ◌===◌}
use erp_global.Common.Action.{ok}
use erp_global.Otp.Challenges.{Challenge, State, Purpose, is_unused}
use erp_global.Otp.Service.{
  IssueOtp, IssuedOtp, Drawn, retires, retire, new_challenge, issue, is_open, hash,
}
use erp_global.Otp.Checking.{
  update_first, may_try, count_try, try_code, may_use, mark_used, use_code, was_found, is_right,
  record_failure, consume, has_user, after_try,
}
use erp_global.Otp.Rate.{issued}

was_found-any :
    (p : Challenge → Bool) (f : Challenge → Challenge) (cs : List Challenge) (c : Challenge)
    → In c cs
    → p c ≡ true
    → was_found (update_first p f cs).0 ≡ true
unfolding update_first was_found
was_found-any p f [] c m h = elim m [ ]
was_found-any p f (d ∷ cs) c (inl e) h = ground arith
was_found-any p f (d ∷ cs) c (inr m) h = ground (arith, was_found-any p f cs c m h)

update_first_here :
    (p : Challenge → Bool) (f : Challenge → Challenge) (c : Challenge) (cs : List Challenge)
    → p c ≡ true
    → update_first p f (c ∷ cs) ≡ (some (f c), f c ∷ cs)
unfolding update_first
update_first_here p f c cs e = rw e

update_first_there :
    (p : Challenge → Bool) (f : Challenge → Challenge) (c : Challenge) (cs : List Challenge)
    → p c ≡ false
    → update_first p f (c ∷ cs) ≡ ((update_first p f cs).0, c ∷ (update_first p f cs).1)
unfolding update_first
update_first_there p f c cs e = rw e

-- The challenge that was tried is the first that may be, with one try more, and it can still be used.
tried_can_be_used :
    (id : Text) (now : ℕ) (cs : List Challenge) (c : Challenge)
    → find (may_try id now) cs ≡ some c
    → ((update_first (may_try id now) count_try cs).0 ≡ some (count_try c))
      × In (count_try c) (update_first (may_try id now) count_try cs).1
      × (may_use c.id (count_try c) ≡ true)
unfolding may_try count_try may_use is_open is_unused
tried_can_be_used id now [] c h = ground arith
tried_can_be_used id now (d ∷ cs) c h = elim (Bool-cases (may_try id now d)) [
  | inl e ↦
      let s = update_first_here (may_try id now) count_try d cs e in
      let same : d ≡ c = ground arith in
      (
        ap (λ x. x.0) s ∙ ap (λ x. some (count_try x)) same,
        subst (λ x. In (count_try c) x.1) (sym s) (inl (ap count_try (sym same))),
        subst (λ x. may_use x.id (count_try x) ≡ true) same (ground arith),
      )
  | inr e ↦
      let s = update_first_there (may_try id now) count_try d cs e in
      let (a, m, u) = tried_can_be_used id now cs c (ground arith) in
      (ap (λ x. x.0) s ∙ a, subst (λ x. In (count_try c) x.1) (sym s) (inr m), u)
]

none_tried :
    (id : Text) (now : ℕ) (cs : List Challenge)
    → find (may_try id now) cs ≡ none
    → (update_first (may_try id now) count_try cs).0 ≡ none
unfolding update_first
none_tried id now [] h = refl
none_tried id now (d ∷ cs) h = elim (Bool-cases (may_try id now d)) [
  | inl e ↦ ground arith
  | inr e ↦
      ap (λ x. x.0) (update_first_there (may_try id now) count_try d cs e)
      ∙ none_tried id now cs (ground arith)
]

retire-retires :
    (key : Text) (p : Purpose) (now : ℕ) (c : Challenge)
    → retires key p (retire key p now c) ≡ false
unfolding retire retires is_unused
retire-retires key p now c = elim (Bool-cases (retires key p c)) [
  | inl e ↦ ground arith
  | inr e ↦ ground arith
]

retired :
    (key : Text) (p : Purpose) (now : ℕ) (cs : List Challenge)
    → All (λ c. retires key p c ≡ false) (map (retire key p now) cs)
retired key p now [] = tt
retired key p now (c ∷ cs) = (retire-retires key p now c, retired key p now cs)

first_of_if :
    (b : Bool) (x y : Bool × State) → x.0 ≡ true → y.0 ≡ false → (if b then x else y).0 ≡ b
first_of_if true x y h k = h
first_of_if false x y h k = k

unused_of :
    (o : Option ℕ) → (elim o as (λ _. Bool) [ none ↦ true | some t ↦ false ]) ≡ true → o ≡ none
unused_of none h = refl
unused_of (some t) h = ground arith

user_of :
    (o : Option Text)
    → (elim o as (λ _. Bool) [ none ↦ false | some u ↦ not (u === []) ]) ≡ true
    → (u : Text) × (o ≡ some u) × (u ≢ [])
user_of none h = ground arith
user_of (some u) h = (u, refl, λ e. ground arith)

may_try-id : (id : Text) (now : ℕ) (c : Challenge) → may_try id now c ≡ true → c.id ≡ id
unfolding may_try
may_try-id id now c h = ground arith

module _ (sha256 mac : Text → Text) where
  consume_found :
      (challenge : Challenge) (code : Text) (tried now : ℕ) (s : State) (c : Challenge)
      → find (may_try challenge.id tried) s.challenges ≡ some c
      → (consume sha256 mac (some challenge) code tried now s).0 ≡ is_right sha256 mac code c
  unfolding consume try_code after_try is_right has_user count_try use_code
  consume_found challenge code tried now s c h =
      let (a, m, u) = tried_can_be_used challenge.id tried s.challenges c h in
      let s' = (try_code challenge.id tried s).1 in
      let used = was_found-any (may_use c.id) (mark_used now) s'.challenges (count_try c) m u in
      ap (λ x. (after_try sha256 mac code now x s').0) a
      ∙ first_of_if (is_right sha256 mac code c) (use_code c.id now s')
          (false, record_failure (count_try c) s') used refl

  consume_missing :
      (challenge : Challenge) (code : Text) (tried now : ℕ) (s : State)
      → find (may_try challenge.id tried) s.challenges ≡ none
      → (consume sha256 mac (some challenge) code tried now s).0 ≡ false
  unfolding consume try_code after_try
  consume_missing challenge code tried now s h =
      ap (λ x. (after_try sha256 mac code now x (try_code challenge.id tried s).1).0)
        (none_tried challenge.id tried s.challenges h)

  -- The challenge with the id is unused, has not expired, was tried fewer than five times, belongs to a
  -- user, and its digest is the one of its id and the code.
  pub record Accepts (id code : Text) (now : ℕ) (c : Challenge) : Type 0 where
    pub same_id : c.id ≡ id
    pub unused : c.used_at ≡ none
    pub in_time : now < c.expires_at
    pub tries : c.attempts < 5
    pub user : (u : Text) × (c.user_id ≡ some u) × (u ≢ [])
    pub digest : mac (c.id ++ (b':' ∷ code)) ≡ c.code_hash

  Accepts-sound :
      (id code : Text) (now : ℕ) (c : Challenge)
      → may_try id now c ≡ true
      → is_right sha256 mac code c ≡ true
      → Accepts id code now c
  unfolding may_try is_open is_unused is_right has_user hash
  Accepts-sound id code now c h r = record {
    same_id = ground arith;
    unused = unused_of c.used_at (ground arith);
    in_time = ground arith;
    tries = ground arith;
    user = user_of c.user_id (ground arith);
    digest = ground arith;
  }

  Accepts-complete :
      (id code : Text) (now : ℕ) (c : Challenge)
      → Accepts id code now c
      → (may_try id now c ≡ true) × (is_right sha256 mac code c ≡ true)
  unfolding may_try is_open is_unused is_right has_user hash
  Accepts-complete id code now c a =
      let (u, e, n) = a.user in
      (ground (arith, a.same_id, a.unused, a.in_time, a.tries), ground (arith, e, n, a.digest))

  -- Where no two challenges share an id, a code is accepted exactly when a stored challenge has the id
  -- that is asked for, is unused, has not expired, was tried fewer than five times, belongs to a user,
  -- and holds the digest of its id and the code.
  pub consume_iff :
      (challenge : Challenge) (code : Text) (tried now : ℕ) (s : State)
      → ((c d : Challenge) → In c s.challenges → In d s.challenges → c.id ≡ d.id → c ≡ d)
      → ((consume sha256 mac (some challenge) code tried now s).0 ≡ true)
        ↔ ((c : Challenge) × In c s.challenges × Accepts challenge.id code tried c)
  consume_iff challenge code tried now s unique = (
    λ h. elim (Option-cases (find (may_try challenge.id tried) s.challenges)) [
      | inl e ↦ let no = consume_missing challenge code tried now s e in ground arith
      | inr (c, e) ↦
          let (m, p) = find-In (may_try challenge.id tried) s.challenges c e in
          (
            c,
            m,
            Accepts-sound challenge.id code tried c p
                (sym (consume_found challenge code tried now s c e) ∙ h),
          )
    ],
    λ (c, m, a).
        let (p, r) = Accepts-complete challenge.id code tried c a in
        let (d, e) = find_of_In (may_try challenge.id tried) c s.challenges m p in
        let (k, q) = find-In (may_try challenge.id tried) s.challenges d e in
        let same = unique d c k m (may_try-id challenge.id tried d q ∙ sym a.same_id) in
        consume_found challenge code tried now s d e
        ∙ subst (λ x. is_right sha256 mac code x ≡ true) (sym same) r,
  )

  -- A challenge without a user, as a decoy has none, accepts no code.
  pub decoy_refuses :
      (challenge : Challenge) (code : Text) (tried now : ℕ) (s : State)
      → ((c : Challenge) → In c s.challenges → c.id ≡ challenge.id → c.user_id ≡ none)
      → (consume sha256 mac (some challenge) code tried now s).0 ≡ false
  unfolding is_right has_user may_try
  decoy_refuses challenge code tried now s h =
      elim (Option-cases (find (may_try challenge.id tried) s.challenges)) [
        | inl e ↦ consume_missing challenge code tried now s e
        | inr (c, e) ↦
            let (m, p) = find-In (may_try challenge.id tried) s.challenges c e in
            let nobody = h c m (ground arith) in
            consume_found challenge code tried now s c e ∙ ground arith
      ]

  -- After a code is issued, the new challenge stands at the end, and every other challenge for the same
  -- key and purpose is used: no earlier code is accepted any more.
  pub issue-retires :
      (o : IssueOtp) (d : Drawn) (asked now : ℕ) (r : IssuedOtp) (s s' : State)
      → issue sha256 mac o d asked now s ≡ (ok r, s')
      → (before : List Challenge) × (s'.challenges
          ≡ before ++ (new_challenge sha256 mac o d now ∷ []))
        × All (λ c. retires o.rate_key o.purpose c ≡ false) before
  issue-retires o d asked now r s s' h = (
    map (retire o.rate_key o.purpose now) s.challenges,
    (issued sha256 mac o d asked now r s s' h).1,
    retired o.rate_key o.purpose now s.challenges,
  )
