-- ===== src/Otp/Guesses.antt =====
-- otp.service.ts: requests that ask for codes and try codes at once. A try is two writes, the count of
-- the attempt and the use of the challenge, and others may write in between.
use erp_global.Common.{
  ℕ, ◌+◌, ◌*◌, ◌≤◌, ◌≡◌, ap, Bool, some, List, [], ◌∷◌, filter, In, ltb, if◌then◌else◌, arith,
}
use erp_global.Common.Text.{Text}
use erp_global.Common.Action.{ok}
use erp_global.Otp.Challenges.{Challenge, State, hour_ms, max_attempts}
use erp_global.Otp.Service.{IssueOtp, IssuedOtp, Drawn, issue}
use erp_global.Otp.Checking.{try_code, use_code, is_right, record_failure}
use erp_global.Otp.Totals.{
  total, count, tries_left, uses_left, total-filter_le, try_code-left, use_code-left, issue-left,
  count_fresh, count_accepted, failure_keeps,
}

-- The database, the ids that were ever drawn, the tries that were counted, the right codes that are
-- about to be used, and the challenges that were accepted.
pub record World : Type 0 where
  pub state : State
  pub drawn : List Text
  pub guesses : List Text
  pub pending : List Text
  pub accepted : List Text

abbrev pub empty_world : World
empty_world = record {
  state = record { challenges = []; outbox = [] };
  drawn = [];
  guesses = [];
  pending = [];
  accepted = [];
}

module _ (sha256 mac : Text → Text) where
  pub data Step : World → World → Type 0 where
    -- A new id is one that was never drawn.
    issues :
        {w : World} {s : State} (o : IssueOtp) (d : Drawn) (asked now : ℕ) (r : IssuedOtp)
        → count d.id w.drawn ≡ 0
        → issue sha256 mac o d asked now w.state ≡ (ok r, s)
        → Step w (record w { state = s; drawn = d.id ∷ w.drawn })
    tries :
        {w : World} {s : State} (id code : Text) (now : ℕ) (c : Challenge)
        → try_code id now w.state ≡ (some c, s)
        → Step w (record w {
          state = if is_right sha256 mac code c then s else record_failure c s;
          guesses = id ∷ w.guesses;
          pending = if is_right sha256 mac code c then id ∷ w.pending else w.pending;
        })
    uses :
        {w : World} {s : State} (id : Text) (now : ℕ) (b : Bool)
        → In id w.pending
        → use_code id now w.state ≡ (b, s)
        → Step w (record w { state = s; accepted = if b then id ∷ w.accepted else w.accepted })
    -- The index on `createdAt` removes challenges after an hour.
    expires :
        {w : World} (now : ℕ)
        → Step w (record w {
          state = record w.state {
            challenges = filter (λ c. ltb now (c.created_at + hour_ms)) w.state.challenges;
          };
        })

  pub data Reachable : World → Type 0 where
    initial : Reachable empty_world
    next : {w w' : World} → Reachable w → Step w w' → Reachable w'

  -- Each id is drawn at most once, and what its challenge was and may still be tried and used is bounded.
  record IsSound (w : World) : Type 0 where
    drawn : (id : Text) → count id w.drawn ≤ 1
    tried :
        (id : Text)
        → count id w.guesses + total (tries_left id) w.state.challenges
          ≤ max_attempts * count id w.drawn
    used :
        (id : Text)
        → count id w.accepted + total (uses_left id) w.state.challenges ≤ count id w.drawn

  Step-IsSound : (w w' : World) → Step w w' → IsSound w → IsSound w'
  Step-IsSound w w' (issues o d asked now r fresh h) i = record {
    drawn = λ j. count_fresh d.id j w.drawn fresh (i.drawn j);
    tried = λ j.
        let (a, b) = issue-left sha256 mac o d asked now r w.state w'.state j h in
        omega (arith, a, i.tried j);
    used = λ j.
        let (a, b) = issue-left sha256 mac o d asked now r w.state w'.state j h in
        omega (arith, b, i.used j);
  }
  Step-IsSound w w' (tries {s} id code now c h) i =
      let same = failure_keeps (is_right sha256 mac code c) c s in
      record {
        drawn = i.drawn;
        tried = λ j.
            let (a, b) = try_code-left id j now w.state s c h in
            omega (arith, a, i.tried j, ap (total (tries_left j)) same);
        used = λ j.
            let (a, b) = try_code-left id j now w.state s c h in
            omega (arith, b, i.used j, ap (total (uses_left j)) same);
      }
  Step-IsSound w w' (uses id now b p h) i = record {
    drawn = i.drawn;
    tried = λ j.
        let (a, e) = use_code-left id j now w.state w'.state b h in omega (arith, e, i.tried j);
    used = λ j.
        let (a, e) = use_code-left id j now w.state w'.state b h in
        omega (arith, a, i.used j, count_accepted id j b w.accepted);
  }
  Step-IsSound w w' (expires now) i = record {
    drawn = i.drawn;
    tried = λ j. omega (
      arith,
      i.tried j,
      total-filter_le (tries_left j) (λ c. ltb now (c.created_at + hour_ms)) w.state.challenges,
    );
    used = λ j. omega (
      arith,
      i.used j,
      total-filter_le (uses_left j) (λ c. ltb now (c.created_at + hour_ms)) w.state.challenges,
    );
  }

  Reachable-IsSound : (w : World) → Reachable w → IsSound w
  Reachable-IsSound w initial = record {
    drawn = λ id. omega arith;
    tried = λ id. omega arith;
    used = λ id. omega arith;
  }
  Reachable-IsSound w (next {w = v} r s) = Step-IsSound v w s (Reachable-IsSound v r)

  -- However requests that ask for codes and try them are interleaved, where no id is drawn twice, the
  -- tries counted for a challenge are at most five, and it is accepted at most once.
  pub guesses_bounded :
      (w : World)
      → Reachable w
      → (id : Text) → (count id w.guesses ≤ max_attempts) × (count id w.accepted ≤ 1)
  guesses_bounded w r id =
      let i = Reachable-IsSound w r in
      (omega (arith, i.drawn id, i.tried id), omega (arith, i.drawn id, i.used id))
