-- ===== src/Otp/Checking.antt =====
-- otp.service.ts, `consume`: a code is checked in two writes, the count of the try and the use.
use erp_global.Common.{
  ℕ, ◌+◌, Bool, true, false, ◌&&◌, not, Option, none, some, List, [], ◌∷◌, ◌++◌, ltb, if◌then◌else◌,
}
use erp_global.Common.Text.{Text, ◌===◌}
use erp_global.Otp.Challenges.{Challenge, otp_failed, State, max_attempts, is_unused}
use erp_global.Otp.Service.{is_open, hash}

-- `findOneAndUpdate` and `updateOne`: the first document that passes, changed, and the collection after.
unfoldable pub update_first :
    (Challenge → Bool)
    → (Challenge → Challenge)
    → List Challenge
    → Option Challenge × List Challenge
update_first p f [] = (none, [])
update_first p f (c ∷ cs) =
    let (found, rest) = update_first p f cs in
    if p c then (some (f c), f c ∷ cs) else (found, c ∷ rest)

unfoldable pub may_try : Text → ℕ → Challenge → Bool
may_try id now c = c.id === id && is_open now c && ltb c.attempts max_attempts

unfoldable pub count_try : Challenge → Challenge
count_try c = record c { attempts = c.attempts + 1 }

-- Every try counts.
unfoldable pub try_code : Text → ℕ → State → Option Challenge × State
unfolding may_try count_try update_first is_open
try_code id now s =
    let (found, cs) = update_first (may_try id now) count_try s.challenges in
    (found, record s { challenges = cs })

unfoldable pub may_use : Text → Challenge → Bool
may_use id c = c.id === id && is_unused c

unfoldable pub mark_used : ℕ → Challenge → Challenge
mark_used now c = record c { used_at = some now }

unfoldable pub was_found : Option Challenge → Bool
was_found none = false
was_found (some c) = true

-- The challenge is used up, unless another request used it first.
unfoldable pub use_code : Text → ℕ → State → Bool × State
unfolding may_use mark_used update_first was_found
use_code id now s =
    let (found, cs) = update_first (may_use id) (mark_used now) s.challenges in
    (was_found found, record s { challenges = cs })

-- `!!c.userId`
unfoldable pub has_user : Challenge → Bool
has_user c = elim c.user_id [ none ↦ false | some u ↦ not (u === []) ]

unfoldable pub record_failure : Challenge → State → State
record_failure c s = record s {
  outbox = s.outbox ++ (otp_failed c.purpose c.user_id c.attempts ∷ []);
}

-- `mac` is the HMAC of the crypto library with the key of the service.
module _ (sha256 mac : Text → Text) where
  unfoldable pub is_right : Text → Challenge → Bool
  unfolding has_user hash
  is_right code c = has_user c && hash sha256 mac c.id code === c.code_hash

  -- What follows the count of the try.
  unfoldable pub after_try : Text → ℕ → Option Challenge → State → Bool × State
  unfolding use_code is_right record_failure
  after_try code now none s = (false, s)
  after_try code now (some c) s =
      if is_right code c then use_code c.id now s else (false, record_failure c s)

  -- Checks a code and uses the challenge up if it matches.
  unfoldable pub consume : Option Challenge → Text → ℕ → ℕ → State → Bool × State
  unfolding try_code
  consume none code tried now s = (false, s)
  consume (some challenge) code tried now s =
      let (found, s') = try_code challenge.id tried s in after_try code now found s'
