-- ===== src/Otp/Service.antt =====
-- otp.service.ts: asking for a code, finding a challenge, and checking a code. The new id, the random
-- number and the random secret are arguments, the clock is read where the source reads it.
use erp_global.Common.{
  ℕ, ◌+◌, ◌-◌, ◌*◌, ◌/◌, Bool, false, ◌&&◌, Option, none, some, List, [], ◌∷◌, ◌++◌, length, map,
  find, filter, ltb, leb, if◌then◌else◌,
}
use erp_global.Common.Text.{Text, ◌===◌}
use erp_global.Common.Action.{ok, err, Action, pure, ensure, transaction, ◌>>◌}
use erp_global.Otp.Challenges.{
  Purpose, Channel, whatsapp, email, MfaMethod, Challenge, OtpEvent, otp_requested,
  whatsapp_requested, email_requested, State, OtpError, too_soon, too_many, ttl_ms, resend_seconds,
  per_hour, hour_ms, same_purpose, is_unused, six_digits, mask_target,
}

pub record IssueOtp : Type 0 where
  pub purpose : Purpose
  pub channel : Channel
  pub target : Text
  pub rate_key : Text
  pub locale : Text
  pub user_id : Option Text
  pub method : Option MfaMethod
  pub with_token : Bool
  pub decoy : Bool
  pub name : Option Text

pub record IssuedOtp : Type 0 where
  pub secret : Option Text
  pub channel : Channel
  pub sent_to : Text
  pub expires_in : ℕ
  pub resend_after : ℕ

-- What an issue draws at random: the id, the number of the code, the secret.
pub record Drawn : Type 0 where
  pub id : Text
  pub number : ℕ
  pub secret : Text

-- `.sort({ createdAt: -1 })`
unfoldable pub insert_newest : Challenge → List Challenge → List Challenge
insert_newest c [] = c ∷ []
insert_newest c (d ∷ ds) =
    let rest = insert_newest c ds in if leb d.created_at c.created_at then c ∷ d ∷ ds else d ∷ rest

unfoldable pub newest_first : List Challenge → List Challenge
unfolding insert_newest
newest_first [] = []
newest_first (c ∷ cs) = insert_newest c (newest_first cs)

unfoldable pub is_recent : Text → ℕ → Challenge → Bool
is_recent key now c = c.rate_key === key && ltb now (c.created_at + hour_ms)

unfoldable pub recent : Text → ℕ → List Challenge → List Challenge
unfolding is_recent newest_first
recent key now cs = newest_first (filter (is_recent key now) cs)

-- `recent[0] && !recent[0].usedAt ? recent[0].createdAt.getTime() : undefined`, with 0 as false.
unfoldable pub last_unused : List Challenge → Option ℕ
last_unused [] = none
last_unused (c ∷ cs) = if is_unused c && ltb 0 c.created_at then some c.created_at else none

-- The seconds to wait, rounded up, when the last code is too new.
unfoldable pub wait_for : Option ℕ → ℕ → Option ℕ
wait_for none now = none
wait_for (some last) now =
    if ltb now (last + resend_seconds * 1000)
    then some ((last + resend_seconds * 1000 - now + 999) / 1000)
    else none

unfoldable pub check_rate : Text → ℕ → Action State OtpError (Unit {0})
unfolding recent last_unused wait_for
check_rate key now s =
    let found = recent key now s.challenges in
    elim (wait_for (last_unused found) now) [
      | some wait ↦ (err (too_soon wait), s)
      | none ↦ ensure (ltb (length found) per_hour) too_many s
    ]

-- Asking for a new code retires the previous one.
unfoldable pub retires : Text → Purpose → Challenge → Bool
retires key p c = c.rate_key === key && same_purpose p c.purpose && is_unused c

unfoldable pub retire : Text → Purpose → ℕ → Challenge → Challenge
unfolding retires
retire key p now c = if retires key p c then record c { used_at = some now } else c

unfoldable pub messages : IssueOtp → Text → List OtpEvent
messages o code = if o.decoy then [] else elim o.channel [
  | whatsapp ↦ whatsapp_requested o.target o.locale code ∷ []
  | email ↦ email_requested o.target o.locale code (elim o.name [ none ↦ [] | some n ↦ n ]) ∷ []
]

unfoldable pub is_open : ℕ → Challenge → Bool
is_open now c = is_unused c && ltb now c.expires_at

unfoldable pub holds_token : Text → Challenge → Bool
holds_token t c = elim c.token_hash [ none ↦ false | some h ↦ h === t ]

unfoldable pub is_of_user : Text → Challenge → Bool
is_of_user u c = elim c.user_id [ none ↦ false | some v ↦ v === u ]

-- `.findOne(...).sort({ createdAt: -1 })`
unfoldable pub first : List Challenge → Option Challenge
first [] = none
first (c ∷ cs) = some c

unfoldable pub latest_for : Text → Purpose → ℕ → State → Option Challenge
unfolding is_open is_of_user first newest_first
latest_for u p now s = first (
    newest_first
      (filter (λ c. is_of_user u c && same_purpose p c.purpose && is_open now c) s.challenges))

-- `sha256` is the digest of the crypto library, `mac` its HMAC with the key of the service.
module _ (sha256 mac : Text → Text) where
  unfoldable pub hash : Text → Text → Text
  hash id code = mac (id ++ (b':' ∷ code))

  unfoldable pub new_challenge : IssueOtp → Drawn → ℕ → Challenge
  unfolding hash
  new_challenge o d now = record {
    id = d.id;
    purpose = o.purpose;
    user_id = o.user_id;
    channel = o.channel;
    target = o.target;
    rate_key = o.rate_key;
    token_hash = if o.with_token then some (sha256 d.secret) else none;
    method = o.method;
    code_hash = hash d.id (six_digits d.number);
    attempts = 0;
    expires_at = now + ttl_ms;
    used_at = none;
    created_at = now;
  }

  -- The transaction, and the answer.
  unfoldable pub write_issue : IssueOtp → Drawn → ℕ → Action State OtpError IssuedOtp
  unfolding retire
  write_issue o d now = do
    transaction (λ s. ok (record {
      challenges =
          map (retire o.rate_key o.purpose now) s.challenges ++ (new_challenge o d now ∷ []);
      outbox =
          s.outbox
          ++ (otp_requested o.purpose o.channel o.user_id ∷ messages o (six_digits d.number));
    }))
    pure (record {
      secret = if o.with_token then some d.secret else none;
      channel = o.channel;
      sent_to = mask_target o.target;
      expires_in = ttl_ms / 1000;
      resend_after = resend_seconds;
    })

  -- The rate is checked at `asked`, outside the transaction, which writes at `now`. As one step it has no
  -- other request between the two; `check_rate` and `write_issue` are the steps apart.
  unfoldable pub issue : IssueOtp → Drawn → ℕ → ℕ → Action State OtpError IssuedOtp
  issue o d asked now = do check_rate o.rate_key asked; write_issue o d now

  unfoldable pub by_token : Text → Purpose → ℕ → State → Option Challenge
  unfolding is_open holds_token
  by_token secret p now s =
      find (λ c. holds_token (sha256 secret) c && same_purpose p c.purpose && is_open now c)
        s.challenges
