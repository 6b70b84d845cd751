-- ===== src/Otp/Examples.antt =====
-- Runs of the one-time codes on a concrete request.
use erp_global.Common.{
  ◌≤◌, ◌≡◌, In, refl, sym, ◌∙◌, inl, inr, true, false, none, some, [], ◌∷◌, ◌++◌, ◌↔◌, arith,
  length, filter,
}
use erp_global.Common.Text.{Text, Text-discrete, codes, drop, starts_with}
use native.Mathlib.Decide.{ℕ_discrete}
use erp_global.Common.Action.{ok}
use erp_global.Otp.Challenges.{
  Challenge, State, login, whatsapp, is_unused, six_digits, mask_target, max_attempts, same_purpose,
}
use erp_global.Otp.Service.{
  IssueOtp, IssuedOtp, Drawn, issue, write_issue, check_rate, new_challenge,
}
use erp_global.Otp.Checking.{consume, is_right, try_code, use_code}
use erp_global.Otp.Rate.{IsRateLimited, in_hour}
use erp_global.Otp.Traffic.{Served-IsRateLimited, opened, sends, counts_try, uses_up}
use erp_global.Otp.Consume.{Accepts, consume_iff}
use erp_global.Otp.Guesses.{
  World, empty_world, issues, tries, uses, Reachable, initial, next, guesses_bounded,
}
use erp_global.Otp.Totals.{count}

abbrev sha256 : Text → Text
sha256 x = codes "sha256:" ++ x

abbrev mac : Text → Text
mac x = codes "mac:" ++ x

abbrev request : IssueOtp
request = record {
  purpose = login;
  channel = whatsapp;
  target = codes "+919876543210";
  rate_key = codes "+919876543210";
  locale = codes "en";
  user_id = some (codes "u1");
  method = none;
  with_token = true;
  decoy = false;
  name = none;
}

abbrev drawn : Drawn
drawn = record { id = codes "c1"; number = 42; secret = codes "s" }

abbrev start : State
start = empty_world.state

abbrev issued_state : State
issued_state = (issue sha256 mac request drawn 5000 5001 start).1

abbrev answer : IssuedOtp
answer = record {
  secret = some (codes "s");
  channel = whatsapp;
  sent_to = mask_target (codes "+919876543210");
  expires_in = 300;
  resend_after = 60;
}

request_is_issued : issue sha256 mac request drawn 5000 5001 start ≡ (ok answer, issued_state)
unfolding issue write_issue check_rate
request_is_issued = refl

number_is_masked :
    mask_target (codes "+919876543210")
    ≡ codes "+91" ++ (8226 ∷ 8226 ∷ 8226 ∷ 8226 ∷ 8226 ∷ 8226 ∷ codes "3210")
unfolding mask_target starts_with drop
number_is_masked = refl

abbrev first_challenge : Challenge
first_challenge = new_challenge sha256 mac request drawn 5001

abbrev served_state : State
served_state = (use_code (codes "c1") 6001 (try_code (codes "c1") 6000 issued_state).1).1

Served-IsRateLimited_example : IsRateLimited served_state
Served-IsRateLimited_example = Served-IsRateLimited sha256 mac served_state (
    uses_up (codes "c1") 6001 (
      counts_try (codes "c1") 6000
        (sends request drawn 5000 5001 answer opened (omega arith) request_is_issued)))

-- Two requests that both check the rate before either writes: a sixth code goes out in the hour.
abbrev four_codes : State
four_codes = record start {
  challenges = first_challenge ∷ first_challenge ∷ first_challenge ∷ first_challenge ∷ [];
}

both_pass : check_rate (codes "+919876543210") 100000 four_codes ≡ (ok tt, four_codes)
unfolding check_rate Text-discrete new_challenge ℕ_discrete is_unused
both_pass = refl

abbrev raced : State
raced =
    (write_issue sha256 mac request drawn 100002
      (write_issue sha256 mac request drawn 100001 four_codes).1).1

six_go_out : length (filter (in_hour (codes "+919876543210") 5000) raced.challenges) ≡ 6
unfolding write_issue Text-discrete ℕ_discrete new_challenge same_purpose is_unused
six_go_out = refl

only_one :
    (c d : Challenge)
    → In c issued_state.challenges
    → In d issued_state.challenges
    → c.id ≡ d.id
    → c ≡ d
unfolding issue check_rate write_issue
only_one c d (inl x) (inl y) e = x ∙ sym y
only_one c d (inl x) (inr y) e = elim y [ ]
only_one c d (inr x) m e = elim x [ ]

consume_iff_example :
    ((consume sha256 mac (some first_challenge) (codes "000042") 6000 6001 issued_state).0 ≡ true)
    ↔ ((c : Challenge) × In c issued_state.challenges
        × Accepts sha256 mac first_challenge.id (codes "000042") 6000 c)
consume_iff_example =
    consume_iff sha256 mac first_challenge (codes "000042") 6000 6001 issued_state only_one

abbrev decoy : Challenge
decoy = record first_challenge { user_id = none }

abbrev decoy_state : State
decoy_state = record { challenges = decoy ∷ []; outbox = [] }

abbrev issued_world : World
issued_world = record empty_world { state = issued_state; drawn = codes "c1" ∷ [] }

abbrev tried_world : World
tried_world = record issued_world {
  state = (try_code (codes "c1") 6000 issued_state).1;
  guesses = codes "c1" ∷ [];
  pending = codes "c1" ∷ [];
}

abbrev used_world : World
used_world = record tried_world {
  state = (use_code (codes "c1") 6001 tried_world.state).1;
  accepted = codes "c1" ∷ [];
}

used_world-Reachable : Reachable sha256 mac used_world
unfolding try_code use_code issue is_right check_rate new_challenge write_issue Text-discrete
    ℕ_discrete six_digits is_unused
used_world-Reachable =
    next
      (next (next initial (issues request drawn 5000 5001 answer refl request_is_issued))
        (tries (codes "c1") (codes "000042") 6000 (record first_challenge { attempts = 1 }) refl))
      (uses (codes "c1") 6001 true (inl refl) refl)

guesses_bounded_example :
    (count (codes "c1") used_world.guesses ≤ max_attempts)
    × (count (codes "c1") used_world.accepted ≤ 1)
guesses_bounded_example = guesses_bounded sha256 mac used_world used_world-Reachable (codes "c1")
