-- ===== src/Audit/Examples.antt =====
-- Runs of the audit chain on concrete events.
use erp_global.Common.{ℕ, ◌+◌, ◌%◌, ◌≡◌, refl, inl, true, none, some, [], ◌∷◌, length, ◌↔◌}
use erp_global.Common.Text.{Text, Text-discrete, codes, drop, contains, lower, starts_with}
use native.Mathlib.Decide.{ℕ_discrete}
use erp_global.Common.Action.{ok}
use erp_global.Audit.Json.{null, str, obj, end, field, redact, is_secret_key}
use erp_global.Audit.Redaction.{IsClean, redact-IsClean}
use erp_global.Audit.Chain.{
  insert_by_seq, Envelope, State, genesis_hash, by_seq, next_record, append, verify,
}
use erp_global.Audit.Verify.{IsIntact, verify_iff}
use erp_global.Audit.Append.{append_succeeds, appended}
use erp_global.Audit.Writers.{empty_world, begins, commits, initial, next, verify_of_Reachable}

abbrev sum : Text → ℕ
sum [] = 0
sum (c ∷ cs) = c + sum cs

-- A digest of 64 characters that depends on every character.
unfoldable digest : Text → Text
digest x = (b'0' + sum x % 10) ∷ drop 1 genesis_hash

abbrev digit : ℕ → Text
digit n = (b'0' + n % 10) ∷ []

length-digest : (x : Text) → length (digest x) ≡ 64
unfolding digest drop genesis_hash
length-digest x = refl

abbrev login : Envelope
login = record {
  tenant_id = codes "acme";
  event_id = codes "e1";
  type = codes "user.login";
  source = codes "identity";
  actor_type = codes "user";
  actor_id = codes "u1";
  occurred_at = codes "t1";
  correlation_id = none;
  payload = obj (field (codes "otp") (str (codes "123456")) end);
}

abbrev logout : Envelope
logout = record {
  tenant_id = codes "acme";
  event_id = codes "e2";
  type = codes "user.logout";
  source = codes "identity";
  actor_type = codes "user";
  actor_id = codes "u1";
  occurred_at = codes "t2";
  correlation_id = some (codes "c1");
  payload = null;
}

abbrev start : State
start = empty_world.state

abbrev after_login : State
after_login = appended digest digit none login (codes "now") []

abbrev after_logout : State
after_logout = appended digest digit after_login.head logout (codes "later") after_login.records

login_appends : append digest digit none login (codes "now") start ≡ ok after_login
unfolding append next_record
login_appends = refl

logout_appends :
    append digest digit after_login.head logout (codes "later") after_login ≡ ok after_logout
unfolding append next_record Text-discrete ℕ_discrete
logout_appends = refl

secret_is_redacted : redact login.payload ≡ obj (field (codes "otp") (str (codes "[redacted]")) end)
unfolding redact is_secret_key contains lower starts_with Text-discrete ℕ_discrete
secret_is_redacted = refl

verify_iff_example :
    ((verify digest digit after_logout).valid ≡ true) ↔ IsIntact digest digit after_logout
verify_iff_example = verify_iff digest digit after_logout

after_login_valid : (verify digest digit after_login).valid ≡ true
after_login_valid =
    verify_of_Reachable digest digit (record { state = after_login; snapshots = none ∷ [] })
      (next (next initial begins) (commits none login (codes "now") (inl refl) login_appends))

after_logout_valid : (verify digest digit after_logout).valid ≡ true
after_logout_valid =
    verify_of_Reachable digest digit
      (record { state = after_logout; snapshots = after_login.head ∷ none ∷ [] })
      (next
        (next
          (next (next initial begins) (commits none login (codes "now") (inl refl) login_appends))
          begins)
        (commits after_login.head logout (codes "later") (inl refl) logout_appends))

verify_of_Reachable_example : (verify digest digit after_logout).valid ≡ true
verify_of_Reachable_example =
    verify_of_Reachable digest digit
      (record { state = after_logout; snapshots = after_login.head ∷ none ∷ [] })
      (next
        (next
          (next (next initial begins) (commits none login (codes "now") (inl refl) login_appends))
          begins)
        (commits after_login.head logout (codes "later") (inl refl) logout_appends))

append_succeeds_example :
    append digest digit after_login.head logout (codes "later") after_login ≡ ok after_logout
unfolding next_record Text-discrete ℕ_discrete
append_succeeds_example =
    append_succeeds digest digit logout (codes "later") after_login
      ((verify_iff digest digit after_login).0 after_login_valid) refl

-- The same records, stored in another order.
abbrev restored : State
restored = record {
  records = next_record digest digit after_login.head logout (codes "later") ∷ after_login.records;
  head = after_logout.head;
}

restored_valid : (verify digest digit restored).valid ≡ true
unfolding by_seq insert_by_seq next_record
restored_valid =
    let i = (verify_iff digest digit after_logout).0 after_logout_valid in
    (verify_iff digest digit restored).1 (record { chain = i.chain; fits = i.fits })

redact-IsClean_example : IsClean (redact login.payload)
redact-IsClean_example = redact-IsClean login.payload
