-- ===== src/Otp/Challenges.antt =====
-- models.ts (`OtpChallenge`) and the constants and helpers of otp.service.ts. Times are milliseconds.
use erp_global.Common.{
  ℕ, zero, suc, ◌+◌, ◌-◌, ◌/◌, ◌%◌, max, Bool, true, false, Option, none, some, List, [], ◌∷◌, ◌++◌,
  length, if◌then◌else◌,
}
use erp_global.Common.Text.{Text, codes, drop, take, starts_with, split}

pub data Purpose : Type 0 where
  login mfa mfa_manage phone_verify : Purpose

pub data Channel : Type 0 where
  whatsapp email : Channel

pub data MfaMethod : Type 0 where
  by_totp by_whatsapp by_email : MfaMethod

pub record Challenge : Type 0 where
  pub id : Text
  pub purpose : Purpose
  pub user_id : Option Text
  pub channel : Channel
  pub target : Text
  pub rate_key : Text
  pub token_hash : Option Text
  pub method : Option MfaMethod
  pub code_hash : Text
  pub attempts : ℕ
  pub expires_at : ℕ
  pub used_at : Option ℕ
  pub created_at : ℕ

-- What the outbox holds: the events, and the messages to send.
pub data OtpEvent : Type 0 where
  otp_requested : Purpose → Channel → Option Text → OtpEvent
  otp_failed : Purpose → Option Text → ℕ → OtpEvent
  whatsapp_requested : Text → Text → Text → OtpEvent
  email_requested : Text → Text → Text → Text → OtpEvent

pub record State : Type 0 where
  pub challenges : List Challenge
  pub outbox : List OtpEvent

pub data OtpError : Type 0 where
  too_soon : ℕ → OtpError
  too_many : OtpError

abbrev pub ttl_ms : ℕ
ttl_ms = 300000

abbrev pub max_attempts : ℕ
max_attempts = 5

abbrev pub resend_seconds : ℕ
resend_seconds = 60

abbrev pub per_hour : ℕ
per_hour = 5

abbrev pub hour_ms : ℕ
hour_ms = 3600000

unfoldable pub same_purpose : Purpose → Purpose → Bool
same_purpose login login = true
same_purpose mfa mfa = true
same_purpose mfa_manage mfa_manage = true
same_purpose phone_verify phone_verify = true
same_purpose p q = false

unfoldable pub is_unused : Challenge → Bool
is_unused c = elim c.used_at [ none ↦ true | some _ ↦ false ]

-- `String(n).padStart(6, '0')` of a number below 1000000.
unfoldable pub six_digits : ℕ → Text
six_digits n =
    (b'0' + n / 100000 % 10)
    ∷ (b'0' + n / 10000 % 10)
    ∷ (b'0' + n / 1000 % 10)
    ∷ (b'0' + n / 100 % 10)
    ∷ (b'0' + n / 10 % 10)
    ∷ (b'0' + n % 10)
    ∷ []

unfoldable pub repeat : ℕ → ℕ → Text
repeat zero c = []
repeat (suc n) c = c ∷ repeat n c

abbrev pub bullet : ℕ
bullet = 8226

-- `const [local = '', domain = ''] = target.split('@')`
unfoldable pub mask_email : List Text → Text
unfolding take repeat
mask_email [] = repeat 3 bullet ++ (b'@' ∷ [])
mask_email (local ∷ []) = take 1 local ++ (repeat 3 bullet ++ (b'@' ∷ []))
mask_email (local ∷ domain ∷ rest) = take 1 local ++ (repeat 3 bullet ++ (b'@' ∷ domain))

unfoldable pub mask_target : Text → Text
unfolding take repeat mask_email
mask_target t =
    if starts_with t (codes "+")
    then take 3 t ++ (repeat (max (length t - 7) 2) bullet ++ drop (length t - 4) t)
    else mask_email (split b'@' t)
