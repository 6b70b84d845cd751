-- ===== src/Otp.antt =====
-- apps/identity-service: the one-time codes of the sign-in, of the second factor and of a phone number.
pub mod Challenges
pub mod Service
pub mod Checking
pub mod Rate
pub mod Traffic
pub mod Consume
pub mod Totals
pub mod Guesses
pub mod Examples
