-- ===== src/Mfa.antt =====
-- apps/api/src/auth/mfa/totp.ts and policy.ts.
pub mod Base32
pub mod RoundTrip
pub mod Totp
pub mod Replay
pub mod Policy
pub mod Recovery
mod Tests
