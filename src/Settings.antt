-- ===== src/Settings.antt =====
-- apps/api/src/gate/gate-policy.service.ts.
pub mod Changes
pub mod Stored
mod Tests
