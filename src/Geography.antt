-- ===== src/Geography.antt =====
-- packages/api/src/domain/geography.ts.
pub mod Countries
pub mod Canonical
mod Tests
