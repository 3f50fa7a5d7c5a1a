-- ===== src/Identifiers.antt =====
-- packages/api/src/domain/identifiers.ts.
pub mod Shapes
pub mod Normalize
pub mod Characters
pub mod Settled
pub mod Idempotent
pub mod Numbers
pub mod Checksum
mod Tests
