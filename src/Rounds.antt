-- ===== src/Rounds.antt =====
-- apps/jobs/src/ingest/round-dedup.ts.
pub mod Dedup
pub mod Nearest
pub mod Pairing
pub mod Chosen
pub mod Indices
mod Tests
