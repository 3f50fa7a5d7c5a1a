-- ===== src/Merges.antt =====
-- apps/jobs/src/ingest/merge-detector.ts.
pub mod Detector
pub mod Proposals
pub mod Scoped
pub mod Shared
mod Tests
