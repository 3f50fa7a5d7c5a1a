-- ===== src/Csv.antt =====
-- The RFC 4180 reader of the sources: apps/jobs/src/util/csv.ts.
pub mod Parser
pub mod Chunks
pub mod RoundTrip
pub mod Objects
mod Tests
