-- ===== src/People.antt =====
-- apps/jobs/src/ingest/person-matcher.ts.
pub mod Names
pub mod Slugs
pub mod Assign
pub mod Safe
pub mod Outcomes
pub mod Accounted
pub mod Variants
pub mod Grouped
pub mod Endings
pub mod Proposed
mod Tests
