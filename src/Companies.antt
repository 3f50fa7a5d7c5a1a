-- ===== src/Companies.antt =====
-- The company identity policy of ingest: apps/jobs/src/ingest/company-matcher.ts.
pub mod Matcher
pub mod Justified
pub mod Conflicts
pub mod Names
mod Tests
