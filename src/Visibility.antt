-- ===== src/Visibility.antt =====
-- The read gate's policy: packages/api/src/domain/visibility.ts, with the viewer's access of
-- contributions.ts.
pub mod Types
pub mod Registry
pub mod Validate
pub mod Sound
pub mod Viewer
pub mod Access
pub mod Hints
pub mod Overrides
mod Tests
