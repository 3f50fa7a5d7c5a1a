-- ===== src/MergeService.antt =====
-- Folding two rows into one, and its reversal: apps/api/src/admin/merge/merge.service.ts.
pub mod Rows
pub mod Tables
pub mod Moves
pub mod Store
pub mod Parts
pub mod Calls
pub mod Merging
pub mod Unmerging
pub mod Queue
pub mod Pages
pub mod Paged
pub mod Children
pub mod Reversal
pub mod Restoring
pub mod Undone
pub mod Refused
pub mod Gone
pub mod Vacated
pub mod Apart
pub mod Unique
pub mod Candidates
pub mod Counts
pub mod Counted
mod Samples
mod Tests
mod QueueTests
