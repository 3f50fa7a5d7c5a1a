-- ===== src/Gate.antt =====
-- The enforcement of the read gate: apps/api/src/gate/gate.ts.
pub mod Masks
pub mod Leaks
pub mod Filters
pub mod Directory
pub mod Rows
pub mod RowLeaks
mod Tests
