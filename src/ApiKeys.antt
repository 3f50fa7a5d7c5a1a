-- ===== src/ApiKeys.antt =====
-- Personal API keys: apps/api/src/api-keys/api-keys.service.ts, with packages/api/src/domain/api-keys.ts.
pub mod Addresses
pub mod Ranges
pub mod Store
pub mod Service
pub mod Authenticate
pub mod Listing
pub mod Fresh
pub mod Revoked
pub mod Ended
pub mod Bounded
pub mod Used
mod Tests
