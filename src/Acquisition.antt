-- ===== src/Acquisition.antt =====
-- adapters/market-acquisition: the deterministic core of one market-data acquisition.
pub mod Limits
pub mod Quota
pub mod Retry
pub mod Identity
pub mod Machine
mod Tests
