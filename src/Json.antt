-- ===== src/Json.antt =====
-- core/json.ts: the JSON values of PEAS, their canonical encoding and their limits.
mod Defs
mod Encoding
pub mod Limits
pub mod Bytes
pub mod Accounting
mod Tests
pub use Defs.*
unfoldable pub use Encoding.*
