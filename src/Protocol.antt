-- ===== src/Protocol.antt =====
-- The protocol of CommonLib: its sizes, and its messages.
pub mod Sizes
unfoldable pub use Sizes.*
pub mod Messages
pub mod Stored
pub mod Cutting
mod Tests
