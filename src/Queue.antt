-- ===== src/Queue.antt =====
-- The queues of CommonLib.
pub mod Api
pub mod Linked
pub mod Refine
pub mod Append
pub mod Safe
pub mod Visit
mod Tests
