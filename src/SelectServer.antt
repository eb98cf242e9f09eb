-- ===== src/SelectServer.antt =====
-- CommonLib/SelectServer.{h,cpp}: the server that accepts and serves its clients in one thread.
pub mod State
pub mod Pass
pub mod Run
pub mod Watched
pub mod Tracked
pub mod Turn
pub mod Reach
pub mod Told
mod Tests
