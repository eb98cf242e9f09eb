-- ===== src/SelectClientThread.antt =====
-- CommonLib/SelectClient_Thread.{h,cpp}: the client whose messages pass through two queues.
pub mod State
pub mod Receive
pub mod Send
pub mod Stored
pub mod Gathered
pub mod Pipeline
pub mod Crowded
pub mod Matches
pub mod MatchesRound
pub mod SendThread
mod Tests
