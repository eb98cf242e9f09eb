-- ===== src/Utils.antt =====
-- CommonLib/Utils.cpp: the comparison of strings and the copy of a message into a buffer.
pub mod Strings
pub mod Compare
pub mod Copy
pub mod Splitting
pub mod Runs
pub mod Split
pub mod Trimming
mod Tests
