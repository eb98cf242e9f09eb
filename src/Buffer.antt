-- ===== src/Buffer.antt =====
-- CommonLib/IOBuffer.h: the three cursors over byte arrays.
pub mod Data
pub mod IBuffer
pub mod OBuffer
pub mod IoBuffer
pub mod Unread
pub mod Fifo
mod Tests
