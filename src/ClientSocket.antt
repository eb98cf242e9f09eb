-- ===== src/ClientSocket.antt =====
-- CommonLib/ClientSocket.h and CommonLib/ClientSocket.cpp: the server's side of one connection.
pub mod State
pub mod Receive
pub mod Send
pub mod Received
pub mod Stays
pub mod ReceiveStays
pub mod Stream
pub mod Pending
pub mod Flush
pub mod Advance
pub mod Fill
pub mod Deliver
pub mod Progress
pub mod Draining
pub mod Emptying
pub mod Queued
pub mod Bystander
pub mod Initial
pub mod Session
pub mod Fixtures
mod Tests
