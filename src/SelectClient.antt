-- ===== src/SelectClient.antt =====
-- CommonLib/SelectClient.h and CommonLib/SelectClient.cpp: the client of one connection.
pub mod State
pub mod SendLoop
pub mod Received
mod Tests
