-- ===== src/SelectServerThread.antt =====
-- CommonLib/SelectServer_Thread.h and CommonLib/SelectServer_Thread.cpp: the server with a thread
-- that accepts and threads that handle the clients.
pub mod Handle
pub mod Turn
pub mod Server
pub mod Balance
pub mod Leave
pub mod Join
pub mod Counting
pub mod Closing
pub mod Ready
mod Tests
