-- ===== src/EasyTcp.antt =====
-- The first version of the server and the client: EasyTcpServer/EasyTcpServer.hpp,
-- EasyTcpClient/EasyTcpClient.hpp, and EasyTcpServer/MessageHeader.hpp, which both have a copy of.
pub mod Header
pub mod MsgBuf
pub mod Split
pub mod Loop
pub mod Stream
pub mod Parts
pub mod Chunks
pub mod Server
pub mod Counting
pub mod Reach
pub mod Client
pub mod Running
mod Tests
