-- ===== src/Framing.antt =====
-- How a byte stream is cut into messages: the loop body that `ClientSocket::ProcessorRecv`,
-- `SelectClient::processorRecv` and `SelectClient_Thread::ProcessorRecv` have in common, and the
-- stream of messages that it stands for.
pub mod Step
pub mod Cuts
pub mod Chunks
pub mod Read
pub mod Loop
pub mod Handled
mod Tests
