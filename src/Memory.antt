-- ===== src/Memory.antt =====
-- The memory pools of CommonLib.
pub mod Api
pub mod VarPool
pub mod SizeClass
pub mod Block
pub mod FreeList
pub mod Members
pub mod Pool
pub mod Links
pub mod Blocks
pub mod Taking
pub mod Growing
pub mod Relinking
pub mod Dropping
pub mod Returning
pub mod Walking
pub mod Counting
pub mod Nodes
pub mod Serving
pub mod Requests
mod Tests
mod PoolTests
