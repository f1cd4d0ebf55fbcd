-- ===== src/Blockchain.antt =====
-- src/blockchain: blocks, the chain's tables and the checks on an arriving block.
pub mod Constants
pub mod Block
pub mod Table
pub mod Chain
pub mod Filter
pub mod Samples
mod Tests
