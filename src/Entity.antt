-- ===== src/Entity.antt =====
-- include/entity and src/entity: transactions, block headers, votes and blocks.
pub mod Bls
pub mod Transaction
pub mod Block
pub mod Placement
pub mod Merge
pub mod Signers
