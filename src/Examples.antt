-- ===== src/Examples.antt =====
-- Concrete servers, blocks and votes, and the theorems at them.
mod Data
mod Flex
mod Wire
mod Quorum
mod Lives
mod Blocks
mod Handlers
mod Turns
mod Clients
mod Network
mod Delivery
