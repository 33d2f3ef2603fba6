-- ===== src/Server/Safety.antt =====
-- Every handler and every scheduled loop keeps a server valid, only grows its blocks, and never
-- follows a pointer or an iterator to nothing.
pub mod Defs
pub mod Votes
pub mod Consensus
pub mod Peer
pub mod Pull
pub mod Commit
pub mod Send
pub mod Schedule
pub mod Init
pub use Defs.*
