-- ===== src/Server.antt =====
-- include/server and src/server: the state of `TcServer`, the handlers of its two gRPC services,
-- and its scheduled work.
pub mod State
pub mod Growth
pub mod Queues
pub mod Invariant
pub mod Register
pub mod Pull
pub mod Count
pub mod Consensus
pub mod Peer
pub mod Send
pub mod Init
pub mod Pack
pub mod Commit
pub mod Schedule
pub mod Proposer
pub mod Dead
pub mod Safety
pub mod Tally
pub mod Relay
pub mod Offers
pub mod Packing
pub mod Handover
pub mod Merging
pub mod Drained
pub mod Quorum
pub mod Ballot
pub mod Refine
pub mod Signals
