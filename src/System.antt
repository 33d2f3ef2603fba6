-- ===== src/System.antt =====
-- A server among clients and peers: its handlers run on the threads of gRPC, and its scheduled work
-- on timers. A step is one turn of one loop, so a run is any interleaving of such turns.
pub mod Step
pub mod Frame
pub mod Change
pub mod Network
pub mod Holding
pub mod Exchange
pub mod Intake
pub mod Consistent
pub mod Numbering
pub mod Upkeep
pub mod Agreement
pub mod Delivery
pub mod Reach
