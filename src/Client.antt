-- ===== src/Client.antt =====
-- include/client and src/client: what a client does with the responses of the servers.
pub mod State
pub mod Fetch
pub mod Vote
pub mod Start
pub mod Starting
pub mod Accounts
pub mod Schedule
pub mod Queued
pub mod Life
pub mod Scheduling
pub mod Fetching
pub mod Counted
pub mod Agreement
pub mod Delivered
