-- ===== src/Container.antt =====
-- The containers that the program keeps its state in: `std::map` and the oneTBB
-- `concurrent_hash_map` as association lists, `std::set` and `concurrent_set` as sorted lists,
-- `concurrent_queue` as a list with its front first, and the store of shared blocks.
pub mod Assoc
pub mod OrdMap
pub mod OrdSet
pub mod Heap
