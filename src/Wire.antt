-- ===== src/Wire.antt =====
-- include/entity/flexbuffers_adapter.hpp: what travels between servers and clients.
pub mod Codec
pub mod Numeral
pub mod Flex
pub mod Adapter
pub mod Records
pub mod Entries
pub mod Blocks
pub mod RoundTrip
pub mod Plan
pub mod Msgpack
pub mod Hash
pub mod Hashing
