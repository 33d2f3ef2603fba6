-- ===== src/Lib.antt =====
-- A model of TomChain: its servers (src/server, include/server), its clients (include/client)
-- and the blocks that they exchange (src/entity, include/entity). Servers propose blocks,
-- clients pull and sign them, each block's votes are collected by two servers, and a block with
-- a vote of every client is committed.
--
-- The parts, the files that model them, and the code:
--   Entity.Transaction, Entity.Block: `Transaction`, `BlockHeader`, `BlockVote` and `Block`
--     (include/entity/block.hpp, src/entity/block.cpp, include/entity/transaction.hpp)
--   Entity.Bls: the share sets of libBLS, as an interface with the laws of its documentation
--   Wire.Codec: the interface `flexbuffers_adapter` (include/entity/flexbuffers_adapter.hpp)
--   Wire.Adapter: its specializations (src/entity/flexbuffers_adapter.cpp), over FlexBuffers, which
--     Wire.Flex states as an interface with laws; Wire.Numeral: `std::to_string` and `std::stoi`,
--     which it uses for the keys of the votes
--   Wire.Hash: what include/entity/msgpack_adapter.hpp packs, and `Block::get_sha256`
--     (src/entity/block.cpp), over msgpack, which Wire.Msgpack states as an interface with laws
--   Server.State, Server.Init: the fields of `TcServer` and `ClientProfile`, and `init_server`,
--     `init_client_profile` and `init_peer_stubs` (include/server/tc-server.hpp,
--     src/server/tc-server.cpp)
--   Server.Register, Server.Pull, Server.Consensus: the client service, `Register`,
--     `PullPendingBlocks`, `GetBlocks` and `VoteBlocks` (include/server/tc-server-grpc.hpp)
--   Server.Count: how `VoteBlocks` and `RelayVote` count a vote
--   Server.Peer: the peer service, `RelayVote`, `RelayBlock`, `SPBcastCommit` and
--     `RelayBlockSync` (include/server/tc-server-peer-grpc.hpp)
--   Server.Send: the calls to peers of that file, and the loops `send_*` and `bcast_commits` of
--     src/server/tc-server.cpp
--   Server.Pack, Server.Commit, Server.Dead: `generate_tx`, `pack_block` and the pack thread,
--     `merge_votes`, and `remove_dead_blocks` (src/server/tc-server.cpp)
--   Client.State, Client.Fetch, Client.Vote: `TcClient` with `PullPendingBlocks`, `GetBlocks` and
--     `VoteBlocks` (include/client/tc-client.hpp, include/client/tc-client-grpc.hpp)
--   Client.Start: `TcClient::init`, the choice of a client's servers in `main`, `Register`, and one
--     round of the pull thread (src/client/tc-client.cpp)
--   Client.Schedule: `TcClient::start` and the loops of the three threads of `TcClient::schedule`,
--     round by round, with their flags (src/client/tc-client.cpp); Client.Scheduling and
--     Client.Queued: what a round of the vote thread sends
--   Server.Schedule: the pack thread and the functions that the timers of `TcServer::schedule` call,
--     with the flags that keep a timer from running twice (src/server/tc-server.cpp)
--   System.Step: the turns of a server's handlers and loops as one relation, in which they
--     interleave freely, with whatever clients and peers send; `remove_dead_blocks` is among
--     them, though the code has its only call commented out
--   System.Network: all servers and the requests with blocks that are on their way, as a relation:
--     server `server-count` packs, any server may take in what was sent to it at any time, again
--     or never, and clients send what they like. System.Agreement has what follows; System.Frame,
--     Change, Holding, Exchange, Intake, Consistent, Numbering and Upkeep are the way there
--   System.Delivery: a block's way from the server that packs it to another, and the same of a
--     commit
--   Wire.Plan: what of a block its proposer fixes, and that the adapter keeps it
--   Client.Life: the turns of a client as a relation, with whatever the servers answer
--   Entity.Placement, Entity.Merge, Server.Invariant, Server.Growth, Server.Safety and the files
--     beside them: the lemmas and theorems; Examples: concrete servers, blocks and clients
--   Server.Ballot: the abstract count of votes for a block, which Server.Refine and Client.Agreement
--     relate to the servers
--   Container: `concurrent_hash_map` (Assoc), `std::map` (OrdMap), `std::set` and `concurrent_set`
--     (OrdSet), and the blocks behind `shared_ptr`s (Heap)
--   Prelude: tests, lists, 64-bit words, and loops that an exception or a fault may end
--
-- How the code is read. A shared block is a pointer into a store, so that `pending_blks`, the
-- merge queue, the relay queues and `committed_blks` alias it as in the code. A handler gives
-- the state and how it ended: `returned`, `thrown` (an exception that leaves it) or `faulted` (a
-- null or dangling access, a division by zero, a failed assertion, a buffer that FlexBuffers
-- must not be called on). Asserts are live, as in the build type that CMakeLists.txt sets. The
-- clock, the random draws and what a peer answers to a heartbeat are arguments. Byte strings,
-- key shares and share sets are types that the definitions take. `uint64_t` arithmetic is
-- written out modulo 2 ^ 64. A table's iteration order is the order of its list, which the
-- theorems leave open. The only bound on rounds is that of `pack_block`, the code's own,
-- INT_MAX; as many rounds as there are transactions are enough. The fuel of `to_string` is 20,
-- since a number of 64 bits has at most 20 digits.
--
-- Not modelled: the two seconds in which handlers run before `init_peer_stubs` has made the queues
-- for the peers (a server starts after it), an exception of the constructor of `BLSSigShareSet`,
-- the gRPC stubs (every peer is taken to have one), the locks, the timers themselves and the threads of `TcServer::start`, the threads of a client inside a round,
-- gRPC transport, logging, profiling and argument parsing; the FlatBuffers stub; FlexBuffers,
-- msgpack, SHA-256 and libBLS, which are interfaces or parameters; the readers of
-- include/entity/msgpack_adapter.hpp and its packing of an address, which nothing calls. What a
-- client does with RocksDB and `snprintf` is the interface `Calls` of Client.Vote.
pub mod Prelude
pub mod Container
pub mod Entity
pub mod Wire
pub mod Server
pub mod Client
pub mod System
pub mod Examples
