-- ===== src/Server/State.antt =====
-- include/server/tc-server.hpp: the fields of `TcServer` and `ClientProfile`, and the entries of
-- the JSON configuration that the server reads.
use dchain.Prelude.{ℕ, Bool, Option, List}
use dchain.Container.Assoc.{Assoc}
use dchain.Container.Heap.{Ptr}
use dchain.Entity.Transaction.{Transaction}
use dchain.Entity.Block.{Block, BlockHeader, BlockVote}

pub record Conf : Type 0 where
  pub server_id : ℕ
  pub server_count : ℕ
  pub client_count : ℕ
  pub account_count : ℕ
  pub generate_tx_rate : ℕ
  pub tx_per_block : ℕ
  pub pb_pool_limit : ℕ
  pub block_die_threshold : ℕ
  pub use_rocksdb : Bool

-- `Bytes` stands for byte strings, `Key` for a pair of libBLS key shares. `ecc_pkey` is null
-- until the client registers, and is given by the bytes that it is made from.
pub record ClientProfile (Bytes Key : Type 0) : Type 0 where
  pub id : ℕ
  pub ecc_pkey : Option Bytes
  pub tss_key : Key
  pub seen_blocks : Assoc BlockHeader

-- `heap` holds the blocks behind the `shared_ptr<Block>`s; `db` the writes to RocksDB, oldest
-- first, each under the id in its key `block-<id>`. The locks and the gRPC stubs are left out.
pub record Server (Bytes Key : Type 0) : Type 0 where
  pub server_id : ℕ
  pub clients : Assoc (ClientProfile Bytes Key)
  pub heap : List Block
  pub pending_blks : Assoc Ptr
  pub pb_sync_queue : List ℕ
  pub pb_sync_labels : List ℕ
  pub pb_merge_queue : List Ptr
  pub committed_blks : Assoc Ptr
  pub pending_txs : Assoc Transaction
  pub blk_seq_generator : ℕ
  pub relay_votes : Assoc (List BlockVote)
  pub relay_blocks : Assoc (List Ptr)
  pub bcast_commit_blocks : Assoc (List Ptr)
  pub dead_block : List ℕ
  pub db : List (ℕ × Bytes)
  pub peer_status : List Bool
