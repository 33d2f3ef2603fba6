-- ===== src/Server/Peer.antt =====
-- The handlers of `TcPeerConsensusImpl` in include/server/tc-server-peer-grpc.hpp. `now` gives the
-- clock's reading at the turn of each block id.
use dchain.Prelude.{
  ℕ, none, some, List, [], ◌∷◌, ◌++◌, if◌then◌else◌, Outcome, returned, thrown, faulted, for_each,
  length,
}
use dchain.Container.Assoc.{find, assign, erase}
use dchain.Container.Heap.{alloc}
use dchain.Container.OrdSet
use dchain.Container.OrdSet.{contains}
use dchain.Entity.Block.{Block, BlockVote}
use dchain.Server.State.{Conf, Server}
use dchain.Server.Count.{count_vote}
use dchain.Wire.Codec.{Codec, decoded, invalid, aborted}

-- `block->header_.recv_ts_ = now_ms`
unfoldable pub received : Block → ℕ → Block
received b now = record b { header = record b.header { recv_ts = now } }

module _ {Bytes Key : Type 0} (conf : Conf) (codec : Codec Bytes) where
  open codec use {vote_from_bytes, block_to_bytes, block_from_bytes}

  -- One iteration of the loop of `RelayVote`, its vote decoded.
  unfoldable pub relayed_vote : Server Bytes Key → BlockVote → Server Bytes Key × Outcome
  relayed_vote s vote =
      if contains s.dead_block vote.block_id
      then (s, returned)
      else count_vote conf s vote.block_id vote.voter_id vote

  unfoldable pub relay_vote_item : Server Bytes Key → Bytes → Server Bytes Key × Outcome
  unfolding relayed_vote
  relay_vote_item s bytes = elim (vote_from_bytes bytes) [
    | invalid ↦ (s, thrown)
    | aborted ↦ (s, faulted)
    | decoded vote ↦ relayed_vote s vote
  ]

  -- `RelayVote`
  unfoldable pub relay_vote : Server Bytes Key → List Bytes → Server Bytes Key × Outcome
  unfolding relay_vote_item
  relay_vote s votes = for_each relay_vote_item s votes

  -- One iteration of the loop of `RelayBlock`, its block decoded: a pending block of the same id
  -- is replaced.
  unfoldable pub store_block : Server Bytes Key → Block → Server Bytes Key
  store_block s block = record s {
    heap = alloc s.heap block;
    pending_blks = assign s.pending_blks block.header.id (length s.heap);
  }

  unfoldable pub relay_block_item : Server Bytes Key → Bytes → Server Bytes Key × Outcome
  unfolding store_block
  relay_block_item s bytes = elim (block_from_bytes bytes) [
    | invalid ↦ (s, thrown)
    | aborted ↦ (s, faulted)
    | decoded block ↦ (store_block s block, returned)
  ]

  -- `RelayBlock`
  unfoldable pub relay_block : Server Bytes Key → List Bytes → Server Bytes Key × Outcome
  unfolding relay_block_item
  relay_block s blocks = for_each relay_block_item s blocks

  -- The block that a peer committed takes the place of the pending one.
  unfoldable pub commit_received : Server Bytes Key → Block → Server Bytes Key
  commit_received s block = record s {
    heap = alloc s.heap block;
    committed_blks = assign s.committed_blks block.header.id (length s.heap);
    db = if conf.use_rocksdb then s.db ++ (block.header.id, block_to_bytes block) ∷ [] else s.db;
    pending_blks = erase s.pending_blks block.header.id;
  }

  -- One iteration of the loop of `SPBcastCommit`, its block decoded: one that is not pending is
  -- skipped.
  unfoldable pub bcast_block : Server Bytes Key → Block → Server Bytes Key
  unfolding commit_received
  bcast_block s block = elim (find s.pending_blks block.header.id) [
    | none ↦ s
    | some _ ↦ commit_received s block
  ]

  unfoldable pub bcast_item : (ℕ → ℕ) → Server Bytes Key → Bytes → Server Bytes Key × Outcome
  unfolding bcast_block received
  bcast_item now s bytes = elim (block_from_bytes bytes) [
    | invalid ↦ (s, thrown)
    | aborted ↦ (s, faulted)
    | decoded block ↦ (bcast_block s (received block (now block.header.id)), returned)
  ]

  -- `SPBcastCommit`
  unfoldable pub sp_bcast_commit :
      (ℕ → ℕ) → Server Bytes Key → List Bytes → Server Bytes Key × Outcome
  unfolding bcast_item
  sp_bcast_commit now s blocks = for_each (bcast_item now) s blocks

-- `RelayBlockSync`
unfoldable pub relay_block_sync : {Bytes Key : Type 0} → Server Bytes Key → ℕ → Server Bytes Key
relay_block_sync s block_id = record s { pb_sync_labels = OrdSet.insert s.pb_sync_labels block_id }
