-- ===== src/Server/Commit.antt =====
-- `TcServer::merge_votes` of src/server/tc-server.cpp. `now` gives the clock's reading at the turn
-- of each block.
use dchain.Prelude.{
  ℕ, Option, none, some, List, [], ◌∷◌, ◌++◌, Outcome, returned, thrown, faulted, and_then,
}
use dchain.Container.Assoc.{assign, adjust_all}
use dchain.Container.Heap.{Ptr, deref, write}
use dchain.Entity.Bls.{ShareSets}
use dchain.Entity.Block
use dchain.Entity.Block.{Block}
use dchain.Server.State.{Conf, Server}
use dchain.Wire.Codec.{Codec}

-- `commit_ts_` and `recv_ts_` are set to the time of the commit.
unfoldable pub committed : Block → ℕ → Block
committed b now = record b { header = record b.header { commit_ts = now; recv_ts = now } }

module _ {Bytes Key ShareSet : Type 0} (conf : Conf) (codec : Codec Bytes)
    (bls : ShareSets ShareSet) (now : ℕ → ℕ) where
  -- The block goes to the committed ones, to RocksDB, and to the queue of every peer.
  unfoldable pub commit_block : Server Bytes Key → Ptr → Block → Server Bytes Key
  commit_block s p b = record s {
    heap = write s.heap p b;
    committed_blks = assign s.committed_blks b.header.id p;
    db = s.db ++ (b.header.id, codec.block_to_bytes b) ∷ [];
    bcast_commit_blocks = adjust_all s.bcast_commit_blocks (λ q. q ++ p ∷ []);
  }

  -- the rest of a turn, `Block::merge_votes` done
  unfoldable pub commit_merged : Server Bytes Key → Ptr → Option Block → Server Bytes Key × Outcome
  unfolding commit_block committed
  commit_merged s p none = (s, thrown)
  commit_merged s p (some b) = (commit_block s p (committed b (now b.header.id)), returned)

  -- One turn of the loop, for the block that was popped.
  unfoldable pub commit_popped : Server Bytes Key → Ptr → Option Block → Server Bytes Key × Outcome
  unfolding commit_merged
  commit_popped s p none = (s, faulted)
  commit_popped s p (some b) = commit_merged s p (Block.merge_votes bls b conf.client_count)

  unfoldable pub merge_queue : Server Bytes Key → List Ptr → Server Bytes Key × Outcome
  unfolding commit_popped
  merge_queue s [] = (s, returned)
  merge_queue s (p ∷ queue) =
      and_then (commit_popped (record s { pb_merge_queue = queue }) p (deref s.heap p))
        (λ s'. merge_queue s' queue)

  -- `TcServer::merge_votes`: the queue is popped until it is empty.
  unfoldable pub merge_votes : Server Bytes Key → Server Bytes Key × Outcome
  unfolding merge_queue
  merge_votes s = merge_queue s s.pb_merge_queue
