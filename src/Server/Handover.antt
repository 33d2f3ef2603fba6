-- ===== src/Server/Handover.antt =====
-- How `SPBcastCommit` replaces a pending block by the one that a peer committed.
use dchain.Prelude.{
  ℕ, ◌≡◌, not, ◌&&◌, none, some, [], ◌∷◌, ◌++◌, arith, length, if◌then◌else◌, ◌==◌,
}
use dchain.Container.Assoc.{find, find-assign, find-erase}
use dchain.Container.Heap.{deref, deref-alloc}
use dchain.Entity.Block.{Block}
use dchain.Server.State.{Conf, Server}
use dchain.Server.Offers.{is_none}
use dchain.Server.Peer.{commit_received, bcast_block}
use dchain.Wire.Codec.{Codec}

module _ {Bytes Key : Type 0} (conf : Conf) (codec : Codec Bytes) (s : Server Bytes Key)
    (block : Block) where
  -- Whatever the state, no block is pending under the received block's id afterwards. If one was,
  -- the received block, and no other, becomes the committed block of its id, and RocksDB gets a
  -- write of it if it is in use; if none was, the committed blocks and RocksDB stay as they are.
  pub bcast_block_commits :
      (j : ℕ)
      → let id = block.header.id in
        let was = not (is_none (find s.pending_blks id)) in
        let t = bcast_block conf codec s block in
        (find t.pending_blks j ≡ (if id == j then none else find s.pending_blks j))
        × (find t.committed_blks j
            ≡ (if was && id == j then some (length s.heap) else find s.committed_blks j))
        × (deref t.heap (length s.heap)
            ≡ (if was then some block else deref s.heap (length s.heap)))
        × (t.db ≡ (
            if was && conf.use_rocksdb
            then s.db ++ (id, codec.block_to_bytes block) ∷ []
            else s.db))
  unfolding bcast_block commit_received
  bcast_block_commits j =
      let id = block.header.id in
      let w = deref-alloc s.heap block (length s.heap) in
      let e = find-erase s.pending_blks id j in
      let a = find-assign s.committed_blks id (length s.heap) j in
      (ground (arith, e), ground (arith, a), ground (arith, w), ground arith)

  -- A second commit of a block of the same id changes nothing.
  pub bcast_block-bcast_block :
      (again : Block)
      → again.header.id ≡ block.header.id
      → let t = bcast_block conf codec s block in bcast_block conf codec t again ≡ t
  unfolding bcast_block commit_received
  bcast_block-bcast_block again e =
      ground (arith, e, find-erase s.pending_blks block.header.id block.header.id)
