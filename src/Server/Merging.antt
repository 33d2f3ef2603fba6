-- ===== src/Server/Merging.antt =====
-- What committing a block of the merge queue does.
use dchain.Prelude.{
  ℕ, ◌≤◌, ◌≡◌, refl, some, [], ◌∷◌, ◌++◌, arith, length, returned, ◌==◌, if◌then◌else◌,
}
use mathlib.Core.Option
use dchain.Container.Assoc.{find, find-assign, find-adjust_all}
use dchain.Container.Heap.{Ptr, deref, deref-write, deref-lt-length}
use dchain.Entity.Bls.{Signature, ShareSets, ShareSetLaws}
use dchain.Entity.Block.{Block}
use dchain.Entity.Merge.{Signed, merge_votes_enough}
use dchain.Server.State.{Conf, Server}
use dchain.Server.Commit.{committed, commit_block, commit_merged, commit_popped}
use dchain.Wire.Codec.{Codec}

module _ {Bytes Key ShareSet : Type 0} (conf : Conf) (codec : Codec Bytes)
    (bls : ShareSets ShareSet) (laws : ShareSetLaws bls) (now : ℕ → ℕ) where
  -- Under the documented laws of the share sets of libBLS: a popped block with at least
  -- `client-count` votes of distinct signers gets a signature, the time of the commit, and no
  -- other change; it becomes the committed block of its id, is written to RocksDB, and goes to the
  -- end of the queue of every peer.
  pub commit_popped_commits :
      (s : Server Bytes Key) (p : Ptr) (b : Block) (k peer : ℕ)
      → deref s.heap p ≡ some b
      → Signed [] b.votes
      → conf.client_count ≤ length b.votes
      → let r = commit_popped conf codec bls now s p (some b) in
        (sig : Signature) × (deref r.0.heap p
          ≡ some (committed (record b { tss_sig = some sig }) (now b.header.id)))
        × (find r.0.committed_blks k
            ≡ (if b.header.id == k then some p else find s.committed_blks k))
        × (find r.0.bcast_commit_blocks peer
            ≡ Option.map (λ q. q ++ p ∷ []) (find s.bcast_commit_blocks peer))
        × (r.0.db
            ≡ s.db
              ++ (
                b.header.id,
                codec.block_to_bytes
                    (committed (record b { tss_sig = some sig }) (now b.header.id)),
              )
                ∷ [])
        × (r.1 ≡ returned)
  unfolding commit_popped commit_merged commit_block committed
  commit_popped_commits s p b k peer e signed enough =
      let (sig, m) = merge_votes_enough bls laws b conf.client_count signed enough in
      let b' = committed (record b { tss_sig = some sig }) (now b.header.id) in
      let w = deref-write s.heap p b' p (deref-lt-length s.heap p b e) in
      (
        sig,
        rw (m, commit_merged) (ground (arith, w)),
        rw (m, commit_merged) (find-assign s.committed_blks b.header.id p k),
        rw (m, commit_merged) (find-adjust_all s.bcast_commit_blocks (λ q. q ++ p ∷ []) peer),
        rw (m, commit_merged) refl,
        rw (m, commit_merged) refl,
      )
