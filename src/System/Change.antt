-- ===== src/System/Change.antt =====
-- A turn commits one block that has its votes, or leaves the committed blocks alone.
use dchain.Prelude.{
  ℕ, ◌≡◌, refl, ◌++◌, List, [], ◌∷◌, All, arith, length, length-set, subst, Option-cases, inl, inr,
}
use dchain.Container.Assoc.{assign, adjust_all}
use dchain.Container.Heap.{Ptr, deref, deref-write, deref-lt-length}
use dchain.Entity.Bls.{ShareSets}
use dchain.Entity.Block
use dchain.Entity.Block.{Block}
use dchain.Server.State.{Conf, Server}
use dchain.Server.Growth.{committed-Grows}
use dchain.Server.Invariant.{State, Quorate}
use dchain.Server.Safety.Commit.{merge_votes-Grows}
use dchain.Server.Safety.Pull.{get_blocks-state}
use dchain.Server.Peer.{relay_block_sync}
use dchain.Server.Pack.{add_tx}
use dchain.Server.Commit.{committed, commit_popped, commit_merged, commit_block}
use dchain.Wire.Codec.{Codec}
use dchain.System.Step.{
  Turn, registers, pulls, gets, votes, relays_vote, syncs, sends_votes, sends_heartbeat,
  sends_syncs, generates, merges,
}
use dchain.System.Frame.{
  Frame, Frame-refl, Frame-trans, register-Frame, pull_item-Frame, vote_item-Frame,
  relay_vote_item-Frame, heartbeat_call-Frame, relay_vote_call-Frame, send_relay_block_sync-Frame,
}

-- The block at `p` is committed under `id`, and every peer is to be told.
pub record Commits {Bytes Key : Type 0} (s t : Server Bytes Key) (id : ℕ) (p : Ptr) : Type 0 where
  pub same_count : length t.heap ≡ length s.heap
  pub same_generator : t.blk_seq_generator ≡ s.blk_seq_generator
  pub committed : t.committed_blks ≡ assign s.committed_blks id p
  pub cast : t.bcast_commit_blocks ≡ adjust_all s.bcast_commit_blocks (λ q. q ++ p ∷ [])

pub data Change {Bytes Key : Type 0} (conf : Conf) (s t : Server Bytes Key) : Type 0 where
  still : Frame s t → Change conf s t
  commits :
      (id : ℕ) (p : Ptr) → Quorate conf.client_count t.heap p → Commits s t id p → Change conf s t

module _ {Bytes Key ShareSet : Type 0} (conf : Conf) (codec : Codec Bytes)
    (bls : ShareSets ShareSet) where
  commit_popped-Change :
      (now : ℕ → ℕ) (s : Server Bytes Key) (p : Ptr) (queue : List Ptr)
      → Quorate conf.client_count s.heap p
      → let s' = record s { pb_merge_queue = queue } in
        Change conf s (commit_popped conf codec bls now s' p (deref s'.heap p)).0
  unfolding commit_popped commit_merged commit_block
  commit_popped-Change now s p queue (b, e, l) =
      rw (e, commit_popped)
        (elim (Option-cases (Block.merge_votes bls b conf.client_count)) [
          | inl f ↦ rw (f, commit_merged) (still (ground arith))
          | inr (b', f) ↦
              let c = committed b' (now b'.header.id) in
              let g = committed-Grows b b' (now b'.header.id) (merge_votes-Grows bls b b' _ f) in
              let d = deref-write s.heap p c p (deref-lt-length s.heap p b e) in
              rw (f, commit_merged)
                (commits b'.header.id p (c, ground (arith, d), ground (arith, g.more_votes))
                  (record {
                    same_count = length-set s.heap p c;
                    same_generator = refl;
                    committed = refl;
                    cast = refl;
                  }))
        ])

  pub Turn-Change :
      {s t : Server Bytes Key} → Turn conf codec bls s t → State conf s → Change conf s t
  unfolding relay_block_sync add_tx
  Turn-Change (registers is_pkey key_to_string s client_id pkey) v =
      still (register-Frame is_pkey key_to_string s client_id pkey)
  Turn-Change (pulls now client_id s resp e l k) v =
      still (pull_item-Frame conf codec now client_id s resp e)
  Turn-Change (gets s hdrs) v = rw (get_blocks-state conf codec [] s hdrs) (still (Frame-refl s))
  Turn-Change (votes client_id s bytes) v = still (vote_item-Frame conf codec client_id s bytes)
  Turn-Change (relays_vote s bytes) v = still (relay_vote_item-Frame conf codec s bytes)
  Turn-Change (syncs s id) v = still (ground arith)
  Turn-Change (sends_heartbeat up s k p) v = still (heartbeat_call-Frame up s k)
  Turn-Change (sends_votes s k p) v = still (relay_vote_call-Frame conf codec s k)
  Turn-Change (sends_syncs s id queue e) v = still (
      Frame-trans s (record s { pb_sync_queue = queue }) _ (ground arith)
        (send_relay_block_sync-Frame conf (record s { pb_sync_queue = queue }, []) id))
  Turn-Change (generates s d) v = still (ground arith)
  Turn-Change (merges now s p queue e) v =
      commit_popped-Change now s p queue
        (subst (All (Quorate conf.client_count s.heap)) e v.merging_quorate).0
