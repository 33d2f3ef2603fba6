-- ===== src/System/Step.antt =====
-- The turns of the handlers and of the scheduled loops. What clients send, and the votes and labels
-- that peers send, is arbitrary in a `Turn`; a `Step` adds the turns that make, take in, hand on or
-- reap blocks, there with whatever bytes a peer sends.
use dchain.Prelude.{ℕ, ◌≡◌, List, [], ◌∷◌}
use dchain.Container.Heap.{Ptr, deref}
use dchain.Entity.Bls.{ShareSets}
use dchain.Server.State.{Conf, Server}
use dchain.Server.Register.{register}
use dchain.Server.Pull.{pull_item, get_blocks}
use dchain.Server.Consensus.{vote_item}
use dchain.Server.Peer.{relay_vote_item, relay_block_item, bcast_item, relay_block_sync}
use dchain.Server.Send.{
  heartbeat_call, relay_vote_call, relay_block_call, bcast_commit_call, send_relay_block_sync,
}
use dchain.Server.Pack.{Draw, add_tx, pack_one}
use dchain.Server.Commit.{commit_popped}
use dchain.Server.Dead.{reap_item}
use dchain.Server.Invariant.{Live}
use dchain.Server.Safety.Pull.{Knows}
use dchain.Server.Safety.Send.{IsPeer}
use dchain.Wire.Codec.{Codec}
use mathlib.Core.Bool.{Bool}

module _ {Bytes Key ShareSet : Type 0} (conf : Conf) (codec : Codec Bytes)
    (bls : ShareSets ShareSet) where
  -- The turns that leave the shared blocks where they are, and make no new ones.
  pub data Turn : Server Bytes Key → Server Bytes Key → Type 0 where
    registers :
        (is_pkey : Bytes → Bool) (key_to_string : Key → Bytes) (s : Server Bytes Key)
        (client_id : ℕ) (pkey : Bytes)
        → Turn s (register is_pkey key_to_string s client_id pkey).0
    -- a pointer of the copy that `PullPendingBlocks` goes over, which may be an old one
    pulls :
        (now : ℕ → ℕ) (client_id : ℕ) (s : Server Bytes Key) (resp : List Bytes) (e : ℕ × Ptr)
        → Live s.heap e.1
        → Knows s client_id
        → Turn s (pull_item codec now client_id (s, resp) e).0.0
    gets : (s : Server Bytes Key) (hdrs : List Bytes) → Turn s (get_blocks codec s hdrs).0.0
    votes :
        (client_id : ℕ) (s : Server Bytes Key) (bytes : Bytes)
        → Turn s (vote_item conf codec client_id s bytes).0
    relays_vote :
        (s : Server Bytes Key) (bytes : Bytes) → Turn s (relay_vote_item conf codec s bytes).0
    syncs : (s : Server Bytes Key) (id : ℕ) → Turn s (relay_block_sync s id)
    sends_heartbeat :
        (up : ℕ → Bool) (s : Server Bytes Key) (k : ℕ)
        → IsPeer conf k
        → Turn s (heartbeat_call up (s, []) k).0.0
    sends_votes :
        (s : Server Bytes Key) (k : ℕ)
        → IsPeer conf k
        → Turn s (relay_vote_call codec (s, []) k).0.0
    sends_syncs :
        (s : Server Bytes Key) (id : ℕ) (queue : List ℕ)
        → s.pb_sync_queue ≡ id ∷ queue
        → Turn s (send_relay_block_sync conf (record s { pb_sync_queue = queue }, []) id).0.0
    generates : (s : Server Bytes Key) (d : Draw) → Turn s (add_tx s d)
    merges :
        (now : ℕ → ℕ) (s : Server Bytes Key) (p : Ptr) (queue : List Ptr)
        → s.pb_merge_queue ≡ p ∷ queue
        → Turn s
            (commit_popped conf codec bls now
              (record s { pb_merge_queue = queue })
              p
              (deref s.heap p)).0

  pub data Step : Server Bytes Key → Server Bytes Key → Type 0 where
    turns : {s t : Server Bytes Key} → Turn s t → Step s t
    relays_block :
        (s : Server Bytes Key) (bytes : Bytes) → Step s (relay_block_item conf codec s bytes).0
    bcasts :
        (now : ℕ → ℕ) (s : Server Bytes Key) (bytes : Bytes)
        → Step s (bcast_item conf codec now s bytes).0
    sends_blocks :
        (s : Server Bytes Key) (k : ℕ)
        → IsPeer conf k
        → Step s (relay_block_call codec (s, []) k).0.0
    sends_commits :
        (now : ℕ) (s : Server Bytes Key) (k : ℕ)
        → IsPeer conf k
        → Step s (bcast_commit_call codec now (s, []) k).0.0
    packs : (s : Server Bytes Key) (num_tx now : ℕ) → Step s (pack_one s num_tx now)
    reaps : (now : ℕ → ℕ) (s : Server Bytes Key) (id : ℕ) → Step s (reap_item conf now s id).0

  -- What a server may become by any number of steps.
  pub data Reach (s : Server Bytes Key) : Server Bytes Key → Type 0 where
    here : Reach s s
    next : {t u : Server Bytes Key} → Reach s t → Step t u → Reach s u
