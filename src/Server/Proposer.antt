-- ===== src/Server/Proposer.antt =====
-- Which server makes blocks: `TcServer::schedule` starts the pack thread on one server only.
use dchain.Prelude.{
  ℕ, ◌-◌, ◌≡◌, ◌≢◌, refl, ◌∙◌, Bool, true, false, List, [], ◌∷◌, ◌⊎◌, ◌==◌, ltb, length, length-set,
  Outcome, returned, and_then_correct, for_each_correct, Bool-cases, ==→eq, Option-cases, inl, inr,
}
use dchain.Container.Assoc.{Assoc, find}
use dchain.Container.Heap.{Ptr, deref}
use dchain.Entity.Bls.{ShareSets}
use dchain.Entity.Block
use dchain.Entity.Transaction.{Transaction}
use dchain.Server.State.{Conf, Server}
use dchain.Server.Commit.{
  committed, commit_block, commit_merged, commit_popped, merge_queue, merge_votes,
}
use dchain.Server.Send.{
  Sent, ids_from, for_each_peer, heartbeat_call, block_sync_call, relay_vote_call, relay_queue,
  relay_block_call, commit_queue, bcast_commit_call, deref_all, send_heartbeats, send_relay_votes,
  send_relay_blocks, send_relay_block_sync, drain_sync_queue, bcast_commits,
}
use dchain.Server.Schedule.{
  Job, pack, count_blocks, relay_votes, relay_blocks, commits_bcast, votes_merge, run_job, guarded,
}
use dchain.Server.Safety.Send.{send_some-state}
use dchain.Wire.Codec.{Codec}

-- The outcome is left open.
abbrev Any : Outcome → Type 0
Any o = Unit

module _ {Bytes Key : Type 0} (n g : ℕ) (txs : Assoc Transaction) where
  -- How many blocks the store holds, the next id, and the pending transactions.
  abbrev Holds : Server Bytes Key → Type 0
  Holds s = (length s.heap ≡ n) × (s.blk_seq_generator ≡ g) × (s.pending_txs ≡ txs)

  abbrev Sends : Sent Bytes Key × Outcome → Type 0
  Sends r = Holds r.0.0 × Any r.1

  for_each_peer-Holds :
      (call : Sent Bytes Key → ℕ → Sent Bytes Key × Outcome) (count : ℕ)
      → ((r : Sent Bytes Key) (k : ℕ) → Holds r.0 → Holds (call r k).0.0)
      → (r : Sent Bytes Key) → Holds r.0
      → Sends (for_each_peer call count r)
  unfolding for_each_peer
  for_each_peer-Holds call count keep r h =
      for_each_correct (λ r'. Holds r'.0) Any _ tt
        (λ r' k h'. elim (Bool-cases (k == r'.0.server_id)) [
          | inl own ↦ rw own (h', tt)
          | inr peer ↦ rw peer (keep r' k h', tt)
        ])
        r (ids_from 1 count) h

  heartbeat_call-Holds :
      (up : ℕ → Bool) (r : Sent Bytes Key) (k : ℕ) → Holds r.0 → Holds (heartbeat_call up r k).0.0
  unfolding heartbeat_call
  heartbeat_call-Holds up (s, sent) k h = elim (Bool-cases (ltb (k - 1) (length s.peer_status))) [
    | inl known ↦ rw known h
    | inr unknown ↦ rw unknown h
  ]

  block_sync_call-Holds :
      (id : ℕ) (r : Sent Bytes Key) (k : ℕ) → Holds r.0 → Holds (block_sync_call id r k).0.0
  unfolding block_sync_call
  block_sync_call-Holds id (s, sent) k h = h

  module _ (codec : Codec Bytes) where
    relay_vote_call-Holds :
        (r : Sent Bytes Key) (k : ℕ) → Holds r.0 → Holds (relay_vote_call codec r k).0.0
    unfolding relay_vote_call
    relay_vote_call-Holds (s, sent) k h = elim (Option-cases (find s.relay_votes k)) [
      | inl e ↦ rw (e, relay_vote_call) h
      | inr (q, e) ↦ rw (e, relay_vote_call, send_some-state) h
    ]

    relay_block_call-Holds :
        (r : Sent Bytes Key) (k : ℕ) → Holds r.0 → Holds (relay_block_call codec r k).0.0
    unfolding relay_block_call relay_queue
    relay_block_call-Holds (s, sent) k h = elim (Option-cases (find s.relay_blocks k)) [
      | inl e ↦ rw (e, relay_block_call) h
      | inr (q, e) ↦ elim (Option-cases (deref_all s.heap q)) [
        | inl d ↦ rw (e, relay_block_call, d) h
        | inr (bs, d) ↦ rw (e, relay_block_call, d, send_some-state) h
      ]
    ]

    bcast_commit_call-Holds :
        (now : ℕ) (r : Sent Bytes Key) (k : ℕ)
        → Holds r.0
        → Holds (bcast_commit_call codec now r k).0.0
    unfolding bcast_commit_call commit_queue
    bcast_commit_call-Holds now (s, sent) k h = elim (Option-cases (find s.bcast_commit_blocks k)) [
      | inl e ↦ rw (e, bcast_commit_call) h
      | inr (q, e) ↦ elim (Option-cases (deref_all s.heap q)) [
        | inl d ↦ rw (e, bcast_commit_call, d) h
        | inr (bs, d) ↦ rw (e, bcast_commit_call, d, send_some-state) h
      ]
    ]

  module _ {ShareSet : Type 0} (conf : Conf) (codec : Codec Bytes) (bls : ShareSets ShareSet) where
    commit_popped-Holds :
        (now : ℕ → ℕ) (s : Server Bytes Key) (p : Ptr)
        → Holds s
        → Holds (commit_popped conf codec bls now s p (deref s.heap p)).0
    unfolding commit_popped commit_merged commit_block
    commit_popped-Holds now s p (l, g', x) = elim (Option-cases (deref s.heap p)) [
      | inl d ↦ rw (d, commit_popped) (l, g', x)
      | inr (b, d) ↦ elim (Option-cases (Block.merge_votes bls b conf.client_count)) [
        | inl m ↦ rw (d, commit_popped, m, commit_merged) (l, g', x)
        | inr (b', m) ↦
            rw (d, commit_popped, m, commit_merged)
              (length-set s.heap p (committed b' (now b'.header.id)) ∙ l, g', x)
      ]
    ]

    merge_queue-Holds :
        (now : ℕ → ℕ) (s : Server Bytes Key) (queue : List Ptr)
        → Holds s
        → Holds (merge_queue conf codec bls now s queue).0
          × Any (merge_queue conf codec bls now s queue).1
    unfolding merge_queue
    merge_queue-Holds now s [] h = (h, tt)
    merge_queue-Holds now s (p ∷ queue) h =
        and_then_correct Holds Any
          (commit_popped conf codec bls now (record s { pb_merge_queue = queue }) p
            (deref s.heap p))
          _ (commit_popped-Holds now (record s { pb_merge_queue = queue }) p h) tt
          (λ s' h'. merge_queue-Holds now s' queue h')

    drain_sync_queue-Holds :
        (r : Sent Bytes Key) (queue : List ℕ) → Holds r.0 → Sends (drain_sync_queue conf r queue)
    unfolding drain_sync_queue send_relay_block_sync
    drain_sync_queue-Holds r [] h = (h, tt)
    drain_sync_queue-Holds (s, sent) (id ∷ queue) h =
        let (p, q) =
          for_each_peer-Holds (block_sync_call id) conf.server_count (block_sync_call-Holds id)
            (record s { pb_sync_queue = queue }, sent) h in
        let (p', q') =
          and_then_correct (λ (r : Sent Bytes Key). Holds r.0) Any
            (for_each_peer (block_sync_call id) conf.server_count
              (record s { pb_sync_queue = queue }, sent))
            _ p q (λ r h'. (h', tt)) in
        and_then_correct (λ (r : Sent Bytes Key). Holds r.0) Any
          (send_relay_block_sync conf (record s { pb_sync_queue = queue }, sent) id) _ p' q'
          (λ r h'. drain_sync_queue-Holds r queue h')

    run_job-Holds :
        (job : Job) (r : Sent Bytes Key)
        → conf.server_id ≢ conf.server_count
        → Holds r.0
        → Holds (run_job conf codec bls job r).0.0
    unfolding run_job send_heartbeats send_relay_votes send_relay_blocks bcast_commits merge_votes
    run_job-Holds (pack now draws rounds) (s, sent) other h =
        elim (Bool-cases (conf.server_id == conf.server_count)) [
          | inl own ↦ absurd (other (==→eq conf.server_id conf.server_count own))
          | inr miss ↦ rw miss h
        ]
    run_job-Holds count_blocks r other h = h
    run_job-Holds (relay_votes up) r other h =
        let (p, q) =
          for_each_peer-Holds (heartbeat_call up) conf.server_count (heartbeat_call-Holds up) r h in
        (and_then_correct (λ (r : Sent Bytes Key). Holds r.0) Any (send_heartbeats conf up r) _ p q
          (λ r' h'.
            for_each_peer-Holds (relay_vote_call codec) conf.server_count
              (relay_vote_call-Holds codec) r' h')).0
    run_job-Holds relay_blocks r other h =
        let (p, q) =
          for_each_peer-Holds (relay_block_call codec) conf.server_count
            (relay_block_call-Holds codec) r h in
        (and_then_correct (λ (r : Sent Bytes Key). Holds r.0) Any
          (for_each_peer (relay_block_call codec) conf.server_count r) _ p q
          (λ r' h'. drain_sync_queue-Holds r' r'.0.pb_sync_queue h')).0
    run_job-Holds (commits_bcast now) r other h =
        (for_each_peer-Holds (λ r' target. bcast_commit_call codec (now target) r' target)
          conf.server_count (λ r' k. bcast_commit_call-Holds codec (now k) r' k) r h).0
    run_job-Holds (votes_merge now) (s, sent) other h =
        (merge_queue-Holds now s s.pb_merge_queue h).0

module _ {Bytes Key ShareSet : Type 0} (conf : Conf) (codec : Codec Bytes)
    (bls : ShareSets ShareSet) where
  -- On a server other than server `server-count`, no call that `TcServer::schedule` makes brings a
  -- new block into the store, takes an id for one, or touches the pending transactions; and the
  -- function of a timer whose flag is set does nothing at all, on any such server.
  pub schedule_other :
      (job : Job) (busy : Bool) (r : Sent Bytes Key)
      → conf.server_id ≢ conf.server_count
      → let t = guarded (run_job conf codec bls job) (busy, r) in
        (length t.0.1.0.heap ≡ length r.0.heap)
        × (t.0.1.0.blk_seq_generator ≡ r.0.blk_seq_generator)
        × (t.0.1.0.pending_txs ≡ r.0.pending_txs)
        × ((busy ≡ false) ⊎ (t ≡ ((true, r), returned)))
  unfolding guarded
  schedule_other job true r other = (refl, refl, refl, inr refl)
  schedule_other job false r other =
      let (l, g, txs) =
        run_job-Holds (length r.0.heap) r.0.blk_seq_generator r.0.pending_txs conf codec bls job r
          other (refl, refl, refl) in
      (l, g, txs, inl refl)
