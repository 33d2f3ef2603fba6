-- ===== src/Server/Safety/Send.antt =====
-- The calls to peers and the loops over them.
use dchain.Prelude.{
  ℕ, zero, suc, ◌+◌, ◌≤◌, ◌≡◌, ◌≢◌, refl, some, List, [], ◌∷◌, arith, All, All-map, Outcome,
  for_each_correct_all, and_then_correct, Bool-cases, inl, inr, ◌==◌,
}
use dchain.Container.Assoc.{All-find}
use dchain.Container.Heap.{Ptr}
use dchain.Entity.Block.{Block}
use dchain.Server.State.{Conf}
use dchain.Server.Invariant.{Safe, Live, relay_vote-Inv, relay_pop-Inv, cast_pop-Inv}
use dchain.Server.Send.{
  Message, Sent, ids_from, for_each_peer, block_sync_call, send_some, deref_all, relay_vote_call,
  relay_queue, relay_block_call, commit_queue, bcast_commit_call, send_relay_block_sync,
  drain_sync_queue, send_relay_votes, send_relay_blocks, bcast_commits,
}
use dchain.Server.Safety.Defs.{NoFault, returned-NoFault}
use dchain.Wire.Codec.{Codec}

-- Valid and grown, and not ended by a fault, with the requests sent.
abbrev pub Sends : {Bytes Key : Type 0} → Conf → List Block → Sent Bytes Key × Outcome → Type 0
Sends conf h₀ r = Safe conf h₀ r.0.0 × NoFault r.1

-- An id of another server.
abbrev pub IsPeer : Conf → ℕ → Type 0
IsPeer conf k = (1 ≤ k) × (k ≤ conf.server_count) × (k ≢ conf.server_id)

pub ids_from_range :
    (first n : ℕ) → 1 ≤ first → All (λ k. (1 ≤ k) × (k + 1 ≤ first + n)) (ids_from first n)
unfolding ids_from
ids_from_range first zero l = tt
ids_from_range first (suc n) l = (
  (l, omega arith),
  All-map _ _ (ids_from (first + 1) n) (λ k (a, b). (a, omega arith))
      (ids_from_range (first + 1) n (omega arith)),
)

pub deref_all-Live :
    (h : List Block) (q : List Ptr) → All (Live h) q → (bs : List Block) × (deref_all h q ≡ some bs)
unfolding deref_all
deref_all-Live h [] a = ([], refl)
deref_all-Live h (p ∷ q) ((b, e), a) =
    let (bs, f) = deref_all-Live h q a in (b ∷ bs, ground (arith, e, f))

pub send_some-state :
    {Bytes Key : Type 0} (req : List Bytes) (message : List Bytes → Message Bytes) (target : ℕ)
    (r : Sent Bytes Key)
    → (send_some req message target r).0 ≡ r.0
unfolding send_some
send_some-state [] message target r = refl
send_some-state (b ∷ bs) message target r = refl

module _ {Bytes Key : Type 0} (conf : Conf) (h₀ : List Block) where
  pub for_each_peer-Sends :
      (call : Sent Bytes Key → ℕ → Sent Bytes Key × Outcome)
      → ((r : Sent Bytes Key) (k : ℕ) → IsPeer conf k → Safe conf h₀ r.0 → Sends conf h₀ (call r k))
      → (r : Sent Bytes Key) → Safe conf h₀ r.0
      → Sends conf h₀ (for_each_peer call conf.server_count r)
  unfolding for_each_peer
  for_each_peer-Sends call keep r h =
      for_each_correct_all (λ r'. Safe conf h₀ r'.0) NoFault
        (λ k. (1 ≤ k) × (k + 1 ≤ 1 + conf.server_count)) _ returned-NoFault
        (λ r' k (a, b) h'. elim (Bool-cases (k == r'.0.server_id)) [
          | inl own ↦ rw own (h', returned-NoFault)
          | inr peer ↦ rw peer (keep r' k (a, omega arith, ground (arith, h'.2)) h')
        ])
        r (ids_from 1 conf.server_count) (ids_from_range 1 conf.server_count (omega arith)) h

  module _ (codec : Codec Bytes) where
    pub relay_vote_call-Sends :
        (r : Sent Bytes Key) (k : ℕ)
        → IsPeer conf k
        → Safe conf h₀ r.0
        → Sends conf h₀ (relay_vote_call codec r k)
    unfolding relay_vote_call
    relay_vote_call-Sends (s, sent) k (l, u, n) (x, v, i) =
        let (q, e) = v.peer_queues k l u n in
        rw (e, relay_vote_call, send_some-state)
          ((x, relay_vote-Inv v k (λ _. []), i), returned-NoFault)

    pub relay_block_call-Sends :
        (r : Sent Bytes Key) (k : ℕ)
        → IsPeer conf k
        → Safe conf h₀ r.0
        → Sends conf h₀ (relay_block_call codec r k)
    unfolding relay_block_call relay_queue
    relay_block_call-Sends (s, sent) k (l, u, n) (x, v, i) =
        let (q, e) = v.relay_queues k l u n in
        let (bs, f) = deref_all-Live s.heap q (All-find _ s.relay_blocks k q v.relay_live e) in
        rw (e, relay_block_call, f, send_some-state) ((x, relay_pop-Inv v k, i), returned-NoFault)

    pub bcast_commit_call-Sends :
        (now : ℕ) (r : Sent Bytes Key) (k : ℕ)
        → IsPeer conf k
        → Safe conf h₀ r.0
        → Sends conf h₀ (bcast_commit_call codec now r k)
    unfolding bcast_commit_call commit_queue
    bcast_commit_call-Sends now (s, sent) k (l, u, n) (x, v, i) =
        let (q, e) = v.cast_queues k l u n in
        let (bs, f) =
          deref_all-Live s.heap q (All-find _ s.bcast_commit_blocks k q v.cast_live e) in
        rw (e, bcast_commit_call, f, send_some-state) ((x, cast_pop-Inv v k, i), returned-NoFault)

  block_sync_call-Sends :
      (id : ℕ) (r : Sent Bytes Key) (k : ℕ)
      → IsPeer conf k
      → Safe conf h₀ r.0
      → Sends conf h₀ (block_sync_call id r k)
  unfolding block_sync_call
  block_sync_call-Sends id r k p h = (h, returned-NoFault)

  pub send_relay_block_sync-Sends :
      (r : Sent Bytes Key) (id : ℕ)
      → Safe conf h₀ r.0
      → Sends conf h₀ (send_relay_block_sync conf r id)
  unfolding send_relay_block_sync
  send_relay_block_sync-Sends r id h =
      let (p, q) = for_each_peer-Sends (block_sync_call id) (block_sync_call-Sends id) r h in
      and_then_correct (λ r'. Safe conf h₀ r'.0) NoFault _ _ p q (λ r' h'. (h', returned-NoFault))

  drain_sync_queue-Sends :
      (r : Sent Bytes Key) (queue : List ℕ)
      → Safe conf h₀ r.0
      → Sends conf h₀ (drain_sync_queue conf r queue)
  unfolding drain_sync_queue
  drain_sync_queue-Sends r [] h = (h, returned-NoFault)
  drain_sync_queue-Sends (s, sent) (id ∷ queue) h =
      let (p, q) = send_relay_block_sync-Sends (record s { pb_sync_queue = queue }, sent) id h in
      and_then_correct (λ r'. Safe conf h₀ r'.0) NoFault _ _ p q
        (λ r' h'. drain_sync_queue-Sends r' queue h')

  -- `TcServer::send_relay_votes` on a valid server keeps the server valid and its blocks grown, and
  -- ends without a fault: every peer has a queue.
  pub send_relay_votes-Sends :
      (codec : Codec Bytes) (r : Sent Bytes Key)
      → Safe conf h₀ r.0
      → Sends conf h₀ (send_relay_votes conf codec r)
  unfolding send_relay_votes
  send_relay_votes-Sends codec r h =
      for_each_peer-Sends (relay_vote_call codec) (relay_vote_call-Sends codec) r h

  -- `TcServer::send_relay_blocks` on a valid server, with the signals to the peers that follow,
  -- keeps the server valid and its blocks grown, and ends without a fault.
  pub send_relay_blocks-Sends :
      (codec : Codec Bytes) (r : Sent Bytes Key)
      → Safe conf h₀ r.0
      → Sends conf h₀ (send_relay_blocks conf codec r)
  unfolding send_relay_blocks
  send_relay_blocks-Sends codec r h =
      let (p, q) =
        for_each_peer-Sends (relay_block_call codec) (relay_block_call-Sends codec) r h in
      and_then_correct (λ r'. Safe conf h₀ r'.0) NoFault _ _ p q
        (λ r' h'. drain_sync_queue-Sends r' r'.0.pb_sync_queue h')

  -- `TcServer::bcast_commits` on a valid server keeps the server valid and its blocks grown, and
  -- ends without a fault.
  pub bcast_commits-Sends :
      (codec : Codec Bytes) (now : ℕ → ℕ) (r : Sent Bytes Key)
      → Safe conf h₀ r.0
      → Sends conf h₀ (bcast_commits conf codec now r)
  unfolding bcast_commits
  bcast_commits-Sends codec now r h =
      for_each_peer-Sends (λ r' target. bcast_commit_call codec (now target) r' target)
        (λ r' k. bcast_commit_call-Sends codec (now k) r' k) r h
