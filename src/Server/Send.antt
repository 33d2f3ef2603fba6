-- ===== src/Server/Send.antt =====
-- The calls to peers in include/server/tc-server-peer-grpc.hpp, and the loops over the peers in
-- src/server/tc-server.cpp. A call's request is put on record; what the peer answers is only
-- logged, but for a heartbeat. A queue is emptied before the call, whether or not that succeeds.
use mathlib.Core.List.{map}
use dchain.Prelude.{
  ℕ, zero, suc, ◌+◌, ◌-◌, Bool, Option, none, some, List, [], ◌∷◌, ◌++◌, ◌==◌, ltb, if◌then◌else◌,
  Outcome, returned, thrown, faulted, for_each, and_then, set, length,
}
use dchain.Container.Assoc.{find, adjust}
use dchain.Container.Heap.{Ptr, deref}
use dchain.Container.OrdSet
use dchain.Entity.Block.{Block}
use dchain.Server.State.{Conf, Server}
use dchain.Wire.Codec.{Codec}

-- The requests of the peer service; a commit carries the time of its call.
pub data Message (Bytes : Type 0) : Type 0 where
  heartbeat : Message Bytes
  votes blocks : List Bytes → Message Bytes
  commits : List Bytes → ℕ → Message Bytes
  block_sync : ℕ → Message Bytes

-- The state, and the requests that were sent with their targets, oldest first.
abbrev pub Sent : Type 0 → Type 0 → Type 0
Sent Bytes Key = Server Bytes Key × List (ℕ × Message Bytes)

-- The ids from `first` on; server ids start from one.
unfoldable pub ids_from : ℕ → ℕ → List ℕ
ids_from first zero = []
ids_from first (suc n) = first ∷ ids_from (first + 1) n

-- the blocks that a queue points to
unfoldable pub deref_all : List Block → List Ptr → Option (List Block)
deref_all h [] = some []
deref_all h (p ∷ ps) = elim (deref h p) [
  | none ↦ none
  | some b ↦ elim (deref_all h ps) [ none ↦ none | some bs ↦ some (b ∷ bs) ]
]

module _ {Bytes Key : Type 0} where
  -- `for (i = 0; i < server_count; i++)` over `i + 1`, with the `continue` at the own id
  unfoldable pub for_each_peer :
      (Sent Bytes Key → ℕ → Sent Bytes Key × Outcome)
      → ℕ
      → Sent Bytes Key
      → Sent Bytes Key × Outcome
  unfolding ids_from
  for_each_peer call server_count r =
      for_each
        (λ (r' : Sent Bytes Key) (target : ℕ).
          if target == r'.0.server_id then (r', returned) else call r' target)
        r (ids_from 1 server_count)

  -- `TcServer::SPHeartbeat`: `up` is whether the call to a target succeeds.
  unfoldable pub heartbeat_call : (ℕ → Bool) → Sent Bytes Key → ℕ → Sent Bytes Key × Outcome
  heartbeat_call up (s, sent) target =
      if ltb (target - 1) (length s.peer_status)
      then (
        (
          record s { peer_status = set s.peer_status (target - 1) (up target) },
          sent ++ (target, heartbeat) ∷ [],
        ),
        returned,
      )
      else ((s, sent ++ (target, heartbeat) ∷ []), thrown)

  -- `TcServer::RelayBlockSync`
  unfoldable pub block_sync_call : ℕ → Sent Bytes Key → ℕ → Sent Bytes Key × Outcome
  block_sync_call block_id (s, sent) target =
      ((s, sent ++ (target, block_sync block_id) ∷ []), returned)

  -- An empty request is not sent.
  unfoldable pub send_some :
      List Bytes → (List Bytes → Message Bytes) → ℕ → Sent Bytes Key → Sent Bytes Key
  send_some [] message target r = r
  send_some (b ∷ bs) message target (s, sent) = (s, sent ++ (target, message (b ∷ bs)) ∷ [])

module _ {Bytes Key : Type 0} (codec : Codec Bytes) where
  open codec use {vote_to_bytes, block_to_bytes}

  -- `TcServer::RelayVote`
  unfoldable pub relay_vote_call : Sent Bytes Key → ℕ → Sent Bytes Key × Outcome
  unfolding send_some
  relay_vote_call (s, sent) target = elim (find s.relay_votes target) [
    | none ↦ ((s, sent), faulted)
    | some q ↦ (
      send_some (map vote_to_bytes q) votes target
          (record s { relay_votes = adjust s.relay_votes target (λ _. []) }, sent),
      returned,
    )
  ]

  unfoldable pub relay_queue : Sent Bytes Key → ℕ → Option (List Block) → Sent Bytes Key × Outcome
  unfolding send_some
  relay_queue r target none = (r, faulted)
  relay_queue (s, sent) target (some bs) = (
    send_some (map block_to_bytes bs) blocks target (
      record s {
        relay_blocks = adjust s.relay_blocks target (λ _. []);
        pb_sync_queue = s.pb_sync_queue ++ map (λ b. b.header.id) bs;
      },
      sent,
    ),
    returned,
  )

  -- `TcServer::RelayBlock`: the ids go to the sync queue after the call, also of a failed one.
  unfoldable pub relay_block_call : Sent Bytes Key → ℕ → Sent Bytes Key × Outcome
  unfolding deref_all relay_queue
  relay_block_call (s, sent) target = elim (find s.relay_blocks target) [
    | none ↦ ((s, sent), faulted)
    | some q ↦ relay_queue (s, sent) target (deref_all s.heap q)
  ]

  unfoldable pub commit_queue :
      ℕ → Sent Bytes Key → ℕ → Option (List Block) → Sent Bytes Key × Outcome
  unfolding send_some
  commit_queue now r target none = (r, faulted)
  commit_queue now (s, sent) target (some bs) = (
    send_some (map block_to_bytes bs) (λ req. commits req now) target
        (record s { bcast_commit_blocks = adjust s.bcast_commit_blocks target (λ _. []) }, sent),
    returned,
  )

  -- `TcServer::SPBcastCommit`
  unfoldable pub bcast_commit_call : ℕ → Sent Bytes Key → ℕ → Sent Bytes Key × Outcome
  unfolding deref_all commit_queue
  bcast_commit_call now (s, sent) target = elim (find s.bcast_commit_blocks target) [
    | none ↦ ((s, sent), faulted)
    | some q ↦ commit_queue now (s, sent) target (deref_all s.heap q)
  ]

module _ {Bytes Key : Type 0} (conf : Conf) where
  -- `TcServer::send_heartbeats`
  unfoldable pub send_heartbeats : (ℕ → Bool) → Sent Bytes Key → Sent Bytes Key × Outcome
  unfolding for_each_peer heartbeat_call
  send_heartbeats up r = for_each_peer (heartbeat_call up) conf.server_count r

  -- `TcServer::send_relay_block_sync`: the peers are told, and then the own label is set.
  unfoldable pub send_relay_block_sync : Sent Bytes Key → ℕ → Sent Bytes Key × Outcome
  unfolding for_each_peer block_sync_call
  send_relay_block_sync r block_id =
      and_then (for_each_peer (block_sync_call block_id) conf.server_count r) (λ r'. (
        (record r'.0 { pb_sync_labels = OrdSet.insert r'.0.pb_sync_labels block_id }, r'.1),
        returned,
      ))

  -- the second loop of `TcServer::send_relay_blocks`
  unfoldable pub drain_sync_queue : Sent Bytes Key → List ℕ → Sent Bytes Key × Outcome
  unfolding send_relay_block_sync
  drain_sync_queue r [] = (r, returned)
  drain_sync_queue (s, sent) (id ∷ queue) =
      and_then (send_relay_block_sync (record s { pb_sync_queue = queue }, sent) id)
        (λ r. drain_sync_queue r queue)

module _ {Bytes Key : Type 0} (conf : Conf) (codec : Codec Bytes) where
  -- `TcServer::send_relay_votes`
  unfoldable pub send_relay_votes : Sent Bytes Key → Sent Bytes Key × Outcome
  unfolding for_each_peer relay_vote_call
  send_relay_votes r = for_each_peer (relay_vote_call codec) conf.server_count r

  -- `TcServer::send_relay_blocks`
  unfoldable pub send_relay_blocks : Sent Bytes Key → Sent Bytes Key × Outcome
  unfolding for_each_peer relay_block_call drain_sync_queue
  send_relay_blocks r =
      and_then (for_each_peer (relay_block_call codec) conf.server_count r)
        (λ r'. drain_sync_queue conf r' r'.0.pb_sync_queue)

  -- `TcServer::bcast_commits`; `now` gives the clock's reading at the call of each target.
  unfoldable pub bcast_commits : (ℕ → ℕ) → Sent Bytes Key → Sent Bytes Key × Outcome
  unfolding for_each_peer bcast_commit_call
  bcast_commits now r =
      for_each_peer (λ r' target. bcast_commit_call codec (now target) r' target) conf.server_count
        r
