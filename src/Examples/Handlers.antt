-- ===== src/Examples/Handlers.antt =====
-- The theorems on handlers and scheduled loops at the data of `Examples.Data`.
use dchain.Prelude.{
  ℕ, ◌⊎◌, sent_to, false, ◌==◌, if◌then◌else◌, true, All, arith, ◌≡◌, refl, none, some, [], ◌∷◌,
  returned, get_elem?,
}
use dchain.Container.Assoc
use dchain.Container.Assoc.{find}
use dchain.Container.OrdSet.{contains}
use dchain.Container.Heap.{Ptr, deref}
use dchain.Server.Init.{init}
use dchain.Server.State.{Conf}
use dchain.Server.Pull.{record_dist_ts, pull_item, pull_pending_blocks, get_blocks}
use dchain.Server.Offers.{pull_item_offers, pull_pending_blocks-pull_pending_blocks}
use dchain.Server.Consensus.{vote_blocks}
use dchain.Server.Peer.{relay_vote, relay_block, sp_bcast_commit}
use dchain.Server.Commit
use dchain.Server.Signals.{drain_sync_queue_signals, send_relay_blocks_alone}
use dchain.Server.Drained.{Signs, merge_votes_drains}
use dchain.Server.Send.{block_sync, send_relay_blocks, drain_sync_queue}
use dchain.Server.Invariant.{Safe}
use dchain.Server.Safety.Defs.{NoFault, Runs}
use dchain.Server.Safety.Consensus.{vote_blocks-Runs}
use dchain.Server.Safety.Pull.{pull_pending_blocks-Runs, get_blocks-Runs}
use dchain.Server.Safety.Votes.{relay_vote-Runs}
use dchain.Server.Safety.Peer.{relay_block-Runs, sp_bcast_commit-Runs}
use dchain.Examples.Data.{
  of_header, of_vote, of_block, garbage, codec, bls, bls_laws, conf, two-Servers, vote, proposed,
  voted, server, server-IsValid, server-Safe, server-Knows, merging,
}

pull_item_offers_example :
    let r = pull_item codec (λ id. 90) 1 (server, []) (1000000, 0) in
    (r.0.1 ≡ codec.header_to_bytes proposed.header ∷ [])
    × (deref r.0.0.heap 0 ≡ some (record_dist_ts proposed 90))
    × (r.1 ≡ returned)
unfolding find init get_elem? contains Assoc.insert
pull_item_offers_example =
    pull_item_offers codec (λ id. 90) 1 server [] 1000000 0 proposed
      (record { id = 1; ecc_pkey = none; tss_key = 1; seen_blocks = [] }) refl refl

pull_pending_blocks-pull_pending_blocks_example :
    let t = (pull_pending_blocks codec (λ id. 90) server 1).0.0 in
    pull_pending_blocks codec (λ id. 95) t 1 ≡ ((t, []), returned)
pull_pending_blocks-pull_pending_blocks_example =
    pull_pending_blocks-pull_pending_blocks codec conf server 1 (λ id. 90) (λ id. 95) server-IsValid
      server-Knows

vote_blocks-Runs_example :
    Runs conf server.heap (vote_blocks conf codec server 1 (of_block voted ∷ garbage ∷ []))
vote_blocks-Runs_example =
    vote_blocks-Runs conf server.heap codec two-Servers server 1 (of_block voted ∷ garbage ∷ [])
      ((λ e. cc), ((λ e. cc), tt)) server-Safe

pull_pending_blocks-Runs_example :
    Safe conf server.heap (pull_pending_blocks codec (λ id. 90) server 1).0.0
    × NoFault (pull_pending_blocks codec (λ id. 90) server 1).1
pull_pending_blocks-Runs_example =
    pull_pending_blocks-Runs conf codec server.heap (λ id. 90) server 1 server-Knows server-Safe

get_blocks-Runs_example :
    Safe conf server.heap (get_blocks codec server (of_header proposed.header ∷ [])).0.0
    × NoFault (get_blocks codec server (of_header proposed.header ∷ [])).1
get_blocks-Runs_example =
    get_blocks-Runs conf codec server.heap server (of_header proposed.header ∷ []) ((λ e. cc), tt)
      server-Safe

relay_vote-Runs_example : Runs conf server.heap (relay_vote conf codec server (of_vote vote ∷ []))
relay_vote-Runs_example =
    relay_vote-Runs conf server.heap codec server (of_vote vote ∷ []) ((λ e. cc), tt) server-Safe

relay_block-Runs_example :
    Runs conf server.heap (relay_block conf codec server (of_block voted ∷ []))
relay_block-Runs_example =
    relay_block-Runs conf codec server.heap server (of_block voted ∷ []) ((λ e. cc), tt) server-Safe

sp_bcast_commit-Runs_example :
    Runs conf server.heap (sp_bcast_commit conf codec (λ id. 90) server (of_block voted ∷ []))
sp_bcast_commit-Runs_example =
    sp_bcast_commit-Runs conf codec server.heap (λ id. 90) server (of_block voted ∷ [])
      ((λ e. cc), tt) server-Safe

merge_votes_drains_example :
    let r = Commit.merge_votes conf codec bls (λ id. 90) merging in
    All (Signs (λ id. 90) merging.heap r.0.heap) (0 ∷ [])
    × ((q : Ptr)
        → (deref r.0.heap q ≡ deref merging.heap q)
          ⊎ ((contains (0 ∷ []) q ≡ true) × Signs (λ id. 90) merging.heap r.0.heap q))
    × ((k : ℕ)
        → find r.0.committed_blks k
          ≡ (if 1000000 == k then some 0 else find merging.committed_blks k))
    × (r.0.pb_merge_queue ≡ [])
    × (r.1 ≡ returned)
unfolding get_elem? contains
merge_votes_drains_example =
    merge_votes_drains conf codec bls bls_laws (λ id. 90) merging
      (
        (
          voted,
          refl,
          (record { g1 = 7 ∷ []; hint = "0"; signer_index = 1; t = 1; n = 1 }, refl, refl, tt),
          omega arith,
        ),
        tt,
      )

-- Two servers, and two blocks to signal.
drain_sync_queue_signals_example :
    let r = drain_sync_queue conf (record server { pb_sync_queue = 5 ∷ 6 ∷ [] }, []) (5 ∷ 6 ∷ []) in
    (sent_to 2 r.0.1 ≡ block_sync 5 ∷ block_sync 6 ∷ [])
    × (contains r.0.0.pb_sync_labels 2 ≡ false)
    × (r.0.0.pb_sync_queue ≡ [])
    × (r.0.0.pending_blks ≡ server.pending_blks)
    × (r.1 ≡ returned)
unfolding contains init
drain_sync_queue_signals_example =
    drain_sync_queue_signals conf (record server { pb_sync_queue = 5 ∷ 6 ∷ [] }) [] (5 ∷ 6 ∷ []) 2
      refl

abbrev alone : Conf
alone = record conf { server_count = 1 }

send_relay_blocks_alone_example :
    send_relay_blocks alone codec (server, []) ≡ ((server, []), returned)
unfolding init
send_relay_blocks_alone_example = send_relay_blocks_alone alone codec server refl refl refl
