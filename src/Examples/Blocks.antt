-- ===== src/Examples/Blocks.antt =====
-- The theorems on blocks, votes and transactions at the data of `Examples.Data`.
use dchain.Prelude.{
  ℕ, ◌≤◌, ◌<◌, ◌≡◌, refl, returned, true, none, some, List, [], ◌∷◌, ◌⊎◌, arith, length, get_elem?,
  All,
}
use dchain.Container.Assoc.{find}
use dchain.Container.OrdMap
use dchain.Container.OrdSet.{contains}
use dchain.Container.Heap.{deref}
use dchain.Entity.Bls.{Signature}
use dchain.Entity.Block.{BlockVote, get_server_id}
use dchain.Entity.Transaction.{new_transaction}
use dchain.Entity.Placement.{
  get_server_id-serves, get_server_id_range, servers_of, get_server_id-eq,
}
use dchain.Server.Count.{add_vote, count_vote}
use dchain.Server.Tally.{count_vote_found}
use dchain.Server.Consensus.{vote_block}
use dchain.Server.Relay.{vote_block_relays}
use dchain.Server.Pack.{packed_block, pack_one, pack_block}
use dchain.Server.Commit.{committed, commit_popped}
use dchain.Server.Merging.{commit_popped_commits}
use dchain.Server.Packing.{pack_one-txs, pack_block_drains}
use dchain.Server.Peer.{bcast_block}
use dchain.Server.Handover.{bcast_block_commits}
use dchain.Server.Init.{init}
use dchain.Examples.Data.{
  codec, bls, bls_laws, conf, two-Servers, vote, proposed, voted, server, server-IsValid, merging,
}

-- Block 1000000 of two servers goes to servers 1 and 2.
get_server_id-serves_example :
    (s : List ℕ) × (get_server_id proposed 2 ≡ some s) × (contains s 2 ≡ true)
get_server_id-serves_example = get_server_id-serves proposed 2 2 two-Servers

get_server_id_range_example :
    All (λ k. (1 ≤ k) × (k ≤ 2)) (servers_of proposed 2) × (length (servers_of proposed 2) ≡ 2)
get_server_id_range_example =
    get_server_id_range proposed 2 (servers_of proposed 2) two-Servers
      (get_server_id-eq proposed 2 (omega arith))

-- A vote that says something else.
abbrev other_vote : BlockVote
other_vote = record vote { sig_share = none }

-- The only vote that is needed: the block leaves the pending ones for the merge queue.
count_vote_found_example :
    let t = (count_vote conf server 1000000 1 vote).0 in
    (deref t.heap 0 ≡ some (add_vote proposed 1 vote))
    × (find (add_vote proposed 1 vote).votes 1 ≡ some vote)
    × (find t.pending_blks 1000000 ≡ none)
    × (t.pb_merge_queue ≡ 0 ∷ [])
unfolding find get_elem? init add_vote OrdMap.insert
count_vote_found_example = count_vote_found conf server 1000000 1 vote 0 proposed 1000000 refl refl

vote_block_relays_example :
    find (vote_block conf codec 1 server voted).0.relay_votes 2 ≡ some (vote ∷ [])
unfolding init find OrdMap.insert contains
vote_block_relays_example =
    vote_block_relays conf codec server 1 voted vote 2 server-IsValid two-Servers refl refl
      (λ e. omega (arith, e))

pack_one-txs_example :
    let b = packed_block server 2 60 in
    let t = pack_one server 2 60 in
    (deref t.heap 1 ≡ some b)
    × (length b.tx_vec ≡ 2)
    × ((find t.pending_txs 6 ≡ some (new_transaction 6 2 3 0 4))
        ⊎ ((i : ℕ) × (get_elem? b.tx_vec i ≡ some (new_transaction 6 2 3 0 4))))
unfolding find
pack_one-txs_example =
    pack_one-txs server 2 60 6 (new_transaction 6 2 3 0 4) (omega arith) (omega arith) refl

pack_block_drains_example : length (pack_block (λ id. 60) server 2 5).pending_txs < 2
pack_block_drains_example = pack_block_drains (λ id. 60) server 2 5 (omega arith) (omega arith)

bcast_block_commits_example :
    let t = bcast_block conf codec server voted in
    (find t.pending_blks 1000000 ≡ none)
    × (find t.committed_blks 1000000 ≡ some 1)
    × (deref t.heap 1 ≡ some voted)
    × (t.db ≡ (1000000, codec.block_to_bytes voted) ∷ [])
unfolding find init
bcast_block_commits_example = bcast_block_commits conf codec server voted 1000000

commit_popped_commits_example :
    let r = commit_popped conf codec bls (λ id. 90) merging 0 (some voted) in
    (sig : Signature) × (deref r.0.heap 0
      ≡ some (committed (record voted { tss_sig = some sig }) 90))
    × (find r.0.committed_blks 1000000 ≡ some 0)
    × (find r.0.bcast_commit_blocks 2 ≡ some (0 ∷ []))
    × (r.0.db
        ≡ (1000000, codec.block_to_bytes (committed (record voted { tss_sig = some sig }) 90)) ∷ [])
    × (r.1 ≡ returned)
unfolding find init get_elem? contains OrdMap.insert
commit_popped_commits_example =
    commit_popped_commits conf codec bls bls_laws (λ id. 90) merging 0 voted 1000000 2 refl
      (record { g1 = 7 ∷ []; hint = "0"; signer_index = 1; t = 1; n = 1 }, refl, refl, tt)
      (omega arith)
