-- ===== src/Examples/Quorum.antt =====
-- The votes for a block up to its commit, and the abstract count.
use dchain.Prelude.{
  ℕ, ◌≡◌, refl, none, some, ◌==◌, if◌then◌else◌, [], ◌∷◌, arith, returned, get_elem?,
}
use dchain.Container.Assoc.{find}
use dchain.Container.Heap.{deref}
use dchain.Entity.Bls.{Signature}
use dchain.Server.Init
use dchain.Server.Commit.{committed, merge_votes}
use mathlib.Core.List.{map}
use dchain.Server.Peer.{relay_vote}
use dchain.Server.Ballot.{tally_of, tally_votes}
use dchain.Server.Refine.{relay_vote-tally_votes}
use dchain.Server.Quorum.{count_votes, count_votes-committed}
use dchain.Examples.Data.{codec, bls, bls_laws, conf, server, server-Safe, proposed, vote}

count_votes-committed_example :
    let counted = count_votes conf 1000000 server ((1, vote) ∷ []) in
    let merged = merge_votes conf codec bls (λ id. 90) counted.0 in
    (counted.1 ≡ returned)
    × (find counted.0.pending_blks 1000000 ≡ none)
    × (merged.1 ≡ returned)
    × (merged.0.pb_merge_queue ≡ [])
    × ((sig : Signature) × (deref merged.0.heap 0
          ≡ some (committed (record proposed { votes = (1, vote) ∷ []; tss_sig = some sig }) 90)))
    × ((k : ℕ)
        → find merged.0.committed_blks k
          ≡ (if 1000000 == k then some 0 else find counted.0.committed_blks k))
unfolding find Init.init get_elem? dchain.Container.OrdMap.insert
count_votes-committed_example =
    count_votes-committed conf codec bls bls_laws (λ id. 90) server 1000000 0 proposed
      ((1, vote) ∷ []) refl refl refl tt tt ((_, refl, refl), tt) (refl, tt) (omega arith) refl

relay_vote-tally_votes_example :
    let r = relay_vote conf codec server (map codec.vote_to_bytes (vote ∷ [])) in
    (tally_of r.0 1000000
      ≡ tally_votes conf.client_count (tally_of server 1000000) (vote ∷ []) 1000000)
    × (r.1 ≡ returned)
relay_vote-tally_votes_example =
    relay_vote-tally_votes conf codec server.heap server (vote ∷ []) 1000000 server-Safe (refl, tt)
