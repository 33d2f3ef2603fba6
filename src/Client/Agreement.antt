-- ===== src/Client/Agreement.antt =====
-- The two servers of a block count a client's vote alike: the one that it is sent to, and the one
-- that it is relayed to.
use dchain.Prelude.{ℕ, ◌≡◌, refl, sym, ◌∙◌, ap, true, false, none, arith, ◌==◌, if◌then◌else◌}
use dchain.Container.Assoc.{find}
use dchain.Container.OrdMap
use dchain.Container.OrdSet.{contains}
use dchain.Entity.Block.{Block}
use dchain.Entity.Placement.{Servers, serves}
use dchain.Server.State.{Conf, Server}
use dchain.Server.Invariant.{IsValid, PointsAll}
use dchain.Server.Growth.{Extends-refl}
use dchain.Server.Ballot.{tally_in, tally_of, tally_vote}
use dchain.Server.Consensus.{vote_block, vote_item}
use dchain.Server.Peer.{relay_vote_item}
use dchain.Server.Refine.{counted, item_counts}
use dchain.Client.Vote.{Calls, signed_vote, signed_block}
use dchain.Client.Fetching.{RoundTrips}
use dchain.Client.Counted.{Same, vote_block-count_vote}
use dchain.Wire.Codec.{Codec, decoded}

module _ {Bytes Key Pair Db Hash : Type 0} (calls : Calls Pair Db Hash) (codec : Codec Bytes)
    (conf : Conf) (s : Server Bytes Key) where
  tally_of-Same : (u : Server Bytes Key) (j : ℕ) → Same conf s u → tally_of u j ≡ tally_of s j
  tally_of-Same u j (h, q, dead, _, _) =
      ap (λ x. tally_in x u.pending_blks u.dead_block j) h
      ∙ ap (λ x. tally_in s.heap x u.dead_block j) q
      ∙ ap (λ x. tally_in s.heap s.pending_blks x j) dead

  points_of-Same :
      (u : Server Bytes Key) → Same conf s u → IsValid conf s → PointsAll u.heap u.pending_blks
  points_of-Same u (h, q, _, _, _) valid = rw (h, q) valid.0.pending_points

  -- The client's request adds its vote to the count of the block.
  request_counts :
      (key : Pair) (client_id : ℕ) (b : Block) (j : ℕ)
      → IsValid conf s
      → Servers conf.server_count
      → RoundTrips codec (signed_block calls key client_id b)
      → find b.votes client_id ≡ none
      → contains s.dead_block b.header.id ≡ false
      → serves b.header.id conf.server_count s.server_id ≡ true
      → let request = codec.block_to_bytes (signed_block calls key client_id b) in
        let vote = signed_vote calls key client_id b in
        tally_of (vote_item conf codec client_id s request).0 j ≡ (
          if b.header.id == j
          then tally_vote conf.client_count (tally_of s j) vote
          else tally_of s j)
  unfolding vote_item signed_block signed_vote
  request_counts key client_id b j valid n trip fresh alive own =
      let vote = signed_vote calls key client_id b in
      let b' = signed_block calls key client_id b in
      let (u, same, run) =
        vote_block-count_vote conf s codec client_id b' vote valid n
          (ground (arith, fresh, OrdMap.find-insert b.votes client_id vote client_id)) alive own in
      let dead : contains u.dead_block b.header.id ≡ false =
        ap (λ l. contains l b.header.id) same.2 ∙ alive in
      let one = (counted conf codec u.heap u vote j (points_of-Same u same valid) dead).0 in
      let item : vote_item conf codec client_id s (codec.block_to_bytes b')
          ≡ vote_block conf codec client_id s b' =
        rw (trip, vote_item) refl in
      ap (λ r. tally_of r.0 j) (item ∙ run)
      ∙ one
      ∙ ap (λ t. if b.header.id == j then tally_vote conf.client_count t vote else t)
          (tally_of-Same u j same)

  -- With `server-count` from 1 to 2 ^ 64 - 2: let two valid servers with one `client-count` have the
  -- same count for a block. The first collects the votes for a live block, gets a client's request
  -- for its copy of it, which has no vote of the client yet, and relays the vote; the second gets
  -- the vote; and the codec reads back what was sent. Then the two have the same count again.
  pub vote_item-relay_vote_item :
      (conf' : Conf) (s' : Server Bytes Key) (key : Pair) (client_id : ℕ) (b : Block) (j : ℕ)
      → IsValid conf s
      → IsValid conf' s'
      → Servers conf.server_count
      → conf.client_count ≡ conf'.client_count
      → RoundTrips codec (signed_block calls key client_id b)
      → codec.vote_from_bytes (codec.vote_to_bytes (signed_vote calls key client_id b))
        ≡ decoded (signed_vote calls key client_id b)
      → find b.votes client_id ≡ none
      → contains s.dead_block b.header.id ≡ false
      → serves b.header.id conf.server_count s.server_id ≡ true
      → tally_of s j ≡ tally_of s' j
      → let request = codec.block_to_bytes (signed_block calls key client_id b) in
        tally_of (vote_item conf codec client_id s request).0 j
        ≡ tally_of
            (relay_vote_item conf' codec s'
              (codec.vote_to_bytes (signed_vote calls key client_id b))).0
            j
  unfolding signed_vote
  vote_item-relay_vote_item conf' s' key client_id b j valid (v', i') n count trip trip' fresh alive
        own agree =
      let vote = signed_vote calls key client_id b in
      let here = request_counts key client_id b j valid n trip fresh alive own in
      let there =
        (item_counts conf' codec s'.heap s' vote j (Extends-refl s'.heap, v', i') trip').0 in
      here
      ∙ ap (λ t. if b.header.id == j then tally_vote conf.client_count t vote else t) agree
      ∙ ap (λ m. if b.header.id == j then tally_vote m (tally_of s' j) vote else tally_of s' j)
          count
      ∙ sym there
