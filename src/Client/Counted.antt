-- ===== src/Client/Counted.antt =====
-- From the client's vote to the server's count.
use dchain.Prelude.{
  ℕ, ◌≡◌, refl, ap, ◌∙◌, true, false, none, some, List, [], ◌∷◌, ◌++◌, arith, ◌==◌, All, returned,
  for_each, for_each_correct_all, and_then_eq, Bool-cases, inl, inr,
}
use dchain.Container.Assoc.{find}
use dchain.Container.OrdMap
use dchain.Container.OrdSet.{contains}
use dchain.Container.Heap.{Ptr, deref}
use dchain.Entity.Block.{Block, BlockVote}
use dchain.Entity.Placement.{
  Servers, serves, servers_of, get_server_id-eq, contains-servers_of, get_server_id_range,
}
use dchain.Server.State.{Conf, Server}
use dchain.Server.Invariant.{IsValid}
use dchain.Server.Queues.{PeerQueues, PeerQueues-adjust}
use dchain.Server.Count.{add_vote, count_vote}
use dchain.Server.Tally.{count_vote_found}
use dchain.Server.Consensus.{relay_to, relay_to_peer, place_vote, place_in, vote_block, vote_item}
use dchain.Server.Safety.Consensus.{InRange}
use dchain.Client.Vote.{Calls, signed_vote, signed_block}
use dchain.Client.Fetching.{RoundTrips}
use dchain.Wire.Codec.{Codec}

module _ {Bytes Key : Type 0} (conf : Conf) (s : Server Bytes Key) where
  -- What relaying a vote leaves alone.
  abbrev pub Same : Server Bytes Key → Type 0
  Same t =
      (t.heap ≡ s.heap)
      × (t.pending_blks ≡ s.pending_blks)
      × (t.dead_block ≡ s.dead_block)
      × (t.server_id ≡ conf.server_id)
      × PeerQueues conf.server_count conf.server_id t.relay_votes

  relay_to_peer-Same :
      (vote : BlockVote) (t : Server Bytes Key) (k : ℕ)
      → InRange conf.server_count k
      → Same t
      → Same (relay_to_peer vote t k).0 × ((relay_to_peer vote t k).1 ≡ returned)
  unfolding relay_to_peer relay_to
  relay_to_peer-Same vote t k r (h, p, dead, i, v) = elim (Bool-cases (k == t.server_id)) [
    | inl self ↦ rw self ((h, p, dead, i, v), refl)
    | inr peer ↦
        let (q, e) = v k r.0 r.1 (ground (arith, peer, i)) in
        rw (peer, e, relay_to)
          (
            (
              h,
              p,
              dead,
              i,
              PeerQueues-adjust conf.server_count conf.server_id t.relay_votes k
                  (λ q. q ++ vote ∷ []) v,
            ),
            refl,
          )
  ]

  relays-Same :
      (vote : BlockVote) (targets : List ℕ)
      → IsValid conf s
      → All (InRange conf.server_count) targets
      → Same (for_each (relay_to_peer vote) s targets).0
        × ((for_each (relay_to_peer vote) s targets).1 ≡ returned)
  relays-Same vote targets (v, i) r =
      for_each_correct_all Same (λ o. o ≡ returned) (InRange conf.server_count) (relay_to_peer vote)
        refl (relay_to_peer-Same vote) s targets r (refl, refl, refl, i, v.peer_queues)

  -- A live block's vote is relayed, and then counted here, if the server collects the block's votes.
  pub vote_block-count_vote :
      (codec : Codec Bytes) (client_id : ℕ) (b : Block) (vote : BlockVote)
      → IsValid conf s
      → Servers conf.server_count
      → find b.votes client_id ≡ some vote
      → contains s.dead_block b.header.id ≡ false
      → serves b.header.id conf.server_count s.server_id ≡ true
      → (u : Server Bytes Key) × Same u
        × (vote_block conf codec client_id s b ≡ count_vote conf u b.header.id client_id vote)
  unfolding vote_block place_in place_vote
  vote_block-count_vote codec client_id b vote valid n e alive own =
      let t = get_server_id-eq b conf.server_count n.0 in
      let targets = servers_of b conf.server_count in
      let member = contains-servers_of b conf.server_count s.server_id n ∙ own in
      let range = get_server_id_range b conf.server_count targets n t in
      let (same, ret) = relays-Same vote targets valid range.0 in
      let run =
        and_then_eq (for_each (relay_to_peer vote) s targets)
          (λ s'. count_vote conf s' b.header.id client_id vote) ret in
      (
        (for_each (relay_to_peer vote) s targets).0,
        same,
        rw (e, vote_block, alive, t, member, run) refl,
      )

  -- The vote is counted for the stored block: it joins the votes there, unless they have one of the
  -- client.
  vote_block_counts :
      (codec : Codec Bytes) (client_id : ℕ) (b stored : Block) (vote : BlockVote) (p : Ptr)
      → IsValid conf s
      → Servers conf.server_count
      → find b.votes client_id ≡ some vote
      → contains s.dead_block b.header.id ≡ false
      → serves b.header.id conf.server_count s.server_id ≡ true
      → find s.pending_blks b.header.id ≡ some p
      → deref s.heap p ≡ some stored
      → deref (vote_block conf codec client_id s b).0.heap p ≡ some (add_vote stored client_id vote)
  vote_block_counts codec client_id b stored vote p valid n e alive own pend d =
      let (u, (h, q, _, _, _), run) =
        vote_block-count_vote codec client_id b vote valid n e alive own in
      let counted =
        count_vote_found conf u b.header.id client_id vote p stored p (rw q pend) (rw h d) in
      ap (λ r. deref r.0.heap p) run ∙ counted.0

  -- With `server-count` from 1 to 2 ^ 64 - 2: in a valid server that collects the votes for a
  -- live, pending block, the request that a client sends for its copy of the block, which has no
  -- vote of the client yet, is counted, where the codec reads the request back. The request has
  -- the client's vote and no transactions; the vote joins those of the stored block, unless it has
  -- one of the client.
  pub vote_item-signed_block :
      {Pair Db Hash : Type 0} (calls : Calls Pair Db Hash) (codec : Codec Bytes) (key : Pair)
      (client_id : ℕ) (b stored : Block) (p : Ptr)
      → IsValid conf s
      → Servers conf.server_count
      → RoundTrips codec (signed_block calls key client_id b)
      → find b.votes client_id ≡ none
      → contains s.dead_block b.header.id ≡ false
      → serves b.header.id conf.server_count s.server_id ≡ true
      → find s.pending_blks b.header.id ≡ some p
      → deref s.heap p ≡ some stored
      → let request = codec.block_to_bytes (signed_block calls key client_id b) in
        deref (vote_item conf codec client_id s request).0.heap p
        ≡ some (add_vote stored client_id (signed_vote calls key client_id b))
  unfolding vote_item signed_block
  vote_item-signed_block calls codec key client_id b stored p valid n trip fresh alive own pend d =
      let vote = signed_vote calls key client_id b in
      rw (trip, vote_item)
        (vote_block_counts codec client_id (signed_block calls key client_id b) stored vote p valid
          n (ground (arith, fresh, OrdMap.find-insert b.votes client_id vote client_id)) alive own
          pend d)
