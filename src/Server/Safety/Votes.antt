-- ===== src/Server/Safety/Votes.antt =====
-- `VoteBlocks` and `RelayVote`.
use dchain.Prelude.{
  ℕ, ◌≡◌, some, List, arith, leb, length, Bool-cases, Option-cases, inl, inr, All, refl,
  for_each_correct_all,
}
use dchain.Container.Assoc.{find, All-find}
use dchain.Container.OrdSet.{contains}
use dchain.Container.Heap.{Ptr, deref, write, deref-write, deref-lt-length}
use dchain.Entity.Block.{Block, BlockVote, is_vote_enough}
use dchain.Server.State.{Conf, Server}
use dchain.Server.Growth.{Extends-trans, write-Extends, add_vote-Grows}
use dchain.Server.Invariant.{Safe, heap-Inv, erase-Inv, merge_push-Inv}
use dchain.Server.Count.{add_vote, close_if_enough, vote_into, count_vote}
use dchain.Server.Peer.{relayed_vote, relay_vote_item, relay_vote}
use dchain.Wire.Codec.{Codec, Sound, Decoded-cases}
use dchain.Server.Safety.Defs.{NoFault, Runs, returned-NoFault, thrown-NoFault}

module _ {Bytes Key : Type 0} (conf : Conf) (h₀ : List Block) where
  close_if_enough-Safe :
      (s : Server Bytes Key) (id : ℕ) (p : Ptr) (b : Block)
      → deref s.heap p ≡ some b
      → Safe conf h₀ s
      → Safe conf h₀ (close_if_enough conf s id p b)
  unfolding close_if_enough is_vote_enough
  close_if_enough-Safe s id p b e (x, v, i) =
      elim (Bool-cases (leb conf.client_count (length b.votes))) [
        | inl enough ↦ rw enough (x, erase-Inv (merge_push-Inv v p (b, e, ground arith)) id, i)
        | inr few ↦ rw few (x, v, i)
      ]

  vote_into-Runs :
      (s : Server Bytes Key) (id voter : ℕ) (vote : BlockVote) (p : Ptr) (b : Block)
      → deref s.heap p ≡ some b
      → Safe conf h₀ s
      → Runs conf h₀ (vote_into conf s id voter vote p (some b))
  unfolding vote_into
  vote_into-Runs s id voter vote p b e (x, v, i) =
      let b' = add_vote b voter vote in
      let y = write-Extends s.heap p b b' e (add_vote-Grows b voter vote) in
      (
        close_if_enough-Safe (record s { heap = write s.heap p b' }) id p b'
            (ground (arith, deref-write s.heap p b' p, deref-lt-length s.heap p b e))
            (Extends-trans x y, heap-Inv v y, i),
        returned-NoFault,
      )

  -- A vote is counted for a pending block, or dropped.
  pub count_vote-Runs :
      (s : Server Bytes Key) (id voter : ℕ) (vote : BlockVote)
      → Safe conf h₀ s
      → Runs conf h₀ (count_vote conf s id voter vote)
  unfolding count_vote
  count_vote-Runs s id voter vote h = elim (Option-cases (find s.pending_blks id)) [
    | inl e ↦ rw (e, count_vote) (h, returned-NoFault)
    | inr (p, e) ↦
        let (b, d, _) = All-find _ s.pending_blks id p h.1.pending_points e in
        rw (e, count_vote, d) (vote_into-Runs s id voter vote p b d h)
  ]

  module _ (codec : Codec Bytes) where
    relayed_vote-Runs :
        (s : Server Bytes Key) (vote : BlockVote)
        → Safe conf h₀ s
        → Runs conf h₀ (relayed_vote conf codec s vote)
    unfolding relayed_vote
    relayed_vote-Runs s vote h = elim (Bool-cases (contains s.dead_block vote.block_id)) [
      | inl dead ↦ rw dead (h, returned-NoFault)
      | inr alive ↦ rw alive (count_vote-Runs s vote.block_id vote.voter_id vote h)
    ]

    pub relay_vote_item-Runs :
        (s : Server Bytes Key) (bytes : Bytes)
        → Safe conf h₀ s
        → Safe conf h₀ (relay_vote_item conf codec s bytes).0
          × (Sound (codec.vote_from_bytes bytes) → NoFault (relay_vote_item conf codec s bytes).1)
    unfolding relay_vote_item
    relay_vote_item-Runs s bytes h = elim (Decoded-cases (codec.vote_from_bytes bytes)) [
      | inl (vote, e) ↦
          let (p, q) = relayed_vote-Runs s vote h in rw (e, relay_vote_item) (p, λ sound. q)
      | inr (inl e) ↦ rw (e, relay_vote_item) (h, λ sound. thrown-NoFault)
      | inr (inr e) ↦ rw (e, relay_vote_item) (h, λ sound. absurd (sound refl))
    ]

    -- `RelayVote` on a valid server, with bytes that are read without an abort, keeps the server
    -- valid and its blocks grown, and ends without a fault.
    pub relay_vote-Runs :
        (s : Server Bytes Key) (votes : List Bytes)
        → All (λ v. Sound (codec.vote_from_bytes v)) votes
        → Safe conf h₀ s
        → Runs conf h₀ (relay_vote conf codec s votes)
    unfolding relay_vote
    relay_vote-Runs s votes sound h =
        for_each_correct_all (Safe conf h₀) NoFault (λ v. Sound (codec.vote_from_bytes v))
          (relay_vote_item conf codec) returned-NoFault
          (λ s' v ok h'. let (p, q) = relay_vote_item-Runs s' v h' in (p, q ok)) s votes sound h
