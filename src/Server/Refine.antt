-- ===== src/Server/Refine.antt =====
-- `RelayVote` implements the abstract count of votes.
use mathlib.Core.List.{map}
use dchain.Prelude.{
  ℕ, ◌≡◌, ◌≢◌, refl, sym, ◌∙◌, ap, subst, ==→eq, ==→ne, ne→==, true, false, none, some, List, [],
  ◌∷◌, arith, ◌==◌, leb, if◌then◌else◌, length, Outcome, returned, All, and_then_eq, for_each,
  Bool-cases, Option-cases, inl, inr,
}
use dchain.Container.Assoc.{find, All-find}
use dchain.Container.OrdSet.{contains}
use dchain.Container.Heap.{Ptr, deref, write, deref-write, deref-lt-length}
use dchain.Entity.Block.{Block, BlockVote}
use dchain.Server.State.{Conf, Server}
use dchain.Server.Invariant.{Safe, Points, PointsAll}
use dchain.Server.Count.{add_vote, count_vote, vote_into, close_if_enough}
use dchain.Server.Tally.{count_vote_found, count_vote_missing}
use dchain.Server.Peer.{relayed_vote, relay_vote_item, relay_vote}
use dchain.Server.Safety.Votes.{relay_vote_item-Runs}
use dchain.Wire.Codec.{Codec, decoded}
use dchain.Server.Ballot.{closed, tally_vote, tally_votes, tally_of, closing, of_block-add_vote}

module _ {Bytes Key : Type 0} (conf : Conf) (s : Server Bytes Key) (vote : BlockVote) (p : Ptr)
    (b : Block) (e : find s.pending_blks vote.block_id ≡ some p) (d : deref s.heap p ≡ some b) where
  abbrev next : Server Bytes Key
  next = (count_vote conf s vote.block_id vote.voter_id vote).0

  next_frame :
      (next.heap ≡ write s.heap p (add_vote b vote.voter_id vote))
      × (next.dead_block ≡ s.dead_block)
  unfolding count_vote vote_into close_if_enough
  next_frame = (ground (arith, e, d), ground (arith, e, d))

  own_closing :
      contains s.dead_block vote.block_id ≡ false
      → let b' = add_vote b vote.voter_id vote in
        tally_of next vote.block_id ≡ closing conf.client_count (find b'.votes) (length b'.votes)
  own_closing alive =
      let (stored, _, pend, _) =
        count_vote_found conf s vote.block_id vote.voter_id vote p b vote.block_id e d in
      let (heap, dead) = next_frame in
      let b' = add_vote b vote.voter_id vote in
      elim (Bool-cases (leb conf.client_count (length b'.votes))) [
        | inl enough ↦
            let gone : find next.pending_blks vote.block_id ≡ none = ground (arith, pend, enough) in
            rw (dead, alive, gone, enough) refl
        | inr few ↦
            let kept : find next.pending_blks vote.block_id ≡ some p =
              ground (arith, pend, few, e) in
            rw (dead, alive, kept, stored, few) refl
      ]

  -- The block's own count takes the vote.
  own_tally :
      contains s.dead_block vote.block_id ≡ false
      → tally_of next vote.block_id ≡ tally_vote conf.client_count (tally_of s vote.block_id) vote
  own_tally alive =
      own_closing alive ∙ of_block-add_vote conf.client_count b vote ∙ rw (alive, e, d) refl

  pointers_apart :
      (j : ℕ) (q : Ptr) (c : Block)
      → b.header.id ≡ vote.block_id
      → vote.block_id ≢ j
      → deref s.heap q ≡ some c
      → c.header.id ≡ j
      → (p == q) ≡ false
  pointers_apart j q c i apart f k = elim (Bool-cases (p == q)) [
    | inl same ↦
        let at_p = subst (λ r. deref s.heap r ≡ some c) (sym (==→eq p q same)) f in
        let blocks : b ≡ c = cc in absurd (apart (sym i ∙ (ap (λ a. a.header.id) blocks ∙ k)))
    | inr differ ↦ differ
  ]

  -- Another block's count stays.
  other_tally :
      (j : ℕ)
      → b.header.id ≡ vote.block_id
      → vote.block_id ≢ j
      → ((q : Ptr) → find s.pending_blks j ≡ some q → Points s.heap q j)
      → tally_of next j ≡ tally_of s j
  other_tally j i apart points =
      let (stored, _, pend, _) =
        count_vote_found conf s vote.block_id vote.voter_id vote p b j e d in
      let (heap, dead) = next_frame in
      let same : find next.pending_blks j ≡ find s.pending_blks j =
        ground (arith, pend, ne→== vote.block_id j apart) in
      elim (Option-cases (find s.pending_blks j)) [
        | inl none_there ↦ rw (dead, same, none_there) refl
        | inr (q, there) ↦
            let (c, f, k) = points q there in
            let w =
              deref-write s.heap p (add_vote b vote.voter_id vote) q
                (deref-lt-length s.heap p b d) in
            let kept : deref next.heap q ≡ deref s.heap q =
              ap (λ h. deref h q) heap ∙ (w ∙ rw (pointers_apart j q c i apart f k) refl) in
            rw (dead, same, there, kept) refl
      ]

module _ {Bytes Key : Type 0} (conf : Conf) (codec : Codec Bytes) (h₀ : List Block) where
  -- What one vote does to the count of a block with an id.
  abbrev pub Counts : Server Bytes Key → BlockVote → ℕ → Server Bytes Key × Outcome → Type 0
  Counts s vote j r =
      (tally_of r.0 j ≡ (
        if vote.block_id == j
        then tally_vote conf.client_count (tally_of s j) vote
        else tally_of s j))
      × (r.1 ≡ returned)

  -- A vote that is dropped leaves the counts as they are.
  dropped :
      (s : Server Bytes Key) (vote : BlockVote) (j : ℕ)
      → tally_of s vote.block_id ≡ closed
      → Counts s vote j (s, returned)
  dropped s vote j e = elim (Bool-cases (vote.block_id == j)) [
    | inl hit ↦
        let there : tally_of s j ≡ closed =
          subst (λ i. tally_of s i ≡ closed) (==→eq vote.block_id j hit) e in
        (rw (hit, there) refl, refl)
    | inr miss ↦ (rw miss refl, refl)
  ]

  pub counted :
      (s : Server Bytes Key) (vote : BlockVote) (j : ℕ)
      → PointsAll s.heap s.pending_blks
      → contains s.dead_block vote.block_id ≡ false
      → Counts s vote j (count_vote conf s vote.block_id vote.voter_id vote)
  unfolding count_vote vote_into
  counted s vote j h alive = elim (Option-cases (find s.pending_blks vote.block_id)) [
    | inl none_there ↦
        subst (Counts s vote j)
          (sym (count_vote_missing conf s vote.block_id vote.voter_id vote none_there))
          (dropped s vote j (rw (alive, none_there) refl))
    | inr (p, e) ↦
        let (b, d, i) = All-find _ s.pending_blks vote.block_id p h e in
        let ret : (count_vote conf s vote.block_id vote.voter_id vote).1 ≡ returned =
          ground (arith, e, d) in
        elim (Bool-cases (vote.block_id == j)) [
          | inl hit ↦
              let q = ==→eq vote.block_id j hit in
              (
                rw hit (
                    subst
                      (λ k.
                        tally_of (count_vote conf s vote.block_id vote.voter_id vote).0 k
                        ≡ tally_vote conf.client_count (tally_of s k) vote)
                      q (own_tally conf s vote p b e d alive)),
                ret,
              )
          | inr miss ↦ (
            rw miss (
                other_tally conf s vote p b e d j i (==→ne vote.block_id j miss)
                  (λ q f. All-find _ s.pending_blks j q h f)),
            ret,
          )
        ]
  ]

  item_eq :
      (s : Server Bytes Key) (vote : BlockVote)
      → codec.vote_from_bytes (codec.vote_to_bytes vote) ≡ decoded vote
      → relay_vote_item conf codec s (codec.vote_to_bytes vote) ≡ relayed_vote conf codec s vote
  unfolding relay_vote_item
  item_eq s vote trip = rw (trip, relay_vote_item) refl

  relayed_dead :
      (s : Server Bytes Key) (vote : BlockVote)
      → contains s.dead_block vote.block_id ≡ true
      → relayed_vote conf codec s vote ≡ (s, returned)
  unfolding relayed_vote
  relayed_dead s vote dead = rw (dead, relayed_vote) refl

  relayed_alive :
      (s : Server Bytes Key) (vote : BlockVote)
      → contains s.dead_block vote.block_id ≡ false
      → relayed_vote conf codec s vote ≡ count_vote conf s vote.block_id vote.voter_id vote
  unfolding relayed_vote
  relayed_alive s vote alive = rw (alive, relayed_vote) refl

  pub item_counts :
      (s : Server Bytes Key) (vote : BlockVote) (j : ℕ)
      → Safe conf h₀ s
      → codec.vote_from_bytes (codec.vote_to_bytes vote) ≡ decoded vote
      → Counts s vote j (relay_vote_item conf codec s (codec.vote_to_bytes vote))
  unfolding relay_vote_item relayed_vote
  item_counts s vote j h trip = elim (Bool-cases (contains s.dead_block vote.block_id)) [
    | inl dead ↦
        subst (Counts s vote j) (sym (item_eq s vote trip ∙ relayed_dead s vote dead))
          (dropped s vote j (rw dead refl))
    | inr alive ↦
        subst (Counts s vote j) (sym (item_eq s vote trip ∙ relayed_alive s vote alive))
          (counted s vote j h.1.pending_points alive)
  ]

  -- `RelayVote` implements the abstract count: in a valid server, for bytes of votes that the codec
  -- reads back, it returns, and the count of each block is the one before with the votes for this
  -- block, one after another, the first of each voter, up to `client-count` of them. A block that
  -- is dead or not pending has the closed count.
  pub relay_vote-tally_votes :
      (s : Server Bytes Key) (votes : List BlockVote) (j : ℕ)
      → Safe conf h₀ s
      → All (λ v. codec.vote_from_bytes (codec.vote_to_bytes v) ≡ decoded v) votes
      → let r = relay_vote conf codec s (map codec.vote_to_bytes votes) in
        (tally_of r.0 j ≡ tally_votes conf.client_count (tally_of s j) votes j) × (r.1 ≡ returned)
  unfolding relay_vote for_each
  relay_vote-tally_votes s [] j h trips = (refl, refl)
  relay_vote-tally_votes s (vote ∷ votes) j h (trip, trips) =
      let r = relay_vote_item conf codec s (codec.vote_to_bytes vote) in
      let (one, ret) = item_counts s vote j h trip in
      let (rest, ret') =
        relay_vote-tally_votes r.0 votes j
          (relay_vote_item-Runs conf h₀ codec s (codec.vote_to_bytes vote) h).0 trips in
      let run = and_then_eq r (λ t. relay_vote conf codec t (map codec.vote_to_bytes votes)) ret in
      (
        ap (λ o. tally_of o.0 j) run ∙ rest ∙ ap (λ t. tally_votes conf.client_count t votes j) one,
        ap (λ o. o.1) run ∙ ret',
      )
