-- ===== src/Server/Safety/Consensus.antt =====
-- `VoteBlocks`.
use dchain.Prelude.{
  ℕ, ◌≤◌, ◌≡◌, ◌≢◌, false, List, [], ◌∷◌, ◌++◌, arith, ◌==◌, All, for_each, for_each_correct_all,
  and_then_correct, Bool-cases, Option-cases, inl, inr, refl,
}
use dchain.Container.Assoc.{find}
use dchain.Container.OrdSet.{contains}
use dchain.Entity.Block.{Block, BlockVote}
use dchain.Entity.Placement.{Servers, servers_of, get_server_id-eq, get_server_id_range}
use dchain.Server.State.{Conf, Server}
use dchain.Server.Invariant.{Safe, relay_vote-Inv}
use dchain.Server.Consensus.{
  relay_to, relay_to_peer, place_vote, place_in, vote_block, vote_item, vote_blocks,
}
use dchain.Server.Safety.Defs.{NoFault, Runs, returned-NoFault, thrown-NoFault}
use dchain.Server.Safety.Votes.{count_vote-Runs}
use dchain.Wire.Codec.{Codec, Sound, Decoded-cases}

-- One of the servers 1 to `n`.
abbrev pub InRange : ℕ → ℕ → Type 0
InRange n k = (1 ≤ k) × (k ≤ n)

-- A set without `a` has elements other than `a`.
pub others :
    (n a : ℕ) (xs : List ℕ)
    → All (InRange n) xs
    → contains xs a ≡ false
    → All (λ k. InRange n k × (k ≢ a)) xs
unfolding contains
others n a [] r e = tt
others n a (x ∷ xs) r e = ((r.0, ground arith), others n a xs r.1 (ground arith))

module _ {Bytes Key : Type 0} (conf : Conf) (h₀ : List Block) where
  relay_to-Runs :
      (vote : BlockVote) (s : Server Bytes Key) (k : ℕ)
      → InRange conf.server_count k × (k ≢ conf.server_id)
      → Safe conf h₀ s
      → Runs conf h₀ (relay_to vote s k)
  unfolding relay_to
  relay_to-Runs vote s k (r, n) (x, v, i) =
      let (q, e) = v.peer_queues k r.0 r.1 n in
      rw (e, relay_to) ((x, relay_vote-Inv v k (λ q. q ++ vote ∷ []), i), returned-NoFault)

  relay_to_peer-Runs :
      (vote : BlockVote) (s : Server Bytes Key) (k : ℕ)
      → InRange conf.server_count k
      → Safe conf h₀ s
      → Runs conf h₀ (relay_to_peer vote s k)
  unfolding relay_to_peer
  relay_to_peer-Runs vote s k r (x, v, i) = elim (Bool-cases (k == s.server_id)) [
    | inl own ↦ rw own ((x, v, i), returned-NoFault)
    | inr peer ↦ rw peer (relay_to-Runs vote s k (r, ground arith) (x, v, i))
  ]

  module _ (codec : Codec Bytes) where
    place_vote-Runs :
        (s : Server Bytes Key) (id client_id : ℕ) (vote : BlockVote) (targets : List ℕ)
        → All (InRange conf.server_count) targets
        → Safe conf h₀ s
        → Runs conf h₀ (place_vote conf codec s id client_id vote targets)
    unfolding place_vote
    place_vote-Runs s id client_id vote targets r h =
        elim (Bool-cases (contains targets s.server_id)) [
          | inl member ↦
              let (p, q) =
                for_each_correct_all (Safe conf h₀) NoFault (InRange conf.server_count)
                  (relay_to_peer vote) returned-NoFault (relay_to_peer-Runs vote) s targets r h in
              rw member (
                and_then_correct (Safe conf h₀) NoFault (for_each (relay_to_peer vote) s targets) _
                  p q (λ s'. count_vote-Runs conf h₀ s' id client_id vote))
          | inr other ↦ rw other (
              for_each_correct_all (Safe conf h₀) NoFault
                (λ k. InRange conf.server_count k × (k ≢ conf.server_id)) (relay_to vote)
                returned-NoFault (relay_to-Runs vote) s targets
                (others conf.server_count conf.server_id targets r (rw h.2 at other)) h)
        ]

    module _ (n : Servers conf.server_count) where
      vote_block-Runs :
          (client_id : ℕ) (s : Server Bytes Key) (b : Block)
          → Safe conf h₀ s
          → Runs conf h₀ (vote_block conf codec client_id s b)
      unfolding vote_block place_in
      vote_block-Runs client_id s b h = elim (Option-cases (find b.votes client_id)) [
        | inl e ↦ rw (e, vote_block) (h, returned-NoFault)
        | inr (vote, e) ↦ elim (Bool-cases (contains s.dead_block b.header.id)) [
          | inl dead ↦ rw (e, vote_block, dead) (h, returned-NoFault)
          | inr alive ↦
              let t = get_server_id-eq b conf.server_count n.0 in
              rw (e, vote_block, alive, t)
                (place_vote-Runs s b.header.id client_id vote (servers_of b conf.server_count)
                  (get_server_id_range b conf.server_count _ n t).0 h)
        ]
      ]

      pub vote_item-Runs :
          (client_id : ℕ) (s : Server Bytes Key) (bytes : Bytes)
          → Safe conf h₀ s
          → Safe conf h₀ (vote_item conf codec client_id s bytes).0
            × (Sound (codec.block_from_bytes bytes)
                → NoFault (vote_item conf codec client_id s bytes).1)
      unfolding vote_item
      vote_item-Runs client_id s bytes h = elim (Decoded-cases (codec.block_from_bytes bytes)) [
        | inl (b, e) ↦
            let (p, q) = vote_block-Runs client_id s b h in rw (e, vote_item) (p, λ sound. q)
        | inr (inl e) ↦ rw (e, vote_item) (h, λ sound. thrown-NoFault)
        | inr (inr e) ↦ rw (e, vote_item) (h, λ sound. absurd (sound refl))
      ]

      -- With `server-count` from 1 to 2 ^ 64 - 2: `VoteBlocks` on a valid server, with bytes that
      -- are read without an abort, keeps the server valid and its blocks grown, and ends without a
      -- fault: it never follows a missing queue or a dangling pointer.
      pub vote_blocks-Runs :
          (s : Server Bytes Key) (client_id : ℕ) (voted_blocks : List Bytes)
          → All (λ b. Sound (codec.block_from_bytes b)) voted_blocks
          → Safe conf h₀ s
          → Runs conf h₀ (vote_blocks conf codec s client_id voted_blocks)
      unfolding vote_blocks
      vote_blocks-Runs s client_id voted_blocks sound h =
          for_each_correct_all (Safe conf h₀) NoFault (λ b. Sound (codec.block_from_bytes b))
            (vote_item conf codec client_id) returned-NoFault
            (λ s' b ok h'. let (p, q) = vote_item-Runs client_id s' b h' in (p, q ok)) s
            voted_blocks sound h
