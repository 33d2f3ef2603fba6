-- ===== src/Server/Consensus.antt =====
-- The handler `VoteBlocks` of include/server/tc-server-grpc.hpp.
use dchain.Prelude.{
  ℕ, Option, none, some, List, [], ◌∷◌, ◌++◌, ◌==◌, if◌then◌else◌, Outcome, returned, thrown,
  faulted, for_each, and_then,
}
use dchain.Container.Assoc.{find, adjust}
use dchain.Container.OrdSet.{contains}
use dchain.Entity.Block.{Block, BlockVote, get_server_id}
use dchain.Server.State.{Conf, Server}
use dchain.Server.Count.{count_vote}
use dchain.Wire.Codec.{Codec, decoded, invalid, aborted}

module _ {Bytes Key : Type 0} where
  -- `relay_votes.find(target)->second->push(vote)`: a fault without a queue for the target
  unfoldable pub relay_to : BlockVote → Server Bytes Key → ℕ → Server Bytes Key × Outcome
  relay_to vote s target = elim (find s.relay_votes target) [
    | none ↦ (s, faulted)
    | some _ ↦
        (record s { relay_votes = adjust s.relay_votes target (λ q. q ++ vote ∷ []) }, returned)
  ]

  -- the same in the branch of a server that is a target itself
  unfoldable pub relay_to_peer : BlockVote → Server Bytes Key → ℕ → Server Bytes Key × Outcome
  unfolding relay_to
  relay_to_peer vote s target =
      if target == s.server_id then (s, returned) else relay_to vote s target

module _ {Bytes Key : Type 0} (conf : Conf) (codec : Codec Bytes) where
  -- The vote is relayed to the other servers of the block, and counted here if this is one of them.
  unfoldable pub place_vote :
      Server Bytes Key → ℕ → ℕ → BlockVote → List ℕ → Server Bytes Key × Outcome
  unfolding relay_to relay_to_peer
  place_vote s block_id client_id vote targets =
      if contains targets s.server_id
      then and_then (for_each (relay_to_peer vote) s targets)
          (λ s'. count_vote conf s' block_id client_id vote)
      else for_each (relay_to vote) s targets

  unfoldable pub place_in :
      Server Bytes Key → ℕ → ℕ → BlockVote → Option (List ℕ) → Server Bytes Key × Outcome
  unfolding place_vote
  place_in s block_id client_id vote none = (s, faulted)
  place_in s block_id client_id vote (some targets) = place_vote s block_id client_id vote targets

  -- One iteration of the loop of `VoteBlocks`, its block decoded.
  unfoldable pub vote_block : ℕ → Server Bytes Key → Block → Server Bytes Key × Outcome
  unfolding place_in
  vote_block client_id s block = elim (find block.votes client_id) [
    | none ↦ (s, returned)
    | some vote ↦
        if contains s.dead_block block.header.id
        then (s, returned)
        else place_in s block.header.id client_id vote (get_server_id block conf.server_count)
  ]

  unfoldable pub vote_item : ℕ → Server Bytes Key → Bytes → Server Bytes Key × Outcome
  unfolding vote_block
  vote_item client_id s bytes = elim (codec.block_from_bytes bytes) [
    | invalid ↦ (s, thrown)
    | aborted ↦ (s, faulted)
    | decoded block ↦ vote_block client_id s block
  ]

  -- `VoteBlocks`
  unfoldable pub vote_blocks : Server Bytes Key → ℕ → List Bytes → Server Bytes Key × Outcome
  unfolding vote_item
  vote_blocks s client_id voted_blocks = for_each (vote_item client_id) s voted_blocks
