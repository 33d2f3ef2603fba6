-- ===== src/Entity/Block.antt =====
-- include/entity/block.hpp and src/entity/block.cpp. A transaction, a vote and a header are never
-- changed once they are shared, so they are values here; blocks stand in a store (`Heap`).
use dchain.Prelude.{
  ℕ, ◌%◌, Bool, Option, none, some, List, [], ◌∷◌, ◌++◌, ◌==◌, ltb, leb, if◌then◌else◌, length,
  add64,
}
use dchain.Container.Assoc.{Assoc}
use dchain.Container.OrdSet
use dchain.Entity.Bls.{SigShare, Signature, ShareSets}
use dchain.Entity.Transaction.{Transaction}

pub record BlockHeader : Type 0 where
  pub id : ℕ
  pub base_id : ℕ
  pub proposal_ts : ℕ
  pub dist_ts : ℕ
  pub commit_ts : ℕ
  pub recv_ts : ℕ

-- `sig_share_` is a `shared_ptr`, null in a new vote.
pub record BlockVote : Type 0 where
  pub block_id : ℕ
  pub voter_id : ℕ
  pub sig_share : Option SigShare

-- `votes_` is a `std::map` by voter; `tss_sig_` is null until the votes are merged.
pub record Block : Type 0 where
  pub header : BlockHeader
  pub tx_vec : List Transaction
  pub votes : Assoc BlockVote
  pub tss_sig : Option Signature

-- `BlockHeader::BlockHeader(id, base_id, proposal_ts)`
abbrev pub new_header : ℕ → ℕ → ℕ → BlockHeader
new_header id base_id proposal_ts = record {
  id = id;
  base_id = base_id;
  proposal_ts = proposal_ts;
  dist_ts = 0;
  commit_ts = 0;
  recv_ts = 0;
}

-- `BlockVote::BlockVote()`
abbrev pub empty_vote : BlockVote
empty_vote = record { block_id = 0; voter_id = 0; sig_share = none }

-- `Block::Block()`
abbrev pub empty_block : Block
empty_block = record { header = new_header 0 0 0; tx_vec = []; votes = []; tss_sig = none }

-- `Block::Block(id, base_id, proposal_ts)`
abbrev pub new_block : ℕ → ℕ → ℕ → Block
new_block id base_id proposal_ts = record {
  header = new_header id base_id proposal_ts;
  tx_vec = [];
  votes = [];
  tss_sig = none;
}

-- `Block::insert`
unfoldable pub insert : Block → Transaction → Block
insert b tx = record b { tx_vec = b.tx_vec ++ tx ∷ [] }

-- `primary_id` of `Block::get_server_id`
unfoldable pub primary_id : ℕ → ℕ → ℕ
primary_id block_id server_count = add64 (block_id % server_count) 1

-- `shadow_id` of `Block::get_server_id`: the next server, and the first one after the last.
unfoldable pub shadow_id : ℕ → ℕ → ℕ
shadow_id primary server_count =
    let next = add64 primary 1 in if ltb server_count next then 1 else next

-- `Block::get_server_id`; `none` is the trap of a division by zero.
unfoldable pub get_server_id : Block → ℕ → Option (List ℕ)
unfolding primary_id shadow_id
get_server_id b server_count =
    let primary = primary_id b.header.id server_count in
    if server_count == 0
    then none
    else some (OrdSet.insert (OrdSet.insert [] primary) (shadow_id primary server_count))

-- `Block::is_vote_enough`
unfoldable pub is_vote_enough : Block → ℕ → Bool
is_vote_enough b target_num = leb target_num (length b.votes)

module _ {ShareSet : Type 0} (bls : ShareSets ShareSet) where
  -- the loop of `Block::merge_votes`; `none` is an exception of `addSigShare`
  unfoldable pub add_shares : ShareSet → Assoc BlockVote → Option ShareSet
  add_shares s [] = some s
  add_shares s ((voter, vote) ∷ votes) = elim (bls.add_sig_share s vote.sig_share) [
    | none ↦ none
    | some s' ↦ add_shares s' votes
  ]

  -- the rest of `Block::merge_votes`, with its 16 threads
  unfoldable pub merge_enough : Block → ShareSet → Option Block
  merge_enough b s =
      if bls.is_enough s
      then elim (bls.merge s 16) [ none ↦ none | some sig ↦ some (record b { tss_sig = some sig }) ]
      else some b

  -- `Block::merge_votes`
  unfoldable pub merge_votes : Block → ℕ → Option Block
  unfolding add_shares merge_enough
  merge_votes b target_num = elim (add_shares (bls.new_set target_num target_num) b.votes) [
    | none ↦ none
    | some s ↦ merge_enough b s
  ]
