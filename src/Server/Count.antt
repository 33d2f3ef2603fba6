-- ===== src/Server/Count.antt =====
-- What `VoteBlocks` and `RelayVote` share: a vote is put into the pending block, and a block with
-- enough votes goes to the merge queue.
use dchain.Prelude.{ℕ, Option, none, some, [], ◌∷◌, ◌++◌, if◌then◌else◌, Outcome, returned, faulted}
use dchain.Container.Assoc.{find, erase}
use dchain.Container.OrdMap
use dchain.Container.Heap.{Ptr, deref, write}
use dchain.Entity.Block.{Block, BlockVote, is_vote_enough}
use dchain.Server.State.{Conf, Server}

-- `votes_.insert(std::make_pair(voter, vote))`: the first vote under a voter's id stays.
unfoldable pub add_vote : Block → ℕ → BlockVote → Block
add_vote b voter vote = record b { votes = OrdMap.insert b.votes voter vote }

module _ {Bytes Key : Type 0} (conf : Conf) where
  -- `is_vote_enough`, and then the push into `pb_merge_queue` and the erasure
  unfoldable pub close_if_enough : Server Bytes Key → ℕ → Ptr → Block → Server Bytes Key
  close_if_enough s block_id p b =
      if is_vote_enough b conf.client_count
      then record s {
        pb_merge_queue = s.pb_merge_queue ++ p ∷ [];
        pending_blks = erase s.pending_blks block_id;
      }
      else s

  unfoldable pub vote_into :
      Server Bytes Key → ℕ → ℕ → BlockVote → Ptr → Option Block → Server Bytes Key × Outcome
  unfolding add_vote close_if_enough
  vote_into s block_id voter vote p none = (s, faulted)
  vote_into s block_id voter vote p (some b) = (
    close_if_enough (record s { heap = write s.heap p (add_vote b voter vote) }) block_id p
        (add_vote b voter vote),
    returned,
  )

  -- A vote for a block that is not pending is dropped.
  unfoldable pub count_vote : Server Bytes Key → ℕ → ℕ → BlockVote → Server Bytes Key × Outcome
  unfolding vote_into
  count_vote s block_id voter vote = elim (find s.pending_blks block_id) [
    | none ↦ (s, returned)
    | some p ↦ vote_into s block_id voter vote p (deref s.heap p)
  ]
