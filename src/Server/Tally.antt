-- ===== src/Server/Tally.antt =====
-- What counting a vote does: `count_vote`, which `VoteBlocks` and `RelayVote` share.
use dchain.Prelude.{
  ℕ, ◌≡◌, ◌&&◌, none, some, [], ◌∷◌, ◌++◌, arith, ◌==◌, leb, if◌then◌else◌, length, returned,
}
use dchain.Container.Assoc.{find, find-erase, or_old}
use dchain.Container.OrdMap
use dchain.Container.Heap.{Ptr, deref, deref-write, deref-lt-length}
use dchain.Entity.Block.{Block, BlockVote, is_vote_enough}
use dchain.Server.State.{Conf, Server}
use dchain.Server.Count.{add_vote, close_if_enough, vote_into, count_vote}

-- A second vote under a voter's id changes nothing, whatever it says.
add_vote-add_vote :
    (b : Block) (voter : ℕ) (first second : BlockVote)
    → add_vote (add_vote b voter first) voter second ≡ add_vote b voter first
unfolding add_vote OrdMap.insert
add_vote-add_vote b voter first second =
    ground (arith, OrdMap.find-insert b.votes voter first voter)

module _ {Bytes Key : Type 0} (conf : Conf) (s : Server Bytes Key) (id voter : ℕ)
    (vote : BlockVote) where
  -- A vote for a block that is not pending changes nothing.
  pub count_vote_missing :
      find s.pending_blks id ≡ none → count_vote conf s id voter vote ≡ (s, returned)
  unfolding count_vote
  count_vote_missing e = rw (e, count_vote)

  -- A vote for a pending block joins the block's votes, unless the voter has one there. With
  -- `client-count` votes the block leaves the pending ones, as the only one that does, and goes to
  -- the end of the merge queue.
  pub count_vote_found :
      (p : Ptr) (b : Block) (j : ℕ)
      → find s.pending_blks id ≡ some p
      → deref s.heap p ≡ some b
      → let b' = add_vote b voter vote in
        let enough = leb conf.client_count (length b'.votes) in
        let t = (count_vote conf s id voter vote).0 in
        (deref t.heap p ≡ some b')
        × (find b'.votes voter ≡ some (or_old (find b.votes voter) vote))
        × (find t.pending_blks j ≡ (if enough && id == j then none else find s.pending_blks j))
        × (t.pb_merge_queue ≡ (if enough then s.pb_merge_queue ++ p ∷ [] else s.pb_merge_queue))
  unfolding count_vote vote_into close_if_enough is_vote_enough add_vote
  count_vote_found p b j e d =
      let w = deref-write s.heap p (add_vote b voter vote) p (deref-lt-length s.heap p b d) in
      (
        ground (arith, e, d, w),
        ground (arith, OrdMap.find-insert b.votes voter vote voter),
        ground (arith, e, d, find-erase s.pending_blks id j),
        ground (arith, e, d),
      )
