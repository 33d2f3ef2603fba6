-- ===== src/Server/Ballot.antt =====
-- The abstract count of the votes for a block, and the one that a server keeps.
use mathlib.Core.Path.{fun_ext}
use dchain.Prelude.{
  ℕ, ◌+◌, ◌≡◌, refl, ◌∙◌, ap, Option, none, some, List, [], ◌∷◌, ◌==◌, leb, if◌then◌else◌, length,
  Option-cases, inl, inr,
}
use dchain.Container.Assoc.{Assoc, find}
use dchain.Container.OrdMap
use dchain.Container.OrdMap.{find-insert, length-insert}
use dchain.Container.OrdSet.{contains}
use dchain.Container.Heap.{Ptr, deref}
use dchain.Entity.Block.{Block, BlockVote}
use dchain.Server.State.{Server}
use dchain.Server.Count.{add_vote}

-- The votes for a block, by voter, and how many they are; or none are counted, since the block is
-- not known, is dead, or has all its votes.
pub data Tally : Type 0 where
  collecting : (ℕ → Option BlockVote) → ℕ → Tally
  closed : Tally

abbrev with_vote : (ℕ → Option BlockVote) → ℕ → BlockVote → ℕ → Option BlockVote
with_vote votes voter vote k = if voter == k then some vote else votes k

-- The votes with `n` of them are complete.
abbrev pub closing : ℕ → (ℕ → Option BlockVote) → ℕ → Tally
closing n votes count = if leb n count then closed else collecting votes count

-- The first vote of each voter counts.
abbrev pub tally_vote : ℕ → Tally → BlockVote → Tally
tally_vote n closed vote = closed
tally_vote n (collecting votes count) vote = elim (votes vote.voter_id) [
  | none ↦ closing n (with_vote votes vote.voter_id vote) (count + 1)
  | some _ ↦ closing n votes count
]

-- The votes of a list for the block with an id, one after another.
abbrev pub tally_votes : ℕ → Tally → List BlockVote → ℕ → Tally
tally_votes n t [] id = t
tally_votes n t (vote ∷ votes) id =
    tally_votes n (if vote.block_id == id then tally_vote n t vote else t) votes id

abbrev pub of_block : Option Block → Tally
of_block none = closed
of_block (some b) = collecting (find b.votes) (length b.votes)

-- The count of a block by a store, the pending blocks and the dead ones.
abbrev pub tally_in : List Block → Assoc Ptr → List ℕ → ℕ → Tally
tally_in heap pending dead id =
    if contains dead id
    then closed
    else elim (find pending id) [ none ↦ closed | some p ↦ of_block (deref heap p) ]

-- The count that a server keeps for a block: it forgets where blocks and votes are stored, and in
-- which order.
abbrev pub tally_of : {Bytes Key : Type 0} → Server Bytes Key → ℕ → Tally
tally_of s id = tally_in s.heap s.pending_blks s.dead_block id

insert_there :
    (b : Block) (voter : ℕ) (vote old : BlockVote)
    → find b.votes voter ≡ some old
    → OrdMap.insert b.votes voter vote ≡ b.votes
unfolding OrdMap.insert
insert_there b voter vote old had = rw (had, OrdMap.insert) refl

insert_new :
    (b : Block) (voter : ℕ) (vote : BlockVote)
    → find b.votes voter ≡ none
    → (find (OrdMap.insert b.votes voter vote) ≡ with_vote (find b.votes) voter vote)
      × (length (OrdMap.insert b.votes voter vote) ≡ length b.votes + 1)
insert_new b voter vote new = (
  fun_ext (λ k. find-insert b.votes voter vote k ∙ rw new refl),
  length-insert b.votes voter vote ∙ rw new refl,
)

pub of_block-add_vote :
    (n : ℕ) (b : Block) (vote : BlockVote)
    → closing n
        (find (add_vote b vote.voter_id vote).votes)
        (length (add_vote b vote.voter_id vote).votes)
      ≡ tally_vote n (of_block (some b)) vote
unfolding add_vote
of_block-add_vote n b vote = elim (Option-cases (find b.votes vote.voter_id)) [
  | inl new ↦
      let (votes, count) = insert_new b vote.voter_id vote new in
      rw (tally_vote, of_block, new)
        (ap (λ f. closing n f (length (OrdMap.insert b.votes vote.voter_id vote))) votes
          ∙ ap (λ c. closing n (with_vote (find b.votes) vote.voter_id vote) c) count)
  | inr (old, had) ↦ rw (tally_vote, of_block, had, insert_there b vote.voter_id vote old had) refl
]
