-- ===== src/Entity/Merge.antt =====
-- `Block::merge_votes` under what libBLS promises of a `BLSSigShareSet`.
use dchain.Prelude.{
  ℕ, ◌+◌, ◌≤◌, ◌<◌, ◌≡◌, refl, ◌∙◌, true, false, some, List, [], ◌∷◌, arith, length,
}
use dchain.Container.Assoc.{Assoc}
use dchain.Container.OrdSet.{contains}
use dchain.Entity.Bls.{SigShare, Signature, ShareSets, ShareSetLaws}
use dchain.Entity.Block.{Block, BlockVote, add_shares, merge_enough, merge_votes}

-- Every vote has a share, and no two shares have one signer index; `used` are those before.
abbrev pub Signed : List ℕ → Assoc BlockVote → Type 0
Signed used [] = Unit
Signed used ((voter, vote) ∷ votes) =
    (share : SigShare) × (vote.sig_share ≡ some share)
    × (contains used share.signer_index ≡ false)
    × Signed (share.signer_index ∷ used) votes

module _ {ShareSet : Type 0} (bls : ShareSets ShareSet) (laws : ShareSetLaws bls) where
  open laws use {signers, required, new_signers, new_required, add_lem, enough_lem, merge_lem}

  add_shares_lem :
      (s : ShareSet) (votes : Assoc BlockVote) (used : List ℕ)
      → signers s ≡ used
      → Signed used votes
      → (s' : ShareSet) × (add_shares bls s votes ≡ some s')
        × (length (signers s') ≡ length used + length votes)
        × (required s' ≡ required s)
  unfolding add_shares
  add_shares_lem s [] used e h = (s, refl, rw e (omega arith), refl)
  add_shares_lem s ((voter, vote) ∷ votes) used e (share, es, fresh, rest) =
      let (s', added, signed, kept) = add_lem s share (rw e fresh) in
      let (t, eq, count, same) =
        add_shares_lem s' votes (share.signer_index ∷ used) (rw (signed, e)) rest in
      (t, ground (arith, es, added, eq), omega (arith, count), same ∙ kept)

  merge_enough_lem :
      (b : Block) (s : ShareSet)
      → bls.is_enough s ≡ true
      → (sig : Signature) × (merge_enough bls b s ≡ some (record b { tss_sig = some sig }))
  unfolding merge_enough
  merge_enough_lem b s h = let (sig, e) = merge_lem s 16 h in (sig, rw (h, e))

  -- Under the documented laws of the share sets of libBLS: with votes of shares of distinct
  -- signers, and at least `target_num` of them, `Block::merge_votes` returns and stores a
  -- signature in the block, and changes nothing else of it.
  pub merge_votes_enough :
      (b : Block) (target_num : ℕ)
      → Signed [] b.votes
      → target_num ≤ length b.votes
      → (sig : Signature) × (merge_votes bls b target_num ≡ some (record b { tss_sig = some sig }))
  unfolding merge_votes
  merge_votes_enough b t h l =
      let (s, added, count, same) =
        add_shares_lem (bls.new_set t t) b.votes [] (new_signers t t) h in
      let (sig, e) =
        merge_enough_lem b s (enough_lem s ∙ ground (arith, count, same, new_required t t)) in
      (sig, ground (arith, added, e))

  -- Under the documented laws of the share sets of libBLS: with votes of shares of distinct
  -- signers, and fewer than `target_num` of them, `Block::merge_votes` returns and leaves the
  -- block as it is.
  merge_votes_few :
      (b : Block) (target_num : ℕ)
      → Signed [] b.votes
      → length b.votes < target_num
      → merge_votes bls b target_num ≡ some b
  unfolding merge_votes merge_enough
  merge_votes_few b t h l =
      let (s, added, count, same) =
        add_shares_lem (bls.new_set t t) b.votes [] (new_signers t t) h in
      ground (arith, added, enough_lem s, count, same, new_required t t)
