-- ===== src/Entity/Signers.antt =====
-- Votes whose shares are of their voters, as `TcClient::VoteBlocks` signs them.
use dchain.Prelude.{
  ℕ, ◌≤◌, ◌<◌, ◌≡◌, refl, true, false, some, List, [], ◌∷◌, arith, All, Bool-cases, inl, inr,
}
use dchain.Container.Assoc.{Assoc}
use dchain.Container.OrdMap.{IsSorted, Above}
use dchain.Container.OrdSet.{contains}
use dchain.Entity.Bls.{SigShare}
use dchain.Entity.Block.{BlockVote}
use dchain.Entity.Merge.{Signed}

-- The vote has a share of its voter.
abbrev pub OwnShare : ℕ × BlockVote → Type 0
OwnShare (voter, vote) =
    (share : SigShare) × (vote.sig_share ≡ some share) × (share.signer_index ≡ voter)

above_unused :
    (used : List ℕ) (n j i : ℕ)
    → n < j
    → i ≡ j
    → ((k : ℕ) → contains used k ≡ true → k ≤ n)
    → contains used i ≡ false
above_unused used n j i h e u = elim (Bool-cases (contains used i)) [
  | inl hit ↦ absurd (omega (arith, u i hit, h, e))
  | inr miss ↦ miss
]

used_below :
    (used : List ℕ) (n j i : ℕ)
    → n < j
    → i ≡ j
    → ((k : ℕ) → contains used k ≡ true → k ≤ n)
    → (k : ℕ) → contains (i ∷ used) k ≡ true
    → k ≤ j
unfolding contains
used_below used n j i h e u k c = elim (Bool-cases (contains used k)) [
  | inl hit ↦ omega (arith, u k hit, h)
  | inr miss ↦ ground (arith, c, miss, e)
]

Above-Signed :
    (n : ℕ) (used : List ℕ) (m : Assoc BlockVote)
    → Above n m
    → ((k : ℕ) → contains used k ≡ true → k ≤ n)
    → All OwnShare m
    → Signed used m
Above-Signed n used [] a u own = tt
Above-Signed n used ((j, v) ∷ m) (h, a) u ((share, e, i), own) = (
  share,
  e,
  above_unused used n j share.signer_index h i u,
  Above-Signed j (share.signer_index ∷ used) m a (used_below used n j share.signer_index h i u) own,
)

only_head : (i j k : ℕ) → i ≡ j → contains (i ∷ []) k ≡ true → k ≤ j
unfolding contains
only_head i j k e c = ground (arith, e, c)

none_used : (i : ℕ) → contains [] i ≡ false
unfolding contains
none_used i = refl

-- Votes by their voters, with shares of the voters, have shares of distinct signers.
pub sorted-Signed : (m : Assoc BlockVote) → IsSorted m → All OwnShare m → Signed [] m
sorted-Signed [] s own = tt
sorted-Signed ((j, v) ∷ m) s ((share, e, i), own) = (
  share,
  e,
  none_used share.signer_index,
  Above-Signed j (share.signer_index ∷ []) m s (λ k c. only_head share.signer_index j k i c) own,
)
