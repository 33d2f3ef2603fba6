-- ===== src/Server/Growth.antt =====
-- How the shared blocks may change: what a block proposes is fixed, and its votes only grow.
use dchain.Prelude.{
  ℕ, ◌≤◌, ◌≡◌, refl, ◌∙◌, sym, subst, some, List, arith, ◌==◌, length, Bool-cases, inl, inr,
}
use dchain.Container.Assoc.{find}
use dchain.Container.OrdMap
use dchain.Container.OrdMap.{IsSorted, insert-IsSorted}
use dchain.Container.Heap.{Ptr, deref, alloc, write, deref-write, deref-alloc, deref-lt-length}
use dchain.Entity.Block.{Block, BlockVote}
use dchain.Server.Count.{add_vote}
use dchain.Server.Pull.{record_dist_ts}
use dchain.Server.Commit.{committed}

-- The same id, base, proposal time and transactions; no vote is lost or replaced, and the votes
-- stay in the order of their voters.
pub record Grows (b b' : Block) : Type 0 where
  pub same_id : b'.header.id ≡ b.header.id
  pub same_base : b'.header.base_id ≡ b.header.base_id
  pub same_proposal : b'.header.proposal_ts ≡ b.header.proposal_ts
  pub same_txs : b'.tx_vec ≡ b.tx_vec
  pub more_votes : length b.votes ≤ length b'.votes
  pub votes_kept : (k : ℕ) (v : BlockVote) → find b.votes k ≡ some v → find b'.votes k ≡ some v
  pub order_kept : IsSorted b.votes → IsSorted b'.votes

pub Grows-refl : (b : Block) → Grows b b
Grows-refl b = record {
  same_id = refl;
  same_base = refl;
  same_proposal = refl;
  same_txs = refl;
  more_votes = omega arith;
  votes_kept = λ k v e. e;
  order_kept = λ s. s;
}

pub Grows-trans : {a b c : Block} → Grows a b → Grows b c → Grows a c
Grows-trans g h = record {
  same_id = h.same_id ∙ g.same_id;
  same_base = h.same_base ∙ g.same_base;
  same_proposal = h.same_proposal ∙ g.same_proposal;
  same_txs = h.same_txs ∙ g.same_txs;
  more_votes = omega arith;
  votes_kept = λ k v e. h.votes_kept k v (g.votes_kept k v e);
  order_kept = λ s. h.order_kept (g.order_kept s);
}

pub add_vote-Grows : (b : Block) (voter : ℕ) (vote : BlockVote) → Grows b (add_vote b voter vote)
unfolding add_vote
add_vote-Grows b voter vote = record {
  same_id = refl;
  same_base = refl;
  same_proposal = refl;
  same_txs = refl;
  more_votes = ground (arith, OrdMap.length-insert b.votes voter vote);
  votes_kept = λ k v e. ground (arith, OrdMap.find-insert b.votes voter vote k);
  order_kept = insert-IsSorted b.votes voter vote;
}

record_dist_ts-votes : (b : Block) (now : ℕ) → (record_dist_ts b now).votes ≡ b.votes
unfolding record_dist_ts
record_dist_ts-votes b now = ground arith

pub record_dist_ts-Grows : (b : Block) (now : ℕ) → Grows b (record_dist_ts b now)
unfolding record_dist_ts
record_dist_ts-Grows b now = record {
  same_id = ground arith;
  same_base = ground arith;
  same_proposal = ground arith;
  same_txs = ground arith;
  more_votes = ground arith;
  votes_kept = λ k v e. ground arith;
  order_kept = subst IsSorted (sym (record_dist_ts-votes b now));
}

pub committed-Grows : (a b : Block) (now : ℕ) → Grows a b → Grows a (committed b now)
unfolding committed
committed-Grows a b now g = record {
  same_id = g.same_id;
  same_base = g.same_base;
  same_proposal = g.same_proposal;
  same_txs = g.same_txs;
  more_votes = g.more_votes;
  votes_kept = g.votes_kept;
  order_kept = g.order_kept;
}

-- Every block of the first store is in the second, at the same pointer, and has only grown.
pub record Extends (h h' : List Block) : Type 0 where
  pub at :
      (p : Ptr) (b : Block)
      → deref h p ≡ some b
      → (b' : Block) × (deref h' p ≡ some b') × Grows b b'

pub Extends-refl : (h : List Block) → Extends h h
Extends-refl h = record { at = λ p b e. (b, e, Grows-refl b) }

pub Extends-trans : {h i j : List Block} → Extends h i → Extends i j → Extends h j
Extends-trans x y = record {
  at = λ p b e.
      let (b', e', g) = x.at p b e in
      let (b'', e'', g') = y.at p b' e' in (b'', e'', Grows-trans g g');
}

pub alloc-Extends : (h : List Block) (b : Block) → Extends h (alloc h b)
alloc-Extends h b = record {
  at = λ p a e. (a, ground (arith, deref-alloc h b p, deref-lt-length h p a e), Grows-refl a);
}

pub write-Extends :
    (h : List Block) (p : Ptr) (b b' : Block)
    → deref h p ≡ some b
    → Grows b b'
    → Extends h (write h p b')
write-Extends h p b b' e g = record {
  at = λ q a f. elim (Bool-cases (p == q)) [
    | inl same ↦ (
      b',
      ground (arith, deref-write h p b' q, deref-lt-length h p b e),
      subst (λ c. Grows c b') (ground arith) g,
    )
    | inr other ↦ (a, ground (arith, deref-write h p b' q, deref-lt-length h p b e), Grows-refl a)
  ];
}
