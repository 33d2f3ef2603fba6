-- ===== src/Server/Safety/Commit.antt =====
-- `TcServer::merge_votes`, `pack_block` and `remove_dead_blocks`.
use dchain.Prelude.{
  ℕ, zero, suc, ◌≡◌, refl, some, List, [], ◌∷◌, arith, subst, length, for_each_correct,
  and_then_from, Option-cases, Bool-cases, inl, inr, leb, ltb, sub64,
}
use dchain.Container.Assoc.{Assoc, find, All-find}
use dchain.Container.OrdMap.{IsSorted}
use dchain.Container.Heap.{Ptr, deref, deref-write, deref-lt-length}
use dchain.Entity.Bls.{ShareSets}
use dchain.Entity.Block
use dchain.Entity.Block.{Block, add_shares, merge_enough}
use dchain.Server.State.{Conf, Server}
use dchain.Server.Growth.{Grows, committed-Grows, Extends-trans, write-Extends, alloc-Extends}
use dchain.Server.Invariant.{
  State, Safe, PointsAll, heap-Inv, erase-Inv, assign-Inv, commit-Inv, merge_pop-Inv, cast_push-Inv,
  relay_push-Inv,
}
use dchain.Server.Commit.{
  committed, commit_block, commit_merged, commit_popped, merge_queue, merge_votes,
}
use dchain.Server.Pack.{packed_block, pack_one, pack_block}
use dchain.Server.Dead.{block_ids, reap, reap_block, reap_item, remove_dead_blocks}
use dchain.Server.Safety.Defs.{NoFault, Runs, returned-NoFault, thrown-NoFault}
use dchain.Server.Safety.Peer.{alloc-Points}
use dchain.Wire.Codec.{Codec}

merge_enough-Grows :
    {ShareSet : Type 0} (bls : ShareSets ShareSet) (b b' : Block) (set : ShareSet)
    → merge_enough bls b set ≡ some b'
    → Grows b b'
unfolding merge_enough
merge_enough-Grows bls b b' set e = record {
  same_id = ground arith;
  same_base = ground arith;
  same_proposal = ground arith;
  same_txs = ground arith;
  more_votes = ground arith;
  votes_kept = λ k v f. ground arith;
  order_kept = subst IsSorted (ground arith);
}

pub merge_votes-Grows :
    {ShareSet : Type 0} (bls : ShareSets ShareSet) (b b' : Block) (n : ℕ)
    → Block.merge_votes bls b n ≡ some b'
    → Grows b b'
unfolding Block.merge_votes
merge_votes-Grows bls b b' n e = elim (Option-cases (add_shares bls (bls.new_set n n) b.votes)) [
  | inl f ↦ absurd (ground (arith, f))
  | inr (set, f) ↦ merge_enough-Grows bls b b' set (ground (arith, f))
]

module _ {Bytes Key ShareSet : Type 0} (conf : Conf) (codec : Codec Bytes)
    (bls : ShareSets ShareSet) (now : ℕ → ℕ) (h₀ : List Block) where
  commit_block-Safe :
      (s : Server Bytes Key) (p : Ptr) (b b' : Block)
      → deref s.heap p ≡ some b
      → Grows b b'
      → Safe conf h₀ s
      → Safe conf h₀ (commit_block conf codec bls now s p b')
  unfolding commit_block
  commit_block-Safe s p b b' e g (x, v, i) =
      let y = write-Extends s.heap p b b' e g in
      let e' = deref-write s.heap p b' p (deref-lt-length s.heap p b e) in
      (
        Extends-trans x y,
        cast_push-Inv (commit-Inv (heap-Inv v y) b'.header.id p (b', ground (arith, e'), refl)) p
            (b', ground (arith, e')),
        i,
      )

  -- The merge queue is what is still to be popped.
  abbrev pub Popped : List Ptr → Server Bytes Key → Type 0
  Popped queue s = Safe conf h₀ s × (s.pb_merge_queue ≡ queue)

  pub commit_popped-Runs :
      (s : Server Bytes Key) (p : Ptr) (b : Block) (queue : List Ptr)
      → deref s.heap p ≡ some b
      → Popped queue s
      → Popped queue (commit_popped conf codec bls now s p (some b)).0
        × NoFault (commit_popped conf codec bls now s p (some b)).1
  unfolding commit_popped commit_merged commit_block
  commit_popped-Runs s p b queue e (h, q) =
      elim (Option-cases (Block.merge_votes bls b conf.client_count)) [
        | inl f ↦ rw (f, commit_merged) ((h, q), thrown-NoFault)
        | inr (b', f) ↦
            rw (f, commit_merged)
              (
                (
                  commit_block-Safe s p b (committed b' (now b'.header.id)) e
                      (committed-Grows b b' (now b'.header.id)
                        (merge_votes-Grows bls b b' conf.client_count f))
                      h,
                  q,
                ),
                returned-NoFault,
              )
      ]

  merge_queue-Runs :
      (s : Server Bytes Key) (queue : List Ptr)
      → Popped queue s
      → Runs conf h₀ (merge_queue conf codec bls now s queue)
  unfolding merge_queue
  merge_queue-Runs s [] (h, q) = (h, returned-NoFault)
  merge_queue-Runs s (p ∷ queue) ((x, v, i), q) =
      let v' = subst (λ m. State conf (record s { pb_merge_queue = m })) q v in
      let (b, e, _) = v'.merging_quorate.0 in
      let (p', n) =
        commit_popped-Runs (record s { pb_merge_queue = queue }) p b queue e
          ((x, merge_pop-Inv v', i), refl) in
      rw e (
        and_then_from (Safe conf h₀) NoFault (Popped queue) _ _ (λ s' h. h.0) p' n
          (λ s' h. merge_queue-Runs s' queue h))

  -- `TcServer::merge_votes` on a valid server leaves it valid and its blocks grown, and ends
  -- without a fault, whatever libBLS answers.
  pub merge_votes-Runs :
      (s : Server Bytes Key) → Safe conf h₀ s → Runs conf h₀ (merge_votes conf codec bls now s)
  unfolding merge_votes
  merge_votes-Runs s h = merge_queue-Runs s s.pb_merge_queue (h, refl)

block_ids-Points :
    (h : List Block) (m : Assoc Ptr) → PointsAll h m → (ids : List ℕ) × (block_ids h m ≡ some ids)
unfolding block_ids
block_ids-Points h [] a = ([], refl)
block_ids-Points h ((id, p) ∷ m) ((b, e, _), a) =
    let (ids, f) = block_ids-Points h m a in (b.header.id ∷ ids, ground (arith, e, f))

module _ {Bytes Key : Type 0} (conf : Conf) (h₀ : List Block) (now : ℕ → ℕ) where
  pub pack_one-Safe :
      (s : Server Bytes Key) (num_tx t : ℕ) → Safe conf h₀ s → Safe conf h₀ (pack_one s num_tx t)
  unfolding pack_one packed_block
  pack_one-Safe s num_tx t (x, v, i) =
      let b = packed_block s num_tx t in
      let y = alloc-Extends s.heap b in
      let pt = alloc-Points s.heap b in
      (
        Extends-trans x y,
        assign-Inv (relay_push-Inv (heap-Inv v y) (length s.heap) (pt.0, pt.1)) s.blk_seq_generator
            (length s.heap) pt,
        i,
      )

  -- `TcServer::pack_block` keeps a valid server valid and its blocks grown, for every number of
  -- transactions and of rounds.
  pub pack_block-Safe :
      (s : Server Bytes Key) (num_tx rounds : ℕ)
      → Safe conf h₀ s
      → Safe conf h₀ (pack_block now s num_tx rounds)
  unfolding pack_block
  pack_block-Safe s num_tx zero h = h
  pack_block-Safe s num_tx (suc rounds) h = elim (Bool-cases (leb num_tx (length s.pending_txs))) [
    | inl enough ↦ rw enough (
        pack_block-Safe (pack_one s num_tx (now s.blk_seq_generator)) num_tx rounds
          (pack_one-Safe s num_tx (now s.blk_seq_generator) h))
    | inr few ↦ rw few h
  ]

  reap-Safe :
      (s : Server Bytes Key) (id delta : ℕ) → Safe conf h₀ s → Safe conf h₀ (reap conf s id delta)
  unfolding reap
  reap-Safe s id delta (x, v, i) = elim (Bool-cases (ltb 100000 delta)) [
    | inl old ↦ rw old (x, v, i)
    | inr recent ↦ elim (Bool-cases (ltb conf.block_die_threshold delta)) [
      | inl over ↦ rw (recent, over) (x, erase-Inv v id, i)
      | inr under ↦ rw (recent, under) (x, v, i)
    ]
  ]

  pub reap_item-Runs :
      (s : Server Bytes Key) (id : ℕ) → Safe conf h₀ s → Runs conf h₀ (reap_item conf now s id)
  unfolding reap_item reap_block
  reap_item-Runs s id h = elim (Option-cases (find s.pending_blks id)) [
    | inl e ↦ rw (e, reap_item) (h, returned-NoFault)
    | inr (p, e) ↦
        let (b, d, _) = All-find _ s.pending_blks id p h.1.pending_points e in
        rw (e, reap_item, d)
          (reap-Safe s id (sub64 (now id) b.header.proposal_ts) h, returned-NoFault)
  ]

  -- `TcServer::remove_dead_blocks` on a valid server leaves it valid and its blocks grown, and ends
  -- without a fault, whatever the clock reads.
  pub remove_dead_blocks-Runs :
      (s : Server Bytes Key) → Safe conf h₀ s → Runs conf h₀ (remove_dead_blocks conf now s)
  unfolding remove_dead_blocks
  remove_dead_blocks-Runs s h =
      let (ids, e) = block_ids-Points s.heap s.pending_blks h.1.pending_points in
      rw (e, remove_dead_blocks)
        (for_each_correct (Safe conf h₀) NoFault (reap_item conf now) returned-NoFault
          reap_item-Runs s ids h)
