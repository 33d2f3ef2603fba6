-- ===== src/Server/Drained.antt =====
-- What `TcServer::merge_votes` does to its whole queue.
use dchain.Prelude.{
  ℕ, ◌≤◌, ◌≡◌, refl, sym, ap, subst, ◌∙◌, Option, none, some, List, [], ◌∷◌, arith, length, Outcome,
  returned, true, ◌==◌, if◌then◌else◌, All, All-map, and_then, Bool-cases, inl, inr, ◌⊎◌,
}
use dchain.Container.Assoc.{find, find-assign}
use dchain.Container.OrdSet.{contains}
use dchain.Container.Heap.{Ptr, deref, deref-write, deref-lt-length}
use dchain.Entity.Bls.{Signature, ShareSets, ShareSetLaws}
use dchain.Entity.Block.{Block}
use dchain.Entity.Merge.{Signed, merge_votes_enough}
use dchain.Server.State.{Conf, Server}
use dchain.Server.Commit.{
  committed, commit_block, commit_merged, commit_popped, merge_queue, merge_votes,
}
use dchain.Wire.Codec.{Codec}

-- The pointer leads to a block with at least `n` votes, of distinct signers.
abbrev pub Mergeable : ℕ → List Block → Ptr → Type 0
Mergeable n h p = (b : Block) × (deref h p ≡ some b) × Signed [] b.votes × (n ≤ length b.votes)

-- In `h'` the pointer leads to the block of `h` with a signature, committed at its time.
abbrev pub Signs : (ℕ → ℕ) → List Block → List Block → Ptr → Type 0
Signs now h h' p =
    (b : Block) × (sig : Signature) × (deref h p ≡ some b)
    × (deref h' p ≡ some (committed (record b { tss_sig = some sig }) (now b.header.id)))

-- The committed block of the id `k`, which was `o`, after the block of the pointer was committed.
abbrev pub take_over : Ptr → ℕ → Option Ptr → Option Block → Option Ptr
take_over p k o none = o
take_over p k o (some b) = if b.header.id == k then some p else o

-- The committed block of the id `k`, which was `o`, after the blocks of the queue were committed:
-- the last of them with this id, and else what it was.
abbrev pub latest : List Block → List Ptr → ℕ → Option Ptr → Option Ptr
latest h [] k o = o
latest h (p ∷ queue) k o = latest h queue k (take_over p k o (deref h p))

module _ {Bytes Key ShareSet : Type 0} (conf : Conf) (codec : Codec Bytes)
    (bls : ShareSets ShareSet) (laws : ShareSetLaws bls) (now : ℕ → ℕ) where
  commit_popped-eq :
      (s : Server Bytes Key) (p : Ptr) (b : Block)
      → Signed [] b.votes
      → conf.client_count ≤ length b.votes
      → (sig : Signature) × (commit_popped conf codec bls now s p (some b) ≡ (
        commit_block conf codec bls now s p
            (committed (record b { tss_sig = some sig }) (now b.header.id)),
        returned,
      ))
  unfolding commit_popped commit_merged
  commit_popped-eq s p b signed enough =
      let (sig, m) = merge_votes_enough bls laws b conf.client_count signed enough in
      (sig, rw (m, commit_merged) refl)

  -- What `merge_votes` does to a server with the queue: to its blocks, and to its committed ones.
  abbrev pub Emptied : Server Bytes Key → List Ptr → Server Bytes Key × Outcome → Type 0
  Emptied s queue r =
      All (Signs now s.heap r.0.heap) queue
      × ((q : Ptr)
          → (deref r.0.heap q ≡ deref s.heap q)
            ⊎ ((contains queue q ≡ true) × Signs now s.heap r.0.heap q))
      × ((k : ℕ) → find r.0.committed_blks k ≡ latest s.heap queue k (find s.committed_blks k))
      × (r.0.pb_merge_queue ≡ [])
      × (r.1 ≡ returned)

  module _ (s : Server Bytes Key) (p : Ptr) (b : Block) (sig : Signature)
      (d : deref s.heap p ≡ some b) where
    abbrev after : Server Bytes Key
    after =
        commit_block conf codec bls now s p
          (committed (record b { tss_sig = some sig }) (now b.header.id))

    commit_block-Mergeable :
        (q : Ptr)
        → Signed [] b.votes
        → conf.client_count ≤ length b.votes
        → Mergeable conf.client_count s.heap q
        → Mergeable conf.client_count after.heap q
    unfolding commit_block committed
    commit_block-Mergeable q signed enough (a, e, signed', enough') =
        let b'' = committed (record b { tss_sig = some sig }) (now b.header.id) in
        let w = deref-write s.heap p b'' q (deref-lt-length s.heap p b d) in
        elim (Bool-cases (p == q)) [
          | inl hit ↦ (b'', ground (arith, w), signed, enough)
          | inr miss ↦ (a, ground (arith, w), signed', enough')
        ]

    -- What the store leads to after the commit.
    deref-after :
        (q : Ptr)
        → deref after.heap q ≡ (
            if p == q
            then some (committed (record b { tss_sig = some sig }) (now b.header.id))
            else deref s.heap q)
    unfolding commit_block
    deref-after q =
        deref-write s.heap p (committed (record b { tss_sig = some sig }) (now b.header.id)) q
          (deref-lt-length s.heap p b d)

    Signs-after : (h' : List Block) (q : Ptr) → Signs now after.heap h' q → Signs now s.heap h' q
    unfolding committed
    Signs-after h' q (a, sig', e, f) = elim (Bool-cases (p == q)) [
      | inl hit ↦
          let same : committed (record b { tss_sig = some sig }) (now b.header.id) ≡ a =
            ground (arith, e, deref-after q, hit) in
          (
            b,
            sig',
            ground (arith, d, hit),
            subst
                (λ (x : Block).
                  deref h' q
                  ≡ some (committed (record x { tss_sig = some sig' }) (now x.header.id)))
                (sym same) f,
          )
      | inr miss ↦ (a, sig', ground (arith, e, deref-after q, miss), f)
    ]

    latest-after :
        (queue : List Ptr) (k : ℕ) (o : Option Ptr)
        → latest after.heap queue k o ≡ latest s.heap queue k o
    unfolding committed
    latest-after [] k o = refl
    latest-after (q ∷ queue) k o =
        latest-after queue k (take_over q k o (deref after.heap q))
        ∙ ap (latest s.heap queue k) (elim (Bool-cases (p == q)) [
          | inl hit ↦
              let new : deref after.heap q
                  ≡ some (committed (record b { tss_sig = some sig }) (now b.header.id)) =
                ground (arith, deref-after q, hit) in
              let old : some b ≡ deref s.heap q = ground (arith, d, hit) in
              ap (take_over q k o) new ∙ ap (take_over q k o) old
          | inr miss ↦ ap (take_over q k o) (ground (arith, deref-after q, miss))
        ])

    find-after :
        (k : ℕ) → find after.committed_blks k ≡ take_over p k (find s.committed_blks k) (some b)
    unfolding commit_block committed
    find-after k = find-assign s.committed_blks b.header.id p k

    -- The first block of the queue, and then the rest of it.
    Emptied-cons :
        (queue : List Ptr) (r : Server Bytes Key × Outcome)
        → Emptied after queue r
        → Emptied s (p ∷ queue) r
    unfolding contains
    Emptied-cons queue r (done, change, maps, empty, ret) = (
      (
        elim (change p) [
          | inl same ↦ (b, sig, d, ground (arith, same, deref-after p))
          | inr (mem, signs) ↦ Signs-after r.0.heap p signs
        ],
        All-map _ _ queue (Signs-after r.0.heap) done,
      ),
      λ q. elim (change q) [
        | inl same ↦ elim (Bool-cases (p == q)) [
          | inl hit ↦ inr (
            ground (arith, hit),
            (b, sig, ground (arith, d, hit), ground (arith, same, deref-after q, hit)),
          )
          | inr miss ↦ inl (ground (arith, same, deref-after q, miss))
        ]
        | inr (mem, signs) ↦ inr (ground (arith, mem), Signs-after r.0.heap q signs)
      ],
      λ k.
          maps k
          ∙ latest-after queue k (find after.committed_blks k)
          ∙ ap (latest s.heap queue k) (find-after k ∙ ap (take_over p k _) (sym d)),
      empty,
      ret,
    )

  merge_queue_drains :
      (s : Server Bytes Key) (queue : List Ptr)
      → All (Mergeable conf.client_count s.heap) queue
      → s.pb_merge_queue ≡ queue
      → Emptied s queue (merge_queue conf codec bls now s queue)
  unfolding merge_queue commit_block
  merge_queue_drains s [] a e = (tt, λ q. inl refl, λ k. refl, e, refl)
  merge_queue_drains s (p ∷ queue) ((b, d, signed, enough), a) e =
      let s' : Server Bytes Key = record s { pb_merge_queue = queue } in
      let (sig, turn) = commit_popped-eq s' p b signed enough in
      let rest : Server Bytes Key → Server Bytes Key × Outcome =
        λ t. merge_queue conf codec bls now t queue in
      let run =
        ap (λ o. and_then (commit_popped conf codec bls now s' p o) rest) d
        ∙ ap (λ r. and_then r rest) turn in
      subst (Emptied s (p ∷ queue)) (sym run) (
        Emptied-cons s' p b sig d queue (rest (after s' p b sig d)) (
          merge_queue_drains (after s' p b sig d) queue
            (All-map _ _ queue (λ q. commit_block-Mergeable s' p b sig d q signed enough) a) refl))

  -- Under the documented laws of the share sets of libBLS: if the blocks of the merge queue have
  -- at least `client-count` votes, of distinct signers, `TcServer::merge_votes` returns with the
  -- queue empty. Each block that stood in it has a signature and the time of the commit, and is as
  -- it was otherwise; every other block is as it was. The committed block of an id is the last one
  -- of this id in the queue, and where the queue has none, the one that was committed before.
  pub merge_votes_drains :
      (s : Server Bytes Key)
      → All (Mergeable conf.client_count s.heap) s.pb_merge_queue
      → let r = merge_votes conf codec bls now s in
        All (Signs now s.heap r.0.heap) s.pb_merge_queue
        × ((q : Ptr)
            → (deref r.0.heap q ≡ deref s.heap q)
              ⊎ ((contains s.pb_merge_queue q ≡ true) × Signs now s.heap r.0.heap q))
        × ((k : ℕ)
            → find r.0.committed_blks k
              ≡ latest s.heap s.pb_merge_queue k (find s.committed_blks k))
        × (r.0.pb_merge_queue ≡ [])
        × (r.1 ≡ returned)
  unfolding merge_votes
  merge_votes_drains s a = merge_queue_drains s s.pb_merge_queue a refl
