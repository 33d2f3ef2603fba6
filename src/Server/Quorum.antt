-- ===== src/Server/Quorum.antt =====
-- From the votes of the clients for one block to its commit.
use dchain.Prelude.{
  ℕ, ◌+◌, ◌<◌, ◌≡◌, refl, sym, ◌∙◌, ap, subst, none, some, [], ◌∷◌, ◌++◌, arith, length, Outcome,
  returned, All, ◌==◌, if◌then◌else◌, and_then_eq, for_each,
}
use dchain.Container.Assoc.{Assoc, find}
use dchain.Container.OrdMap
use dchain.Container.OrdMap.{IsSorted, Above, insert-IsSorted, length-insert, All-insert}
use dchain.Container.Heap.{Ptr, deref}
use dchain.Entity.Bls.{Signature, ShareSets, ShareSetLaws}
use dchain.Entity.Block.{Block, BlockVote}
use dchain.Entity.Signers.{OwnShare, sorted-Signed}
use dchain.Server.State.{Conf, Server}
use dchain.Server.Count.{add_vote, count_vote, vote_into}
use dchain.Server.Tally.{count_vote_found}
use dchain.Server.Commit.{committed, merge_votes}
use dchain.Server.Drained.{Mergeable, Signs, latest, take_over, merge_votes_drains}
use dchain.Wire.Codec.{Codec}

-- No voter of the list has a vote in the map, nor a second one in the list.
abbrev pub Fresh : Assoc BlockVote → Assoc BlockVote → Type 0
Fresh m [] = Unit
Fresh m ((voter, vote) ∷ votes) = (find m voter ≡ none) × Fresh (OrdMap.insert m voter vote) votes

-- The map with the votes of the list.
abbrev pub inserts : Assoc BlockVote → Assoc BlockVote → Assoc BlockVote
inserts m [] = m
inserts m ((voter, vote) ∷ votes) = inserts (OrdMap.insert m voter vote) votes

inserts_keep :
    (m votes : Assoc BlockVote)
    → IsSorted m
    → All OwnShare m
    → All OwnShare votes
    → Fresh m votes
    → IsSorted (inserts m votes)
      × All OwnShare (inserts m votes)
      × (length (inserts m votes) ≡ length m + length votes)
inserts_keep m [] s own o f = (s, own, omega arith)
inserts_keep m ((voter, vote) ∷ votes) s own (o, os) (f, fs) =
    let (s', own', l) =
      inserts_keep (OrdMap.insert m voter vote) votes (insert-IsSorted m voter vote s)
        (All-insert OwnShare m voter vote o own) os fs in
    (s', own', ground (arith, l, length-insert m voter vote, f))

length-add_vote :
    (b : Block) (voter : ℕ) (vote : BlockVote)
    → find b.votes voter ≡ none
    → length (add_vote b voter vote).votes ≡ length b.votes + 1
unfolding add_vote
length-add_vote b voter vote f = ground (arith, length-insert b.votes voter vote, f)

module _ {Bytes Key : Type 0} (conf : Conf) (id : ℕ) where
  -- The votes for one block, counted one after another.
  abbrev pub count_votes : Server Bytes Key → Assoc BlockVote → Server Bytes Key × Outcome
  count_votes s votes = for_each (λ t entry. count_vote conf t id entry.0 entry.1) s votes

  count_vote_returns :
      (s : Server Bytes Key) (voter : ℕ) (vote : BlockVote) (p : Ptr) (b : Block)
      → find s.pending_blks id ≡ some p
      → deref s.heap p ≡ some b
      → (count_vote conf s id voter vote).1 ≡ returned
  unfolding count_vote vote_into
  count_vote_returns s voter vote p b e d = ground (arith, e, d)

  abbrev Closed : Server Bytes Key → Ptr → Block → Server Bytes Key × Outcome → Type 0
  Closed s p b r =
      (deref r.0.heap p ≡ some b)
      × (find r.0.pending_blks id ≡ none)
      × (r.0.pb_merge_queue ≡ s.pb_merge_queue ++ p ∷ [])
      × (r.1 ≡ returned)

  module _ (s : Server Bytes Key) (p : Ptr) (b : Block) (voter : ℕ) (vote : BlockVote)
      (e : find s.pending_blks id ≡ some p) (d : deref s.heap p ≡ some b)
      (f : find b.votes voter ≡ none) where
    last_vote :
        length b.votes + 1 ≡ conf.client_count
        → Closed s p (add_vote b voter vote) (count_vote conf s id voter vote)
    last_vote c =
        let (stored, _, pend, queue) = count_vote_found conf s id voter vote p b id e d in
        let l = length-add_vote b voter vote f in
        (
          stored,
          ground (arith, pend, l, c),
          ground (arith, queue, l, c),
          count_vote_returns s voter vote p b e d,
        )

    early_vote :
        length b.votes + 1 < conf.client_count
        → let t = (count_vote conf s id voter vote).0 in
          (find t.pending_blks id ≡ some p)
          × (deref t.heap p ≡ some (add_vote b voter vote))
          × (t.pb_merge_queue ≡ s.pb_merge_queue)
    early_vote c =
        let (stored, _, pend, queue) = count_vote_found conf s id voter vote p b id e d in
        let l = length-add_vote b voter vote f in
        (ground (arith, pend, l, c, e), stored, ground (arith, queue, l, c))

  -- A pending block that lacks as many votes of the `client-count` as the list has, all of voters
  -- that have none yet, has all of them after they were counted, and stands, no longer pending,
  -- at the end of the merge queue.
  pub count_votes_closes :
      (s : Server Bytes Key) (p : Ptr) (b : Block) (votes : Assoc BlockVote)
      → find s.pending_blks id ≡ some p
      → deref s.heap p ≡ some b
      → Fresh b.votes votes
      → length b.votes < conf.client_count
      → length b.votes + length votes ≡ conf.client_count
      → Closed s p (record b { votes = inserts b.votes votes }) (count_votes s votes)
  unfolding for_each add_vote
  count_votes_closes s p b [] e d f l c = absurd (omega (arith, l, c))
  count_votes_closes s p b ((voter, vote) ∷ []) e d (f, fs) l c =
      subst (Closed s p (add_vote b voter vote))
        (sym (
          and_then_eq (count_vote conf s id voter vote) _
            (count_vote_returns s voter vote p b e d)))
        (let (x, y, z, w) = last_vote s p b voter vote e d f (omega (arith, c)) in (x, y, z, refl))
  count_votes_closes s p b ((voter, vote) ∷ next ∷ votes) e d (f, fs) l c =
      let t = (count_vote conf s id voter vote).0 in
      let (pend, stored, queue) = early_vote s p b voter vote e d f (omega (arith, c)) in
      let n = length-add_vote b voter vote f in
      let (x, y, z, w) =
        count_votes_closes t p (add_vote b voter vote) (next ∷ votes) pend stored fs
          (omega (arith, n, c)) (omega (arith, n, c)) in
      subst (Closed s p _)
        (sym (
          and_then_eq (count_vote conf s id voter vote) _
            (count_vote_returns s voter vote p b e d)))
        (x, y, z ∙ ap (λ q. q ++ p ∷ []) queue, w)

module _ {Bytes Key ShareSet : Type 0} (conf : Conf) (codec : Codec Bytes)
    (bls : ShareSets ShareSet) (laws : ShareSetLaws bls) (now : ℕ → ℕ) where
  -- Under the documented laws of the share sets of libBLS: in a server whose merge queue is empty,
  -- a pending block that lacks as many votes of the `client-count` as the list has, all of voters
  -- that have none yet, and all votes with shares of their voters, is no longer pending after these
  -- votes were counted, and `TcServer::merge_votes` then signs and commits it: under its pointer
  -- stands the block with all the votes, a signature and the time of the commit, the pointer is the
  -- committed one of its id, and no other id's changes. The merge queue is empty then, and nothing
  -- threw or faulted.
  pub count_votes-committed :
      (s : Server Bytes Key) (id : ℕ) (p : Ptr) (b : Block) (votes : Assoc BlockVote)
      → find s.pending_blks id ≡ some p
      → deref s.heap p ≡ some b
      → s.pb_merge_queue ≡ []
      → IsSorted b.votes
      → All OwnShare b.votes
      → All OwnShare votes
      → Fresh b.votes votes
      → length b.votes < conf.client_count
      → length b.votes + length votes ≡ conf.client_count
      → let counted = count_votes conf id s votes in
        let merged = merge_votes conf codec bls now counted.0 in
        (counted.1 ≡ returned)
        × (find counted.0.pending_blks id ≡ none)
        × (merged.1 ≡ returned)
        × (merged.0.pb_merge_queue ≡ [])
        × ((sig : Signature) × (deref merged.0.heap p
              ≡ some (
                  committed
                    (record b { votes = inserts b.votes votes; tss_sig = some sig })
                    (now b.header.id))))
        × ((k : ℕ)
            → find merged.0.committed_blks k
              ≡ (if b.header.id == k then some p else find counted.0.committed_blks k))
  count_votes-committed s id p b votes e d q sorted own owns f l c =
      let (stored, gone, queue, ret) = count_votes_closes conf id s p b votes e d f l c in
      let (sorted', own', l') = inserts_keep b.votes votes sorted own owns f in
      let t = (count_votes conf id s votes).0 in
      let full : Block = record b { votes = inserts b.votes votes } in
      let alone = queue ∙ ap (λ q. q ++ p ∷ []) q in
      let ready : Mergeable conf.client_count t.heap p =
        (full, stored, sorted-Signed (inserts b.votes votes) sorted' own', omega (arith, l', c)) in
      let r = merge_votes conf codec bls now t in
      let (done, _, maps, empty, ret') =
        merge_votes_drains conf codec bls laws now t
          (subst (All (Mergeable conf.client_count t.heap)) (sym alone) (ready, tt)) in
      let ((b', sig, e', f'), _) = subst (All (Signs now t.heap r.0.heap)) alone done in
      let same : b' ≡ full = ground (arith, e', stored) in
      (
        ret,
        gone,
        ret',
        empty,
        (
          sig,
          subst
              (λ (x : Block).
                deref r.0.heap p
                ≡ some (committed (record x { tss_sig = some sig }) (now x.header.id)))
              same f',
        ),
        λ k.
            maps k
            ∙ ap (λ queue. latest t.heap queue k (find t.committed_blks k)) alone
            ∙ ap (take_over p k (find t.committed_blks k)) stored,
      )
