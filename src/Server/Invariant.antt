-- ===== src/Server/Invariant.antt =====
-- What holds of the maps, the queues and the shared blocks of a server between any two turns of its
-- loops, and how each change of a field keeps it.
use dchain.Prelude.{
  ℕ, ◌≤◌, ◌≡◌, ◌∙◌, some, List, [], ◌∷◌, ◌++◌, arith, length, All, All-append, All-map,
}
use dchain.Container.Assoc.{
  Assoc, assign, erase, adjust, adjust_all, All-assign, All-erase, All-adjust, All-adjust_all,
}
use dchain.Container.Heap.{Ptr, deref}
use dchain.Entity.Block.{Block, BlockVote}
use dchain.Server.State.{Conf, Server}
use dchain.Server.Growth.{Extends}
use dchain.Server.Queues.{PeerQueues, PeerQueues-adjust, PeerQueues-adjust_all}

-- The pointer leads to a block of this id.
abbrev pub Points : List Block → Ptr → ℕ → Type 0
Points h p id = (b : Block) × (deref h p ≡ some b) × (b.header.id ≡ id)

-- The pointer leads to a block.
abbrev pub Live : List Block → Ptr → Type 0
Live h p = (b : Block) × (deref h p ≡ some b)

-- The pointer leads to a block with at least `n` votes.
abbrev pub Quorate : ℕ → List Block → Ptr → Type 0
Quorate n h p = (b : Block) × (deref h p ≡ some b) × (n ≤ length b.votes)

-- A map from ids leads to blocks of these ids.
abbrev pub PointsAll : List Block → Assoc Ptr → Type 0
PointsAll h m = All (λ e. Points h e.1 e.0) m

-- The queues of a map hold pointers to blocks.
abbrev pub LiveAll : List Block → Assoc (List Ptr) → Type 0
LiveAll h m = All (λ e. All (Live h) e.1) m

-- `pending`, `done` and the queues point to blocks, the two maps to blocks of the key's id; a
-- block to merge has `client-count` votes; every other server has its three queues.
pub record Inv (conf : Conf) (heap : List Block) (pending done : Assoc Ptr) (merging : List Ptr)
    (votes : Assoc (List BlockVote)) (relay cast : Assoc (List Ptr)) : Type 0 where
  pub pending_points : PointsAll heap pending
  pub committed_points : PointsAll heap done
  pub merging_quorate : All (Quorate conf.client_count heap) merging
  pub peer_queues : PeerQueues conf.server_count conf.server_id votes
  pub relay_live : LiveAll heap relay
  pub cast_live : LiveAll heap cast
  pub relay_queues : PeerQueues conf.server_count conf.server_id relay
  pub cast_queues : PeerQueues conf.server_count conf.server_id cast

abbrev pub State : {Bytes Key : Type 0} → Conf → Server Bytes Key → Type 0
State conf s =
    Inv conf s.heap s.pending_blks s.committed_blks s.pb_merge_queue s.relay_votes s.relay_blocks
      s.bcast_commit_blocks

abbrev pub IsValid : {Bytes Key : Type 0} → Conf → Server Bytes Key → Type 0
IsValid conf s = State conf s × (s.server_id ≡ conf.server_id)

-- Valid, and reached from a state with the blocks `h₀`, which have only grown.
abbrev pub Safe : {Bytes Key : Type 0} → Conf → List Block → Server Bytes Key → Type 0
Safe conf h₀ s = Extends h₀ s.heap × State conf s × (s.server_id ≡ conf.server_id)

pub Points-Extends : {h h' : List Block} (p id : ℕ) → Extends h h' → Points h p id → Points h' p id
Points-Extends p id x (b, e, i) = let (b', e', g) = x.at p b e in (b', e', g.same_id ∙ i)

pub Live-Extends : {h h' : List Block} (p : Ptr) → Extends h h' → Live h p → Live h' p
Live-Extends p x (b, e) = let (b', e', g) = x.at p b e in (b', e')

Quorate-Extends :
    (n : ℕ) {h h' : List Block} (p : Ptr) → Extends h h' → Quorate n h p → Quorate n h' p
Quorate-Extends n p x (b, e, l) =
    let (b', e', g) = x.at p b e in (b', e', ground (arith, g.more_votes))

module _ {conf : Conf} {h : List Block} {pend done : Assoc Ptr} {mer : List Ptr}
    {vot : Assoc (List BlockVote)} {rel cas : Assoc (List Ptr)}
    (v : Inv conf h pend done mer vot rel cas) where
  pub heap-Inv : {h' : List Block} → Extends h h' → Inv conf h' pend done mer vot rel cas
  heap-Inv {h'} x = record {
    pending_points = All-map _ _ pend (λ e. Points-Extends e.1 e.0 x) v.pending_points;
    committed_points = All-map _ _ done (λ e. Points-Extends e.1 e.0 x) v.committed_points;
    merging_quorate =
        All-map _ _ mer (λ p. Quorate-Extends conf.client_count p x) v.merging_quorate;
    peer_queues = v.peer_queues;
    relay_live = All-map _ _ rel (λ e. All-map _ _ e.1 (λ p. Live-Extends p x)) v.relay_live;
    cast_live = All-map _ _ cas (λ e. All-map _ _ e.1 (λ p. Live-Extends p x)) v.cast_live;
    relay_queues = v.relay_queues;
    cast_queues = v.cast_queues;
  }

  pub erase-Inv : (id : ℕ) → Inv conf h (erase pend id) done mer vot rel cas
  erase-Inv id = record {
    pending_points = All-erase _ pend id v.pending_points;
    committed_points = v.committed_points;
    merging_quorate = v.merging_quorate;
    peer_queues = v.peer_queues;
    relay_live = v.relay_live;
    cast_live = v.cast_live;
    relay_queues = v.relay_queues;
    cast_queues = v.cast_queues;
  }

  pub assign-Inv : (id p : ℕ) → Points h p id → Inv conf h (assign pend id p) done mer vot rel cas
  assign-Inv id p pt = record {
    pending_points = All-assign _ pend id p pt v.pending_points;
    committed_points = v.committed_points;
    merging_quorate = v.merging_quorate;
    peer_queues = v.peer_queues;
    relay_live = v.relay_live;
    cast_live = v.cast_live;
    relay_queues = v.relay_queues;
    cast_queues = v.cast_queues;
  }

  pub commit-Inv : (id p : ℕ) → Points h p id → Inv conf h pend (assign done id p) mer vot rel cas
  commit-Inv id p pt = record {
    pending_points = v.pending_points;
    committed_points = All-assign _ done id p pt v.committed_points;
    merging_quorate = v.merging_quorate;
    peer_queues = v.peer_queues;
    relay_live = v.relay_live;
    cast_live = v.cast_live;
    relay_queues = v.relay_queues;
    cast_queues = v.cast_queues;
  }

  pub merge_push-Inv :
      (p : Ptr) → Quorate conf.client_count h p → Inv conf h pend done (mer ++ p ∷ []) vot rel cas
  merge_push-Inv p q = record {
    pending_points = v.pending_points;
    committed_points = v.committed_points;
    merging_quorate = All-append _ mer (p ∷ []) v.merging_quorate (q, tt);
    peer_queues = v.peer_queues;
    relay_live = v.relay_live;
    cast_live = v.cast_live;
    relay_queues = v.relay_queues;
    cast_queues = v.cast_queues;
  }

  pub relay_vote-Inv :
      (target : ℕ) (f : List BlockVote → List BlockVote)
      → Inv conf h pend done mer (adjust vot target f) rel cas
  relay_vote-Inv target f = record {
    pending_points = v.pending_points;
    committed_points = v.committed_points;
    merging_quorate = v.merging_quorate;
    peer_queues = PeerQueues-adjust conf.server_count conf.server_id vot target f v.peer_queues;
    relay_live = v.relay_live;
    cast_live = v.cast_live;
    relay_queues = v.relay_queues;
    cast_queues = v.cast_queues;
  }

  pub relay_push-Inv :
      (p : Ptr) → Live h p → Inv conf h pend done mer vot (adjust_all rel (λ q. q ++ p ∷ [])) cas
  relay_push-Inv p l = record {
    pending_points = v.pending_points;
    committed_points = v.committed_points;
    merging_quorate = v.merging_quorate;
    peer_queues = v.peer_queues;
    relay_live = All-adjust_all _ rel _ (λ k q a. All-append _ q (p ∷ []) a (l, tt)) v.relay_live;
    cast_live = v.cast_live;
    relay_queues = PeerQueues-adjust_all conf.server_count conf.server_id rel _ v.relay_queues;
    cast_queues = v.cast_queues;
  }

  pub cast_push-Inv :
      (p : Ptr) → Live h p → Inv conf h pend done mer vot rel (adjust_all cas (λ q. q ++ p ∷ []))
  cast_push-Inv p l = record {
    pending_points = v.pending_points;
    committed_points = v.committed_points;
    merging_quorate = v.merging_quorate;
    peer_queues = v.peer_queues;
    relay_live = v.relay_live;
    cast_live = All-adjust_all _ cas _ (λ k q a. All-append _ q (p ∷ []) a (l, tt)) v.cast_live;
    relay_queues = v.relay_queues;
    cast_queues = PeerQueues-adjust_all conf.server_count conf.server_id cas _ v.cast_queues;
  }

  pub relay_pop-Inv : (target : ℕ) → Inv conf h pend done mer vot (adjust rel target (λ _. [])) cas
  relay_pop-Inv target = record {
    pending_points = v.pending_points;
    committed_points = v.committed_points;
    merging_quorate = v.merging_quorate;
    peer_queues = v.peer_queues;
    relay_live = All-adjust _ rel target _ (λ k q a. tt) v.relay_live;
    cast_live = v.cast_live;
    relay_queues = PeerQueues-adjust conf.server_count conf.server_id rel target _ v.relay_queues;
    cast_queues = v.cast_queues;
  }

  pub cast_pop-Inv : (target : ℕ) → Inv conf h pend done mer vot rel (adjust cas target (λ _. []))
  cast_pop-Inv target = record {
    pending_points = v.pending_points;
    committed_points = v.committed_points;
    merging_quorate = v.merging_quorate;
    peer_queues = v.peer_queues;
    relay_live = v.relay_live;
    cast_live = All-adjust _ cas target _ (λ k q a. tt) v.cast_live;
    relay_queues = v.relay_queues;
    cast_queues = PeerQueues-adjust conf.server_count conf.server_id cas target _ v.cast_queues;
  }

-- The block at the front of the merge queue is popped.
pub merge_pop-Inv :
    {conf : Conf} {h : List Block} {pend done : Assoc Ptr} {p : Ptr} {mer : List Ptr}
    {vot : Assoc (List BlockVote)} {rel cas : Assoc (List Ptr)}
    → Inv conf h pend done (p ∷ mer) vot rel cas
    → Inv conf h pend done mer vot rel cas
merge_pop-Inv v = record {
  pending_points = v.pending_points;
  committed_points = v.committed_points;
  merging_quorate = v.merging_quorate.1;
  peer_queues = v.peer_queues;
  relay_live = v.relay_live;
  cast_live = v.cast_live;
  relay_queues = v.relay_queues;
  cast_queues = v.cast_queues;
}
