-- ===== src/System/Holding.antt =====
-- What a server holds, seen from the network: each block is one that was proposed, and what it
-- commits, or tells the others to commit, was decided.
use dchain.Prelude.{
  zero, suc, ◌≤◌, ◌<◌, ◌≡◌, refl, sym, subst, some, List, [], ◌∷◌, ◌==◌, arith, length, get_elem?,
  All, All-map, All-append, Bool-cases, inl, inr,
}
use dchain.Container.Assoc.{Assoc, All-assign, All-adjust_all}
use dchain.Container.OrdMap.{IsSorted}
use dchain.Container.Heap.{Ptr, deref, alloc, deref-alloc, deref-lt-length}
use dchain.Entity.Block.{Block}
use dchain.Server.State.{Conf, Server}
use dchain.Server.Growth.{Extends, Extends-refl}
use dchain.Server.Invariant.{IsValid}
use dchain.Wire.Plan.{Plan, plan_of, Grows-plan_of}
use dchain.System.Change.{Change, still, commits}

-- The pointer leads to a block whose plan has the property.
abbrev pub Backed : (Plan → Type 0) → List Block → Ptr → Type 0
Backed D h p = (b : Block) × (deref h p ≡ some b) × D (plan_of b)

-- Every block has a plan with the property, and its votes in the order of their voters.
abbrev pub Planned : (Plan → Type 0) → List Block → Type 0
Planned P h = (p : Ptr) (b : Block) → deref h p ≡ some b → P (plan_of b) × IsSorted b.votes

-- With `P` for the plans that were proposed, and `D` for those that were decided.
pub record Holds {Bytes Key : Type 0} (conf : Conf) (P D : Plan → Type 0) (s : Server Bytes Key)
    : Type 0 where
  pub valid : IsValid conf s
  pub planned : Planned P s.heap
  pub committed : All (λ e. Backed D s.heap e.1) s.committed_blks
  pub cast : All (λ e. All (Backed D s.heap) e.1) s.bcast_commit_blocks

deref_there : (h : List Block) (p : Ptr) → p < length h → (b : Block) × (deref h p ≡ some b)
unfolding get_elem?
deref_there [] p l = absurd (omega arith)
deref_there (b ∷ h) zero l = (b, refl)
deref_there (b ∷ h) (suc p) l = deref_there h p (omega arith)

-- A block of a store that has as many blocks as before has the plan that it had, and keeps the
-- order of its votes.
old_block :
    (h h' : List Block) (p : Ptr) (b' : Block)
    → Extends h h'
    → length h' ≡ length h
    → deref h' p ≡ some b'
    → (b : Block) × (deref h p ≡ some b)
      × (plan_of b' ≡ plan_of b)
      × (IsSorted b.votes → IsSorted b'.votes)
old_block h h' p b' x l e =
    let (b, d) = deref_there h p (omega (arith, l, deref-lt-length h' p b' e)) in
    let (b'', d', g) = x.at p b d in
    let same : b'' ≡ b' = ground (arith, d', e) in
    (
      b,
      d,
      subst (λ c. plan_of c ≡ plan_of b) same (Grows-plan_of b b'' g),
      subst (λ c. IsSorted b.votes → IsSorted c.votes) same g.order_kept,
    )

Planned-Extends :
    (P : Plan → Type 0) (h h' : List Block)
    → Extends h h'
    → length h' ≡ length h
    → Planned P h
    → Planned P h'
Planned-Extends P h h' x l all p b' e =
    let (b, d, same, order) = old_block h h' p b' x l e in
    let (planned, sorted) = all p b d in (subst P (sym same) planned, order sorted)

pub Planned-alloc :
    (P : Plan → Type 0) (h : List Block) (b : Block)
    → P (plan_of b)
    → IsSorted b.votes
    → Planned P h
    → Planned P (alloc h b)
Planned-alloc P h b new sorted all p c e = elim (Bool-cases (length h == p)) [
  | inl hit ↦
      let same : b ≡ c = ground (arith, e, deref-alloc h b p) in
      subst (λ a. P (plan_of a) × IsSorted a.votes) same (new, sorted)
  | inr miss ↦ all p c (ground (arith, e, deref-alloc h b p))
]

module _ (D D' : Plan → Type 0) (more : (plan : Plan) → D plan → D' plan) where
  Backed-Extends : {h h' : List Block} (p : Ptr) → Extends h h' → Backed D h p → Backed D' h' p
  Backed-Extends p x (b, e, d) =
      let (b', e', g) = x.at p b e in (b', e', subst D' (sym (Grows-plan_of b b' g)) (more _ d))

  pub committed-Extends :
      {h h' : List Block} (m : Assoc Ptr)
      → Extends h h'
      → All (λ e. Backed D h e.1) m
      → All (λ e. Backed D' h' e.1) m
  committed-Extends m x a = All-map _ _ m (λ e. Backed-Extends e.1 x) a

  pub cast-Extends :
      {h h' : List Block} (m : Assoc (List Ptr))
      → Extends h h'
      → All (λ e. All (Backed D h) e.1) m
      → All (λ e. All (Backed D' h') e.1) m
  cast-Extends m x a = All-map _ _ m (λ e. All-map _ _ e.1 (λ p. Backed-Extends p x)) a

-- What holds stays so when more is proposed and decided.
pub Holds-more :
    {Bytes Key : Type 0} (conf : Conf) (P P' D D' : Plan → Type 0) (s : Server Bytes Key)
    → ((plan : Plan) → P plan → P' plan)
    → ((plan : Plan) → D plan → D' plan)
    → Holds conf P D s
    → Holds conf P' D' s
Holds-more conf P P' D D' s p d h = record {
  valid = h.valid;
  planned = λ q b e. (p _ (h.planned q b e).0, (h.planned q b e).1);
  committed = committed-Extends D D' d s.committed_blks (Extends-refl s.heap) h.committed;
  cast = cast-Extends D D' d s.bcast_commit_blocks (Extends-refl s.heap) h.cast;
}

-- A turn that keeps the server valid and its blocks grown, where the blocks that have their votes
-- are decided.
pub Change-Holds :
    {Bytes Key : Type 0} (conf : Conf) (P D D' : Plan → Type 0) (s t : Server Bytes Key)
    → ((plan : Plan) → D plan → D' plan)
    → ((p : Ptr) (b : Block)
        → deref t.heap p ≡ some b
        → conf.client_count ≤ length b.votes
        → IsSorted b.votes
        → D' (plan_of b))
    → Extends s.heap t.heap
    → IsValid conf t
    → Change conf s t
    → Holds conf P D s
    → Holds conf P D' t
Change-Holds conf P D D' s t more enough x v (still f) h = record {
  valid = v;
  planned = Planned-Extends P s.heap t.heap x f.same_count h.planned;
  committed =
      subst (All (λ e. Backed D' t.heap e.1)) (sym f.same_committed)
        (committed-Extends D D' more s.committed_blks x h.committed);
  cast =
      subst (All (λ e. All (Backed D' t.heap) e.1)) (sym f.same_cast)
        (cast-Extends D D' more s.bcast_commit_blocks x h.cast);
}
Change-Holds conf P D D' s t more enough x v (commits id p (b, e, l) c) h =
    let planned = Planned-Extends P s.heap t.heap x c.same_count h.planned in
    let backed : Backed D' t.heap p = (b, e, enough p b e l (planned p b e).1) in
    record {
      valid = v;
      planned = planned;
      committed = subst (All (λ e. Backed D' t.heap e.1)) (sym c.committed) (
          All-assign _ s.committed_blks id p backed
            (committed-Extends D D' more s.committed_blks x h.committed));
      cast = subst (All (λ e. All (Backed D' t.heap) e.1)) (sym c.cast) (
          All-adjust_all _ s.bcast_commit_blocks _ (λ k q a. All-append _ q (p ∷ []) a (backed, tt))
            (cast-Extends D D' more s.bcast_commit_blocks x h.cast));
    }
