-- ===== src/System/Exchange.antt =====
-- The turns that make blocks, hand them on and take them in, seen from the network.
use mathlib.Core.List.{map}
use dchain.Prelude.{
  ℕ, ◌≡◌, refl, subst, some, List, [], ◌∷◌, arith, All, All-map, Option-cases, inl, inr,
}
use dchain.Container.Assoc.{All-adjust, All-find}
use dchain.Container.Heap.{Ptr}
use dchain.Entity.Block.{Block}
use dchain.Server.State.{Conf, Server}
use dchain.Server.Invariant.{relay_pop-Inv, cast_pop-Inv}
use dchain.Server.Send.{
  Message, Sent, heartbeat, votes, blocks, commits, block_sync, deref_all, relay_block_call,
  relay_queue, bcast_commit_call, commit_queue, send_some,
}
use dchain.Server.Safety.Send.{IsPeer, send_some-state, deref_all-Live}
use dchain.Wire.Codec.{Codec}
use dchain.Wire.Plan.{Plan, plan_of}
use dchain.System.Holding.{Backed, Holds}

-- The bytes of a block whose plan has the property.
abbrev pub Written : {Bytes : Type 0} → Codec Bytes → (Plan → Type 0) → Bytes → Type 0
Written codec P bytes = (b : Block) × (bytes ≡ codec.block_to_bytes b) × P (plan_of b)

-- A request tells of blocks that were proposed, a commit also that they were decided.
abbrev Tells :
    {Bytes : Type 0} → Codec Bytes → (Plan → Type 0) → (Plan → Type 0) → Message Bytes → Type 0
Tells codec P D heartbeat = Unit
Tells codec P D (votes vs) = Unit
Tells codec P D (block_sync id) = Unit
Tells codec P D (blocks bs) = All (Written codec P) bs
Tells codec P D (commits bs at) = All (Written codec (λ plan. P plan × D plan)) bs

abbrev pub IsTold :
    {Bytes : Type 0} → Codec Bytes → (Plan → Type 0) → (Plan → Type 0) → ℕ × Message Bytes → Type 0
IsTold codec P D e = Tells codec P D e.1

Tells-more :
    {Bytes : Type 0} (codec : Codec Bytes) (P P' D D' : Plan → Type 0) (m : Message Bytes)
    → ((plan : Plan) → P plan → P' plan)
    → ((plan : Plan) → D plan → D' plan)
    → Tells codec P D m
    → Tells codec P' D' m
Tells-more codec P P' D D' heartbeat p d a = tt
Tells-more codec P P' D D' (votes vs) p d a = tt
Tells-more codec P P' D D' (block_sync id) p d a = tt
Tells-more codec P P' D D' (blocks bs) p d a = All-map _ _ bs (λ x (b, e, w). (b, e, p _ w)) a
Tells-more codec P P' D D' (commits bs at) p d a =
    All-map _ _ bs (λ x (b, e, w). (b, e, (p _ w.0, d _ w.1))) a

pub All-IsTold-more :
    {Bytes : Type 0} (codec : Codec Bytes) (P P' D D' : Plan → Type 0)
    (ms : List (ℕ × Message Bytes))
    → ((plan : Plan) → P plan → P' plan)
    → ((plan : Plan) → D plan → D' plan)
    → All (IsTold codec P D) ms
    → All (IsTold codec P' D') ms
All-IsTold-more codec P P' D D' ms p d a =
    All-map _ _ ms (λ m. Tells-more codec P P' D D' m.1 p d) a

-- What a queue of pointers to blocks writes.
deref_all-Written :
    {Bytes : Type 0} (codec : Codec Bytes) (P : Plan → Type 0) (h : List Block) (q : List Ptr)
    (bs : List Block)
    → All (Backed P h) q
    → deref_all h q ≡ some bs
    → All (Written codec P) (map codec.block_to_bytes bs)
unfolding deref_all
deref_all-Written codec P h [] bs a e =
    subst (λ l. All (Written codec P) (map codec.block_to_bytes l)) {x = []} {y = bs} (ground arith)
      tt
deref_all-Written codec P h (p ∷ q) bs ((b, e, w), a) f = elim (Option-cases (deref_all h q)) [
  | inl g ↦ absurd (ground (arith, e, g))
  | inr (cs, g) ↦
      subst (λ l. All (Written codec P) (map codec.block_to_bytes l)) {x = b ∷ cs} {y = bs}
        (ground (arith, e, g)) ((b, refl, w), deref_all-Written codec P h q cs a g)
]

-- An empty request is not sent, and one with blocks tells of them.
send_some-IsTold :
    {Bytes Key : Type 0} (codec : Codec Bytes) (P D Q : Plan → Type 0) (req : List Bytes)
    (message : List Bytes → Message Bytes) (target : ℕ) (s : Server Bytes Key)
    → ((bs : List Bytes) → All (Written codec Q) bs → Tells codec P D (message bs))
    → All (Written codec Q) req
    → All (IsTold codec P D) (send_some req message target (s, [])).1
unfolding send_some
send_some-IsTold codec P D Q [] message target s tell a = tt
send_some-IsTold codec P D Q (b ∷ bs) message target s tell a = (tell (b ∷ bs) a, tt)

module _ {Bytes Key : Type 0} (conf : Conf) (codec : Codec Bytes) (P D : Plan → Type 0) where
  -- a request with the blocks of a queue
  abbrev HoldsSent : Sent Bytes Key → Type 0
  HoldsSent r = Holds conf P D r.0 × All (IsTold codec P D) r.1

  pub relay_block_call-Holds :
      (s : Server Bytes Key) (k : ℕ)
      → IsPeer conf k
      → Holds conf P D s
      → HoldsSent (relay_block_call codec (s, []) k).0
  unfolding relay_block_call relay_queue
  relay_block_call-Holds s k (l, u, n) h =
      let (q, e) = h.valid.0.relay_queues k l u n in
      let live = All-find _ s.relay_blocks k q h.valid.0.relay_live e in
      let (bs, f) = deref_all-Live s.heap q live in
      let told =
        send_some-IsTold codec P D P (map codec.block_to_bytes bs) blocks k _ (λ req a. a)
          (deref_all-Written codec P s.heap q bs
            (All-map _ _ q (λ p (b, d). (b, d, (h.planned p b d).0)) live) f) in
      rw (e, relay_block_call, f, send_some-state)
        (
          record {
            valid = (relay_pop-Inv h.valid.0 k, h.valid.1);
            planned = h.planned;
            committed = h.committed;
            cast = h.cast;
          },
          told,
        )

  pub bcast_commit_call-Holds :
      (now : ℕ) (s : Server Bytes Key) (k : ℕ)
      → IsPeer conf k
      → Holds conf P D s
      → HoldsSent (bcast_commit_call codec now (s, []) k).0
  unfolding bcast_commit_call commit_queue
  bcast_commit_call-Holds now s k (l, u, n) h =
      let (q, e) = h.valid.0.cast_queues k l u n in
      let (bs, f) =
        deref_all-Live s.heap q (All-find _ s.bcast_commit_blocks k q h.valid.0.cast_live e) in
      let told =
        send_some-IsTold codec P D (λ plan. P plan × D plan) (map codec.block_to_bytes bs)
          (λ req. commits req now) k _ (λ req a. a)
          (deref_all-Written codec (λ plan. P plan × D plan) s.heap q bs
            (All-map _ _ q (λ p (b, d, w). (b, d, ((h.planned p b d).0, w)))
              (All-find _ s.bcast_commit_blocks k q h.cast e))
            f) in
      rw (e, bcast_commit_call, f, send_some-state)
        (
          record {
            valid = (cast_pop-Inv h.valid.0 k, h.valid.1);
            planned = h.planned;
            committed = h.committed;
            cast = All-adjust _ s.bcast_commit_blocks k _ (λ j q a. tt) h.cast;
          },
          told,
        )
