-- ===== src/System/Intake.antt =====
-- The turns that make blocks and take them in, seen from the network.
use dchain.Prelude.{ℕ, ◌≡◌, sym, subst, arith, length, Option-cases, inl, inr}
use dchain.Container.Assoc.{find, All-assign}
use dchain.Container.OrdMap.{IsSorted}
use dchain.Container.Heap.{deref-alloc}
use dchain.Entity.Block.{Block}
use dchain.Server.State.{Conf, Server}
use dchain.Server.Growth.{Extends-refl, alloc-Extends}
use dchain.Server.Pack.{packed_block, pack_one}
use dchain.Server.Peer.{
  relay_block_item, store_block, bcast_item, bcast_block, commit_received, received,
}
use dchain.Server.Safety.Peer.{store_block-Safe, commit_received-Safe}
use dchain.Server.Safety.Commit.{pack_one-Safe}
use dchain.Wire.Codec.{Codec, decoded, Decoded-cases}
use dchain.Wire.Plan.{Plan, plan_of, IsPlan, KeepsPlans}
use dchain.System.Exchange.{Written}
use dchain.System.Holding.{Holds, Planned-alloc, committed-Extends, cast-Extends}

-- What is read of the bytes of a block has the block's plan, and its votes in order.
read_plan :
    {Bytes : Type 0} (codec : Codec Bytes)
    → KeepsPlans codec
    → (bytes : Bytes) (a b : Block) → bytes ≡ codec.block_to_bytes a
    → IsPlan (plan_of a)
    → codec.block_from_bytes bytes ≡ decoded b
    → (plan_of b ≡ plan_of a) × IsSorted b.votes
read_plan codec keeps bytes a b x w e =
    keeps a b w (subst (λ y. codec.block_from_bytes y ≡ decoded b) x e)

module _ {Bytes Key : Type 0} (conf : Conf) (codec : Codec Bytes) (P D : Plan → Type 0) where
  store_block-Holds :
      (s : Server Bytes Key) (b : Block)
      → P (plan_of b)
      → IsSorted b.votes
      → Holds conf P D s
      → Holds conf P D (store_block conf codec s b)
  unfolding store_block
  store_block-Holds s b p o h =
      let y = alloc-Extends s.heap b in
      let (_, v, i) =
        store_block-Safe conf codec s.heap s b (Extends-refl s.heap, h.valid.0, h.valid.1) in
      record {
        valid = (v, i);
        planned = Planned-alloc P s.heap b p o h.planned;
        committed = committed-Extends D D (λ plan d. d) s.committed_blks y h.committed;
        cast = cast-Extends D D (λ plan d. d) s.bcast_commit_blocks y h.cast;
      }

  commit_received-Holds :
      (s : Server Bytes Key) (b : Block)
      → P (plan_of b)
      → D (plan_of b)
      → IsSorted b.votes
      → Holds conf P D s
      → Holds conf P D (commit_received conf codec s b)
  unfolding commit_received
  commit_received-Holds s b p d o h =
      let y = alloc-Extends s.heap b in
      let (_, v, i) =
        commit_received-Safe conf codec s.heap s b (Extends-refl s.heap, h.valid.0, h.valid.1) in
      record {
        valid = (v, i);
        planned = Planned-alloc P s.heap b p o h.planned;
        committed =
            All-assign _ s.committed_blks b.header.id (length s.heap)
              (b, ground (arith, deref-alloc s.heap b (length s.heap)), d)
              (committed-Extends D D (λ plan d. d) s.committed_blks y h.committed);
        cast = cast-Extends D D (λ plan d. d) s.bcast_commit_blocks y h.cast;
      }

  bcast_block-Holds :
      (s : Server Bytes Key) (b : Block)
      → P (plan_of b)
      → D (plan_of b)
      → IsSorted b.votes
      → Holds conf P D s
      → Holds conf P D (bcast_block conf codec s b)
  unfolding bcast_block
  bcast_block-Holds s b p d o h = elim (Option-cases (find s.pending_blks b.header.id)) [
    | inl e ↦ rw (e, bcast_block) h
    | inr (q, e) ↦ rw (e, bcast_block) (commit_received-Holds s b p d o h)
  ]

  module _ (fits : (plan : Plan) → P plan → IsPlan plan) (keeps : KeepsPlans codec) where
    pub relay_block_item-Holds :
        (s : Server Bytes Key) (bytes : Bytes)
        → Written codec P bytes
        → Holds conf P D s
        → Holds conf P D (relay_block_item conf codec s bytes).0
    unfolding relay_block_item
    relay_block_item-Holds s bytes (a, x, w) h =
        elim (Decoded-cases (codec.block_from_bytes bytes)) [
          | inl (b, e) ↦
              rw (e, relay_block_item)
                (let (same, o) = read_plan codec keeps bytes a b x (fits _ w) e in
                  store_block-Holds s b (subst P (sym same) w) o h)
          | inr (inl e) ↦ rw (e, relay_block_item) h
          | inr (inr e) ↦ rw (e, relay_block_item) h
        ]

    pub bcast_item-Holds :
        (now : ℕ → ℕ) (s : Server Bytes Key) (bytes : Bytes)
        → Written codec (λ plan. P plan × D plan) bytes
        → Holds conf P D s
        → Holds conf P D (bcast_item conf codec now s bytes).0
    unfolding bcast_item received
    bcast_item-Holds now s bytes (a, x, (p, d)) h =
        elim (Decoded-cases (codec.block_from_bytes bytes)) [
          | inl (b, e) ↦
              let (same, o) = read_plan codec keeps bytes a b x (fits _ p) e in
              rw (e, bcast_item)
                (bcast_block-Holds s (received b (now b.header.id)) (subst P (sym same) p)
                  (subst D (sym same) d) o h)
          | inr (inl e) ↦ rw (e, bcast_item) h
          | inr (inr e) ↦ rw (e, bcast_item) h
        ]

packed-IsSorted :
    {Bytes Key : Type 0} (s : Server Bytes Key) (num_tx now : ℕ)
    → IsSorted (packed_block s num_tx now).votes
unfolding packed_block
packed-IsSorted s num_tx now = tt

-- A round of `pack_block` proposes the new block and decides nothing.
pub pack_one-Holds :
    {Bytes Key : Type 0} (conf : Conf) (P P' D : Plan → Type 0) (s : Server Bytes Key)
    (num_tx now : ℕ)
    → ((plan : Plan) → P plan → P' plan)
    → P' (plan_of (packed_block s num_tx now))
    → Holds conf P D s
    → Holds conf P' D (pack_one s num_tx now)
unfolding pack_one
pack_one-Holds conf P P' D s num_tx now more new h =
    let b = packed_block s num_tx now in
    let y = alloc-Extends s.heap b in
    let (_, v, i) =
      pack_one-Safe conf s.heap (λ id. now) s num_tx now
        (Extends-refl s.heap, h.valid.0, h.valid.1) in
    record {
      valid = (v, i);
      planned =
          Planned-alloc P' s.heap b new (packed-IsSorted s num_tx now)
            (λ p c e. (more _ (h.planned p c e).0, (h.planned p c e).1));
      committed = committed-Extends D D (λ plan d. d) s.committed_blks y h.committed;
      cast = cast-Extends D D (λ plan d. d) s.bcast_commit_blocks y h.cast;
    }
