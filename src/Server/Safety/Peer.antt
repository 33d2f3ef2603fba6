-- ===== src/Server/Safety/Peer.antt =====
-- `RelayBlock` and `SPBcastCommit`.
use dchain.Prelude.{ℕ, refl, List, arith, length, Option-cases, inl, inr, All, for_each_correct_all}
use dchain.Container.Assoc.{find}
use dchain.Container.Heap.{alloc, deref-alloc}
use dchain.Entity.Block.{Block}
use dchain.Server.State.{Conf, Server}
use dchain.Server.Growth.{Extends-trans, alloc-Extends}
use dchain.Server.Invariant.{Safe, Points, heap-Inv, erase-Inv, assign-Inv, commit-Inv}
use dchain.Server.Peer.{
  store_block, relay_block_item, relay_block, commit_received, bcast_block, received, bcast_item,
  sp_bcast_commit,
}
use dchain.Server.Safety.Defs.{NoFault, Runs, returned-NoFault, thrown-NoFault}
use dchain.Wire.Codec.{Codec, Sound, Decoded-cases}

pub alloc-Points : (h : List Block) (b : Block) → Points (alloc h b) (length h) b.header.id
alloc-Points h b = (b, ground (arith, deref-alloc h b (length h)), refl)

module _ {Bytes Key : Type 0} (conf : Conf) (codec : Codec Bytes) (h₀ : List Block) where
  pub store_block-Safe :
      (s : Server Bytes Key) (b : Block)
      → Safe conf h₀ s
      → Safe conf h₀ (store_block conf codec s b)
  unfolding store_block
  store_block-Safe s b (x, v, i) =
      let y = alloc-Extends s.heap b in
      (
        Extends-trans x y,
        assign-Inv (heap-Inv v y) b.header.id (length s.heap) (alloc-Points s.heap b),
        i,
      )

  pub relay_block_item-Runs :
      (s : Server Bytes Key) (bytes : Bytes)
      → Safe conf h₀ s
      → Safe conf h₀ (relay_block_item conf codec s bytes).0
        × (Sound (codec.block_from_bytes bytes) → NoFault (relay_block_item conf codec s bytes).1)
  unfolding relay_block_item
  relay_block_item-Runs s bytes h = elim (Decoded-cases (codec.block_from_bytes bytes)) [
    | inl (b, e) ↦ rw (e, relay_block_item) (store_block-Safe s b h, λ sound. returned-NoFault)
    | inr (inl e) ↦ rw (e, relay_block_item) (h, λ sound. thrown-NoFault)
    | inr (inr e) ↦ rw (e, relay_block_item) (h, λ sound. absurd (sound refl))
  ]

  -- `RelayBlock` on a valid server, with bytes that are read without an abort, keeps the server
  -- valid and its blocks grown, and ends without a fault.
  pub relay_block-Runs :
      (s : Server Bytes Key) (blocks : List Bytes)
      → All (λ b. Sound (codec.block_from_bytes b)) blocks
      → Safe conf h₀ s
      → Runs conf h₀ (relay_block conf codec s blocks)
  unfolding relay_block
  relay_block-Runs s blocks sound h =
      for_each_correct_all (Safe conf h₀) NoFault (λ b. Sound (codec.block_from_bytes b))
        (relay_block_item conf codec) returned-NoFault
        (λ s' b ok h'. let (p, q) = relay_block_item-Runs s' b h' in (p, q ok)) s blocks sound h

  pub commit_received-Safe :
      (s : Server Bytes Key) (b : Block)
      → Safe conf h₀ s
      → Safe conf h₀ (commit_received conf codec s b)
  unfolding commit_received
  commit_received-Safe s b (x, v, i) =
      let y = alloc-Extends s.heap b in
      (
        Extends-trans x y,
        erase-Inv (commit-Inv (heap-Inv v y) b.header.id (length s.heap) (alloc-Points s.heap b))
            b.header.id,
        i,
      )

  bcast_block-Safe :
      (s : Server Bytes Key) (b : Block)
      → Safe conf h₀ s
      → Safe conf h₀ (bcast_block conf codec s b)
  unfolding bcast_block
  bcast_block-Safe s b h = elim (Option-cases (find s.pending_blks b.header.id)) [
    | inl e ↦ rw (e, bcast_block) h
    | inr (p, e) ↦ rw (e, bcast_block) (commit_received-Safe s b h)
  ]

  pub bcast_item-Runs :
      (now : ℕ → ℕ) (s : Server Bytes Key) (bytes : Bytes)
      → Safe conf h₀ s
      → Safe conf h₀ (bcast_item conf codec now s bytes).0
        × (Sound (codec.block_from_bytes bytes) → NoFault (bcast_item conf codec now s bytes).1)
  unfolding bcast_item
  bcast_item-Runs now s bytes h = elim (Decoded-cases (codec.block_from_bytes bytes)) [
    | inl (b, e) ↦
        rw (e, bcast_item)
          (bcast_block-Safe s (received b (now b.header.id)) h, λ sound. returned-NoFault)
    | inr (inl e) ↦ rw (e, bcast_item) (h, λ sound. thrown-NoFault)
    | inr (inr e) ↦ rw (e, bcast_item) (h, λ sound. absurd (sound refl))
  ]

  -- `SPBcastCommit` on a valid server, with bytes that are read without an abort, keeps the server
  -- valid and its blocks grown, and ends without a fault.
  pub sp_bcast_commit-Runs :
      (now : ℕ → ℕ) (s : Server Bytes Key) (blocks : List Bytes)
      → All (λ b. Sound (codec.block_from_bytes b)) blocks
      → Safe conf h₀ s
      → Runs conf h₀ (sp_bcast_commit conf codec now s blocks)
  unfolding sp_bcast_commit
  sp_bcast_commit-Runs now s blocks sound h =
      for_each_correct_all (Safe conf h₀) NoFault (λ b. Sound (codec.block_from_bytes b))
        (bcast_item conf codec now) returned-NoFault
        (λ s' b ok h'. let (p, q) = bcast_item-Runs now s' b h' in (p, q ok)) s blocks sound h
