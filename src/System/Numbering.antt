-- ===== src/System/Numbering.antt =====
-- Which ids the packed blocks get, and what leaves the generator of ids alone.
use dchain.Prelude.{
  ℕ, ◌+◌, ◌*◌, ◌%◌, ◌≡◌, refl, sym, ◌∙◌, ap, subst, some, List, [], ◌∷◌, ◌++◌, ◌==◌, ==→eq, eq→==,
  arith, length, get_elem?, add64, u64_mod, Bool-cases, inl, inr,
}
use dchain.Container.Heap.{deref-alloc, length-alloc, deref-lt-length}
use dchain.Server.State.{Conf, Server}
use dchain.Server.Pack.{packed_block, pack_one}
use dchain.Server.Peer.{relay_block_item, store_block, bcast_item, bcast_block, commit_received}
use dchain.Server.Send.{
  Message, relay_block_call, relay_queue, bcast_commit_call, commit_queue, send_some,
}
use dchain.Wire.Codec.{Codec}
use dchain.Wire.Plan.{Plan, IsPlan}
use dchain.System.Network.{Net, put}
use dchain.System.Consistent.{Proposed, Numbered}

-- A new plan comes after the others, which keep their numbers.
pub Proposed-more :
    (plans : List Plan) (new plan : Plan) → Proposed plans plan → Proposed (plans ++ new ∷ []) plan
Proposed-more plans new plan (i, e) =
    (i, ground (arith, e, deref-alloc plans new i, deref-lt-length plans i plan e))

pub Numbered-more :
    (conf : Conf) (plans : List Plan) (new : Plan)
    → Numbered conf plans
    → IsPlan new
    → new.id ≡ (conf.server_count * 1000000 + length plans) % u64_mod
    → Numbered conf (plans ++ new ∷ [])
Numbered-more conf plans new numbered w e i plan f = elim (Bool-cases (length plans == i)) [
  | inl hit ↦
      let same : new ≡ plan = ground (arith, f, deref-alloc plans new i) in
      (
        subst IsPlan same w,
        subst (λ j. plan.id ≡ (conf.server_count * 1000000 + j) % u64_mod)
            (==→eq (length plans) i hit) (sym (ap (λ q. q.id) same) ∙ e),
      )
  | inr miss ↦ numbered i plan (ground (arith, f, deref-alloc plans new i))
]

pub newest :
    (plans : List Plan) (new : Plan) → get_elem? (plans ++ new ∷ []) (length plans) ≡ some new
newest plans new = ground (arith, deref-alloc plans new (length plans))

-- The generator counts on, and wraps around.
pub next_id :
    (n generator : ℕ) (plans : List Plan) (new : Plan)
    → generator ≡ (n * 1000000 + length plans) % u64_mod
    → add64 generator 1 ≡ (n * 1000000 + length (plans ++ new ∷ [])) % u64_mod
next_id n generator plans new e = omega (arith, e, length-alloc plans new)

module _ {Bytes Key : Type 0} where
  pub put_own :
      (net : Net Bytes Key) (k : ℕ) (t : Server Bytes Key) (ms : List (ℕ × Message Bytes))
      → (put net k (t, ms)).servers k ≡ t
  put_own net k t ms = rw (eq→== k k refl) refl

  pub packed_id :
      (s : Server Bytes Key) (num_tx now : ℕ)
      → (packed_block s num_tx now).header.id ≡ s.blk_seq_generator
  unfolding packed_block
  packed_id s num_tx now = refl

  pub pack_one-generator :
      (s : Server Bytes Key) (num_tx now : ℕ)
      → (pack_one s num_tx now).blk_seq_generator ≡ add64 s.blk_seq_generator 1
  unfolding pack_one
  pack_one-generator s num_tx now = refl

module _ {Bytes Key : Type 0} (conf : Conf) (codec : Codec Bytes) where
  pub relay_block_call-generator :
      (s : Server Bytes Key) (k : ℕ)
      → (relay_block_call codec (s, []) k).0.0.blk_seq_generator ≡ s.blk_seq_generator
  unfolding relay_block_call relay_queue send_some
  relay_block_call-generator s k = ground arith

  pub bcast_commit_call-generator :
      (now : ℕ) (s : Server Bytes Key) (k : ℕ)
      → (bcast_commit_call codec now (s, []) k).0.0.blk_seq_generator ≡ s.blk_seq_generator
  unfolding bcast_commit_call commit_queue send_some
  bcast_commit_call-generator now s k = ground arith

  pub relay_block_item-generator :
      (s : Server Bytes Key) (bytes : Bytes)
      → (relay_block_item conf codec s bytes).0.blk_seq_generator ≡ s.blk_seq_generator
  unfolding relay_block_item store_block
  relay_block_item-generator s bytes = ground arith

  pub bcast_item-generator :
      (now : ℕ → ℕ) (s : Server Bytes Key) (bytes : Bytes)
      → (bcast_item conf codec now s bytes).0.blk_seq_generator ≡ s.blk_seq_generator
  unfolding bcast_item bcast_block commit_received
  bcast_item-generator now s bytes = ground arith
