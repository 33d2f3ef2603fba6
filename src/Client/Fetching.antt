-- ===== src/Client/Fetching.antt =====
-- What fetching blocks does to the client's stores.
use mathlib.Core.List.{map, append-nil, append_assoc}
use dchain.Prelude.{
  ℕ, ◌≡◌, refl, sym, ◌∙◌, Bool, false, none, List, [], ◌∷◌, ◌++◌, arith, All, ◌==◌, ◌||◌,
  if◌then◌else◌, returned, for_each,
}
use dchain.Container.Assoc.{find, find-erase}
use dchain.Entity.Block.{Block}
use dchain.Client.State.{Client}
use dchain.Client.Fetch.{keep_block, add_block, add_blocks}
use dchain.Wire.Codec.{Codec, decoded}

-- A block of the list has the id.
abbrev pub has_id : List Block → ℕ → Bool
has_id [] id = false
has_id (b ∷ bs) id = b.header.id == id || has_id bs id

-- The codec reads the block back from its bytes.
abbrev pub RoundTrips : {Bytes : Type 0} → Codec Bytes → Block → Type 0
RoundTrips codec b = codec.block_from_bytes (codec.block_to_bytes b) ≡ decoded b

module _ {Bytes Key Db : Type 0} (codec : Codec Bytes) where
  -- The response of `GetBlocks` with the bytes of blocks that the codec reads back: all of them
  -- join the end of the queue of blocks to vote for, in order, and the headers of their ids, and
  -- no others, are dropped.
  pub add_blocks_queues :
      (c : Client Key Db) (bs : List Block) (j : ℕ)
      → All (RoundTrips codec) bs
      → let r = add_blocks codec c (map codec.block_to_bytes bs) in
        (r.0.pending_blks ≡ c.pending_blks ++ bs)
        × (find r.0.pending_blkhdr j ≡ (if has_id bs j then none else find c.pending_blkhdr j))
        × (r.1 ≡ returned)
  unfolding add_blocks add_block keep_block for_each
  add_blocks_queues c [] j a = (sym (append-nil c.pending_blks), refl, refl)
  add_blocks_queues c (b ∷ bs) j (e, a) =
      let (q, h, ret) = add_blocks_queues (keep_block codec c b) bs j a in
      rw (e, add_block)
        (
          q ∙ append_assoc c.pending_blks (b ∷ []) bs,
          h ∙ ground (arith, find-erase c.pending_blkhdr b.header.id j),
          ret,
        )
