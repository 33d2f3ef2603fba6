-- ===== src/Client/Fetch.antt =====
-- The calls `PullPendingBlocks` and `GetBlocks` of include/client/tc-client-grpc.hpp. The response
-- of a call that failed is empty.
use mathlib.Core.List.{map}
use dchain.Prelude.{List, [], ◌∷◌, ◌++◌, Outcome, returned, thrown, faulted, for_each}
use dchain.Container.Assoc.{insert, erase}
use dchain.Entity.Block.{Block}
use dchain.Client.State.{Client}
use dchain.Wire.Codec.{Codec, decoded, invalid, aborted}

module _ {Bytes Key Db : Type 0} (codec : Codec Bytes) where
  -- One turn of the loop of `PullPendingBlocks` over its response.
  unfoldable pub add_header : Client Key Db → Bytes → Client Key Db × Outcome
  add_header c bytes = elim (codec.header_from_bytes bytes) [
    | invalid ↦ (c, thrown)
    | aborted ↦ (c, faulted)
    | decoded h ↦ (record c { pending_blkhdr = insert c.pending_blkhdr h.id h }, returned)
  ]

  unfoldable pub add_headers : Client Key Db → List Bytes → Client Key Db × Outcome
  unfolding add_header
  add_headers c pb_hdrs = for_each add_header c pb_hdrs

  -- The request of `GetBlocks`: every header of a block that is still to be fetched.
  unfoldable pub header_request : Client Key Db → List Bytes
  header_request c = map (λ e. codec.header_to_bytes e.1) c.pending_blkhdr

  -- A fetched block waits for its vote, and its header is dropped.
  unfoldable pub keep_block : Client Key Db → Block → Client Key Db
  keep_block c b = record c {
    pending_blks = c.pending_blks ++ b ∷ [];
    pending_blkhdr = erase c.pending_blkhdr b.header.id;
  }

  -- One turn of the loop of `GetBlocks` over its response.
  unfoldable pub add_block : Client Key Db → Bytes → Client Key Db × Outcome
  unfolding keep_block
  add_block c bytes = elim (codec.block_from_bytes bytes) [
    | invalid ↦ (c, thrown)
    | aborted ↦ (c, faulted)
    | decoded b ↦ (keep_block c b, returned)
  ]

  unfoldable pub add_blocks : Client Key Db → List Bytes → Client Key Db × Outcome
  unfolding add_block
  add_blocks c pb = for_each add_block c pb
