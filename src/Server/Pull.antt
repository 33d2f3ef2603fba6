-- ===== src/Server/Pull.antt =====
-- The handlers `PullPendingBlocks` and `GetBlocks` of include/server/tc-server-grpc.hpp. An
-- iteration reads the clock; `now` gives the reading at the turn of each block id.
use dchain.Prelude.{
  ℕ, Option, none, some, List, [], ◌∷◌, ◌++◌, ◌==◌, if◌then◌else◌, Outcome, returned, thrown,
  faulted, for_each,
}
use dchain.Container.Assoc.{find, insert, assign}
use dchain.Container.Heap.{Ptr, deref, write}
use dchain.Container.OrdSet.{contains}
use dchain.Entity.Block.{Block, BlockHeader}
use dchain.Server.State.{Server, ClientProfile}
use dchain.Wire.Codec.{Codec, decoded, invalid, aborted}

-- `if (blk->header_.dist_ts_ == 0) blk->header_.dist_ts_ = now_ms`
unfoldable pub record_dist_ts : Block → ℕ → Block
record_dist_ts b now =
    if b.header.dist_ts == 0 then record b { header = record b.header { dist_ts = now } } else b

-- The state, and the headers or blocks that the response holds so far.
abbrev pub Reply : Type 0 → Type 0 → Type 0
Reply Bytes Key = Server Bytes Key × List Bytes

-- `seen_blocks.insert(std::make_pair(id, header))` on the client's profile
unfoldable pub see :
    {Bytes Key : Type 0} → ClientProfile Bytes Key → BlockHeader → ClientProfile Bytes Key
see client h = record client { seen_blocks = insert client.seen_blocks h.id h }

module _ {Bytes Key : Type 0} (codec : Codec Bytes) where
  open codec use {header_to_bytes, header_from_bytes, block_to_bytes}

  -- A client that has not seen the block yet gets its header, as it was before `dist_ts_` is set.
  unfoldable pub offer :
      Reply Bytes Key → ℕ → ℕ → Ptr → Block → ClientProfile Bytes Key → Reply Bytes Key × Outcome
  unfolding see record_dist_ts
  offer (s, resp) now client_id p b client = elim (find client.seen_blocks b.header.id) [
    | some _ ↦ ((s, resp), returned)
    | none ↦ (
      (
        record s {
          clients = assign s.clients client_id (see client b.header);
          heap = write s.heap p (record_dist_ts b now);
        },
        resp ++ header_to_bytes b.header ∷ [],
      ),
      returned,
    )
  ]

  -- `iter->second` and the accessor of the client are followed without a check.
  unfoldable pub offer_found :
      Reply Bytes Key
      → ℕ
      → ℕ
      → Ptr
      → Option Block
      → Option (ClientProfile Bytes Key)
      → Reply Bytes Key × Outcome
  unfolding offer
  offer_found r now client_id p (some b) (some client) = offer r now client_id p b client
  offer_found r now client_id p _ _ = (r, faulted)

  -- One iteration of the loop of `PullPendingBlocks`.
  unfoldable pub pull_item : (ℕ → ℕ) → ℕ → Reply Bytes Key → ℕ × Ptr → Reply Bytes Key × Outcome
  unfolding offer_found
  pull_item now client_id (s, resp) (id, p) =
      if contains s.pb_sync_labels id
      then offer_found (s, resp) (now id) client_id p (deref s.heap p) (find s.clients client_id)
      else ((s, resp), returned)

  -- `PullPendingBlocks`: the loop goes over a copy of the pending blocks.
  unfoldable pub pull_pending_blocks : (ℕ → ℕ) → Server Bytes Key → ℕ → Reply Bytes Key × Outcome
  unfolding pull_item
  pull_pending_blocks now s client_id = for_each (pull_item now client_id) (s, []) s.pending_blks

  -- `response->add_pb` of the block behind a pointer
  unfoldable pub add_pb : Reply Bytes Key → Option Block → Reply Bytes Key × Outcome
  add_pb r none = (r, faulted)
  add_pb (s, resp) (some b) = ((s, resp ++ block_to_bytes b ∷ []), returned)

  -- One iteration of the loop of `GetBlocks`, its header decoded.
  unfoldable pub get_found : Reply Bytes Key → Option Ptr → Reply Bytes Key × Outcome
  unfolding add_pb
  get_found r none = (r, returned)
  get_found (s, resp) (some p) = add_pb (s, resp) (deref s.heap p)

  -- One iteration of the loop of `GetBlocks`.
  unfoldable pub get_item : Reply Bytes Key → Bytes → Reply Bytes Key × Outcome
  unfolding get_found
  get_item (s, resp) bytes = elim (header_from_bytes bytes) [
    | invalid ↦ ((s, resp), thrown)
    | aborted ↦ ((s, resp), faulted)
    | decoded h ↦ get_found (s, resp) (find s.pending_blks h.id)
  ]

  -- `GetBlocks`
  unfoldable pub get_blocks : Server Bytes Key → List Bytes → Reply Bytes Key × Outcome
  unfolding get_item
  get_blocks s pb_hdrs = for_each get_item (s, []) pb_hdrs
