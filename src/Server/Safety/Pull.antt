-- ===== src/Server/Safety/Pull.antt =====
-- `PullPendingBlocks`, for a client that the server knows, and `GetBlocks`.
use dchain.Prelude.{
  ℕ, ◌≡◌, some, List, [], arith, All-map, for_each_correct, for_each_correct_all, Option-cases,
  Bool-cases, inl, inr, All, ◌∙◌, refl,
}
use dchain.Container.Assoc.{find, find-assign, All-find}
use dchain.Container.OrdSet.{contains}
use dchain.Container.Heap.{Ptr, deref}
use dchain.Entity.Block.{Block}
use dchain.Server.State.{Conf, Server, ClientProfile}
use dchain.Server.Growth.{Extends-refl, Extends-trans, write-Extends, record_dist_ts-Grows}
use dchain.Server.Invariant.{Safe, Live, Live-Extends, heap-Inv}
use dchain.Server.Pull.{
  Reply, see, record_dist_ts, offer, offer_found, pull_item, pull_pending_blocks, add_pb, get_found,
  get_item, get_blocks,
}
use dchain.Server.Safety.Defs.{NoFault, returned-NoFault, thrown-NoFault}
use dchain.Wire.Codec.{Codec, Sound, Decoded-cases}

-- The server has a profile for the client.
abbrev pub Knows : {Bytes Key : Type 0} → Server Bytes Key → ℕ → Type 0
Knows {Bytes} {Key} s client_id =
    (client : ClientProfile Bytes Key) × (find s.clients client_id ≡ some client)

module _ {Bytes Key : Type 0} (conf : Conf) (codec : Codec Bytes) (h₀ : List Block) where
  -- The blocks of a copy of the pending ones are still there, and the client is still known.
  abbrev pub Serving : ℕ → List Block → Reply Bytes Key → Type 0
  Serving client_id h r = Safe conf h₀ r.0 × Safe conf h r.0 × Knows r.0 client_id

  offer-Runs :
      (r : Reply Bytes Key) (now client_id : ℕ) (p : Ptr) (b : Block)
      (client : ClientProfile Bytes Key) (h : List Block)
      → deref r.0.heap p ≡ some b
      → Serving client_id h r
      → Serving client_id h (offer codec r now client_id p b client).0
        × NoFault (offer codec r now client_id p b client).1
  unfolding offer
  offer-Runs (s, resp) now client_id p b client h e ((x, v, i), (y, _, _), k) =
      elim (Option-cases (find client.seen_blocks b.header.id)) [
        | inl f ↦
            let z =
              write-Extends s.heap p b (record_dist_ts b now) e (record_dist_ts-Grows b now) in
            rw (f, offer)
              (
                (
                  (Extends-trans x z, heap-Inv v z, i),
                  (Extends-trans y z, heap-Inv v z, i),
                  (
                    see client b.header,
                    ground (arith, find-assign s.clients client_id (see client b.header) client_id),
                  ),
                ),
                returned-NoFault,
              )
        | inr (bh, f) ↦ rw (f, offer) (((x, v, i), (y, v, i), k), returned-NoFault)
      ]

  pub pull_item-Runs :
      (now : ℕ → ℕ) (client_id : ℕ) (h : List Block) (r : Reply Bytes Key) (e : ℕ × Ptr)
      → Live h e.1
      → Serving client_id h r
      → Serving client_id h (pull_item codec now client_id r e).0
        × NoFault (pull_item codec now client_id r e).1
  unfolding pull_item offer_found
  pull_item-Runs now client_id h (s, resp) (id, p) l (a, b, (client, k)) =
      let (blk, d) = Live-Extends p b.0 l in
      elim (Bool-cases (contains s.pb_sync_labels id)) [
        | inl synced ↦
            rw (synced, d, k)
              (offer-Runs (s, resp) (now id) client_id p blk client h d (a, b, (client, k)))
        | inr hidden ↦ rw hidden ((a, b, (client, k)), returned-NoFault)
      ]

  -- `PullPendingBlocks` on a valid server, for a client that the server has a profile for, keeps
  -- the server valid and its blocks grown, and ends without a fault.
  pub pull_pending_blocks-Runs :
      (now : ℕ → ℕ) (s : Server Bytes Key) (client_id : ℕ)
      → Knows s client_id
      → Safe conf h₀ s
      → Safe conf h₀ (pull_pending_blocks codec now s client_id).0.0
        × NoFault (pull_pending_blocks codec now s client_id).1
  unfolding pull_pending_blocks
  pull_pending_blocks-Runs now s client_id k (x, v, i) =
      let (p, q) =
        for_each_correct_all (Serving client_id s.heap) NoFault (λ e. Live s.heap e.1)
          (pull_item codec now client_id) returned-NoFault (pull_item-Runs now client_id s.heap)
          (s, []) s.pending_blks
          (All-map _ _ s.pending_blks (λ e (b, d, _). (b, d)) v.pending_points)
          ((x, v, i), (Extends-refl s.heap, v, i), k) in
      (p.0, q)

  get_item-Runs :
      (r : Reply Bytes Key) (bytes : Bytes)
      → Sound (codec.header_from_bytes bytes)
      → Safe conf h₀ r.0
      → Safe conf h₀ (get_item codec r bytes).0.0 × NoFault (get_item codec r bytes).1
  unfolding get_item get_found add_pb
  get_item-Runs (s, resp) bytes sound (x, v, i) =
      elim (Decoded-cases (codec.header_from_bytes bytes)) [
        | inl (hd, e) ↦ elim (Option-cases (find s.pending_blks hd.id)) [
          | inl f ↦ rw (e, get_item, f) ((x, v, i), returned-NoFault)
          | inr (p, f) ↦
              let (b, d, _) = All-find _ s.pending_blks hd.id p v.pending_points f in
              rw (e, get_item, f, d) ((x, v, i), returned-NoFault)
        ]
        | inr (inl e) ↦ rw (e, get_item) ((x, v, i), thrown-NoFault)
        | inr (inr e) ↦ absurd (sound e)
      ]

  -- `GetBlocks` on a valid server, with bytes that are read without an abort, leaves a valid server
  -- whose blocks have grown, and ends without a fault.
  pub get_blocks-Runs :
      (s : Server Bytes Key) (pb_hdrs : List Bytes)
      → All (λ h. Sound (codec.header_from_bytes h)) pb_hdrs
      → Safe conf h₀ s
      → Safe conf h₀ (get_blocks codec s pb_hdrs).0.0 × NoFault (get_blocks codec s pb_hdrs).1
  unfolding get_blocks
  get_blocks-Runs s pb_hdrs sound h =
      for_each_correct_all (λ r. Safe conf h₀ r.0) NoFault (λ h. Sound (codec.header_from_bytes h))
        (get_item codec) returned-NoFault get_item-Runs (s, []) pb_hdrs sound h

  get_item-state : (r : Reply Bytes Key) (bytes : Bytes) → (get_item codec r bytes).0.0 ≡ r.0
  unfolding get_item get_found add_pb
  get_item-state (s, resp) bytes = ground arith

  -- Whatever the bytes, the state is the same.
  pub get_blocks-state :
      (s : Server Bytes Key) (pb_hdrs : List Bytes) → (get_blocks codec s pb_hdrs).0.0 ≡ s
  unfolding get_blocks
  get_blocks-state s pb_hdrs =
      (for_each_correct (λ r. r.0 ≡ s) (λ o. Unit {0}) (get_item codec) tt
        (λ r bytes e. (get_item-state r bytes ∙ e, tt)) (s, []) pb_hdrs refl).0
