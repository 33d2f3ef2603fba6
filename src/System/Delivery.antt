-- ===== src/System/Delivery.antt =====
-- From `pack_block` on one server to the pending blocks of another, and from `merge_votes` to the
-- committed ones.
use dchain.Prelude.{
  ℕ, ◌≡◌, Bool, none, some, ◌≤◌, ◌-◌, ◌^◌, List, [], ◌∷◌, ◌++◌, arith, length, returned, for_each,
  All,
}
use dchain.Container.Assoc.{find, find-assign, find-erase, find-adjust_all}
use dchain.Container.Heap.{Ptr, deref, deref-alloc, deref-write, deref-lt-length}
use dchain.Entity.Bls.{SigShare, ShareSets}
use dchain.Entity.Block.{Block}
use dchain.Server.State.{Conf, Server}
use dchain.Server.Pack.{packed_block, pack_one}
use dchain.Server.Peer.{
  relay_block, relay_block_item, store_block, received, commit_received, bcast_block, bcast_item,
  sp_bcast_commit,
}
use dchain.Server.Commit.{commit_block}
use dchain.Server.Send.{
  Message, blocks, commits, deref_all, relay_block_call, relay_queue, send_some, bcast_commit_call,
  commit_queue,
}
use dchain.Wire.Codec.{Codec, decoded}
use dchain.Wire.Flex.{FlexBuffers, FlexLaws}
use dchain.Wire.Adapter.{adapter}
use dchain.Wire.RoundTrip.{IsWireBlock, block_from_bytes-block_to_bytes}
use dchain.Wire.Plan.{plan_of, IsPlan}

module _ {Bytes Key : Type 0} (codec : Codec Bytes) where
  -- A packed block is the request, if the queue was empty.
  relays :
      (s : Server Bytes Key) (num_tx now target : ℕ) (sent : List (ℕ × Message Bytes))
      → find s.relay_blocks target ≡ some []
      → let r = relay_block_call codec (pack_one s num_tx now, sent) target in
        (r.0.1
          ≡ sent ++ (target, blocks (codec.block_to_bytes (packed_block s num_tx now) ∷ [])) ∷ [])
        × (r.1 ≡ returned)
  unfolding relay_block_call relay_queue send_some pack_one deref_all
  relays s num_tx now target sent e =
      let b = packed_block s num_tx now in
      let p = length s.heap in
      let f = find-adjust_all s.relay_blocks (λ q. q ++ p ∷ []) target in
      let d = deref-alloc s.heap b p in (ground (arith, e, f, d), ground (arith, e, f, d))

  takes_in :
      (conf : Conf) (t : Server Bytes Key) (b : Block) (bytes : Bytes)
      → codec.block_from_bytes bytes ≡ decoded b
      → let r = relay_block conf codec t (bytes ∷ []) in
        (find r.0.pending_blks b.header.id ≡ some (length t.heap))
        × (deref r.0.heap (length t.heap) ≡ some b)
        × (r.1 ≡ returned)
  unfolding relay_block relay_block_item store_block for_each
  takes_in conf t b bytes e =
      let f = find-assign t.pending_blks b.header.id (length t.heap) b.header.id in
      let d = deref-alloc t.heap b (length t.heap) in
      (ground (arith, e, f), ground (arith, e, d), ground (arith, e))

  -- A block that was just committed is the request, if the queue was empty.
  broadcasts :
      {ShareSet : Type 0} (conf : Conf) (bls : ShareSets ShareSet) (now : ℕ → ℕ)
      (s : Server Bytes Key) (p : Ptr) (old b : Block) (at target : ℕ)
      (sent : List (ℕ × Message Bytes))
      → deref s.heap p ≡ some old
      → find s.bcast_commit_blocks target ≡ some []
      → let r = bcast_commit_call codec at (commit_block conf codec bls now s p b, sent) target in
        (r.0.1 ≡ sent ++ (target, commits (codec.block_to_bytes b ∷ []) at) ∷ []) × (r.1 ≡ returned)
  unfolding bcast_commit_call commit_queue send_some commit_block deref_all
  broadcasts conf bls now s p old b at target sent o e =
      let f = find-adjust_all s.bcast_commit_blocks (λ q. q ++ p ∷ []) target in
      let d = deref-write s.heap p b p (deref-lt-length s.heap p old o) in
      (ground (arith, e, f, d), ground (arith, e, f, d))

  commits_too :
      (conf : Conf) (now : ℕ → ℕ) (t : Server Bytes Key) (b : Block) (q : Ptr) (bytes : Bytes)
      → codec.block_from_bytes bytes ≡ decoded b
      → find t.pending_blks b.header.id ≡ some q
      → let r = sp_bcast_commit conf codec now t (bytes ∷ []) in
        (find r.0.committed_blks b.header.id ≡ some (length t.heap))
        × (deref r.0.heap (length t.heap) ≡ some (received b (now b.header.id)))
        × (find r.0.pending_blks b.header.id ≡ none)
        × (r.1 ≡ returned)
  unfolding sp_bcast_commit bcast_item bcast_block commit_received received for_each
  commits_too conf now t b q bytes e pending =
      let f = find-assign t.committed_blks b.header.id (length t.heap) b.header.id in
      let d = deref-alloc t.heap (received b (now b.header.id)) (length t.heap) in
      let g = find-erase t.pending_blks b.header.id b.header.id in
      (
        ground (arith, e, pending, f),
        ground (arith, e, pending, d),
        ground (arith, e, pending, g),
        ground (arith, e, pending),
      )

packed-IsWireBlock :
    {Bytes Key : Type 0} (is_share : SigShare → Bool) (s : Server Bytes Key) (num_tx now : ℕ)
    → IsPlan (plan_of (packed_block s num_tx now))
    → IsWireBlock is_share (packed_block s num_tx now)
unfolding packed_block
packed-IsWireBlock is_share s num_tx now w = record {
  header = record {
    id = w.id;
    base_id = w.base_id;
    proposal_ts = w.proposal_ts;
    dist_ts = omega arith;
    commit_ts = omega arith;
    recv_ts = omega arith;
  };
  tx_vec = w.tx_vec;
  sorted = tt;
  votes = tt;
}

module _ {Bytes Value Key : Type 0} (fb : FlexBuffers Bytes Value) (laws : FlexLaws fb)
    (is_share : SigShare → Bool) where
  packed-read :
      (s : Server Bytes Key) (num_tx now : ℕ)
      → IsPlan (plan_of (packed_block s num_tx now))
      → (adapter fb is_share).block_from_bytes
          ((adapter fb is_share).block_to_bytes (packed_block s num_tx now))
        ≡ decoded (packed_block s num_tx now)
  unfolding packed_block
  packed-read s num_tx now w =
      block_from_bytes-block_to_bytes fb laws is_share (packed_block s num_tx now)
        (packed-IsWireBlock is_share s num_tx now w) tt

  -- Under what FlexBuffers promises of reading back: where a server's queue for a peer is empty and
  -- the numbers of the block that a round of `pack_block` makes are words, the next `RelayBlock`
  -- call to the peer sends one request, with the block, and returns; and `RelayBlock` with this
  -- request leaves any server with the block, as it was packed, pending under its id, and returns.
  pub pack_one-relay_block :
      (s t : Server Bytes Key) (conf : Conf) (num_tx now target : ℕ)
      (sent : List (ℕ × Message Bytes))
      → find s.relay_blocks target ≡ some []
      → IsPlan (plan_of (packed_block s num_tx now))
      → let codec = adapter fb is_share in
        let b = packed_block s num_tx now in
        let request = codec.block_to_bytes b ∷ [] in
        let r = relay_block_call codec (pack_one s num_tx now, sent) target in
        let u = relay_block conf codec t request in
        (r.0.1 ≡ sent ++ (target, blocks request) ∷ [])
        × (r.1 ≡ returned)
        × (find u.0.pending_blks b.header.id ≡ some (length t.heap))
        × (deref u.0.heap (length t.heap) ≡ some b)
        × (u.1 ≡ returned)
  pack_one-relay_block s t conf num_tx now target sent e w =
      let codec = adapter fb is_share in
      let b = packed_block s num_tx now in
      let (out, ret) = relays codec s num_tx now target sent e in
      let (pending, stored, ret') =
        takes_in codec conf t b (codec.block_to_bytes b) (packed-read s num_tx now w) in
      (out, ret, pending, stored, ret')

  -- Under what FlexBuffers promises of reading back: where a server commits a block whose numbers
  -- are words, whose votes are in the order of their voters, with ids of 31 bits, and whose shares
  -- are 96 bytes that libBLS accepts, and its queue for a peer is empty, the next `SPBcastCommit`
  -- call to the peer sends one request, with the block, and returns; and `SPBcastCommit` with this
  -- request leaves a server where the id is pending with the block committed under the id, as it
  -- was but for the time of receipt and the aggregated signature, which is lost, and no longer
  -- pending, and returns.
  pub commit_block-sp_bcast_commit :
      {ShareSet : Type 0} (bls : ShareSets ShareSet) (conf conf' : Conf) (clock now : ℕ → ℕ)
      (s t : Server Bytes Key) (p q : Ptr) (old b : Block) (at target : ℕ)
      (sent : List (ℕ × Message Bytes))
      → deref s.heap p ≡ some old
      → find s.bcast_commit_blocks target ≡ some []
      → IsWireBlock is_share b
      → All (λ entry. entry.0 ≤ 2 ^ 31 - 1) b.votes
      → find t.pending_blks b.header.id ≡ some q
      → let codec = adapter fb is_share in
        let id = b.header.id in
        let request = codec.block_to_bytes b ∷ [] in
        let r = bcast_commit_call codec at (commit_block conf codec bls clock s p b, sent) target in
        let u = sp_bcast_commit conf' codec now t request in
        (r.0.1 ≡ sent ++ (target, commits request at) ∷ [])
        × (r.1 ≡ returned)
        × (find u.0.committed_blks id ≡ some (length t.heap))
        × (deref u.0.heap (length t.heap) ≡ some (received (record b { tss_sig = none }) (now id)))
        × (find u.0.pending_blks id ≡ none)
        × (u.1 ≡ returned)
  commit_block-sp_bcast_commit bls conf conf' clock now s t p q old b at target sent o e w small f =
      let codec = adapter fb is_share in
      let (out, ret) = broadcasts codec conf bls clock s p old b at target sent o e in
      let read = block_from_bytes-block_to_bytes fb laws is_share b w small in
      let (done, stored, gone, ret') =
        commits_too codec conf' now t (record b { tss_sig = none }) q (codec.block_to_bytes b) read
          f in
      (out, ret, done, stored, gone, ret')
