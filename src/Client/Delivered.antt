-- ===== src/Client/Delivered.antt =====
-- A client's vote, in the bytes of the adapter, up to the server's count.
use dchain.Prelude.{ℕ, ◌≤◌, ◌-◌, ◌^◌, ◌≡◌, refl, ◌∙◌, Bool, false, true, none, some, All, arith}
use dchain.Container.Assoc.{find}
use dchain.Container.OrdMap.{insert-IsSorted, All-insert}
use dchain.Container.OrdSet.{contains}
use dchain.Container.Heap.{Ptr, deref}
use dchain.Entity.Bls.{SigShare}
use dchain.Entity.Block.{Block}
use dchain.Entity.Placement.{Servers, serves}
use dchain.Server.State.{Conf, Server}
use dchain.Server.Invariant.{IsValid}
use dchain.Server.Count.{add_vote}
use dchain.Server.Consensus.{vote_item}
use dchain.Client.Vote.{Calls, signed_vote, signed_block}
use dchain.Client.Fetching.{RoundTrips}
use dchain.Client.Counted.{vote_item-signed_block}
use dchain.Wire.Flex.{FlexBuffers, FlexLaws}
use dchain.Wire.Records.{IsWireVote}
use dchain.Wire.Entries.{IsEntry}
use dchain.Wire.Adapter.{adapter}
use dchain.Wire.RoundTrip.{IsWireBlock, block_from_bytes-block_to_bytes}

module _ {Bytes Value Pair Db Hash : Type 0} (fb : FlexBuffers Bytes Value) (laws : FlexLaws fb)
    (is_share : SigShare → Bool) (calls : Calls Pair Db Hash) (key : Pair) (client_id : ℕ)
    (b : Block) (w : IsWireBlock is_share b)
    (v : IsWireVote is_share (signed_vote calls key client_id b)) (small : client_id ≤ 2 ^ 31 - 1)
    (smalls : All (λ entry. entry.0 ≤ 2 ^ 31 - 1) b.votes) (unsigned : b.tss_sig ≡ none) where
  signed_block-IsWireBlock : IsWireBlock is_share (signed_block calls key client_id b)
  unfolding signed_block
  signed_block-IsWireBlock = record {
    header = w.header;
    tx_vec = tt;
    sorted = insert-IsSorted b.votes client_id (signed_vote calls key client_id b) w.sorted;
    votes =
        All-insert (IsEntry is_share) b.votes client_id (signed_vote calls key client_id b)
          (omega (arith, small), v) w.votes;
  }

  signed_block-RoundTrips : RoundTrips (adapter fb is_share) (signed_block calls key client_id b)
  unfolding signed_block
  signed_block-RoundTrips =
      block_from_bytes-block_to_bytes fb laws is_share (signed_block calls key client_id b)
        signed_block-IsWireBlock
        (All-insert (λ entry. entry.0 ≤ 2 ^ 31 - 1) b.votes client_id
          (signed_vote calls key client_id b) small smalls)
      ∙ rw unsigned refl

  -- With the bytes of the adapter, under what FlexBuffers promises of reading back, and with
  -- `server-count` from 1 to 2 ^ 64 - 2: in a valid server that collects the votes for a live,
  -- pending block, the request that a client sends for its copy of the block, which has no vote of
  -- the client yet, is counted: the client's vote joins the votes of the stored block, unless that
  -- has one of the client. The copy is without an aggregated signature, its numbers are words, its
  -- shares and the client's own are 96 bytes that libBLS accepts, and the ids of the client and of
  -- its voters are of 31 bits.
  pub vote_item-adapter :
      {Key : Type 0} (conf : Conf) (s : Server Bytes Key) (stored : Block) (p : Ptr)
      → IsValid conf s
      → Servers conf.server_count
      → find b.votes client_id ≡ none
      → contains s.dead_block b.header.id ≡ false
      → serves b.header.id conf.server_count s.server_id ≡ true
      → find s.pending_blks b.header.id ≡ some p
      → deref s.heap p ≡ some stored
      → let codec = adapter fb is_share in
        let request = codec.block_to_bytes (signed_block calls key client_id b) in
        deref (vote_item conf codec client_id s request).0.heap p
        ≡ some (add_vote stored client_id (signed_vote calls key client_id b))
  vote_item-adapter conf s stored p valid n fresh alive own pend d =
      vote_item-signed_block conf s calls (adapter fb is_share) key client_id b stored p valid n
        signed_block-RoundTrips fresh alive own pend d
