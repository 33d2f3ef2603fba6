-- ===== src/Examples/Data.antt =====
-- A configuration with two servers and one client, byte strings and share sets that are written
-- out, and a server with one pending block.
use dchain.Prelude.{
  ℕ, refl, true, Option, none, some, List, [], ◌∷◌, arith, leb, length, if◌then◌else◌, get_elem?,
}
use dchain.Container.Assoc
use dchain.Container.Assoc.{find}
use dchain.Container.OrdMap
use dchain.Container.OrdSet.{contains}
use dchain.Entity.Bls.{SigShare, Signature, ShareSets, ShareSetLaws}
use dchain.Entity.Block.{Block, BlockHeader, BlockVote, new_block}
use dchain.Entity.Transaction.{new_transaction}
use dchain.Entity.Placement.{Servers}
use dchain.Server.State.{Conf, Server}
use dchain.Server.Init.{init}
use dchain.Server.Invariant.{IsValid, Safe}
use dchain.Server.Growth.{Extends-refl}
use dchain.Server.Safety.Init.{init-IsValid}
use dchain.Server.Safety.Pull.{Knows}
use dchain.Wire.Codec.{Codec, Decoded, decoded, invalid}

pub data Packet : Type 0 where
  of_header : BlockHeader → Packet
  of_vote : BlockVote → Packet
  of_block : Block → Packet
  garbage : Packet

abbrev read_header : Packet → Decoded BlockHeader
read_header (of_header h) = decoded h
read_header _ = invalid

abbrev read_vote : Packet → Decoded BlockVote
read_vote (of_vote v) = decoded v
read_vote _ = invalid

abbrev read_block : Packet → Decoded Block
read_block (of_block b) = decoded b
read_block _ = invalid

abbrev pub codec : Codec Packet
codec = record {
  header_to_bytes = of_header;
  header_from_bytes = read_header;
  vote_to_bytes = of_vote;
  vote_from_bytes = read_vote;
  block_to_bytes = of_block;
  block_from_bytes = read_block;
}

pub record Shares : Type 0 where
  pub signers : List ℕ
  pub required : ℕ

abbrev add_share : Shares → Option SigShare → Option Shares
add_share s none = none
add_share s (some share) =
    if contains s.signers share.signer_index
    then none
    else some (record s { signers = share.signer_index ∷ s.signers })

abbrev merged : Shares → ℕ → Option Signature
merged s threads =
    if leb s.required (length s.signers)
    then some (record { g1 = s.signers; hint = ""; t = s.required; n = threads })
    else none

abbrev pub bls : ShareSets Shares
bls = record {
  new_set = λ t n. record { signers = []; required = t };
  add_sig_share = add_share;
  is_enough = λ s. leb s.required (length s.signers);
  merge = merged;
}

pub bls_laws : ShareSetLaws bls
bls_laws = record {
  signers = λ s. s.signers;
  required = λ s. s.required;
  new_signers = λ t n. refl;
  new_required = λ t n. refl;
  add_lem = λ s share fresh.
      (record s { signers = share.signer_index ∷ s.signers }, rw fresh refl, refl, refl);
  enough_lem = λ s. refl;
  merge_lem = λ s threads enough.
      (record { g1 = s.signers; hint = ""; t = s.required; n = threads }, rw enough refl);
}

abbrev pub conf_of : ℕ → Conf
conf_of server_id = record {
  server_id = server_id;
  server_count = 2;
  client_count = 1;
  account_count = 10;
  generate_tx_rate = 3;
  tx_per_block = 2;
  pb_pool_limit = 100;
  block_die_threshold = 5000;
  use_rocksdb = true;
}

abbrev pub conf : Conf
conf = conf_of 1

pub two-Servers : Servers 2
two-Servers = (omega arith, omega arith)

-- The vote of client 1 for the block 1000000, and the block without and with it.
abbrev pub vote : BlockVote
vote = record {
  block_id = 1000000;
  voter_id = 1;
  sig_share = some (record { g1 = 7 ∷ []; hint = "0"; signer_index = 1; t = 1; n = 1 });
}

abbrev pub proposed : Block
proposed = record (new_block 1000000 0xDEADBEEF 40) {
  tx_vec = new_transaction 3 1 2 0 5 ∷ new_transaction 4 2 1 0 6 ∷ [];
}

abbrev pub voted : Block
voted = record proposed { votes = (1, vote) ∷ [] }

-- Server 1 with the proposed block pending and signalled, and three transactions.
abbrev pub server_of : (Bytes : Type 0) → ℕ → Server Bytes ℕ
server_of Bytes id = record (init (conf_of id) (λ id. id)) {
  heap = proposed ∷ [];
  pending_blks = (1000000, 0) ∷ [];
  pb_sync_labels = 1000000 ∷ [];
  blk_seq_generator = 1000001;
  pending_txs =
      (5, new_transaction 5 1 3 0 2)
      ∷ (6, new_transaction 6 2 3 0 4)
      ∷ (7, new_transaction 7 3 1 0 8)
      ∷ [];
}

abbrev pub server_in : (Bytes : Type 0) → Server Bytes ℕ
server_in Bytes = server_of Bytes 1

pub server_in-IsValid : (Bytes : Type 0) → IsValid conf (server_in Bytes)
unfolding init get_elem? OrdMap.insert find
server_in-IsValid Bytes =
    let (v, i) = init-IsValid Bytes conf (λ id. id) in
    (
      record {
        pending_points = ((proposed, refl, refl), tt);
        committed_points = tt;
        merging_quorate = tt;
        peer_queues = v.peer_queues;
        relay_live = v.relay_live;
        cast_live = v.cast_live;
        relay_queues = v.relay_queues;
        cast_queues = v.cast_queues;
      },
      i,
    )

-- Server 2 with the same, which collects the votes for the block too.
pub shadow-IsValid : IsValid (conf_of 2) (server_of Packet 2)
unfolding init get_elem? OrdMap.insert find
shadow-IsValid =
    let (v, i) = init-IsValid Packet (conf_of 2) (λ id. id) in
    (
      record {
        pending_points = ((proposed, refl, refl), tt);
        committed_points = tt;
        merging_quorate = tt;
        peer_queues = v.peer_queues;
        relay_live = v.relay_live;
        cast_live = v.cast_live;
        relay_queues = v.relay_queues;
        cast_queues = v.cast_queues;
      },
      i,
    )

abbrev pub server : Server Packet ℕ
server = server_in Packet

pub server-IsValid : IsValid conf server
server-IsValid = server_in-IsValid Packet

-- The same server with the voted block in its store, and queued for merging.
abbrev pub merging : Server Packet ℕ
merging = record server { heap = voted ∷ []; pb_merge_queue = 0 ∷ [] }

pub merging-IsValid : IsValid conf merging
unfolding init get_elem? OrdMap.insert find
merging-IsValid =
    let (v, i) = init-IsValid Packet conf (λ id. id) in
    (
      record {
        pending_points = ((voted, refl, refl), tt);
        committed_points = tt;
        merging_quorate = ((voted, refl, omega arith), tt);
        peer_queues = v.peer_queues;
        relay_live = v.relay_live;
        cast_live = v.cast_live;
        relay_queues = v.relay_queues;
        cast_queues = v.cast_queues;
      },
      i,
    )

pub server-Safe : Safe conf server.heap server
server-Safe = let (v, i) = server-IsValid in (Extends-refl server.heap, v, i)

pub merging-Safe : Safe conf merging.heap merging
merging-Safe = let (v, i) = merging-IsValid in (Extends-refl merging.heap, v, i)

pub server-Knows : Knows server 1
unfolding init find Assoc.insert
server-Knows = (record { id = 1; ecc_pkey = none; tss_key = 1; seen_blocks = [] }, refl)
