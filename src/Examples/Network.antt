-- ===== src/Examples/Network.antt =====
-- A run of two servers: server 2 packs a block and hands it to server 1, counts the vote of the only
-- client, commits the block, and tells server 1, which commits it too.
use mathlib.Core.List.{Memᴰ}
use mathlib.Core.List.Memᴰ.{head, tail}
use dchain.Prelude.{
  ℕ, ◌+◌, ◌*◌, ◌≡◌, refl, none, some, Bool, true, [], ◌∷◌, arith, get_elem?, set, for_each,
}
use dchain.Container.Assoc
use dchain.Container.Assoc.{find, adjust, adjust_all, erase}
use dchain.Container.OrdMap
use dchain.Container.OrdSet
use dchain.Container.OrdSet.{contains}
use dchain.Container.Heap.{deref}
use dchain.Entity.Bls.{SigShare}
use dchain.Entity.Block
use dchain.Entity.Block.{Block, new_block}
use dchain.Entity.Transaction.{new_transaction}
use dchain.Server.Init.{init}
use dchain.Server.Pack.{add_tx, pack_one, packed_block, take_txs}
use dchain.Server.Peer.{relay_block_item, bcast_item}
use dchain.Server.Count.{count_vote}
use dchain.Server.Consensus.{vote_item}
use dchain.Server.Commit.{commit_popped}
use dchain.Server.Send.{blocks, commits, relay_block_call, bcast_commit_call}
use dchain.Wire.Codec.{Codec}
use dchain.Wire.Adapter.{
  adapter, block_from_bytes, block_to_bytes, header_from_bytes, header_to_bytes, read_votes,
  vote_values, vote_from_bytes, vote_to_bytes, share_at, share_from_bytes, share_to_bytes, read_txs,
  tx_values,
}
use dchain.Wire.Numeral.{to_string, stoi}
use dchain.Wire.Plan.{plan_of, IsPlan}
use dchain.System.Step.{generates, votes, merges}
use dchain.System.Network.{
  Net, conf_at, put, propose, initial, NetReach, start, continue, takes_turn, proposes,
  sends_blocks, sends_commits, receives_block, receives_commit,
}
use dchain.System.Consistent.{Proposed, Decided}
use dchain.System.Agreement.{NetReach-agree, NetReach-Decided}
use dchain.Examples.Data.{bls, conf, two-Servers}
use dchain.Examples.Flex.{Buffer, trees, trees_laws, zeros}

-- Each server makes key shares of its own.
abbrev keys : ℕ → ℕ → ℕ
keys k id = k * 10 + id

abbrev made : Block
made = record (new_block 2000000 0xDEADBEEF 40) { tx_vec = new_transaction 3 1 2 0 5 ∷ [] }

abbrev is_share : SigShare → Bool
is_share s = true

abbrev codec : Codec Buffer
codec = adapter trees is_share

abbrev share : SigShare
share = record { g1 = zeros 96; hint = "0"; signer_index = 1; t = 1; n = 1 }

abbrev signed : Block
signed = record made {
  votes = (1, record { block_id = 2000000; voter_id = 1; sig_share = some share }) ∷ [];
}

abbrev done : Block
done = record signed {
  header = record signed.header { commit_ts = 50; recv_ts = 50 };
  tss_sig = some (record { g1 = 1 ∷ []; hint = ""; t = 1; n = 16 });
}

abbrev Nets : Type 0
Nets = Net Buffer ℕ

abbrev net1 : Nets
net1 =
    let net = initial conf codec bls keys in
    put net 2 (add_tx (net.servers 2) (record { tx_id = 3; sender = 1; receiver = 2; fee = 5 }), [])

abbrev net2 : Nets
net2 = propose conf net1 1 40

abbrev net3 : Nets
net3 = put net2 2 (relay_block_call codec (net2.servers 2, []) 1).0

abbrev net4 : Nets
net4 =
    put net3 1
      ((relay_block_item (conf_at conf 1) codec (net3.servers 1) (codec.block_to_bytes made)).0, [])

abbrev net5 : Nets
net5 =
    put net4 2
      ((vote_item (conf_at conf 2) codec 1 (net4.servers 2) (codec.block_to_bytes signed)).0, [])

abbrev net6 : Nets
net6 =
    let s = net5.servers 2 in
    put net5 2 (
      (commit_popped (conf_at conf 2) codec bls (λ id. 50) (record s { pb_merge_queue = [] }) 0
          (deref s.heap 0)).0,
      [],
    )

abbrev net7 : Nets
net7 = put net6 2 (bcast_commit_call codec 55 (net6.servers 2, []) 1).0

abbrev net8 : Nets
net8 = put net7 1 (
  (bcast_item (conf_at conf 1) codec (λ id. 60) (net7.servers 1) (codec.block_to_bytes done)).0,
  [],
)

packs-IsPlan : IsPlan (plan_of (packed_block (net1.servers 2) 1 40))
unfolding packed_block add_tx init take_txs Assoc.insert find
packs-IsPlan = omega arith

net2-Reach : NetReach conf codec bls keys net2
net2-Reach =
    continue
      (continue start
        (takes_turn 2 _ (generates _ (record { tx_id = 3; sender = 1; receiver = 2; fee = 5 }))))
      (proposes 1 40 packs-IsPlan)

relayed : Memᴰ (1, blocks (codec.block_to_bytes made ∷ [])) net3.sent
unfolding relay_block_call pack_one add_tx init find adjust_all OrdMap.insert Assoc.insert get_elem?
relayed = head refl

net4-Reach : NetReach conf codec bls keys net4
net4-Reach =
    continue (continue net2-Reach (sends_blocks 2 1 (omega arith, omega arith, omega arith))) (
      receives_block 1 (codec.block_to_bytes made ∷ []) (codec.block_to_bytes made) relayed
        (head refl))

queued : (net5.servers 2).pb_merge_queue ≡ 0 ∷ []
unfolding vote_item relay_block_call pack_one add_tx init find adjust adjust_all OrdMap.insert
    Assoc.insert get_elem? contains Assoc.assign Block.get_server_id for_each OrdSet.insert
    count_vote Block.is_vote_enough block_from_bytes block_to_bytes header_from_bytes
    header_to_bytes read_votes vote_values vote_from_bytes to_string vote_to_bytes share_at
    share_from_bytes share_to_bytes stoi
queued = refl

net6-Reach : NetReach conf codec bls keys net6
net6-Reach =
    continue (continue net4-Reach (takes_turn 2 _ (votes 1 _ (codec.block_to_bytes signed))))
      (takes_turn 2 _ (merges (λ id. 50) _ 0 [] queued))

told : Memᴰ (1, commits (codec.block_to_bytes done ∷ []) 55) net7.sent
unfolding vote_item relay_block_call bcast_commit_call commit_popped Block.merge_votes pack_one
    add_tx init find adjust adjust_all OrdMap.insert Assoc.insert get_elem? set contains
    Assoc.assign Block.get_server_id for_each OrdSet.insert count_vote Block.is_vote_enough
    block_from_bytes block_to_bytes header_from_bytes header_to_bytes read_votes vote_values
    vote_from_bytes to_string vote_to_bytes share_at share_from_bytes share_to_bytes stoi
told = tail (head refl)

net8-Reach : NetReach conf codec bls keys net8
net8-Reach =
    continue (continue net6-Reach (sends_commits 55 2 1 (omega arith, omega arith, omega arith))) (
      receives_commit (λ id. 60) 1 (codec.block_to_bytes done ∷ []) 55 (codec.block_to_bytes done)
        told (head refl))

-- The block as server 1 has it.
abbrev heard : Block
heard = record done { header = record done.header { recv_ts = 60 }; tss_sig = none }

committed_by_both :
    (deref (net8.servers 2).heap 0 ≡ some done)
    × (deref (net8.servers 1).heap 1 ≡ some heard)
    × (find (net8.servers 1).committed_blks 2000000 ≡ some 1)
unfolding vote_item relay_block_call bcast_commit_call commit_popped Block.merge_votes pack_one
    add_tx init find adjust adjust_all OrdMap.insert Assoc.insert get_elem? set contains
    Assoc.assign Block.get_server_id for_each OrdSet.insert count_vote Block.is_vote_enough
    relay_block_item bcast_item erase block_from_bytes block_to_bytes header_from_bytes
    header_to_bytes read_votes vote_values vote_from_bytes to_string vote_to_bytes share_at
    share_from_bytes share_to_bytes stoi read_txs tx_values
committed_by_both = (refl, refl, refl)

NetReach-agree_example : plan_of done ≡ plan_of heard
NetReach-agree_example =
    NetReach-agree trees trees_laws is_share conf bls two-Servers keys net8-Reach 2 1 0 1 done heard
      (omega arith) committed_by_both.0 committed_by_both.1 refl

NetReach-Decided_example :
    (b : Block) × (deref (net8.servers 1).heap 1 ≡ some b)
    × (b.header.id ≡ 2000000)
    × Proposed net8.proposed (plan_of b)
    × Decided conf net8.servers (plan_of b)
NetReach-Decided_example =
    NetReach-Decided trees trees_laws is_share conf bls two-Servers keys net8-Reach 1 2000000 1
      committed_by_both.2
