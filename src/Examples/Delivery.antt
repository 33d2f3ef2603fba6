-- ===== src/Examples/Delivery.antt =====
-- Server 2 packs a block for server 1, and commits one that is pending there.
use dchain.Prelude.{ℕ, ◌≡◌, refl, none, some, [], ◌∷◌, arith, get_elem?, returned}
use dchain.Container.Assoc.{find}
use dchain.Container.OrdMap
use dchain.Container.Heap.{deref}
use dchain.Entity.Block.{Block}
use dchain.Server.State.{Server}
use dchain.Server.Init.{init}
use dchain.Server.Pack.{packed_block, pack_one, take_txs}
use dchain.Server.Peer.{relay_block, sp_bcast_commit, received}
use dchain.Server.Commit.{commit_block}
use dchain.Server.Send.{blocks, commits, relay_block_call, bcast_commit_call}
use dchain.Wire.Codec.{Codec}
use dchain.Wire.Adapter.{adapter}
use dchain.Wire.Plan.{plan_of, IsPlan}
use dchain.System.Delivery.{pack_one-relay_block, commit_block-sp_bcast_commit}
use dchain.Examples.Data.{conf, conf_of, server_of, server_in, bls, proposed}
use dchain.Examples.Flex.{Buffer, trees, trees_laws}
use dchain.Examples.Wire.{is_share, block_of, block_of-IsWireBlock}

abbrev codec : Codec Buffer
codec = adapter trees is_share

abbrev source : Server Buffer ℕ
source = server_of Buffer 2

abbrev target : Server Buffer ℕ
target = server_in Buffer

abbrev fresh : Block
fresh = packed_block source 2 60

fresh-IsPlan : IsPlan (plan_of fresh)
unfolding packed_block take_txs init
fresh-IsPlan = omega arith

pack_one-relay_block_example :
    let r = relay_block_call codec (pack_one source 2 60, []) 1 in
    let u = relay_block conf codec target (codec.block_to_bytes fresh ∷ []) in
    (r.0.1 ≡ (1, blocks (codec.block_to_bytes fresh ∷ [])) ∷ [])
    × (r.1 ≡ returned)
    × (find u.0.pending_blks fresh.header.id ≡ some 1)
    × (deref u.0.heap 1 ≡ some fresh)
    × (u.1 ≡ returned)
unfolding init find OrdMap.insert
pack_one-relay_block_example =
    pack_one-relay_block trees trees_laws is_share source target conf 2 60 1 [] refl fresh-IsPlan

-- The block 1000000 with the vote of client 1, and signed.
abbrev signed : Block
signed = block_of 1

commit_block-sp_bcast_commit_example :
    let request = codec.block_to_bytes signed ∷ [] in
    let r =
      bcast_commit_call codec 70
        (commit_block (conf_of 2) codec bls (λ id. 65) source 0 signed, [])
        1 in
    let u = sp_bcast_commit conf codec (λ id. 75) target request in
    (r.0.1 ≡ (1, commits request 70) ∷ [])
    × (r.1 ≡ returned)
    × (find u.0.committed_blks 1000000 ≡ some 1)
    × (deref u.0.heap 1 ≡ some (received (record signed { tss_sig = none }) 75))
    × (find u.0.pending_blks 1000000 ≡ none)
    × (u.1 ≡ returned)
unfolding init find OrdMap.insert get_elem?
commit_block-sp_bcast_commit_example =
    commit_block-sp_bcast_commit trees trees_laws is_share bls (conf_of 2) conf (λ id. 65)
      (λ id. 75) source target 0 0 proposed signed 70 1 [] refl refl
      (block_of-IsWireBlock 1 (omega arith)) (omega arith, tt) refl
