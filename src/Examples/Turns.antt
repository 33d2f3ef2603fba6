-- ===== src/Examples/Turns.antt =====
-- A run of server 1: a transaction is generated and packed, the block signalled, voted for and
-- merged.
use dchain.Prelude.{
  ℕ, ◌≡◌, refl, some, get_elem?, [], ◌⊎◌, Bool, true, false, length, Outcome, returned,
}
use dchain.Container.Heap.{deref}
use dchain.Entity.Block.{Block}
use dchain.Server.State.{Server}
use dchain.Server.Init.{init}
use dchain.Server.Pack.{add_tx, pack_one}
use dchain.Server.Peer.{relay_block_sync}
use dchain.Server.Consensus.{vote_item}
use dchain.Server.Growth.{Grows}
use dchain.Server.Invariant.{IsValid}
use dchain.System.Step.{Reach, here, next, turns, generates, packs, syncs, votes}
use dchain.System.Reach.{Reach-IsValid, Reach-Grows}
use dchain.Server.Send.{Sent}
use dchain.Server.Schedule.{votes_merge, run_job, guarded}
use dchain.Server.Proposer.{schedule_other}
use dchain.Server.Safety.Send.{Sends}
use dchain.Server.Safety.Schedule.{schedule-Sends}
use dchain.Examples.Data.{
  merging, merging-Safe, Packet, of_block, codec, bls, conf, two-Servers, proposed, voted, server,
  server-IsValid,
}

abbrev started : Server Packet ℕ
started = init conf (λ id. id)

abbrev generated : Server Packet ℕ
generated = add_tx started (record { tx_id = 3; sender = 1; receiver = 2; fee = 5 })

abbrev packed : Server Packet ℕ
packed = pack_one generated 1 40

abbrev signalled : Server Packet ℕ
signalled = relay_block_sync packed 1000000

abbrev counted : Server Packet ℕ
counted = (vote_item conf codec 1 signalled (of_block voted)).0

-- Turns up to the counting of the vote.
counted-Reach : Reach conf codec bls started counted
counted-Reach =
    next
      (next
        (next
          (next here
            (turns (generates started (record { tx_id = 3; sender = 1; receiver = 2; fee = 5 }))))
          (packs generated 1 40))
        (turns (syncs packed 1000000)))
      (turns (votes 1 signalled (of_block voted)))

Reach-IsValid_example : IsValid conf counted
Reach-IsValid_example = Reach-IsValid conf codec bls two-Servers (λ id. id) counted-Reach

-- The proposed block has the vote that client 1 sends.
Reach-Grows_example :
    (b : Block) × (deref (vote_item conf codec 1 server (of_block voted)).0.heap 0 ≡ some b)
    × Grows proposed b
unfolding get_elem?
Reach-Grows_example =
    Reach-Grows conf codec bls two-Servers 0 proposed server-IsValid
      (next here (turns (votes 1 server (of_block voted)))) refl

-- The timer of `merge_votes` runs while its flag is not set.
abbrev merges_now : (Bool × Sent Packet ℕ) × Outcome
merges_now = guarded (run_job conf codec bls (votes_merge (λ id. 90))) (false, (merging, []))

schedule-Sends_example : Sends conf merging.heap (merges_now.0.1, merges_now.1)
schedule-Sends_example =
    schedule-Sends conf merging.heap codec bls (votes_merge (λ id. 90)) false (merging, [])
      merging-Safe

-- Server 1 of two merges, and packs nothing.
schedule_other_example :
    (length merges_now.0.1.0.heap ≡ length merging.heap)
    × (merges_now.0.1.0.blk_seq_generator ≡ merging.blk_seq_generator)
    × (merges_now.0.1.0.pending_txs ≡ merging.pending_txs)
    × ((false ≡ false) ⊎ (merges_now ≡ ((true, (merging, [])), returned)))
schedule_other_example =
    schedule_other conf codec bls (votes_merge (λ id. 90)) false (merging, []) (λ e. cc)
