-- ===== src/Server/Safety/Schedule.antt =====
-- The rounds of the scheduled loops.
use dchain.Prelude.{
  ℕ, ◌-◌, Bool, true, false, List, [], ◌∷◌, ◌==◌, ltb, length, Bool-cases, inl, inr,
  and_then_correct,
}
use dchain.Entity.Bls.{ShareSets}
use dchain.Entity.Block.{Block}
use dchain.Server.State.{Conf, Server}
use dchain.Server.Invariant.{Safe}
use dchain.Server.Send.{Sent, heartbeat_call, send_heartbeats}
use dchain.Server.Pack.{Draw, add_tx, generate_tx, pack_turn}
use dchain.Server.Schedule.{
  Job, pack, count_blocks, relay_votes, relay_blocks, commits_bcast, votes_merge, run_job, guarded,
}
use dchain.Server.Safety.Defs.{NoFault, returned-NoFault, thrown-NoFault}
use dchain.Server.Safety.Commit.{merge_votes-Runs, pack_block-Safe}
use dchain.Server.Safety.Send.{
  Sends, IsPeer, for_each_peer-Sends, send_relay_votes-Sends, send_relay_blocks-Sends,
  bcast_commits-Sends,
}
use dchain.Wire.Codec.{Codec}

module _ {Bytes Key : Type 0} (conf : Conf) (h₀ : List Block) where
  pub heartbeat_call-Sends :
      (up : ℕ → Bool) (r : Sent Bytes Key) (k : ℕ)
      → IsPeer conf k
      → Safe conf h₀ r.0
      → Sends conf h₀ (heartbeat_call up r k)
  unfolding heartbeat_call
  heartbeat_call-Sends up (s, sent) k p h = elim (Bool-cases (ltb (k - 1) (length s.peer_status))) [
    | inl known ↦ rw known (h, returned-NoFault)
    | inr unknown ↦ rw unknown (h, thrown-NoFault)
  ]

  generate_tx-Safe :
      (s : Server Bytes Key) (draws : List Draw)
      → Safe conf h₀ s
      → Safe conf h₀ (generate_tx s draws)
  unfolding generate_tx add_tx
  generate_tx-Safe s [] h = h
  generate_tx-Safe s (d ∷ ds) h = generate_tx-Safe (add_tx s d) ds h

  pack_turn-Safe :
      (now : ℕ → ℕ) (draws : List Draw) (rounds : ℕ) (s : Server Bytes Key)
      → Safe conf h₀ s
      → Safe conf h₀ (pack_turn conf now draws rounds s)
  unfolding pack_turn
  pack_turn-Safe now draws rounds s h =
      elim (Bool-cases (ltb (length s.pending_blks) conf.pb_pool_limit)) [
        | inl room ↦ rw room (
            pack_block-Safe conf h₀ now (generate_tx s draws) conf.tx_per_block rounds
              (generate_tx-Safe s draws h))
        | inr full ↦ rw full (pack_block-Safe conf h₀ now s conf.tx_per_block rounds h)
      ]

  module _ {ShareSet : Type 0} (codec : Codec Bytes) (bls : ShareSets ShareSet) where
    run_job-Sends :
        (job : Job) (r : Sent Bytes Key)
        → Safe conf h₀ r.0
        → Sends conf h₀ (run_job conf codec bls job r)
    unfolding run_job send_heartbeats
    run_job-Sends (pack now draws rounds) (s, sent) h =
        elim (Bool-cases (conf.server_id == conf.server_count)) [
          | inl packs ↦ rw packs (pack_turn-Safe now draws rounds s h, returned-NoFault)
          | inr other ↦ rw other (h, returned-NoFault)
        ]
    run_job-Sends count_blocks r h = (h, returned-NoFault)
    run_job-Sends (relay_votes up) r h =
        let (p, q) =
          for_each_peer-Sends conf h₀ (heartbeat_call up) (heartbeat_call-Sends up) r h in
        and_then_correct (λ r'. Safe conf h₀ r'.0) NoFault (send_heartbeats conf up r) _ p q
          (λ r' h'. send_relay_votes-Sends conf h₀ codec r' h')
    run_job-Sends relay_blocks r h = send_relay_blocks-Sends conf h₀ codec r h
    run_job-Sends (commits_bcast now) r h = bcast_commits-Sends conf h₀ codec now r h
    run_job-Sends (votes_merge now) (s, sent) h = merge_votes-Runs conf codec bls now h₀ s h

    -- Each call that `TcServer::schedule` makes on a valid server, of the pack thread or of a
    -- timer whose flag may be set, keeps the server valid and its blocks grown, and ends without a
    -- fault, whatever peers answer, libBLS makes of the shares and the clock reads.
    pub schedule-Sends :
        (job : Job) (busy : Bool) (r : Sent Bytes Key)
        → Safe conf h₀ r.0
        → let t = guarded (run_job conf codec bls job) (busy, r) in Sends conf h₀ (t.0.1, t.1)
    unfolding guarded
    schedule-Sends job true r h = (h, returned-NoFault)
    schedule-Sends job false r h = run_job-Sends job r h
