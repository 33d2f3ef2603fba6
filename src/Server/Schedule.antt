-- ===== src/Server/Schedule.antt =====
-- `TcServer::schedule` of src/server/tc-server.cpp: the loop of the pack thread, and the functions
-- that its timers call, each of which skips a call while an earlier one runs. The timers of
-- timercpp decide when; the clock, the draws and which peers answer are arguments.
use dchain.Prelude.{ℕ, Bool, true, false, List, ◌==◌, if◌then◌else◌, Outcome, returned, and_then}
use dchain.Entity.Bls.{ShareSets}
use dchain.Server.State.{Conf}
use dchain.Server.Send.{Sent, send_heartbeats, send_relay_votes, send_relay_blocks, bcast_commits}
use dchain.Server.Pack.{Draw, pack_turn}
use dchain.Server.Commit.{merge_votes}
use dchain.Wire.Codec.{Codec}

-- What is scheduled, with what the round of a loop reads from outside.
pub data Job : Type 0 where
  pack : (now : ℕ → ℕ) (draws : List Draw) (rounds : ℕ) → Job
  count_blocks : Job
  relay_votes : (up : ℕ → Bool) → Job
  relay_blocks : Job
  commits_bcast : (now : ℕ → ℕ) → Job
  votes_merge : (now : ℕ → ℕ) → Job

-- `if (flag == true) return; flag = true; ...; flag = false;` An exception leaves the flag set.
unfoldable pub guarded {ℓ} : {S : Type ℓ} → (S → S × Outcome) → Bool × S → (Bool × S) × Outcome
guarded body (true, s) = ((true, s), returned)
guarded body (false, s) = let r = body s in ((elim r.1 [ returned ↦ false | _ ↦ true ], r.0), r.1)

module _ {Bytes Key ShareSet : Type 0} (conf : Conf) (codec : Codec Bytes)
    (bls : ShareSets ShareSet) where
  -- the state of a server, with the requests that were sent
  unfoldable pub run_job : Job → Sent Bytes Key → Sent Bytes Key × Outcome
  run_job (pack now draws rounds) (s, sent) = (
    (if conf.server_id == conf.server_count then pack_turn conf now draws rounds s else s, sent),
    returned,
  )
  run_job count_blocks r = (r, returned)
  run_job (relay_votes up) r =
      and_then (send_heartbeats conf up r) (λ r'. send_relay_votes conf codec r')
  run_job relay_blocks r = send_relay_blocks conf codec r
  run_job (commits_bcast now) r = bcast_commits conf codec now r
  run_job (votes_merge now) (s, sent) =
      let t = merge_votes conf codec bls now s in ((t.0, sent), t.1)
