-- ===== src/Client/Schedule.antt =====
-- `TcClient::start` and `TcClient::schedule` of src/client/tc-client.cpp: the loops of the three
-- threads, round by round. Which thread is next, and what the servers answer, are arguments; the
-- threads, the cores they are bound to and the time they sleep are left out.
use dchain.Prelude.{
  ℕ, Bool, true, false, List, [], if◌then◌else◌, Outcome, returned, and_then, for_each,
}
use dchain.Client.State.{Client}
use dchain.Client.Vote.{Calls, vote_pending}
use dchain.Client.Start.{register, pull_round}
use dchain.Wire.Codec.{Codec}

-- Whose round it is. The heartbeat changes nothing in the client.
pub data Round (Bytes : Type 0) : Type 0 where
  heartbeat : Round Bytes
  pull : (headers shadow_headers blocks shadow_blocks : List Bytes) → Round Bytes
  vote : Round Bytes

-- The client with the flags of `schedule` and the requests of `VoteBlocks` that were sent.
pub record Threads (Bytes Key Db : Type 0) : Type 0 where
  pub client : Client Key Db
  pub sent : List (ℕ × Bytes)
  pub heartbeat_flag : Bool
  pub pull_flag : Bool
  pub vote_flag : Bool

module _ {Bytes Key Db Hash : Type 0} (calls : Calls Key Db Hash) (codec : Codec Bytes) where
  -- A thread that finds its flag set leaves its loop, so that its later rounds do nothing.
  unfoldable pub heartbeat_turn : Threads Bytes Key Db → Threads Bytes Key Db × Outcome
  heartbeat_turn t =
      if t.heartbeat_flag then (t, returned) else (record t { heartbeat_flag = false }, returned)

  unfoldable pub pull_turn :
      Threads Bytes Key Db
      → List Bytes
      → List Bytes
      → List Bytes
      → List Bytes
      → Threads Bytes Key Db × Outcome
  pull_turn t headers shadow_headers blocks shadow_blocks =
      let (c, o) = pull_round codec t.client headers shadow_headers blocks shadow_blocks in
      if t.pull_flag
      then (t, returned)
      else and_then (record t { client = c; pull_flag = true }, o)
          (λ t'. (record t' { pull_flag = false }, returned))

  unfoldable pub vote_turn : Threads Bytes Key Db → Threads Bytes Key Db × Outcome
  vote_turn t =
      let ((c, sent), o) = vote_pending calls codec (t.client, t.sent) in
      if t.vote_flag
      then (t, returned)
      else and_then (record t { client = c; sent = sent; vote_flag = true }, o)
          (λ t'. (record t' { vote_flag = false }, returned))

  unfoldable pub run_round : Threads Bytes Key Db → Round Bytes → Threads Bytes Key Db × Outcome
  run_round t heartbeat = heartbeat_turn t
  run_round t (pull headers shadow_headers blocks shadow_blocks) =
      pull_turn t headers shadow_headers blocks shadow_blocks
  run_round t vote = vote_turn t

  -- The flags are down at first; an exception in a thread ends the process.
  unfoldable pub schedule : Client Key Db → List (Round Bytes) → Threads Bytes Key Db × Outcome
  schedule c rounds =
      for_each run_round
        (record {
          client = c;
          sent = [];
          heartbeat_flag = false;
          pull_flag = false;
          vote_flag = false;
        })
        rounds

  -- `Register`, with the key shares that libBLS makes of the response, and `schedule`.
  unfoldable pub start : Client Key Db → Key → List (Round Bytes) → Threads Bytes Key Db × Outcome
  start c key rounds = schedule (register c key) rounds
