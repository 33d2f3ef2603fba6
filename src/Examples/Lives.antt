-- ===== src/Examples/Lives.antt =====
-- The start of a client, its life, and its vote in the bytes of the adapter.
use text.Mathlib.Text.{◌==◌ as str_eq}
use text.Mathlib.TextEquality.{eq_iff}
use dchain.Prelude.{
  sent_to, ℕ, ◌≡◌, ◌≢◌, ◌==◌, ◌||◌, refl, Bool, false, some, List, [], ◌∷◌, arith, get_elem?, set,
  for_each, if◌then◌else◌, Bool-cases, inl, inr,
}
use dchain.Container.Assoc.{find}
use dchain.Container.OrdSet.{contains}
use dchain.Container.Heap.{deref}
use dchain.Entity.Placement.{serves}
use dchain.Server.Init
use dchain.Server.Count.{add_vote}
use dchain.Server.Consensus.{vote_item}
use dchain.Client.Fetch.{add_headers, add_blocks, add_block, keep_block}
use dchain.Client.Start.{
  running, pull_round, ClientConf, server_select, shadow_server_select, init, fresh, register,
}
use dchain.Client.Starting.{server_select-serves}
use dchain.Client.State.{Client}
use dchain.Client.Agreement.{vote_item-relay_vote_item}
use dchain.Server.Ballot.{tally_of}
use dchain.Server.Peer.{relay_vote_item}
use dchain.Client.Life.{Lives-untouched, starts, turns, registers, votes, pulls}
use dchain.Client.Schedule.{
  Round, Threads, heartbeat, pull, vote_turn, start, schedule, run_round, heartbeat_turn, pull_turn,
}
use dchain.Client.Scheduling.{Idle, start-vote_turn}
use dchain.Client.Queued.{Balanced}
use dchain.Client.Vote.{
  Calls, vote_pending, signed_vote, signed_block, vote_queue, cast_vote, print_accounts, print_at,
  touch_accounts, touch_at, send_vote,
}
use dchain.Client.Delivered.{vote_item-adapter}
use dchain.Wire.Adapter.{adapter}
use dchain.Wire.Records.{IsWireVote}
use dchain.Examples.Data.{
  Packet, conf_of, server_of, shadow-IsValid, server, server-IsValid, of_block, codec, conf,
  two-Servers, proposed, server_in, server_in-IsValid,
}
use dchain.Examples.Flex.{Buffer, trees, trees_laws, zeros, zeros-IsBytes}
use dchain.Examples.Wire.{is_share, proposed-IsWireBlock}
use Prim.Native.String.{String}

-- A database that is the list of its writes.
abbrev look_up : List (String × String) → String → String → String
look_up [] k buf = buf
look_up ((j, v) ∷ db) k buf = let rest = look_up db k buf in if str_eq j k then v else rest

abbrev store : Calls ℕ (List (String × String)) ℕ
store = record {
  print = λ s n. s;
  get = look_up;
  put = λ db k v. (k, v) ∷ db;
  get_sha256 = λ b. b.header.id;
  sign = λ key hash i. record { g1 = zeros 96; hint = "5"; signer_index = i; t = 1; n = 1 };
}

store_other :
    (db : List (String × String)) (k j v buf : String)
    → k ≢ j
    → look_up ((k, v) ∷ db) j buf ≡ look_up db j buf
store_other db k j v buf apart = elim (Bool-cases (str_eq k j)) [
  | inl same ↦ absurd (apart ((eq_iff k j).0 same))
  | inr miss ↦ rw miss refl
]

abbrev client_conf : Bool → ClientConf
client_conf clear = record {
  client_id = 1;
  account_count = 3;
  grpc_server_count = 2;
  grpc_server_port = 50000;
  clear_rocksdb = clear;
}

server_select-serves_example :
    (server_select 4 2 == 1 || shadow_server_select 4 2 == 1) ≡ serves 3 2 1
server_select-serves_example =
    server_select-serves 4 2 1 (omega arith) (omega arith) (omega arith) (omega arith)

named : ◌≢◌ {A = String} "" "1"
named = λ e. cc

-- A client with a block to vote for.
abbrev started : Client ℕ (List (String × String))
started = fresh (client_conf false) []

started-init : init store (client_conf false) [] ≡ running started
unfolding init
started-init = refl

-- The client registers, gets the proposed block from its first server, and votes.
abbrev pulled : Client ℕ (List (String × String))
pulled = (pull_round codec (register started 9) [] [] (of_block proposed ∷ []) []).0

abbrev voter : Client ℕ (List (String × String))
voter = (vote_pending store codec (pulled, [])).0.0

Lives-untouched_example : look_up voter.db "1" "5" ≡ look_up [] "1" "5"
Lives-untouched_example =
    Lives-untouched store codec (λ n. refl) store_other "1" "5" named (client_conf false) [] started
      voter started-init
      (turns
        (turns (turns starts (registers started 9))
          (pulls (register started 9) [] [] (of_block proposed ∷ []) []))
        (votes pulled []))

signed-IsWireVote : IsWireVote is_share (signed_vote store 9 1 proposed)
unfolding signed_vote
signed-IsWireVote = record {
  block_id = omega arith;
  voter_id = omega arith;
  sig_share = record {
    g1 = (zeros-IsBytes 96, refl);
    signer_index = omega arith;
    t = omega arith;
    n = omega arith;
    accepted = refl;
  };
}

vote_item-adapter_example :
    deref
      (vote_item conf
        (adapter trees is_share)
        1
        (server_in Buffer)
        ((adapter trees is_share).block_to_bytes (signed_block store 9 1 proposed))).0.heap
      0
    ≡ some (add_vote proposed 1 (signed_vote store 9 1 proposed))
unfolding find Init.init get_elem? contains
vote_item-adapter_example =
    vote_item-adapter trees trees_laws is_share store 9 1 proposed proposed-IsWireBlock
      signed-IsWireVote (omega arith) tt refl conf (server_in Buffer) proposed 0
      (server_in-IsValid Buffer) two-Servers refl refl refl refl refl

vote_item-relay_vote_item_example :
    tally_of
      (vote_item conf codec 1 server (codec.block_to_bytes (signed_block store 9 1 proposed))).0
      1000000
    ≡ tally_of
        (relay_vote_item
          (conf_of 2)
          codec
          (server_of Packet 2)
          (codec.vote_to_bytes (signed_vote store 9 1 proposed))).0
        1000000
unfolding find Init.init get_elem? contains
vote_item-relay_vote_item_example =
    vote_item-relay_vote_item store codec conf server (conf_of 2) (server_of Packet 2) 9 1 proposed
      1000000 server-IsValid shadow-IsValid two-Servers refl refl refl refl refl refl refl

-- The client beats, and gets the proposed block from its first server; its next vote is for it.
abbrev rounds : List (Round Packet)
rounds = heartbeat ∷ pull [] [] (of_block proposed ∷ []) [] ∷ []

abbrev scheduled : Threads Packet ℕ (List (String × String))
scheduled = (start store codec started 9 rounds).0

start-vote_turn_example :
    let t = (vote_turn store codec scheduled).0 in
    Idle store codec started 9 t
    × (t.client.pending_blks ≡ [])
    × Balanced t.sent
    × (sent_to 0 t.sent ≡ of_block (signed_block store 9 1 proposed) ∷ [])
unfolding start schedule for_each run_round heartbeat_turn pull_turn pull_round add_headers
    add_blocks add_block keep_block vote_turn vote_pending vote_queue cast_vote print_accounts
    print_at touch_accounts touch_at send_vote get_elem? set register
start-vote_turn_example = start-vote_turn store codec started 9 rounds refl refl
