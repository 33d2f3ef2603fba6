-- ===== src/Client/Start.antt =====
-- src/client/tc-client.cpp: `TcClient::init`, the choice of the servers in `main`, and what the two
-- threads of `TcClient::schedule` that change the client do in one round. `Register` is of
-- include/client/tc-client-grpc.hpp.
use dchain.Prelude.{
  ℕ, zero, suc, ◌%◌, Bool, Option, none, some, List, [], ◌∷◌, ◌==◌, ltb, if◌then◌else◌, add32,
  sub32, Outcome, and_then,
}
use dchain.Client.State.{Client}
use dchain.Client.Vote.{Calls}
use dchain.Client.Fetch.{add_headers, add_blocks}
use dchain.Wire.Codec.{Codec}
use dchain.Wire.Numeral.{to_string}
use Prim.Native.String.{String}

-- what the client reads of its configuration
pub record ClientConf : Type 0 where
  pub client_id : ℕ
  pub account_count : ℕ
  pub grpc_server_count : ℕ
  pub grpc_server_port : ℕ
  pub clear_rocksdb : Bool

-- `client_index` of `main`, a `uint32_t`
unfoldable pub client_index : ℕ → ℕ
client_index client_id = sub32 client_id 1

-- `server_select` of `main`
unfoldable pub server_select : ℕ → ℕ → ℕ
unfolding client_index
server_select client_id n = add32 (client_index client_id % n) 1

-- `shadow_server_select` of `main`
unfoldable pub shadow_server_select : ℕ → ℕ → ℕ
unfolding client_index
shadow_server_select client_id n =
    let next = add32 (client_index client_id % n) 2 in if ltb n next then 1 else next

-- The ports of the two channels of the client, in the order of its stubs; `none` is the trap of a
-- division by zero.
unfoldable pub ports : ClientConf → Option (List ℕ)
unfolding server_select shadow_server_select
ports conf =
    let n = conf.grpc_server_count in
    if n == 0
    then none
    else some (
        add32 conf.grpc_server_port (server_select conf.client_id n)
        ∷ add32 conf.grpc_server_port (shadow_server_select conf.client_id n)
        ∷ [])

-- `resize(2000)` of a vector of strings; `reserve` on each leaves its size as it is.
abbrev pub blanks : ℕ → List String
blanks zero = []
blanks (suc n) = "" ∷ blanks n

-- A client that runs, or the process after `exit(0)` with its database.
pub data Started (Key Db : Type 0) : Type 0 where
  running : Client Key Db → Started Key Db
  exited : Db → Started Key Db

-- The client that runs after `init`.
abbrev pub fresh : {Key Db : Type 0} → ClientConf → Db → Client Key Db
fresh conf db = record {
  client_id = conf.client_id;
  pending_blks = [];
  pending_blkhdr = [];
  tss_key = none;
  sender_strvec = blanks 2000;
  receiver_strvec = blanks 2000;
  sender_bal_strvec = blanks 2000;
  receiver_bal_strvec = blanks 2000;
  db = db;
}

module _ {Key Db Hash : Type 0} (calls : Calls Key Db Hash) where
  -- The loop of `init` over the accounts, up to the number.
  unfoldable pub populate : ℕ → Db → Db
  populate zero db = db
  populate (suc i) db = calls.put (populate i db) (to_string i) (to_string i)

  -- `TcClient::init`, with the database that was opened
  unfoldable pub init : ClientConf → Db → Started Key Db
  unfolding populate
  init conf db =
      if conf.clear_rocksdb
      then exited (populate conf.account_count db)
      else running (fresh conf db)

-- `TcClient::Register`, with the key shares that libBLS makes of the response
unfoldable pub register : {Key Db : Type 0} → Client Key Db → Key → Client Key Db
register c key = record c { tss_key = some key }

module _ {Bytes Key Db : Type 0} where
  -- One round of the pull thread, with what the two servers answer to each call.
  unfoldable pub pull_round :
      Codec Bytes
      → Client Key Db
      → List Bytes
      → List Bytes
      → List Bytes
      → List Bytes
      → Client Key Db × Outcome
  pull_round codec c headers shadow_headers blocks shadow_blocks =
      and_then (add_headers codec c headers) (λ c1.
        and_then (add_headers codec c1 shadow_headers)
          (λ c2. and_then (add_blocks codec c2 blocks) (λ c3. add_blocks codec c3 shadow_blocks)))
