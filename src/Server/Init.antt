-- ===== src/Server/Init.antt =====
-- `TcServer::init_server`, `init_client_profile` and `init_peer_stubs` of src/server/tc-server.cpp.
-- RocksDB is opened and the stubs are made outside the model.
use dchain.Prelude.{
  ℕ, zero, suc, ◌*◌, ◌%◌, Bool, false, none, List, [], ◌∷◌, ◌==◌, if◌then◌else◌, u64_mod,
}
use dchain.Container.Assoc.{Assoc, insert}
use dchain.Container.OrdMap
use dchain.Server.State.{Conf, Server, ClientProfile}
use dchain.Server.Send.{ids_from}

-- A loop of `init_peer_stubs`: an empty queue for each server but the own one.
unfoldable pub add_queues : {A : Type 0} → ℕ → Assoc (List A) → List ℕ → Assoc (List A)
add_queues own m [] = m
add_queues own m (id ∷ ids) = add_queues own (if id == own then m else OrdMap.insert m id []) ids

-- `std::vector<std::atomic<bool>>(server_count)`
unfoldable pub no_status : ℕ → List Bool
no_status zero = []
no_status (suc n) = false ∷ no_status n

module _ {Bytes Key : Type 0} where
  -- `init_client_profile`: the clients from one on, each with its key share
  unfoldable pub add_clients :
      (ℕ → Key) → Assoc (ClientProfile Bytes Key) → List ℕ → Assoc (ClientProfile Bytes Key)
  add_clients keys m [] = m
  add_clients keys m (id ∷ ids) =
      add_clients keys
        (insert m id (record { id = id; ecc_pkey = none; tss_key = keys id; seen_blocks = [] })) ids

  -- The state when `TcServer::start` starts the schedule thread.
  unfoldable pub init : Conf → (ℕ → Key) → Server Bytes Key
  unfolding add_queues add_clients no_status ids_from
  init conf keys = record {
    server_id = conf.server_id;
    clients = add_clients keys [] (ids_from 1 conf.client_count);
    heap = [];
    pending_blks = [];
    pb_sync_queue = [];
    pb_sync_labels = [];
    pb_merge_queue = [];
    committed_blks = [];
    pending_txs = [];
    blk_seq_generator = (conf.server_id * 1000000) % u64_mod;
    relay_votes = add_queues conf.server_id [] (ids_from 1 conf.server_count);
    relay_blocks = add_queues conf.server_id [] (ids_from 1 conf.server_count);
    bcast_commit_blocks = add_queues conf.server_id [] (ids_from 1 conf.server_count);
    dead_block = [];
    db = [];
    peer_status = no_status conf.server_count;
  }
