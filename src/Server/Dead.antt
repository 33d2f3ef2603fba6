-- ===== src/Server/Dead.antt =====
-- `TcServer::remove_dead_blocks` and `get_shadow_peer_server_id` of src/server/tc-server.cpp.
-- `now` gives the clock's reading at the turn of each block id.
use dchain.Prelude.{
  ℕ, Option, none, some, List, [], ◌∷◌, ◌==◌, ltb, if◌then◌else◌, Outcome, returned, faulted,
  for_each, sub64, add64,
}
use dchain.Container.Assoc.{Assoc, find, erase}
use dchain.Container.Heap.{Ptr, deref}
use dchain.Container.OrdSet
use dchain.Entity.Block.{Block}
use dchain.Server.State.{Conf, Server}

-- `block_id_list`, from the headers of the blocks in the copy
unfoldable pub block_ids : List Block → Assoc Ptr → Option (List ℕ)
block_ids h [] = some []
block_ids h ((id, p) ∷ m) = elim (deref h p) [
  | none ↦ none
  | some b ↦ elim (block_ids h m) [ none ↦ none | some ids ↦ some (b.header.id ∷ ids) ]
]

module _ {Bytes Key : Type 0} (conf : Conf) where
  -- A block of an age over the threshold, but of at most 100000 ms, dies.
  unfoldable pub reap : Server Bytes Key → ℕ → ℕ → Server Bytes Key
  reap s block_id delta =
      if ltb 100000 delta
      then s
      else if ltb conf.block_die_threshold delta
      then record s {
        dead_block = OrdSet.insert s.dead_block block_id;
        pending_blks = erase s.pending_blks block_id;
      }
      else s

  unfoldable pub reap_block :
      (ℕ → ℕ) → Server Bytes Key → ℕ → Option Block → Server Bytes Key × Outcome
  unfolding reap
  reap_block now s block_id none = (s, faulted)
  reap_block now s block_id (some b) =
      (reap s block_id (sub64 (now block_id) b.header.proposal_ts), returned)

  -- One turn of the second loop.
  unfoldable pub reap_item : (ℕ → ℕ) → Server Bytes Key → ℕ → Server Bytes Key × Outcome
  unfolding reap_block
  reap_item now s block_id = elim (find s.pending_blks block_id) [
    | none ↦ (s, returned)
    | some p ↦ reap_block now s block_id (deref s.heap p)
  ]

  -- `TcServer::remove_dead_blocks`
  unfoldable pub remove_dead_blocks : (ℕ → ℕ) → Server Bytes Key → Server Bytes Key × Outcome
  unfolding block_ids reap_item
  remove_dead_blocks now s = elim (block_ids s.heap s.pending_blks) [
    | none ↦ (s, faulted)
    | some ids ↦ for_each (reap_item now) s ids
  ]

  -- `TcServer::get_shadow_peer_server_id`
  unfoldable pub get_shadow_peer_server_id : Server Bytes Key → ℕ
  get_shadow_peer_server_id s = if s.server_id == conf.server_count then 1 else add64 s.server_id 1
