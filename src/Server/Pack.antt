-- ===== src/Server/Pack.antt =====
-- `TcServer::generate_tx` and `TcServer::pack_block` of src/server/tc-server.cpp.
use mathlib.Core.List.{map}
use dchain.Prelude.{ℕ, zero, suc, ◌+◌, List, [], ◌∷◌, ◌++◌, ltb, leb, if◌then◌else◌, length, add64}
use dchain.Container.Assoc.{Assoc, assign, insert, erase, adjust_all}
use dchain.Container.Heap.{alloc}
use dchain.Entity.Transaction.{Transaction, new_transaction}
use dchain.Entity.Block.{Block, new_block}
use dchain.Server.State.{Conf, Server}

-- The four numbers of one round of `generate_tx`, drawn from 1 to `account-count`.
pub record Draw : Type 0 where
  pub tx_id : ℕ
  pub sender : ℕ
  pub receiver : ℕ
  pub fee : ℕ

-- The loop of `extracted_tx` and `new_block.tx_vec_`: an entry is taken before `tx_count` is
-- compared.
unfoldable pub take_txs : ℕ → ℕ → Assoc Transaction → Assoc Transaction
take_txs num_tx tx_count [] = []
take_txs num_tx tx_count (e ∷ txs) =
    let rest = take_txs num_tx (tx_count + 1) txs in
    if leb num_tx (tx_count + 1) then e ∷ [] else e ∷ rest

-- `pending_txs.erase` for each extracted id
unfoldable pub erase_all : Assoc Transaction → Assoc Transaction → Assoc Transaction
erase_all m [] = m
erase_all m ((id, tx) ∷ txs) = erase_all (erase m id) txs

module _ {Bytes Key : Type 0} where
  unfoldable pub add_tx : Server Bytes Key → Draw → Server Bytes Key
  add_tx s d = record s {
    pending_txs =
        insert s.pending_txs d.tx_id (new_transaction d.tx_id d.sender d.receiver 0 d.fee);
  }

  -- `TcServer::generate_tx`, with one draw for each of its rounds
  unfoldable pub generate_tx : Server Bytes Key → List Draw → Server Bytes Key
  unfolding add_tx
  generate_tx s [] = s
  generate_tx s (d ∷ ds) = generate_tx (add_tx s d) ds

  -- the block of one round of `pack_block`
  unfoldable pub packed_block : Server Bytes Key → ℕ → ℕ → Block
  packed_block s num_tx now = record (new_block s.blk_seq_generator 0xDEADBEEF now) {
    tx_vec = map (λ e. e.1) (take_txs num_tx 0 s.pending_txs);
  }

  -- One round of `pack_block`; the new block is shared by `pending_blks` and the relay queues.
  unfoldable pub pack_one : Server Bytes Key → ℕ → ℕ → Server Bytes Key
  unfolding packed_block take_txs erase_all
  pack_one s num_tx now = record s {
    blk_seq_generator = add64 s.blk_seq_generator 1;
    heap = alloc s.heap (packed_block s num_tx now);
    relay_blocks = adjust_all s.relay_blocks (λ q. q ++ length s.heap ∷ []);
    pending_blks = assign s.pending_blks s.blk_seq_generator (length s.heap);
    pending_txs = erase_all s.pending_txs (take_txs num_tx 0 s.pending_txs);
  }

  -- `TcServer::pack_block`: a round while at least `num_tx` transactions are pending, at most
  -- `num_block` of them. `now` gives the clock's reading at the turn of each block id.
  unfoldable pub pack_block : (ℕ → ℕ) → Server Bytes Key → ℕ → ℕ → Server Bytes Key
  unfolding pack_one
  pack_block now s num_tx zero = s
  pack_block now s num_tx (suc rounds) =
      let rest = pack_block now (pack_one s num_tx (now s.blk_seq_generator)) num_tx rounds in
      if leb num_tx (length s.pending_txs) then rest else s

  -- One turn of the loop of the pack thread in `TcServer::schedule`; `rounds` is its `INT_MAX`,
  -- and the draws are `generate-tx-rate` many.
  unfoldable pub pack_turn : Conf → (ℕ → ℕ) → List Draw → ℕ → Server Bytes Key → Server Bytes Key
  unfolding generate_tx pack_block
  pack_turn conf now draws rounds s =
      pack_block now
        (if ltb (length s.pending_blks) conf.pb_pool_limit then generate_tx s draws else s)
        conf.tx_per_block rounds
