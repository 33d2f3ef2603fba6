-- ===== src/Client/State.antt =====
-- include/client/tc-client.hpp: the fields of `TcClient` that its calls use. A block that a client
-- holds was decoded from a response and is not shared.
use dchain.Prelude.{ℕ, Option, List}
use dchain.Container.Assoc.{Assoc}
use dchain.Entity.Block.{Block, BlockHeader}
use Prim.Native.String.{String}

-- `Key` stands for the pair of libBLS key shares, null until the client registers, and `Db` for the
-- RocksDB of the accounts.
pub record Client (Key Db : Type 0) : Type 0 where
  pub client_id : ℕ
  pub pending_blks : List Block
  pub pending_blkhdr : Assoc BlockHeader
  pub tss_key : Option Key
  pub sender_strvec : List String
  pub receiver_strvec : List String
  pub sender_bal_strvec : List String
  pub receiver_bal_strvec : List String
  pub db : Db
