-- ===== src/Entity/Transaction.antt =====
-- include/entity/transaction.hpp and src/entity/transaction.cpp.
use dchain.Prelude.{ℕ}

pub record Transaction : Type 0 where
  pub id : ℕ
  pub sender : ℕ
  pub receiver : ℕ
  pub value : ℕ
  pub fee : ℕ

-- `Transaction::Transaction(id, sender, receiver, value, fee)`
abbrev pub new_transaction : ℕ → ℕ → ℕ → ℕ → ℕ → Transaction
new_transaction id sender receiver value fee = record {
  id = id;
  sender = sender;
  receiver = receiver;
  value = value;
  fee = fee;
}
