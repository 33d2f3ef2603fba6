-- ===== src/Server/Packing.antt =====
-- What packing a block does to the pending transactions.
use mathlib.Core.List.{map}
use dchain.Prelude.{
  ℕ, zero, suc, ◌+◌, ◌≤◌, ◌<◌, ◌≡◌, refl, none, some, List, [], ◌∷◌, ◌⊎◌, arith, leb, length,
  get_elem?, Bool-cases, inl, inr, ◌==◌, ◌∙◌,
}
use dchain.Container.Assoc.{Assoc, find, erase, find-erase}
use dchain.Container.Heap.{deref, deref-alloc}
use dchain.Entity.Transaction.{Transaction}
use dchain.Server.State.{Server}
use dchain.Server.Pack.{take_txs, erase_all, packed_block, pack_one, pack_block}

length-erase : {V : Type 0} (m : Assoc V) (k : ℕ) → length (erase m k) ≤ length m
unfolding erase
length-erase [] k = omega arith
length-erase ((j, v) ∷ m) k = ground (arith, length-erase m k)

length-erase_all : (m txs : Assoc Transaction) → length (erase_all m txs) ≤ length m
unfolding erase_all
length-erase_all m [] = omega arith
length-erase_all m ((id, tx) ∷ txs) =
    omega (arith, length-erase_all (erase m id) txs, length-erase m id)

-- Without an entry of its own, an id is not touched.
find-erase_all :
    (m txs : Assoc Transaction) (j : ℕ) → find txs j ≡ none → find (erase_all m txs) j ≡ find m j
unfolding find erase_all
find-erase_all m [] j e = refl
find-erase_all m ((id, tx) ∷ txs) j e = elim (Bool-cases (id == j)) [
  | inl same ↦ ground (arith, e, same)
  | inr other ↦
      find-erase_all (erase m id) txs j (ground (arith, e, other))
      ∙ ground (arith, other, find-erase m id j)
]

-- What is taken is the front of the table.
find-take_txs :
    (num_tx k : ℕ) (m : Assoc Transaction) (j : ℕ)
    → (find (take_txs num_tx k m) j ≡ none) ⊎ (find (take_txs num_tx k m) j ≡ find m j)
unfolding find take_txs
find-take_txs num_tx k [] j = inl refl
find-take_txs num_tx k ((i, tx) ∷ m) j = ground (arith, find-take_txs num_tx (k + 1) m j)

length-take_txs :
    (num_tx k : ℕ) (m : Assoc Transaction)
    → k < num_tx
    → num_tx ≤ k + length m
    → length (take_txs num_tx k m) + k ≡ num_tx
unfolding take_txs
length-take_txs num_tx k [] a b = omega arith
length-take_txs num_tx k (e ∷ m) a b = elim (Bool-cases (leb num_tx (k + 1))) [
  | inl last ↦ ground (arith, last)
  | inr more ↦ ground (arith, more, length-take_txs num_tx (k + 1) m)
]

length-map : {A B : Type 0} (f : A → B) (xs : List A) → length (map f xs) ≡ length xs
length-map f [] = refl
length-map f (x ∷ xs) = omega (arith, length-map f xs)

-- A value of the table stands among its values.
get_elem?-find :
    {V : Type 0} (m : Assoc V) (j : ℕ) (v : V)
    → find m j ≡ some v
    → (i : ℕ) × (get_elem? (map (λ e. e.1) m) i ≡ some v)
unfolding find get_elem?
get_elem?-find [] j v e = cc
get_elem?-find ((k, w) ∷ m) j v e = elim (Bool-cases (k == j)) [
  | inl same ↦ (0, ground (arith, e, same))
  | inr other ↦
      let (i, f) = get_elem?-find m j v (ground (arith, e, other)) in (suc i, ground (arith, f))
]

-- What is taken is erased, and that is at least one entry.
fewer :
    (m : Assoc Transaction) (num_tx : ℕ)
    → 0 < num_tx
    → num_tx ≤ length m
    → length (erase_all m (take_txs num_tx 0 m)) < length m
unfolding take_txs erase_all erase
fewer [] num_tx a b = omega arith
fewer ((id, tx) ∷ m) num_tx a b =
    let rest = take_txs num_tx 1 m in
    elim (Bool-cases (leb num_tx 1)) [
      | inl last ↦ ground (arith, last, length-erase m id)
      | inr more ↦ ground (arith, more, length-erase m id, length-erase_all (erase m id) rest)
    ]

module _ {Bytes Key : Type 0} (s : Server Bytes Key) (num_tx now : ℕ) where
  -- Where at least `num_tx` transactions are pending, and `num_tx` is not 0, the new block, found
  -- at the new pointer, holds `num_tx` of them, and none is lost: a transaction that was pending is
  -- pending still under its id, or is in the block.
  pub pack_one-txs :
      (j : ℕ) (tx : Transaction)
      → 0 < num_tx
      → num_tx ≤ length s.pending_txs
      → find s.pending_txs j ≡ some tx
      → let b = packed_block s num_tx now in
        let t = pack_one s num_tx now in
        (deref t.heap (length s.heap) ≡ some b)
        × (length b.tx_vec ≡ num_tx)
        × ((find t.pending_txs j ≡ some tx) ⊎ ((i : ℕ) × (get_elem? b.tx_vec i ≡ some tx)))
  unfolding pack_one packed_block
  pack_one-txs j tx pos enough e =
      let taken = take_txs num_tx 0 s.pending_txs in
      (
        ground (arith, deref-alloc s.heap (packed_block s num_tx now) (length s.heap)),
        omega (
          arith,
          length-map (λ e. e.1) taken,
          length-take_txs num_tx 0 s.pending_txs pos (omega (arith, enough)),
        ),
        elim (find-take_txs num_tx 0 s.pending_txs j) [
          | inl left ↦ inl (find-erase_all s.pending_txs taken j left ∙ e)
          | inr same ↦ inr (get_elem?-find taken j tx (same ∙ e))
        ],
      )

  -- A round leaves fewer transactions than it found.
  pack_one_fewer :
      0 < num_tx
      → num_tx ≤ length s.pending_txs
      → length (pack_one s num_tx now).pending_txs < length s.pending_txs
  unfolding pack_one
  pack_one_fewer pos enough = fewer s.pending_txs num_tx pos enough

-- Where `num_tx` is not 0, with as many rounds as there are transactions, `pack_block` ends with
-- fewer than `num_tx` pending, so that its condition, and not the bound on the rounds, ends it.
pub pack_block_drains :
    {Bytes Key : Type 0} (now : ℕ → ℕ) (s : Server Bytes Key) (num_tx rounds : ℕ)
    → 0 < num_tx
    → length s.pending_txs ≤ rounds
    → length (pack_block now s num_tx rounds).pending_txs < num_tx
unfolding pack_block
pack_block_drains now s num_tx zero pos fuel = omega (arith, pos, fuel)
pack_block_drains now s num_tx (suc rounds) pos fuel =
    let t = pack_one s num_tx (now s.blk_seq_generator) in
    elim (Bool-cases (leb num_tx (length s.pending_txs))) [
      | inl more ↦
          let less = pack_one_fewer s num_tx (now s.blk_seq_generator) pos (ground (arith, more)) in
          rw more (pack_block_drains now t num_tx rounds pos (omega (arith, less, fuel)))
      | inr done ↦ rw done (ground (arith, done))
    ]
