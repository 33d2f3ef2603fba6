-- ===== src/Client/Starting.antt =====
-- What the client starts with: its servers, its accounts, and its key buffers.
use native.Mathlib.Nat.{mod-lt}
use dchain.Prelude.{
  ℕ, zero, suc, ◌+◌, ◌-◌, ◌%◌, ◌≤◌, ◌<◌, ◌≡◌, ◌≢◌, refl, ◌∙◌, true, ◌||◌, arith, ◌==◌, u32_mod,
  u64_mod, Bool-cases, inl, inr, ap, sym, ==→eq, ==→ne,
}
use dchain.Client.Start.{
  ClientConf, client_index, server_select, shadow_server_select, populate, init, exited,
}
use dchain.Client.Vote.{Calls}
use dchain.Entity.Placement.{serves}
use dchain.Wire.Numeral.{to_string, to_string_injective}
use Prim.Native.String.{String}

index_lem : (i : ℕ) → 0 < i → i < u32_mod → client_index i ≡ i - 1
unfolding client_index
index_lem i p h = omega (arith, p, h)

-- The servers that a client calls, with `grpc-server-count` from 1 to 2 ^ 32 - 3 and a client id
-- from 1 to 2 ^ 32 - 1, are the two that collect the votes for a block whose id is one less.
pub server_select-serves :
    (client_id n k : ℕ)
    → 0 < client_id
    → client_id < u32_mod
    → 0 < n
    → n + 2 < u32_mod
    → (server_select client_id n == k || shadow_server_select client_id n == k)
      ≡ serves (client_id - 1) n k
unfolding server_select shadow_server_select
server_select-serves i n k p h q l =
    let m = (i - 1) % n in rw (index_lem i p h) (ground (arith, mod-lt (i - 1) q))

module _ {Key Db Hash : Type 0} (calls : Calls Key Db Hash)
    (get-put : (db : Db) (k v buf : String) → calls.get (calls.put db k v) k buf ≡ v)
    (get-put_other : (db : Db) (k j v buf : String)
      → k ≢ j
      → calls.get (calls.put db k v) j buf ≡ calls.get db j buf) where
  populate_lem :
      (n i : ℕ) (db : Db) (buf : String)
      → n ≤ u64_mod
      → i < n
      → calls.get (populate calls n db) (to_string i) buf ≡ to_string i
  unfolding populate
  populate_lem zero i db buf w h = absurd (omega arith)
  populate_lem (suc n) i db buf w h = elim (Bool-cases (n == i)) [
    | inl last ↦
        ap (λ j. calls.get (populate calls (suc n) db) (to_string j) buf) (sym (==→eq n i last))
        ∙ (get-put (populate calls n db) (to_string n) (to_string n) buf
            ∙ ap to_string (==→eq n i last))
    | inr below ↦
        get-put_other (populate calls n db) (to_string n) (to_string i) (to_string n) buf (λ e.
          ==→ne n i below (to_string_injective n i (omega (arith, w)) (omega (arith, w, h)) e))
        ∙ populate_lem n i db buf (omega (arith, w)) (ground (arith, below, h))
  ]

  -- With "clear-rocksdb" the process ends with a database in which every account below
  -- `account-count`, a word, has its own number as its balance, where a `Put` sets its key and no
  -- other.
  init_populates :
      (conf : ClientConf) (db : Db) (i : ℕ) (buf : String)
      → conf.clear_rocksdb ≡ true
      → conf.account_count < u64_mod
      → i < conf.account_count
      → (db' : Db) × (init calls conf db ≡ exited db')
        × (calls.get db' (to_string i) buf ≡ to_string i)
  unfolding init
  init_populates conf db i buf clear w h = (
    populate calls conf.account_count db,
    rw clear refl,
    populate_lem conf.account_count i db buf (omega (arith, w)) h,
  )
