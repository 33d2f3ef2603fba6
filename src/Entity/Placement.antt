-- ===== src/Entity/Placement.antt =====
-- Which servers collect the votes for a block: the results of `Block::get_server_id`.
use native.Mathlib.Nat.{mod-lt}
use dchain.Prelude.{
  ℕ, ◌+◌, ◌%◌, ◌^◌, ◌≤◌, ◌<◌, ◌≡◌, Bool, ◌||◌, some, List, [], arith, ◌==◌, if◌then◌else◌, length,
  All,
}
use dchain.Container.OrdSet
use dchain.Container.OrdSet.{contains, contains-insert, insert}
use dchain.Entity.Block.{Block, primary_id, shadow_id, get_server_id}

-- The numbers of servers that leave room for one more in 64 bits.
abbrev pub Servers : ℕ → Type 0
Servers n = (0 < n) × (n + 1 < 2 ^ 64)

primary_id_lem : (i n : ℕ) → Servers n → (primary_id i n ≡ i % n + 1) × (i % n + 1 ≤ n)
unfolding primary_id
primary_id_lem i n h = omega (arith, mod-lt i h.0)

shadow_id_lem : (p n : ℕ) → Servers n → p ≤ n → shadow_id p n ≡ (if p == n then 1 else p + 1)
unfolding shadow_id
shadow_id_lem p n h l = ground arith

-- Server `k` collects the votes for the block with this id.
abbrev pub serves : ℕ → ℕ → ℕ → Bool
serves block_id n k = let p = block_id % n + 1 in p == k || (if p == n then 1 else p + 1) == k

abbrev pub servers_of : Block → ℕ → List ℕ
servers_of b n =
    insert (insert [] (primary_id b.header.id n)) (shadow_id (primary_id b.header.id n) n)

pub get_server_id-eq : (b : Block) (n : ℕ) → 0 < n → get_server_id b n ≡ some (servers_of b n)
unfolding get_server_id
get_server_id-eq b n h = ground arith

pub contains-servers_of :
    (b : Block) (n k : ℕ) → Servers n → contains (servers_of b n) k ≡ serves b.header.id n k
unfolding contains
contains-servers_of b n k h =
    rw (contains-insert, contains-insert)
      (ground (arith, primary_id_lem b.header.id n h, shadow_id_lem (primary_id b.header.id n) n h))

-- With `n` servers, from 1 to 2 ^ 64 - 2, `Block::get_server_id` does not trap, and the servers
-- that it names are the primary, which is the id modulo `n` plus one, and the server after it in
-- the ring.
pub get_server_id-serves :
    (b : Block) (n k : ℕ)
    → Servers n
    → (s : List ℕ) × (get_server_id b n ≡ some s) × (contains s k ≡ serves b.header.id n k)
get_server_id-serves b n k h =
    (servers_of b n, get_server_id-eq b n h.0, contains-servers_of b n k h)

-- With `n` servers, from 1 to 2 ^ 64 - 2, every server that `get_server_id` names is one of the
-- servers 1 to `n`, and there are two of them, or one if there is one server only.
pub get_server_id_range :
    (b : Block) (n : ℕ) (s : List ℕ)
    → Servers n
    → get_server_id b n ≡ some s
    → All (λ k. (1 ≤ k) × (k ≤ n)) s × (length s ≡ (if n == 1 then 1 else 2))
unfolding get_server_id OrdSet.insert contains
get_server_id_range b n s h e =
    ground (arith, primary_id_lem b.header.id n h, shadow_id_lem (primary_id b.header.id n) n h)
