-- ===== src/Server/Safety/Init.antt =====
-- The initial state is valid.
use dchain.Prelude.{
  ℕ, zero, suc, ◌+◌, ◌≤◌, ◌<◌, ◌≡◌, ◌≢◌, refl, true, some, List, [], ◌∷◌, arith, All, Bool-cases,
  inl, inr, ◌==◌, if◌then◌else◌,
}
use dchain.Container.Assoc.{Assoc, find, or_old}
use dchain.Container.OrdMap
use dchain.Container.OrdSet.{contains}
use dchain.Server.State.{Conf}
use dchain.Server.Send.{ids_from}
use dchain.Server.Init.{add_queues, init}
use dchain.Server.Invariant.{IsValid}
use dchain.Server.Queues.{PeerQueues}

module _ {A : Type 0} (own : ℕ) where
  -- A queue that is there stays.
  add_queues-kept :
      (m : Assoc (List A)) (ids : List ℕ) (k : ℕ) (q : List A)
      → find m k ≡ some q
      → find (add_queues own m ids) k ≡ some q
  unfolding add_queues
  add_queues-kept m [] k q e = e
  add_queues-kept m (id ∷ ids) k q e =
      add_queues-kept (if id == own then m else OrdMap.insert m id []) ids k q
        (ground (arith, OrdMap.find-insert m id [] k))

  add_queues-find :
      (m : Assoc (List A)) (ids : List ℕ) (k : ℕ)
      → contains ids k ≡ true
      → k ≢ own
      → (q : List A) × (find (add_queues own m ids) k ≡ some q)
  unfolding add_queues contains
  add_queues-find m [] k c n = absurd (ground arith)
  add_queues-find m (id ∷ ids) k c n = elim (Bool-cases (id == k)) [
    | inl here ↦
        let q = or_old (find m k) [] in
        (
          q,
          add_queues-kept (if id == own then m else OrdMap.insert m id []) ids k q
              (ground (arith, OrdMap.find-insert m id [] k)),
        )
    | inr later ↦
        add_queues-find (if id == own then m else OrdMap.insert m id []) ids k (ground arith) n
  ]

contains-ids_from :
    (first n k : ℕ) → first ≤ k → k < first + n → contains (ids_from first n) k ≡ true
unfolding ids_from contains
contains-ids_from first zero k l u = absurd (omega arith)
contains-ids_from first (suc n) k l u = elim (Bool-cases (first == k)) [
  | inl here ↦ rw here
  | inr later ↦ rw later (contains-ids_from (first + 1) n k (ground arith) (omega arith))
]

pub add_queues-All :
    {A : Type 0} (P : ℕ × List A → Type 0) (own : ℕ) (m : Assoc (List A)) (ids : List ℕ)
    → ((id : ℕ) → P (id, []))
    → All P m
    → All P (add_queues own m ids)
unfolding add_queues
add_queues-All P own m [] f a = a
add_queues-All P own m (id ∷ ids) f a = elim (Bool-cases (id == own)) [
  | inl self ↦ rw self (add_queues-All P own m ids f a)
  | inr peer ↦
      rw peer
        (add_queues-All P own (OrdMap.insert m id []) ids f (OrdMap.All-insert P m id [] (f id) a))
]

fresh_queues :
    {A : Type 0} (n own : ℕ) → PeerQueues n own (add_queues {A = A} own [] (ids_from 1 n))
fresh_queues n own k l u d =
    add_queues-find own [] (ids_from 1 n) k (contains-ids_from 1 n k l (omega arith)) d

-- The initial state is valid, for every configuration: the maps of blocks are empty, and every
-- other server from 1 to `server-count` has its three queues.
pub init-IsValid :
    (Bytes : Type 0) {Key : Type 0} (conf : Conf) (keys : ℕ → Key)
    → IsValid conf (init {Bytes = Bytes} conf keys)
unfolding init
init-IsValid Bytes conf keys = (
  record {
    pending_points = tt;
    committed_points = tt;
    merging_quorate = tt;
    peer_queues = fresh_queues conf.server_count conf.server_id;
    relay_live = add_queues-All _ conf.server_id [] (ids_from 1 conf.server_count) (λ id. tt) tt;
    cast_live = add_queues-All _ conf.server_id [] (ids_from 1 conf.server_count) (λ id. tt) tt;
    relay_queues = fresh_queues conf.server_count conf.server_id;
    cast_queues = fresh_queues conf.server_count conf.server_id;
  },
  refl,
)
