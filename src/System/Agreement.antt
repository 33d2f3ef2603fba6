-- ===== src/System/Agreement.antt =====
-- What the servers promise one another, whatever the clients send.
use dchain.Prelude.{ℕ, Bool, ◌≤◌, ◌≡◌, subst, some, List, arith, length, get_elem?, u64_mod}
use dchain.Container.Assoc.{find, All-find}
use dchain.Container.Heap.{Ptr, deref, deref-lt-length}
use dchain.Entity.Bls.{SigShare, ShareSets}
use dchain.Entity.Block.{Block}
use dchain.Entity.Placement.{Servers}
use dchain.Server.State.{Conf}
use dchain.Wire.Codec.{Codec}
use dchain.Wire.Plan.{Plan, plan_of, KeepsPlans, adapter-KeepsPlans}
use dchain.Wire.Flex.{FlexBuffers, FlexLaws}
use dchain.Wire.Adapter.{adapter}
use dchain.System.Network.{Net, NetReach}
use dchain.System.Consistent.{Proposed, Decided, Numbered}
use dchain.System.Upkeep.{NetReach-Sound}

-- Blocks with one id were proposed as one, as long as no id is given twice.
plans-agree :
    (conf : Conf) (plans : List Plan) (a b : Plan)
    → Numbered conf plans
    → length plans ≤ u64_mod
    → Proposed plans a
    → Proposed plans b
    → a.id ≡ b.id
    → a ≡ b
plans-agree conf plans a b numbered l (i, e) (j, f) same =
    let u = (numbered i a e).1 in
    let v = (numbered j b f).1 in
    let at : i ≡ j =
      omega (arith, u, v, same, deref-lt-length plans i a e, deref-lt-length plans j b f) in
    let g : get_elem? plans j ≡ some a = subst (λ m. get_elem? plans m ≡ some a) at e in
    ground (arith, g, f)

module _ {Bytes Key ShareSet : Type 0} (conf : Conf) (codec : Codec Bytes)
    (bls : ShareSets ShareSet) (n : Servers conf.server_count) (keeps : KeepsPlans codec)
    (keys : ℕ → ℕ → Key) {net : Net Bytes Key} (r : NetReach conf codec bls keys net) where
  agree :
      (j k : ℕ) (p q : Ptr) (b c : Block)
      → length net.proposed ≤ u64_mod
      → deref (net.servers j).heap p ≡ some b
      → deref (net.servers k).heap q ≡ some c
      → b.header.id ≡ c.header.id
      → plan_of b ≡ plan_of c
  agree j k p q b c l e f same =
      let sound = NetReach-Sound conf codec bls n keeps keys r in
      plans-agree conf net.proposed (plan_of b) (plan_of c) sound.numbered l
        ((sound.holds j).planned p b e).0 ((sound.holds k).planned q c f).0 same

  decided :
      (k id : ℕ) (p : Ptr)
      → find (net.servers k).committed_blks id ≡ some p
      → (b : Block) × (deref (net.servers k).heap p ≡ some b)
        × (b.header.id ≡ id)
        × Proposed net.proposed (plan_of b)
        × Decided conf net.servers (plan_of b)
  decided k id p e =
      let h = (NetReach-Sound conf codec bls n keeps keys r).holds k in
      let (b, d, i) = All-find _ (net.servers k).committed_blks id p h.valid.0.committed_points e in
      let (c, d', w) = All-find _ (net.servers k).committed_blks id p h.committed e in
      let same : c ≡ b = ground (arith, d, d') in
      (b, d, i, (h.planned p b d).0, subst (λ a. Decided conf net.servers (plan_of a)) same w)

module _ {Bytes Value Key ShareSet : Type 0} (fb : FlexBuffers Bytes Value) (laws : FlexLaws fb)
    (is_share : SigShare → Bool) (conf : Conf) (bls : ShareSets ShareSet)
    (n : Servers conf.server_count) (keys : ℕ → ℕ → Key) {net : Net Bytes Key}
    (r : NetReach conf (adapter fb is_share) bls keys net) where
  -- Under what FlexBuffers promises of reading back, with `server-count` from 1 to 2 ^ 64 - 2, and
  -- at most 2 ^ 64 blocks packed: at any time in the network of all servers, two blocks of one id,
  -- in the stores of any servers, have the same base, proposal time and transactions.
  pub NetReach-agree :
      (j k : ℕ) (p q : Ptr) (b c : Block)
      → length net.proposed ≤ u64_mod
      → deref (net.servers j).heap p ≡ some b
      → deref (net.servers k).heap q ≡ some c
      → b.header.id ≡ c.header.id
      → plan_of b ≡ plan_of c
  NetReach-agree =
      agree conf (adapter fb is_share) bls n (adapter-KeepsPlans fb laws is_share) keys r

  -- Under what FlexBuffers promises of reading back, with `server-count` from 1 to 2 ^ 64 - 2: at
  -- any time in the network of all servers, what a server has committed under an id is a block of
  -- this id, whose base, proposal time and transactions are those of a block that server
  -- `server-count` packed, and those of a block with votes of `client-count` voters in the store of some
  -- server.
  pub NetReach-Decided :
      (k id : ℕ) (p : Ptr)
      → find (net.servers k).committed_blks id ≡ some p
      → (b : Block) × (deref (net.servers k).heap p ≡ some b)
        × (b.header.id ≡ id)
        × Proposed net.proposed (plan_of b)
        × Decided conf net.servers (plan_of b)
  NetReach-Decided =
      decided conf (adapter fb is_share) bls n (adapter-KeepsPlans fb laws is_share) keys r
