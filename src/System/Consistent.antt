-- ===== src/System/Consistent.antt =====
-- What holds of the network at any time, and that each step keeps it.
use dchain.Prelude.{
  ℕ, ◌+◌, ◌*◌, ◌%◌, ◌≤◌, ◌≡◌, refl, sym, ◌∙◌, ap, subst, some, List, ◌==◌, ==→eq, eq→==, arith,
  length, get_elem?, u64_mod, All, All-append, Bool-cases, inl, inr,
}
use dchain.Container.OrdMap.{IsSorted}
use dchain.Container.Heap.{Ptr, deref}
use dchain.Entity.Block.{Block}
use dchain.Server.State.{Conf, Server}
use dchain.Server.Growth.{Extends}
use dchain.Server.Send.{Message}
use dchain.Wire.Codec.{Codec}
use dchain.Wire.Plan.{Plan, plan_of, IsPlan, Grows-plan_of}
use dchain.System.Network.{Net, put, conf_at}
use dchain.System.Holding.{Holds, Holds-more}
use dchain.System.Exchange.{IsTold, All-IsTold-more}

abbrev pub Proposed : List Plan → Plan → Type 0
Proposed plans plan = (i : ℕ) × (get_elem? plans i ≡ some plan)

-- A server holds a block of this plan with `client-count` votes, of distinct voters, in their
-- order.
abbrev pub Decided : {Bytes Key : Type 0} → Conf → (ℕ → Server Bytes Key) → Plan → Type 0
Decided conf servers plan =
    (k : ℕ) × (p : Ptr) × (b : Block) × (deref (servers k).heap p ≡ some b)
    × (plan_of b ≡ plan)
    × (conf.client_count ≤ length b.votes)
    × IsSorted b.votes

-- The plan with number `i` got the id after `i` others.
abbrev pub Numbered : Conf → List Plan → Type 0
Numbered conf plans =
    (i : ℕ) (plan : Plan)
    → get_elem? plans i ≡ some plan
    → IsPlan plan × (plan.id ≡ (conf.server_count * 1000000 + i) % u64_mod)

pub record Sound {Bytes Key : Type 0} (conf : Conf) (codec : Codec Bytes) (net : Net Bytes Key)
    : Type 0 where
  pub holds :
      (k : ℕ)
      → Holds (conf_at conf k) (Proposed net.proposed) (Decided conf net.servers) (net.servers k)
  pub told : All (IsTold codec (Proposed net.proposed) (Decided conf net.servers)) net.sent
  pub numbered : Numbered conf net.proposed
  pub generator :
      (net.servers conf.server_count).blk_seq_generator
      ≡ (conf.server_count * 1000000 + length net.proposed) % u64_mod

pub fits :
    (conf : Conf) (plans : List Plan)
    → Numbered conf plans
    → (plan : Plan) → Proposed plans plan
    → IsPlan plan
fits conf plans numbered plan (i, e) = (numbered i plan e).0

module _ {Bytes Key : Type 0} (conf : Conf) (codec : Codec Bytes) (net : Net Bytes Key) (k : ℕ)
    (t : Server Bytes Key) (ms : List (ℕ × Message Bytes)) where
  -- What was decided stays so when a server's blocks grow.
  pub Decided-put :
      Extends (net.servers k).heap t.heap
      → (plan : Plan) → Decided conf net.servers plan
      → Decided conf (put net k (t, ms)).servers plan
  Decided-put x plan (j, p, b, e, same, l, o) = elim (Bool-cases (j == k)) [
    | inl hit ↦
        let e' = subst (λ i. deref (net.servers i).heap p ≡ some b) (==→eq j k hit) e in
        let (b', d, g) = x.at p b e' in
        (
          j,
          p,
          b',
          rw hit d,
          Grows-plan_of b b' g ∙ same,
          omega (arith, g.more_votes),
          g.order_kept o,
        )
    | inr miss ↦ (j, p, b, rw miss e, same, l, o)
  ]

  -- A block that has its votes in the new state is decided.
  pub enough_Decided :
      (p : Ptr) (b : Block)
      → deref t.heap p ≡ some b
      → conf.client_count ≤ length b.votes
      → IsSorted b.votes
      → Decided conf (put net k (t, ms)).servers (plan_of b)
  enough_Decided p b e l o = (k, p, b, rw (eq→== k k refl) e, refl, l, o)

  pub same_generator :
      (n : ℕ)
      → t.blk_seq_generator ≡ (net.servers k).blk_seq_generator
      → ((put net k (t, ms)).servers n).blk_seq_generator ≡ (net.servers n).blk_seq_generator
  same_generator n e = elim (Bool-cases (n == k)) [
    | inl hit ↦ rw hit (e ∙ ap (λ i. (net.servers i).blk_seq_generator) (sym (==→eq n k hit)))
    | inr miss ↦ rw miss refl
  ]

  -- A new state of one server, the requests that it sent, and the plans with those that it packed.
  pub put-Sound :
      (plans : List Plan)
      → let net' = record (put net k (t, ms)) { proposed = plans } in
        Sound conf codec net
        → Extends (net.servers k).heap t.heap
        → ((plan : Plan) → Proposed net.proposed plan → Proposed plans plan)
        → Numbered conf plans
        → ((net'.servers conf.server_count).blk_seq_generator
            ≡ (conf.server_count * 1000000 + length plans) % u64_mod)
        → Holds (conf_at conf k) (Proposed plans) (Decided conf net'.servers) t
        → All (IsTold codec (Proposed plans) (Decided conf net'.servers)) ms
        → Sound conf codec net'
  put-Sound plans sound x more numbered gen h new = record {
    holds = λ j. elim (Bool-cases (j == k)) [
      | inl hit ↦ rw hit (
          subst
            (λ i.
              Holds (conf_at conf i) (Proposed plans) (Decided conf (put net k (t, ms)).servers) t)
            (sym (==→eq j k hit)) h)
      | inr miss ↦
          rw miss (
            Holds-more (conf_at conf j) _ _ _ _ (net.servers j) more (Decided-put x)
              (sound.holds j))
    ];
    told =
        All-append _ net.sent ms
          (All-IsTold-more codec _ _ _ _ net.sent more (Decided-put x) sound.told) new;
    numbered = numbered;
    generator = gen;
  }
