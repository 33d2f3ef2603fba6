-- ===== src/System/Upkeep.antt =====
-- Each step of the network keeps what holds of it.
use mathlib.Core.List.{Memᴰ}
use mathlib.Core.List.Memᴰ.{cases_cons}
use dchain.Prelude.{
  ℕ, ◌≡◌, sym, ◌∙◌, ap, subst, List, [], ◌∷◌, ◌++◌, arith, length, get_elem?, All, inl, inr,
}
use dchain.Entity.Bls.{ShareSets}
use dchain.Entity.Placement.{Servers}
use dchain.Server.State.{Conf, Server}
use dchain.Server.Growth.{Extends-refl}
use dchain.Server.Invariant.{Safe}
use dchain.Server.Init.{init}
use dchain.Server.Pack.{packed_block, pack_one}
use dchain.Server.Send.{Message, ids_from, blocks, commits}
use dchain.Server.Safety.Init.{init-IsValid, add_queues-All}
use dchain.Server.Safety.Peer.{relay_block_item-Runs, bcast_item-Runs}
use dchain.Server.Safety.Send.{relay_block_call-Sends, bcast_commit_call-Sends}
use dchain.Server.Safety.Commit.{pack_one-Safe}
use dchain.Wire.Codec.{Codec}
use dchain.Wire.Plan.{Plan, plan_of, IsPlan, KeepsPlans}
use dchain.System.Step.{Turn}
use dchain.System.Reach.{Turn-Safe}
use dchain.System.Change.{Change, still, Turn-Change}
use dchain.System.Network.{
  Net, put, conf_at, propose, initial, NetStep, takes_turn, proposes, sends_blocks, sends_commits,
  receives_block, receives_commit, NetReach, start, continue,
}
use dchain.System.Holding.{Holds, Change-Holds, Holds-more}
use dchain.System.Exchange.{
  IsTold, relay_block_call-Holds, bcast_commit_call-Holds, All-IsTold-more,
}
use dchain.System.Intake.{relay_block_item-Holds, bcast_item-Holds, pack_one-Holds}
use dchain.System.Numbering.{
  Proposed-more, Numbered-more, newest, next_id, put_own, packed_id, pack_one-generator,
  relay_block_call-generator, bcast_commit_call-generator, relay_block_item-generator,
  bcast_item-generator,
}
use dchain.System.Consistent.{
  Proposed, Decided, Sound, fits, Decided-put, enough_Decided, same_generator, put-Sound,
}

-- What all of a list have, one has.
All-Mem : {A : Type 0} (P : A → Type 0) (xs : List A) (x : A) → All P xs → Memᴰ x xs → P x
All-Mem P [] x a m = elim m [ ]
All-Mem P (y ∷ xs) x a m = elim (cases_cons m) [
  | inl e ↦ subst P (sym e) a.0
  | inr m' ↦ All-Mem P xs x a.1 m'
]

Change-generator :
    {Bytes Key : Type 0} (conf : Conf) (s t : Server Bytes Key)
    → Change conf s t
    → t.blk_seq_generator ≡ s.blk_seq_generator
Change-generator conf s t (still f) = f.same_generator
Change-generator conf s t (Change.commits id p q c) = c.same_generator

module _ {Bytes Key ShareSet : Type 0} (conf : Conf) (codec : Codec Bytes)
    (bls : ShareSets ShareSet) (n : Servers conf.server_count) (keeps : KeepsPlans codec) where
  module _ (net : Net Bytes Key) (sound : Sound conf codec net) where
    valid : (k : ℕ) → Safe (conf_at conf k) (net.servers k).heap (net.servers k)
    valid k = let v = (sound.holds k).valid in (Extends-refl (net.servers k).heap, v.0, v.1)

    -- A new state of one server that packs nothing.
    keep :
        (k : ℕ) (t : Server Bytes Key) (ms : List (ℕ × Message Bytes))
        → Safe (conf_at conf k) (net.servers k).heap t
        → t.blk_seq_generator ≡ (net.servers k).blk_seq_generator
        → Holds
            (conf_at conf k)
            (Proposed net.proposed)
            (Decided conf (put net k (t, ms)).servers)
            t
        → All (IsTold codec (Proposed net.proposed) (Decided conf (put net k (t, ms)).servers)) ms
        → Sound conf codec (put net k (t, ms))
    keep k t ms v g h new =
        put-Sound conf codec net k t ms net.proposed sound v.0 (λ plan p. p) sound.numbered
          (same_generator conf codec net k t ms conf.server_count g ∙ sound.generator) h new

    -- The same where nothing is decided either.
    pass :
        (k : ℕ) (t : Server Bytes Key) (ms : List (ℕ × Message Bytes))
        → Safe (conf_at conf k) (net.servers k).heap t
        → t.blk_seq_generator ≡ (net.servers k).blk_seq_generator
        → Holds (conf_at conf k) (Proposed net.proposed) (Decided conf net.servers) t
        → All (IsTold codec (Proposed net.proposed) (Decided conf net.servers)) ms
        → Sound conf codec (put net k (t, ms))
    pass k t ms v g h new =
        let more = Decided-put conf codec net k t ms v.0 in
        let same = λ (plan : Plan) (p : Proposed net.proposed plan). p in
        keep k t ms v g
          (Holds-more (conf_at conf k) _ _ (Decided conf net.servers)
            (Decided conf (put net k (t, ms)).servers) t same more h)
          (All-IsTold-more codec (Proposed net.proposed) (Proposed net.proposed)
            (Decided conf net.servers) (Decided conf (put net k (t, ms)).servers) ms same more new)

    served-Sound :
        (k : ℕ) (t : Server Bytes Key)
        → Turn (conf_at conf k) codec bls (net.servers k) t
        → Sound conf codec (put net k (t, []))
    served-Sound k t turn =
        let v = Turn-Safe (conf_at conf k) codec bls n _ turn (valid k) in
        let c = Turn-Change (conf_at conf k) codec bls turn (valid k).1 in
        keep k t [] v (Change-generator (conf_at conf k) _ t c)
          (Change-Holds (conf_at conf k) (Proposed net.proposed) (Decided conf net.servers)
            (Decided conf (put net k (t, [])).servers) (net.servers k) t
            (Decided-put conf codec net k t [] v.0) (enough_Decided conf codec net k t []) v.0
            (v.1, v.2) c (sound.holds k))
          tt

    proposes-Sound :
        (num_tx now : ℕ)
        → IsPlan (plan_of (packed_block (net.servers conf.server_count) num_tx now))
        → Sound conf codec (propose conf net num_tx now)
    proposes-Sound num_tx now w =
        let s = net.servers conf.server_count in
        let t = pack_one s num_tx now in
        let new = plan_of (packed_block s num_tx now) in
        let v =
          pack_one-Safe (conf_at conf conf.server_count) s.heap (λ id. now) s num_tx now
            (valid conf.server_count) in
        put-Sound conf codec net conf.server_count t [] (net.proposed ++ new ∷ []) sound v.0
          (Proposed-more net.proposed new)
          (Numbered-more conf net.proposed new sound.numbered w
            (packed_id s num_tx now ∙ sound.generator))
          (ap (λ u. u.blk_seq_generator) (put_own net conf.server_count t [])
            ∙ pack_one-generator s num_tx now
            ∙ next_id conf.server_count s.blk_seq_generator net.proposed new sound.generator)
          (pack_one-Holds (conf_at conf conf.server_count) (Proposed net.proposed) _ _ s num_tx now
            (Proposed-more net.proposed new) (length net.proposed, newest net.proposed new)
            (Holds-more (conf_at conf conf.server_count) _ _ (Decided conf net.servers)
              (Decided conf (put net conf.server_count (t, [])).servers) s (λ plan p. p)
              (Decided-put conf codec net conf.server_count t [] v.0)
              (sound.holds conf.server_count)))
          tt

    pub NetStep-Sound :
        {net' : Net Bytes Key} → NetStep conf codec bls net net' → Sound conf codec net'
    NetStep-Sound (takes_turn k t turn) = served-Sound k t turn
    NetStep-Sound (proposes num_tx now w) = proposes-Sound num_tx now w
    NetStep-Sound (sends_blocks k target p) =
        let s = net.servers k in
        let h =
          relay_block_call-Holds (conf_at conf k) codec (Proposed net.proposed)
            (Decided conf net.servers) s target p (sound.holds k) in
        pass k _ _
          (relay_block_call-Sends (conf_at conf k) s.heap codec (s, []) target p (valid k)).0
          (relay_block_call-generator conf codec s target) h.0 h.1
    NetStep-Sound (sends_commits now k target p) =
        let s = net.servers k in
        let h =
          bcast_commit_call-Holds (conf_at conf k) codec (Proposed net.proposed)
            (Decided conf net.servers) now s target p (sound.holds k) in
        pass k _ _
          (bcast_commit_call-Sends (conf_at conf k) s.heap codec now (s, []) target p (valid k)).0
          (bcast_commit_call-generator conf codec now s target) h.0 h.1
    NetStep-Sound (receives_block k bs bytes m b) =
        let s = net.servers k in
        let told = All-Mem _ net.sent (k, blocks bs) sound.told m in
        pass k _ [] (relay_block_item-Runs (conf_at conf k) codec s.heap s bytes (valid k)).0
          (relay_block_item-generator (conf_at conf k) codec s bytes)
          (relay_block_item-Holds (conf_at conf k) codec (Proposed net.proposed)
            (Decided conf net.servers) (fits conf net.proposed sound.numbered) keeps s bytes
            (All-Mem _ bs bytes told b) (sound.holds k))
          tt
    NetStep-Sound (receives_commit now k bs at bytes m b) =
        let s = net.servers k in
        let told = All-Mem _ net.sent (k, commits bs at) sound.told m in
        pass k _ [] (bcast_item-Runs (conf_at conf k) codec s.heap now s bytes (valid k)).0
          (bcast_item-generator (conf_at conf k) codec now s bytes)
          (bcast_item-Holds (conf_at conf k) codec (Proposed net.proposed)
            (Decided conf net.servers) (fits conf net.proposed sound.numbered) keeps now s bytes
            (All-Mem _ bs bytes told b) (sound.holds k))
          tt

  initial-Sound : (keys : ℕ → ℕ → Key) → Sound conf codec (initial conf codec bls keys)
  unfolding init get_elem?
  initial-Sound keys = record {
    holds = λ k. record {
      valid = init-IsValid Bytes (conf_at conf k) (keys k);
      planned = λ p b e. absurd (ground (arith, e));
      committed = tt;
      cast = add_queues-All _ k [] (ids_from 1 conf.server_count) (λ id. tt) tt;
    };
    told = tt;
    numbered = λ i plan e. absurd (ground (arith, e));
    generator = omega arith;
  }

  pub NetReach-Sound :
      (keys : ℕ → ℕ → Key) {net : Net Bytes Key}
      → NetReach conf codec bls keys net
      → Sound conf codec net
  NetReach-Sound keys start = initial-Sound keys
  NetReach-Sound keys (continue r st) = NetStep-Sound _ (NetReach-Sound keys r) st
