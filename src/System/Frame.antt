-- ===== src/System/Frame.antt =====
-- What the parts of a turn leave alone, but for a commit.
use dchain.Prelude.{
  ℕ, ◌≡◌, refl, ◌∙◌, Bool, ◌==◌, Option, none, some, List, [], arith, length, length-set, Outcome,
  for_each, for_each_correct, and_then_correct, Bool-cases, Option-cases, inl, inr,
}
use dchain.Container.Assoc.{find}
use dchain.Container.OrdSet.{contains}
use dchain.Container.Heap.{Ptr, deref}
use dchain.Entity.Block.{Block, BlockVote, get_server_id}
use dchain.Server.State.{Conf, Server}
use dchain.Server.Register.{register, register_found}
use dchain.Server.Count.{add_vote, count_vote, vote_into, close_if_enough}
use dchain.Server.Pull.{record_dist_ts, see, offer, offer_found, pull_item}
use dchain.Server.Consensus.{relay_to, relay_to_peer, place_vote, place_in, vote_block, vote_item}
use dchain.Server.Peer.{relayed_vote, relay_vote_item}
use dchain.Server.Send.{
  Sent, ids_from, for_each_peer, heartbeat_call, block_sync_call, relay_vote_call,
  send_relay_block_sync,
}
use dchain.Server.Safety.Send.{send_some-state}
use dchain.Wire.Codec.{Codec, Decoded-cases}

-- As many shared blocks, the same next block id, the same committed blocks, and the same commits to
-- tell.
pub record Frame {Bytes Key : Type 0} (s t : Server Bytes Key) : Type 0 where
  pub same_count : length t.heap ≡ length s.heap
  pub same_generator : t.blk_seq_generator ≡ s.blk_seq_generator
  pub same_committed : t.committed_blks ≡ s.committed_blks
  pub same_cast : t.bcast_commit_blocks ≡ s.bcast_commit_blocks

module _ {Bytes Key : Type 0} where
  pub Frame-refl : (s : Server Bytes Key) → Frame s s
  Frame-refl s = record {
    same_count = refl;
    same_generator = refl;
    same_committed = refl;
    same_cast = refl;
  }

  pub Frame-trans : (s t u : Server Bytes Key) → Frame s t → Frame t u → Frame s u
  Frame-trans s t u f g = record {
    same_count = g.same_count ∙ f.same_count;
    same_generator = g.same_generator ∙ f.same_generator;
    same_committed = g.same_committed ∙ f.same_committed;
    same_cast = g.same_cast ∙ f.same_cast;
  }

  -- A loop leaves alone what each of its turns does.
  for_each-Frame :
      {A : Type 0} (body : Server Bytes Key → A → Server Bytes Key × Outcome) (s : Server Bytes Key)
      (xs : List A)
      → ((t : Server Bytes Key) (x : A) → Frame t (body t x).0)
      → Frame s (for_each body s xs).0
  for_each-Frame body s xs keep =
      (for_each_correct (Frame s) (λ o. Unit {0}) body tt
        (λ t x f. (Frame-trans s t _ f (keep t x), tt)) s xs (Frame-refl s)).0

  pub register-Frame :
      (is_pkey : Bytes → Bool) (key_to_string : Key → Bytes) (s : Server Bytes Key) (client_id : ℕ)
      (pkey : Bytes)
      → Frame s (register is_pkey key_to_string s client_id pkey).0
  unfolding register register_found
  register-Frame is_pkey key_to_string s client_id pkey = ground arith

  relay_to-Frame :
      (vote : BlockVote) (s : Server Bytes Key) (target : ℕ) → Frame s (relay_to vote s target).0
  unfolding relay_to
  relay_to-Frame vote s target = ground arith

  relay_to_peer-Frame :
      (vote : BlockVote) (s : Server Bytes Key) (target : ℕ)
      → Frame s (relay_to_peer vote s target).0
  unfolding relay_to_peer
  relay_to_peer-Frame vote s target = ground (arith, relay_to-Frame vote s target)

  pub heartbeat_call-Frame :
      (up : ℕ → Bool) (s : Server Bytes Key) (k : ℕ) → Frame s (heartbeat_call up (s, []) k).0.0
  unfolding heartbeat_call
  heartbeat_call-Frame up s k = ground arith

  block_sync_call-Frame :
      (id : ℕ) (r : Sent Bytes Key) (target : ℕ) → Frame r.0 (block_sync_call id r target).0.0
  unfolding block_sync_call
  block_sync_call-Frame id (s, sent) target = Frame-refl s

module _ {Bytes Key : Type 0} (conf : Conf) where
  count_vote-Frame :
      (s : Server Bytes Key) (id voter : ℕ) (vote : BlockVote)
      → Frame s (count_vote conf s id voter vote).0
  unfolding count_vote vote_into close_if_enough
  count_vote-Frame s id voter vote = elim (Option-cases (find s.pending_blks id)) [
    | inl e ↦ rw (e, count_vote) (Frame-refl s)
    | inr (p, e) ↦ elim (Option-cases (deref s.heap p)) [
      | inl d ↦ rw (e, count_vote, d) (Frame-refl s)
      | inr (b, d) ↦ ground (arith, e, d, length-set s.heap p (add_vote b voter vote))
    ]
  ]

  module _ (codec : Codec Bytes) where
    pub pull_item-Frame :
        (now : ℕ → ℕ) (client_id : ℕ) (s : Server Bytes Key) (resp : List Bytes) (e : ℕ × Ptr)
        → Frame s (pull_item codec now client_id (s, resp) e).0.0
    unfolding pull_item offer_found offer see
    pull_item-Frame now client_id s resp (id, p) = elim (Option-cases (deref s.heap p)) [
      | inl d ↦ ground (arith, d)
      | inr (b, d) ↦ ground (arith, d, length-set s.heap p (record_dist_ts b (now id)))
    ]

    place_vote-Frame :
        (s : Server Bytes Key) (id client_id : ℕ) (vote : BlockVote) (targets : List ℕ)
        → Frame s (place_vote conf codec s id client_id vote targets).0
    unfolding place_vote
    place_vote-Frame s id client_id vote targets =
        elim (Bool-cases (contains targets s.server_id)) [
          | inl member ↦
              rw member
                (and_then_correct (Frame s) (λ o. Unit {0})
                  (for_each (relay_to_peer vote) s targets) _
                  (for_each-Frame (relay_to_peer vote) s targets (relay_to_peer-Frame vote)) tt
                  (λ t f. (Frame-trans s t _ f (count_vote-Frame t id client_id vote), tt))).0
          | inr other ↦ rw other (for_each-Frame (relay_to vote) s targets (relay_to-Frame vote))
        ]

    place_in-Frame :
        (s : Server Bytes Key) (id client_id : ℕ) (vote : BlockVote) (o : Option (List ℕ))
        → Frame s (place_in conf codec s id client_id vote o).0
    unfolding place_in
    place_in-Frame s id client_id vote none = Frame-refl s
    place_in-Frame s id client_id vote (some targets) = place_vote-Frame s id client_id vote targets

    vote_block-Frame :
        (client_id : ℕ) (s : Server Bytes Key) (b : Block)
        → Frame s (vote_block conf codec client_id s b).0
    unfolding vote_block
    vote_block-Frame client_id s b = elim (Option-cases (find b.votes client_id)) [
      | inl e ↦ rw (e, vote_block) (Frame-refl s)
      | inr (vote, e) ↦ elim (Bool-cases (contains s.dead_block b.header.id)) [
        | inl dead ↦ rw (e, vote_block, dead) (Frame-refl s)
        | inr alive ↦
            rw (e, vote_block, alive)
              (place_in-Frame s b.header.id client_id vote (get_server_id b conf.server_count))
      ]
    ]

    pub vote_item-Frame :
        (client_id : ℕ) (s : Server Bytes Key) (bytes : Bytes)
        → Frame s (vote_item conf codec client_id s bytes).0
    unfolding vote_item
    vote_item-Frame client_id s bytes = elim (Decoded-cases (codec.block_from_bytes bytes)) [
      | inl (b, e) ↦ rw (e, vote_item) (vote_block-Frame client_id s b)
      | inr (inl e) ↦ rw (e, vote_item) (Frame-refl s)
      | inr (inr e) ↦ rw (e, vote_item) (Frame-refl s)
    ]

    pub relay_vote_item-Frame :
        (s : Server Bytes Key) (bytes : Bytes) → Frame s (relay_vote_item conf codec s bytes).0
    unfolding relay_vote_item relayed_vote
    relay_vote_item-Frame s bytes = elim (Decoded-cases (codec.vote_from_bytes bytes)) [
      | inl (v, e) ↦
          rw (e, relay_vote_item)
            (elim (Bool-cases (contains s.dead_block v.block_id)) [
              | inl dead ↦ rw dead (Frame-refl s)
              | inr alive ↦ rw alive (count_vote-Frame s v.block_id v.voter_id v)
            ])
      | inr (inl e) ↦ rw (e, relay_vote_item) (Frame-refl s)
      | inr (inr e) ↦ rw (e, relay_vote_item) (Frame-refl s)
    ]

    pub relay_vote_call-Frame :
        (s : Server Bytes Key) (k : ℕ) → Frame s (relay_vote_call codec (s, []) k).0.0
    unfolding relay_vote_call
    relay_vote_call-Frame s k = elim (Option-cases (find s.relay_votes k)) [
      | inl e ↦ rw (e, relay_vote_call) (Frame-refl s)
      | inr (q, e) ↦
          rw (e, relay_vote_call, send_some-state)
            (record {
              same_count = refl;
              same_generator = refl;
              same_committed = refl;
              same_cast = refl;
            })
    ]

  pub send_relay_block_sync-Frame :
      (r : Sent Bytes Key) (id : ℕ) → Frame r.0 (send_relay_block_sync conf r id).0.0
  unfolding send_relay_block_sync for_each_peer
  send_relay_block_sync-Frame r id =
      (and_then_correct (λ (r' : Sent Bytes Key). Frame r.0 r'.0) (λ o. Unit {0})
        (for_each_peer (block_sync_call id) conf.server_count r) _
        (for_each_correct (λ (r' : Sent Bytes Key). Frame r.0 r'.0) (λ o. Unit {0}) _ tt
          (λ r' target f. elim (Bool-cases (target == r'.0.server_id)) [
            | inl own ↦ rw own (f, tt)
            | inr peer ↦ rw peer (f, tt)
          ])
          r (ids_from 1 conf.server_count) (Frame-refl r.0)).0
        tt
        (λ r' f. (
          Frame-trans r.0 r'.0 _ f (record {
            same_count = refl;
            same_generator = refl;
            same_committed = refl;
            same_cast = refl;
          }),
          tt,
        ))).0
