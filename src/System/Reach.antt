-- ===== src/System/Reach.antt =====
-- What holds after any interleaving of turns.
use dchain.Prelude.{
  ℕ, ◌≡◌, refl, some, List, [], Option-cases, inl, inr, subst, Bool, Bool-cases, Bool,
}
use dchain.Container.Assoc.{find}
use dchain.Container.Heap.{Ptr, deref}
use dchain.Entity.Bls.{ShareSets}
use dchain.Entity.Block.{Block}
use dchain.Entity.Placement.{Servers}
use dchain.Server.State.{Conf, Server}
use dchain.Server.Register.{register}
use dchain.Server.Peer.{relay_block_sync}
use dchain.Server.Pack.{add_tx}
use dchain.Server.Init.{init}
use dchain.Server.Growth.{Extends-refl, Grows}
use dchain.Server.Invariant.{IsValid, Safe, State, merge_pop-Inv}
use dchain.Server.Safety.Votes.{relay_vote_item-Runs}
use dchain.Server.Safety.Consensus.{vote_item-Runs}
use dchain.Server.Safety.Peer.{relay_block_item-Runs, bcast_item-Runs}
use dchain.Server.Safety.Pull.{pull_item-Runs, get_blocks-state}
use dchain.Server.Safety.Commit.{commit_popped-Runs, pack_one-Safe, reap_item-Runs}
use dchain.Server.Safety.Send.{
  relay_vote_call-Sends, relay_block_call-Sends, bcast_commit_call-Sends,
  send_relay_block_sync-Sends,
}
use dchain.Server.Safety.Schedule.{heartbeat_call-Sends}
use dchain.Server.Safety.Init.{init-IsValid}
use dchain.System.Step.{
  Turn, Step, Reach, turns, registers, pulls, gets, votes, relays_vote, relays_block, bcasts, syncs,
  sends_votes, sends_heartbeat, sends_blocks, sends_commits, sends_syncs, generates, packs, merges,
  reaps, here, next,
}
use dchain.Wire.Codec.{Codec}

register-Safe :
    {Bytes Key : Type 0} (conf : Conf) (h₀ : List Block) (is_pkey : Bytes → Bool)
    (key_to_string : Key → Bytes) (s : Server Bytes Key) (client_id : ℕ) (pkey : Bytes)
    → Safe conf h₀ s
    → Safe conf h₀ (register is_pkey key_to_string s client_id pkey).0
unfolding register
register-Safe conf h₀ is_pkey key_to_string s client_id pkey h = elim (Bool-cases (is_pkey pkey)) [
  | inl good ↦ elim (Option-cases (find s.clients client_id)) [
    | inl e ↦ rw (good, e) h
    | inr (client, e) ↦ rw (good, e) h
  ]
  | inr bad ↦ rw bad h
]

module _ {Bytes Key ShareSet : Type 0} (conf : Conf) (codec : Codec Bytes)
    (bls : ShareSets ShareSet) (n : Servers conf.server_count) where
  pub Turn-Safe :
      {s t : Server Bytes Key} (h₀ : List Block)
      → Turn conf codec bls s t
      → Safe conf h₀ s
      → Safe conf h₀ t
  unfolding relay_block_sync add_tx
  Turn-Safe h₀ (registers is_pkey key_to_string s client_id pkey) h =
      register-Safe conf h₀ is_pkey key_to_string s client_id pkey h
  Turn-Safe h₀ (pulls now client_id s resp e l k) h =
      (pull_item-Runs conf codec h₀ now client_id s.heap (s, resp) e l
        (h, (Extends-refl s.heap, h.1, h.2), k)).0.0
  Turn-Safe h₀ (gets s hdrs) h = rw (get_blocks-state conf codec h₀ s hdrs) h
  Turn-Safe h₀ (votes client_id s bytes) h = (vote_item-Runs conf h₀ codec n client_id s bytes h).0
  Turn-Safe h₀ (relays_vote s bytes) h = (relay_vote_item-Runs conf h₀ codec s bytes h).0
  Turn-Safe h₀ (syncs s id) h = h
  Turn-Safe h₀ (sends_heartbeat up s k p) h = (heartbeat_call-Sends conf h₀ up (s, []) k p h).0
  Turn-Safe h₀ (sends_votes s k p) h = (relay_vote_call-Sends conf h₀ codec (s, []) k p h).0
  Turn-Safe h₀ (sends_syncs s id queue e) h =
      (send_relay_block_sync-Sends conf h₀ (record s { pb_sync_queue = queue }, []) id h).0
  Turn-Safe h₀ (generates s d) h = h
  Turn-Safe h₀ (merges now s p queue e) (x, v, i) =
      let v' = subst (λ m. State conf (record s { pb_merge_queue = m })) e v in
      let (b, d, _) = v'.merging_quorate.0 in
      rw d
        (commit_popped-Runs conf codec bls now h₀ (record s { pb_merge_queue = queue }) p b queue d
          ((x, merge_pop-Inv v', i), refl)).0.0

  pub Step-Safe :
      {s t : Server Bytes Key} (h₀ : List Block)
      → Step conf codec bls s t
      → Safe conf h₀ s
      → Safe conf h₀ t
  Step-Safe h₀ (turns t) h = Turn-Safe h₀ t h
  Step-Safe h₀ (relays_block s bytes) h = (relay_block_item-Runs conf codec h₀ s bytes h).0
  Step-Safe h₀ (bcasts now s bytes) h = (bcast_item-Runs conf codec h₀ now s bytes h).0
  Step-Safe h₀ (sends_blocks s k p) h = (relay_block_call-Sends conf h₀ codec (s, []) k p h).0
  Step-Safe h₀ (sends_commits now s k p) h =
      (bcast_commit_call-Sends conf h₀ codec now (s, []) k p h).0
  Step-Safe h₀ (packs s num_tx now) h = pack_one-Safe conf h₀ (λ _. now) s num_tx now h
  Step-Safe h₀ (reaps now s id) h = (reap_item-Runs conf h₀ now s id h).0

  Reach-Safe :
      {s t : Server Bytes Key} (h₀ : List Block)
      → Reach conf codec bls s t
      → Safe conf h₀ s
      → Safe conf h₀ t
  Reach-Safe h₀ here h = h
  Reach-Safe h₀ (next r st) h = Step-Safe h₀ st (Reach-Safe h₀ r h)

  -- With `server-count` from 1 to 2 ^ 64 - 2: from the initial state, any interleaving of turns
  -- leaves the server in a valid state.
  pub Reach-IsValid :
      {s : Server Bytes Key} (keys : ℕ → Key)
      → Reach conf codec bls (init conf keys) s
      → IsValid conf s
  Reach-IsValid keys r =
      let (v, i) = init-IsValid Bytes conf keys in
      let (_, v', i') = Reach-Safe _ r (Extends-refl _, v, i) in (v', i')

  -- With `server-count` from 1 to 2 ^ 64 - 2: whatever turns a valid server takes, a block in its
  -- store keeps its id, its base, its proposal time, its transactions and each of its votes, which stay
  -- in the order of their voters if they were.
  pub Reach-Grows :
      {s t : Server Bytes Key} (p : Ptr) (b : Block)
      → IsValid conf s
      → Reach conf codec bls s t
      → deref s.heap p ≡ some b
      → (b' : Block) × (deref t.heap p ≡ some b') × Grows b b'
  Reach-Grows {s} p b (v, i) r e = (Reach-Safe s.heap r (Extends-refl s.heap, v, i)).0.at p b e
