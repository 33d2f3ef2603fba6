-- ===== src/Server/Signals.antt =====
-- Which blocks are signalled as known to the peers.
use mathlib.Core.List.{map, append-nil, append_assoc}
use dchain.Prelude.{
  ℕ, suc, zero, ◌+◌, ◌≡◌, refl, sym, ap, ◌∙◌, Bool, not, ◌&&◌, ◌||◌, List, [], ◌∷◌, ◌++◌, arith,
  ◌==◌, leb, if◌then◌else◌, returned, for_each, sent_to, sent_to-++, Bool-cases, inl, inr,
}
use dchain.Container.OrdSet
use dchain.Container.OrdSet.{contains, contains-insert}
use dchain.Server.State.{Conf, Server}
use dchain.Server.Send.{
  Message, block_sync, Sent, ids_from, for_each_peer, block_sync_call, send_relay_block_sync,
  drain_sync_queue, send_relay_blocks,
}
use dchain.Wire.Codec.{Codec}

-- The signals for a block to those of the targets that are not the server itself.
abbrev notices : {Bytes : Type 0} → ℕ → ℕ → List ℕ → List (ℕ × Message Bytes)
notices own id [] = []
notices own id (t ∷ ts) =
    let rest = notices own id ts in if t == own then rest else (t, block_sync id) ∷ rest

notices-from :
    {Bytes : Type 0} (own id k n first : ℕ)
    → sent_to k (notices {Bytes = Bytes} own id (ids_from first n)) ≡ (
        if leb first k && leb (k + 1) (first + n) && not (k == own) then block_sync id ∷ [] else [])
unfolding ids_from
notices-from own id k zero first = ground arith
notices-from {Bytes} own id k (suc n) first =
    ground (arith, notices-from {Bytes = Bytes} own id k n (first + 1))

module _ {Bytes Key : Type 0} (conf : Conf) where
  -- Whether the id is one of the other servers.
  abbrev pub is_peer : Server Bytes Key → ℕ → Bool
  is_peer s k = leb 1 k && leb k conf.server_count && not (k == s.server_id)

  -- The signals for one more block, before those of the rest.
  told_next :
      (s : Server Bytes Key) (sent : List (ℕ × Message Bytes)) (id k : ℕ)
      (xs : List (Message Bytes))
      → sent_to k (sent ++ notices s.server_id id (ids_from 1 conf.server_count))
          ++ (if is_peer s k then xs else [])
        ≡ sent_to k sent ++ (if is_peer s k then block_sync id ∷ xs else [])
  told_next s sent id k xs =
      let own = notices s.server_id id (ids_from 1 conf.server_count) in
      let told : sent_to k own ≡ (if is_peer s k then block_sync id ∷ [] else []) =
        ground (arith, notices-from {Bytes = Bytes} s.server_id id k conf.server_count 1) in
      rw (sent_to-++ k sent own, told)
        (elim (Bool-cases (is_peer s k)) [
          | inl peer ↦ rw peer (append_assoc (sent_to k sent) (block_sync id ∷ []) xs)
          | inr other ↦ rw other (append-nil (sent_to k sent ++ []))
        ])

  -- Telling the peers changes nothing here.
  block_syncs-eq :
      (id : ℕ) (s : Server Bytes Key) (sent : List (ℕ × Message Bytes)) (ts : List ℕ)
      → for_each
          (λ (r : Sent Bytes Key) (t : ℕ).
            if t == r.0.server_id then (r, returned) else block_sync_call id r t)
          (s, sent)
          ts
        ≡ ((s, sent ++ notices s.server_id id ts), returned)
  unfolding for_each block_sync_call
  block_syncs-eq id s sent [] = ap (λ xs. ((s, xs), returned)) (sym (append-nil sent))
  block_syncs-eq id s sent (t ∷ ts) = elim (Bool-cases (t == s.server_id)) [
    | inl own ↦ rw own (block_syncs-eq id s sent ts)
    | inr peer ↦ rw peer (
        block_syncs-eq id s (sent ++ (t, block_sync id) ∷ []) ts
        ∙ ap (λ xs. ((s, xs), returned))
            (append_assoc sent ((t, block_sync id) ∷ []) (notices s.server_id id ts)))
  ]

  pub send_relay_block_sync-eq :
      (s : Server Bytes Key) (sent : List (ℕ × Message Bytes)) (id : ℕ)
      → send_relay_block_sync conf (s, sent) id ≡ (
        (
          record s { pb_sync_labels = OrdSet.insert s.pb_sync_labels id },
          sent ++ notices s.server_id id (ids_from 1 conf.server_count),
        ),
        returned,
      )
  unfolding send_relay_block_sync for_each_peer
  send_relay_block_sync-eq s sent id =
      rw (block_syncs-eq id s sent (ids_from 1 conf.server_count)) refl

  -- The second loop of `send_relay_blocks` signals the blocks of the sync queue, in order, to every
  -- other server of the `server-count` and to nobody else; it labels them here, and no others, and
  -- returns with the queue empty and the pending blocks as they were.
  pub drain_sync_queue_signals :
      (s : Server Bytes Key) (sent : List (ℕ × Message Bytes)) (queue : List ℕ) (k : ℕ)
      → s.pb_sync_queue ≡ queue
      → let r = drain_sync_queue conf (s, sent) queue in
        (sent_to k r.0.1 ≡ sent_to k sent ++ (if is_peer s k then map block_sync queue else []))
        × (contains r.0.0.pb_sync_labels k ≡ (contains queue k || contains s.pb_sync_labels k))
        × (r.0.0.pb_sync_queue ≡ [])
        × (r.0.0.pending_blks ≡ s.pending_blks)
        × (r.1 ≡ returned)
  unfolding drain_sync_queue contains
  drain_sync_queue_signals s sent [] k e = (
    elim (Bool-cases (is_peer s k)) [
      | inl peer ↦ rw peer (sym (append-nil (sent_to k sent)))
      | inr other ↦ rw other (sym (append-nil (sent_to k sent)))
    ],
    refl,
    e,
    refl,
    refl,
  )
  drain_sync_queue_signals s sent (id ∷ queue) k e =
      let s' : Server Bytes Key = record s { pb_sync_queue = queue } in
      let t : Server Bytes Key = record s' { pb_sync_labels = OrdSet.insert s.pb_sync_labels id } in
      let new = sent ++ notices s.server_id id (ids_from 1 conf.server_count) in
      let (told, l, q, p, o) = drain_sync_queue_signals t new queue k refl in
      rw (send_relay_block_sync-eq s' sent id) (
        told ∙ told_next s sent id k (map block_sync queue),
        ground (arith, l, contains-insert s.pb_sync_labels id k),
        q,
        p,
        o,
      )

  -- A server that is the only one, its sync queue empty, sends nothing and signals nothing in
  -- `send_relay_blocks`: it is left as it was, whatever blocks it has packed.
  pub send_relay_blocks_alone :
      (codec : Codec Bytes) (s : Server Bytes Key)
      → conf.server_count ≡ 1
      → s.server_id ≡ 1
      → s.pb_sync_queue ≡ []
      → send_relay_blocks conf codec (s, []) ≡ ((s, []), returned)
  unfolding send_relay_blocks for_each_peer for_each ids_from drain_sync_queue
  send_relay_blocks_alone codec s n i e = rw (n, ids_from, i, e, drain_sync_queue) refl
