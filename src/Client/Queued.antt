-- ===== src/Client/Queued.antt =====
-- What `VoteBlocks` leaves in the queue of a client, and what it sends to the two servers.
use mathlib.Core.List.{map, append-nil, append_assoc}
use dchain.Prelude.{
  ℕ, ◌+◌, ◌≡◌, refl, ◌∙◌, sym, ap, Option, none, some, List, [], ◌∷◌, ◌++◌, Outcome,
  and_then_correct, Leaves, and_then-Leaves, get_elem?, sent_to, sent_to-++,
}
use dchain.Entity.Block.{Block}
use dchain.Entity.Transaction.{Transaction}
use dchain.Client.State.{Client}
use dchain.Client.Vote.{
  Calls, print_at, print_accounts, touch_at, touch_accounts, signed_block, send_vote, cast_vote,
  vote_queue, vote_pending,
}
use dchain.Wire.Codec.{Codec}
use Prim.Native.String.{String}

-- Both servers got the same requests.
abbrev pub Balanced : {Bytes : Type 0} → List (ℕ × Bytes) → Type 0
Balanced sent = sent_to 0 sent ≡ sent_to 1 sent

module _ {Bytes Key Db Hash : Type 0} (calls : Calls Key Db Hash) (codec : Codec Bytes) (id : ℕ)
    (key : Key) where
  -- The request for a block: with the vote of the client, and without the transactions.
  abbrev pub request : Block → Bytes
  request b = codec.block_to_bytes (signed_block calls key id b)

module _ {Bytes Key Db Hash : Type 0} (calls : Calls Key Db Hash) (codec : Codec Bytes) (id : ℕ)
    (key : Key) (queue : List Block) where
  -- The queue, the id and the key of the client.
  abbrev pub Queued : Client Key Db → Type 0
  Queued c = (c.pending_blks ≡ queue) × (c.client_id ≡ id) × (c.tss_key ≡ some key)

  abbrev Any : Outcome → Type 0
  Any o = Unit

  print_at-Queued :
      (c : Client Key Db) (i : ℕ) (tx : Transaction) (s r : Option String)
      → Queued c
      → Queued (print_at calls c i tx s r).0
  unfolding print_at
  print_at-Queued c i tx none r h = h
  print_at-Queued c i tx (some s) none h = h
  print_at-Queued c i tx (some s) (some r) h = h

  print_accounts-Queued :
      (c : Client Key Db) (i : ℕ) (txs : List Transaction)
      → Queued c
      → Queued (print_accounts calls c i txs).0 × Any (print_accounts calls c i txs).1
  unfolding print_accounts
  print_accounts-Queued c i [] h = (h, tt)
  print_accounts-Queued c i (tx ∷ txs) h =
      and_then_correct Queued Any
        (print_at calls c i tx (get_elem? c.sender_strvec i) (get_elem? c.receiver_strvec i)) _
        (print_at-Queued c i tx _ _ h) tt (λ c'. print_accounts-Queued c' (i + 1) txs)

  touch_at-Queued :
      (c : Client Key Db) (i : ℕ) (s r s_bal r_bal : Option String)
      → Queued c
      → Queued (touch_at calls c i s r s_bal r_bal).0
  unfolding touch_at
  touch_at-Queued c i none r sb rb h = h
  touch_at-Queued c i (some s) none sb rb h = h
  touch_at-Queued c i (some s) (some r) none rb h = h
  touch_at-Queued c i (some s) (some r) (some sb) none h = h
  touch_at-Queued c i (some s) (some r) (some sb) (some rb) h = h

  touch_accounts-Queued :
      (c : Client Key Db) (i : ℕ) (txs : List Transaction)
      → Queued c
      → Queued (touch_accounts calls c i txs).0 × Any (touch_accounts calls c i txs).1
  unfolding touch_accounts
  touch_accounts-Queued c i [] h = (h, tt)
  touch_accounts-Queued c i (tx ∷ txs) h =
      and_then_correct Queued Any
        (touch_at calls c i (get_elem? c.sender_strvec i) (get_elem? c.receiver_strvec i)
          (get_elem? c.sender_bal_strvec i) (get_elem? c.receiver_bal_strvec i))
        _ (touch_at-Queued c i _ _ _ _ h) tt (λ c'. touch_accounts-Queued c' (i + 1) txs)

  -- Each server got the requests `reqs`.
  abbrev pub Voted : List Bytes → Client Key Db × List (ℕ × Bytes) → Type 0
  Voted reqs (c, sent) = Queued c × (sent_to 0 sent ≡ reqs) × (sent_to 1 sent ≡ reqs)

  send_vote-Leaves :
      (reqs : List Bytes) (v : Client Key Db × List (ℕ × Bytes)) (b : Block)
      → Voted reqs v
      → Leaves
          (λ w. Balanced w.1)
          (Voted (reqs ++ request calls codec id key b ∷ []))
          (send_vote calls codec v b v.0.tss_key)
  unfolding send_vote
  send_vote-Leaves reqs (c, sent) b ((q, i, k), p, p') =
      let bytes = codec.block_to_bytes (signed_block calls key c.client_id b) in
      rw (k, send_vote)
        (
          sent_to-++ 0 sent _
              ∙ ap (λ xs. xs ++ bytes ∷ []) (p ∙ sym p')
              ∙ sym (sent_to-++ 1 sent _),
          λ r. (
            (q, i, k),
            sent_to-++ 0 sent _ ∙ rw (p, i) refl,
            sent_to-++ 1 sent _ ∙ rw (p', i) refl,
          ),
        )

  cast_vote-Leaves :
      (reqs : List Bytes) (v : Client Key Db × List (ℕ × Bytes)) (b : Block)
      → Voted reqs v
      → Leaves
          (λ w. Balanced w.1)
          (Voted (reqs ++ request calls codec id key b ∷ []))
          (cast_vote calls codec v b)
  unfolding cast_vote
  cast_vote-Leaves reqs (c, sent) b (h, q, q') =
      let (p, o) = print_accounts-Queued c 0 b.tx_vec h in
      let (p', o') =
        and_then_correct Queued Any (print_accounts calls c 0 b.tx_vec)
          (λ c'. touch_accounts calls c' 0 b.tx_vec) p o
          (λ c' h'. touch_accounts-Queued c' 0 b.tx_vec h') in
      and_then-Leaves (λ w. Balanced w.1) (Voted reqs)
        (Voted (reqs ++ request calls codec id key b ∷ [])) _
        (λ w. send_vote calls codec w b w.0.tss_key) (q ∙ sym q', λ r. (p', q, q'))
        (λ w h'. send_vote-Leaves reqs w b h')

module _ {Bytes Key Db Hash : Type 0} (calls : Calls Key Db Hash) (codec : Codec Bytes) (id : ℕ)
    (key : Key) where
  vote_queue-Leaves :
      (queue : List Block) (reqs : List Bytes) (v : Client Key Db × List (ℕ × Bytes))
      → Voted calls codec id key queue reqs v
      → Leaves
          (λ w. Balanced w.1)
          (Voted calls codec id key [] (reqs ++ map (request calls codec id key) queue))
          (vote_queue calls codec v queue)
  unfolding vote_queue
  vote_queue-Leaves [] reqs v ((q, i, k), p, p') =
      (p ∙ sym p', λ r. ((q, i, k), rw (append-nil reqs) p, rw (append-nil reqs) p'))
  vote_queue-Leaves (b ∷ queue) reqs (c, sent) ((q, i, k), p, p') =
      let keep =
        append_assoc reqs (request calls codec id key b ∷ [])
          (map (request calls codec id key) queue) in
      rw (sym keep) (
        and_then-Leaves (λ w. Balanced w.1)
          (Voted calls codec id key queue (reqs ++ request calls codec id key b ∷ []))
          (Voted calls codec id key []
            ((reqs ++ request calls codec id key b ∷ []) ++ map (request calls codec id key) queue))
          (cast_vote calls codec (record c { pending_blks = queue }, sent) b) _
          (cast_vote-Leaves calls codec id key queue reqs (record c { pending_blks = queue }, sent)
            b ((refl, i, k), p, p'))
          (λ w h'. vote_queue-Leaves queue (reqs ++ request calls codec id key b ∷ []) w h'))

  -- A call of `VoteBlocks` that returns leaves no block to vote for, and each server has got the
  -- request of every block that waited, in order.
  pub vote_pending-Leaves :
      (reqs : List Bytes) (v : Client Key Db × List (ℕ × Bytes))
      → Voted calls codec id key v.0.pending_blks reqs v
      → Leaves
          (λ w. Balanced w.1)
          (Voted calls codec id key [] (reqs ++ map (request calls codec id key) v.0.pending_blks))
          (vote_pending calls codec v)
  unfolding vote_pending
  vote_pending-Leaves reqs v h = vote_queue-Leaves v.0.pending_blks reqs v h
