-- ===== src/Client/Scheduling.antt =====
-- The threads of a client, from its start on.
use mathlib.Core.List.{map}
use dchain.Prelude.{
  sent_to, ◌≡◌, refl, sym, true, false, some, List, [], ◌++◌, Outcome, returned, Leaves,
  and_then-Leaves, for_each-Leaves, and_then_correct, for_each_correct, inl, inr,
}
use dchain.Client.State.{Client}
use dchain.Client.Vote.{Calls, vote_pending}
use dchain.Client.Start.{register, pull_round}
use dchain.Client.Schedule.{
  Round, Threads, heartbeat, pull, vote, heartbeat_turn, pull_turn, vote_turn, run_round, schedule,
  start,
}
use dchain.Client.Fetch.{add_header, add_headers, add_block, add_blocks, keep_block}
use dchain.Client.Life.{Lives, starts, turns, registers, pulls, votes}
use dchain.Client.Queued.{Balanced, request, vote_pending-Leaves}
use dchain.Wire.Codec.{Codec, Decoded-cases}

module _ {Bytes Key Db Hash : Type 0} (calls : Calls Key Db Hash) (codec : Codec Bytes)
    (c₀ : Client Key Db) (key : Key) where
  -- No thread has left its loop.
  abbrev pub Idle : Threads Bytes Key Db → Type 0
  Idle t = (t.heartbeat_flag ≡ false) × (t.pull_flag ≡ false) × (t.vote_flag ≡ false)

  -- The client lives, and both servers got the same requests.
  abbrev pub Sound : Threads Bytes Key Db → Type 0
  Sound t = Lives calls codec c₀ t.client × Balanced t.sent

  -- The client has its id and its key.
  abbrev Keyed : Client Key Db → Type 0
  Keyed c = (c.client_id ≡ c₀.client_id) × (c.tss_key ≡ some key)

  abbrev Any : Outcome → Type 0
  Any o = Unit

  -- Between the rounds of the threads.
  abbrev pub Ready : Threads Bytes Key Db → Type 0
  Ready t = Idle t × Sound t × Keyed t.client

  add_header-Keyed :
      (c : Client Key Db) (b : Bytes)
      → Keyed c
      → Keyed (add_header codec c b).0 × Any (add_header codec c b).1
  unfolding add_header
  add_header-Keyed c b h = elim (Decoded-cases (codec.header_from_bytes b)) [
    | inl (d, e) ↦ rw (e, add_header) (h, tt)
    | inr (inl e) ↦ rw (e, add_header) (h, tt)
    | inr (inr e) ↦ rw (e, add_header) (h, tt)
  ]

  add_block-Keyed :
      (c : Client Key Db) (b : Bytes)
      → Keyed c
      → Keyed (add_block codec c b).0 × Any (add_block codec c b).1
  unfolding add_block keep_block
  add_block-Keyed c b h = elim (Decoded-cases (codec.block_from_bytes b)) [
    | inl (d, e) ↦ rw (e, add_block) (h, tt)
    | inr (inl e) ↦ rw (e, add_block) (h, tt)
    | inr (inr e) ↦ rw (e, add_block) (h, tt)
  ]

  add_headers-Keyed :
      (c : Client Key Db) (hs : List Bytes)
      → Keyed c
      → Keyed (add_headers codec c hs).0 × Any (add_headers codec c hs).1
  unfolding add_headers
  add_headers-Keyed c hs h =
      for_each_correct Keyed Any (add_header codec) tt add_header-Keyed c hs h

  add_blocks-Keyed :
      (c : Client Key Db) (bs : List Bytes)
      → Keyed c
      → Keyed (add_blocks codec c bs).0 × Any (add_blocks codec c bs).1
  unfolding add_blocks
  add_blocks-Keyed c bs h = for_each_correct Keyed Any (add_block codec) tt add_block-Keyed c bs h

  pull_round-Keyed :
      (c : Client Key Db) (hs hs' bs bs' : List Bytes)
      → Keyed c
      → Keyed (pull_round codec c hs hs' bs bs').0
  unfolding pull_round
  pull_round-Keyed c hs hs' bs bs' h =
      let (p, q) = add_headers-Keyed c hs h in
      (and_then_correct Keyed Any (add_headers codec c hs) _ p q (λ c1 h1.
        let (p1, q1) = add_headers-Keyed c1 hs' h1 in
        and_then_correct Keyed Any (add_headers codec c1 hs') _ p1 q1 (λ c2 h2.
          let (p2, q2) = add_blocks-Keyed c2 bs h2 in
          and_then_correct Keyed Any (add_blocks codec c2 bs) _ p2 q2
            (λ c3 h3. add_blocks-Keyed c3 bs' h3)))).0

  heartbeat_turn-Leaves :
      (t : Threads Bytes Key Db) → Ready t → Leaves Sound Ready (heartbeat_turn calls codec t)
  unfolding heartbeat_turn
  heartbeat_turn-Leaves t ((h, p, v), s, k) = rw h (s, λ r. ((refl, p, v), s, k))

  pull_turn-Leaves :
      (t : Threads Bytes Key Db) (hs hs' bs bs' : List Bytes)
      → Ready t
      → Leaves Sound Ready (pull_turn calls codec t hs hs' bs bs')
  unfolding pull_turn
  pull_turn-Leaves t hs hs' bs bs' ((h, p, v), (l, q), k) =
      let r = pull_round codec t.client hs hs' bs bs' in
      let s : Lives calls codec c₀ r.0 × Balanced t.sent =
        (turns l (pulls t.client hs hs' bs bs'), q) in
      rw p (
        and_then-Leaves Sound
          (λ t'. (t'.heartbeat_flag ≡ false) × (t'.vote_flag ≡ false) × Sound t' × Keyed t'.client)
          Ready (record t { client = r.0; pull_flag = true }, r.1) _
          (s, λ o. (h, v, s, pull_round-Keyed t.client hs hs' bs bs' k))
          (λ t' (h', v', s', k'). (s', λ o. ((h', refl, v'), s', k'))))

  -- No block is left, and the first server got the request of each one of `t`.
  abbrev Voted : Threads Bytes Key Db → Threads Bytes Key Db → Type 0
  Voted t t' =
      (t'.client.pending_blks ≡ [])
      × (sent_to 0 t'.sent
          ≡ sent_to 0 t.sent ++ map (request calls codec c₀.client_id key) t.client.pending_blks)

  vote_turn-Leaves :
      (t : Threads Bytes Key Db)
      → Ready t
      → Leaves Sound (λ t'. Ready t' × Voted t t') (vote_turn calls codec t)
  unfolding vote_turn
  vote_turn-Leaves t ((h, p, v), (l, q), k) =
      let r = vote_pending calls codec (t.client, t.sent) in
      let s = turns l (votes t.client t.sent) in
      let m =
        vote_pending-Leaves calls codec c₀.client_id key (sent_to 0 t.sent) (t.client, t.sent)
          ((refl, k.0, k.1), refl, sym q) in
      rw v (
        and_then-Leaves Sound
          (λ t'.
            (t'.heartbeat_flag ≡ false)
            × (t'.pull_flag ≡ false)
            × Sound t'
            × Keyed t'.client
            × Voted t t')
          (λ t'. Ready t' × Voted t t')
          (record t { client = r.0.0; sent = r.0.1; vote_flag = true }, r.1) _
          ((s, m.0), λ o. let ((e, i, k'), d, d') = m.1 o in (h, p, (s, m.0), (i, k'), (e, d)))
          (λ t' (h', p', s', k', d). (s', λ o. (((h', p', refl), s', k'), d))))

  run_round-Leaves :
      (t : Threads Bytes Key Db) (round : Round Bytes)
      → Ready t
      → Leaves Sound Ready (run_round calls codec t round)
  unfolding run_round
  run_round-Leaves t heartbeat h = heartbeat_turn-Leaves t h
  run_round-Leaves t (pull hs hs' bs bs') h = pull_turn-Leaves t hs hs' bs bs' h
  run_round-Leaves t vote h = let (s, f) = vote_turn-Leaves t h in (s, λ o. (f o).0)

  start-Leaves :
      (rounds : List (Round Bytes)) → Leaves Sound Ready (start calls codec c₀ key rounds)
  unfolding start schedule register
  start-Leaves rounds =
      for_each-Leaves Sound Ready (run_round calls codec) (λ t h. h.1) run_round-Leaves _ rounds
        ((refl, refl, refl), (turns starts (registers c₀ key), refl), (refl, refl))

  -- Where a client starts, its threads take rounds one after another, in any order, with any
  -- responses of the servers, and none of them throws or faults, the vote thread has not left
  -- its loop: its next round, if it does not throw or fault, leaves no block to vote for and all
  -- flags down, and `VoteBlocks` has by then sent the same requests to both servers, those of
  -- this round being one for each block that waited, in order, with the client's vote.
  pub start-vote_turn :
      (rounds : List (Round Bytes))
      → (start calls codec c₀ key rounds).1 ≡ returned
      → (vote_turn calls codec (start calls codec c₀ key rounds).0).1 ≡ returned
      → let t = (start calls codec c₀ key rounds).0 in
        let t' = (vote_turn calls codec t).0 in
        Idle t'
        × (t'.client.pending_blks ≡ [])
        × Balanced t'.sent
        × (sent_to 0 t'.sent
            ≡ sent_to 0 t.sent ++ map (request calls codec c₀.client_id key) t.client.pending_blks)
  start-vote_turn rounds e f =
      let h = (start-Leaves rounds).1 e in
      let (r, d) = (vote_turn-Leaves (start calls codec c₀ key rounds).0 h).1 f in
      (r.0, d.0, r.1.1, d.1)
