-- ===== src/Server/Offers.antt =====
-- Which headers `PullPendingBlocks` offers to a client.
use dchain.Prelude.{
  ℕ, ◌≡◌, refl, sym, ap, ◌∙◌, Bool, true, false, ◌&&◌, Option, none, some, List, [], ◌∷◌, ◌++◌, ◌⊎◌,
  arith, All, All-map, returned, for_each, and_then_eq, Bool-cases, Option-cases, inl, inr,
  if◌then◌else◌, subst,
}
use dchain.Container.Assoc.{Assoc, find, assign, find-insert, find-assign, or_old}
use dchain.Container.OrdSet.{contains}
use dchain.Container.Heap.{Ptr, deref, write, deref-write, deref-lt-length}
use dchain.Entity.Block.{Block, BlockHeader}
use dchain.Server.State.{Conf, Server, ClientProfile}
use dchain.Server.Growth.{Extends, Extends-refl, Extends-trans, write-Extends, record_dist_ts-Grows}
use dchain.Server.Invariant.{IsValid, Points, PointsAll, Points-Extends}
use dchain.Server.Pull.{see, record_dist_ts, offer, offer_found, pull_item, pull_pending_blocks}
use dchain.Server.Safety.Pull.{Knows}
use dchain.Wire.Codec.{Codec}

abbrev pub is_none : {A : Type 0} → Option A → Bool
is_none none = true
is_none (some a) = false

-- The client's profile has a header under the id.
abbrev SeenBy : {Bytes Key : Type 0} → Server Bytes Key → ℕ → ℕ → Type 0
SeenBy {Bytes} {Key} s c id =
    (client : ClientProfile Bytes Key) × (find s.clients c ≡ some client)
    × (bh : BlockHeader) × (find client.seen_blocks id ≡ some bh)

-- The client is not offered the block: it is not signalled, or the client has seen it.
abbrev Quiet : {Bytes Key : Type 0} → Server Bytes Key → ℕ → ℕ → Type 0
Quiet s c id = (contains s.pb_sync_labels id ≡ false) ⊎ SeenBy s c id

-- What a turn leaves alone, and that the client still sees what it saw.
abbrev After : {Bytes Key : Type 0} → ℕ → Server Bytes Key → Server Bytes Key → Type 0
After c s t =
    (t.pb_sync_labels ≡ s.pb_sync_labels)
    × (t.pending_blks ≡ s.pending_blks)
    × Extends s.heap t.heap
    × Knows t c
    × ((j : ℕ) → SeenBy s c j → SeenBy t c j)

After-trans :
    {Bytes Key : Type 0} (c : ℕ) (s t u : Server Bytes Key)
    → After c s t
    → After c t u
    → After c s u
After-trans c s t u (a, b, x, k, f) (a', b', x', k', f') =
    (a' ∙ a, b' ∙ b, Extends-trans x x', k', λ j h. f' j (f j h))

After-Quiet :
    {Bytes Key : Type 0} (c : ℕ) (s t : Server Bytes Key) (j : ℕ)
    → After c s t
    → Quiet s c j
    → Quiet t c j
After-Quiet c s t j (a, _, _, _, f) (inl e) = inl (ap (λ l. contains l j) a ∙ e)
After-Quiet c s t j (a, _, _, _, f) (inr h) = inr (f j h)

module _ {Bytes Key : Type 0} (codec : Codec Bytes) (now : ℕ → ℕ) (c : ℕ) where
  -- A turn of `PullPendingBlocks` for a block that is in the store and a client that is known: the
  -- block's header joins the response exactly if the block is signalled and the client has not
  -- seen it, and then the block's distribution time is recorded if it is 0.
  pub pull_item_offers :
      (s : Server Bytes Key) (resp : List Bytes) (id p : ℕ) (b : Block)
      (client : ClientProfile Bytes Key)
      → deref s.heap p ≡ some b
      → find s.clients c ≡ some client
      → let r = pull_item codec now c (s, resp) (id, p) in
        let fresh = contains s.pb_sync_labels id && is_none (find client.seen_blocks b.header.id) in
        (r.0.1 ≡ (if fresh then resp ++ codec.header_to_bytes b.header ∷ [] else resp))
        × (deref r.0.0.heap p ≡ some (if fresh then record_dist_ts b (now id) else b))
        × (r.1 ≡ returned)
  unfolding pull_item offer_found offer
  pull_item_offers s resp id p b client d k =
      let w = deref-write s.heap p (record_dist_ts b (now id)) p (deref-lt-length s.heap p b d) in
      (ground (arith, d, k), ground (arith, d, k, w), ground (arith, d, k))

  -- The client's profile with one more header still has what it had.
  see-SeenBy :
      (s : Server Bytes Key) (client : ClientProfile Bytes Key) (bh : BlockHeader) (h : List Block)
      (j : ℕ)
      → find s.clients c ≡ some client
      → SeenBy s c j
      → SeenBy (record s { clients = assign s.clients c (see client bh); heap = h }) c j
  unfolding see
  see-SeenBy s client bh h j k (client', k', bh', f) = (
    see client bh,
    ground (arith, find-assign s.clients c (see client bh) c),
    or_old (find client.seen_blocks j) bh,
    ground (arith, k, k', f, find-insert client.seen_blocks bh.id bh j),
  )

  pull_item-After :
      (s : Server Bytes Key) (resp : List Bytes) (id p : ℕ)
      → Points s.heap p id
      → Knows s c
      → let r = pull_item codec now c (s, resp) (id, p) in
        After c s r.0.0 × Quiet r.0.0 c id × (r.1 ≡ returned)
  unfolding pull_item offer_found offer see
  pull_item-After s resp id p (b, d, i) (client, k) =
      elim (Bool-cases (contains s.pb_sync_labels id)) [
        | inr hidden ↦
            rw hidden ((refl, refl, Extends-refl s.heap, (client, k), λ j h. h), inl hidden, refl)
        | inl synced ↦ elim (Option-cases (find client.seen_blocks b.header.id)) [
          | inr (bh, f) ↦
              rw (synced, d, k, offer_found, f, offer)
                (
                  (
                    refl,
                    refl,
                    Extends-refl s.heap,
                    (client, k),
                    λ j (cl, q, bh', g). (cl, k ∙ q, bh', g),
                  ),
                  inr (client, k, bh, subst (λ x. find client.seen_blocks x ≡ some bh) i f),
                  refl,
                )
          | inl f ↦
              let w =
                write-Extends s.heap p b (record_dist_ts b (now id)) d
                  (record_dist_ts-Grows b (now id)) in
              let e = find-assign s.clients c (see client b.header) c in
              rw (synced, d, k, offer_found, f, offer)
                (
                  (
                    refl,
                    refl,
                    w,
                    (see client b.header, ground (arith, e)),
                    λ j (cl, q, bh, g).
                        see-SeenBy s client b.header (write s.heap p (record_dist_ts b (now id))) j
                          k (cl, k ∙ q, bh, g),
                  ),
                  inr (
                    see client b.header,
                    ground (arith, e),
                    b.header,
                    ground (arith, f, i, find-insert client.seen_blocks b.header.id b.header id),
                  ),
                  refl,
                )
        ]
      ]

  -- What the loop of `PullPendingBlocks` leaves: every block of the snapshot is quiet.
  for_each-Quiet :
      (s : Server Bytes Key) (resp : List Bytes) (blks : Assoc Ptr)
      → PointsAll s.heap blks
      → Knows s c
      → let r = for_each (pull_item codec now c) (s, resp) blks in
        After c s r.0.0 × All (λ e. Quiet r.0.0 c e.0) blks × (r.1 ≡ returned)
  unfolding for_each
  for_each-Quiet s resp [] ps k = ((refl, refl, Extends-refl s.heap, k, λ j h. h), tt, refl)
  for_each-Quiet s resp ((id, p) ∷ blks) ps k =
      let item = pull_item codec now c in
      let (a, q, ret) = pull_item-After s resp id p ps.0 k in
      let (_, _, x, k', _) = a in
      let r = item (s, resp) (id, p) in
      let ps' = All-map _ _ blks (λ e. Points-Extends e.1 e.0 x) ps.1 in
      let (a', qs, ret') = for_each-Quiet r.0.0 r.0.1 blks ps' k' in
      let u = (for_each item r.0 blks).0.0 in
      let run = and_then_eq r (λ s'. for_each item s' blks) ret in
      subst
        (λ x. After c s x.0.0 × All (λ e. Quiet x.0.0 c e.0) ((id, p) ∷ blks) × (x.1 ≡ returned))
        (sym run) (After-trans c s r.0.0 u a a', (After-Quiet c r.0.0 u id a' q, qs), ret')

  -- A quiet block adds nothing to the response and changes nothing.
  pull_item-silent :
      (s : Server Bytes Key) (resp : List Bytes) (id p : ℕ)
      → Points s.heap p id
      → Quiet s c id
      → Knows s c
      → pull_item codec now c (s, resp) (id, p) ≡ ((s, resp), returned)
  unfolding pull_item offer_found offer
  pull_item-silent s resp id p pt (inl hidden) k = rw hidden refl
  pull_item-silent s resp id p (b, d, i) (inr (client, k, bh, f)) _ = ground (arith, d, k, f, i)

  -- Quiet blocks add nothing to the response.
  for_each-silent :
      (s : Server Bytes Key) (resp : List Bytes) (blks : Assoc Ptr)
      → PointsAll s.heap blks
      → All (λ e. Quiet s c e.0) blks
      → Knows s c
      → for_each (pull_item codec now c) (s, resp) blks ≡ ((s, resp), returned)
  unfolding for_each
  for_each-silent s resp [] ps qs k = refl
  for_each-silent s resp ((id, p) ∷ blks) ps qs k =
      let e = pull_item-silent s resp id p ps.0 qs.0 k in
      let run =
        and_then_eq (pull_item codec now c (s, resp) (id, p))
          (λ r. for_each (pull_item codec now c) r blks) (ap (λ r. r.1) e) in
      rw (run, e) (for_each-silent s resp blks ps.1 qs.1 k)

-- In a valid server, a client that the server has a profile for and that pulls again, with
-- nothing in between, gets no header, and the second pull changes nothing.
pub pull_pending_blocks-pull_pending_blocks :
    {Bytes Key : Type 0} (codec : Codec Bytes) (conf : Conf) (s : Server Bytes Key) (c : ℕ)
    (now again : ℕ → ℕ)
    → IsValid conf s
    → Knows s c
    → let t = (pull_pending_blocks codec now s c).0.0 in
      pull_pending_blocks codec again t c ≡ ((t, []), returned)
unfolding pull_pending_blocks
pull_pending_blocks-pull_pending_blocks codec conf s c now again (v, _) k =
    let (a, qs, _) = for_each-Quiet codec now c s [] s.pending_blks v.pending_points k in
    let (_, same, x, k', _) = a in
    let t = (for_each (pull_item codec now c) (s, []) s.pending_blks).0.0 in
    let ps = All-map _ _ s.pending_blks (λ e. Points-Extends e.1 e.0 x) v.pending_points in
    rw same (for_each-silent codec again c t [] s.pending_blks ps qs k')
