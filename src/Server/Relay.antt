-- ===== src/Server/Relay.antt =====
-- Where `VoteBlocks` relays a vote to.
use mathlib.Core.Option
use dchain.Prelude.{
  ℕ, ◌≡◌, ◌≢◌, refl, ◌∙◌, false, Option, none, some, List, [], ◌∷◌, ◌++◌, arith, ◌==◌,
  if◌then◌else◌, All, Outcome, returned, for_each, Bool-cases, inl, inr, ap, subst, ==→eq,
  and_then_eq,
}
use dchain.Container.Assoc.{find, find-adjust}
use dchain.Container.OrdSet
use dchain.Container.OrdSet.{contains}
use dchain.Entity.Block.{Block, BlockVote}
use dchain.Entity.Placement.{
  Servers, serves, servers_of, get_server_id-eq, contains-servers_of, get_server_id_range,
}
use dchain.Server.State.{Conf, Server}
use dchain.Server.Invariant.{IsValid}
use dchain.Server.Queues.{PeerQueues, PeerQueues-adjust}
use dchain.Server.Count.{vote_into, close_if_enough, count_vote}
use dchain.Server.Consensus.{relay_to, relay_to_peer, place_vote, place_in, vote_block}
use dchain.Server.Safety.Consensus.{InRange, others}
use dchain.Wire.Codec.{Codec}

-- No element stands twice.
abbrev pub Unique : List ℕ → Type 0
Unique [] = Unit
Unique (x ∷ xs) = (contains xs x ≡ false) × Unique xs

-- The queue of a server, with the vote behind if the server is among `xs`.
abbrev pub queued : List ℕ → ℕ → BlockVote → List BlockVote → List BlockVote
queued xs k vote q = if contains xs k then q ++ vote ∷ [] else q

-- One more server in front.
queued-cons :
    (x : ℕ) (xs : List ℕ) (k : ℕ) (vote : BlockVote) (o : Option (List BlockVote))
    → contains xs x ≡ false
    → Option.map (queued xs k vote) (Option.map (queued (x ∷ []) k vote) o)
      ≡ Option.map (queued (x ∷ xs) k vote) o
unfolding contains
queued-cons x xs k vote none u = refl
queued-cons x xs k vote (some q) u = elim (Bool-cases (x == k)) [
  | inl here ↦ ground (arith, subst (λ i. contains xs i ≡ false) (==→eq x k here) u)
  | inr later ↦ ground arith
]

module _ {Bytes Key : Type 0} (n own : ℕ) (vote : BlockVote) (k : ℕ) where
  -- The own id, and a queue for every other server.
  abbrev Ready : Server Bytes Key → Type 0
  Ready s = (s.server_id ≡ own) × PeerQueues n own s.relay_votes

  -- A turn returns, and pushes the vote for server `k` if it is that server's turn.
  abbrev Pushes : (Server Bytes Key → ℕ → Server Bytes Key × Outcome) → (ℕ → Type 0) → Type 0
  Pushes body R =
      (s : Server Bytes Key) (x : ℕ)
      → R x
      → Ready s
      → Ready (body s x).0
        × ((body s x).1 ≡ returned)
        × (find (body s x).0.relay_votes k
            ≡ Option.map (queued (x ∷ []) k vote) (find s.relay_votes k))

  for_each-Pushes :
      (R : ℕ → Type 0) (body : Server Bytes Key → ℕ → Server Bytes Key × Outcome)
      → Pushes body R
      → (s : Server Bytes Key) (xs : List ℕ) → All R xs
      → Unique xs
      → Ready s
      → Ready (for_each body s xs).0
        × ((for_each body s xs).1 ≡ returned)
        × (find (for_each body s xs).0.relay_votes k
            ≡ Option.map (queued xs k vote) (find s.relay_votes k))
  unfolding for_each contains
  for_each-Pushes R body push s [] r u h = (h, refl, ground arith)
  for_each-Pushes R body push s (x ∷ xs) r u h =
      let (h', ret, eq) = push s x r.0 h in
      let (h'', ret', eq') = for_each-Pushes R body push (body s x).0 xs r.1 u.1 h' in
      let run = and_then_eq (body s x) (λ s'. for_each body s' xs) ret in
      rw run (
        h'',
        ret',
        eq'
            ∙ ap (Option.map (queued xs k vote)) eq
            ∙ queued-cons x xs k vote (find s.relay_votes k) u.0,
      )

  relay_to-Pushes : Pushes (relay_to vote) (λ x. InRange n x × (x ≢ own))
  unfolding relay_to contains
  relay_to-Pushes s x (r, d) (i, v) =
      let (q, e) = v x r.0 r.1 d in
      rw (e, relay_to)
        (
          (i, PeerQueues-adjust n own s.relay_votes x (λ q. q ++ vote ∷ []) v),
          refl,
          ground (arith, find-adjust s.relay_votes x (λ q. q ++ vote ∷ []) k),
        )

  relay_to_peer-Pushes : k ≢ own → Pushes (relay_to_peer vote) (InRange n)
  unfolding relay_to_peer contains
  relay_to_peer-Pushes d s x r (i, v) = elim (Bool-cases (x == s.server_id)) [
    | inl self ↦ rw self ((i, v), refl, ground arith)
    | inr peer ↦ rw peer (relay_to-Pushes s x (r, ground arith) (i, v))
  ]

relay_votes-count_vote :
    {Bytes Key : Type 0} (conf : Conf) (s : Server Bytes Key) (id voter : ℕ) (vote : BlockVote)
    → (count_vote conf s id voter vote).0.relay_votes ≡ s.relay_votes
unfolding count_vote vote_into close_if_enough
relay_votes-count_vote conf s id voter vote = ground arith

servers_of-Unique : (b : Block) (n : ℕ) → Unique (servers_of b n)
unfolding contains OrdSet.insert
servers_of-Unique b n = ground arith

module _ {Bytes Key : Type 0} (conf : Conf) (codec : Codec Bytes) where
  place_vote_relays :
      (s : Server Bytes Key) (id client_id : ℕ) (vote : BlockVote) (targets : List ℕ) (k : ℕ)
      → IsValid conf s
      → All (InRange conf.server_count) targets
      → Unique targets
      → k ≢ conf.server_id
      → find (place_vote conf codec s id client_id vote targets).0.relay_votes k
        ≡ Option.map (queued targets k vote) (find s.relay_votes k)
  unfolding place_vote
  place_vote_relays s id client_id vote targets k (v, i) r u d =
      let n = conf.server_count in
      let own = conf.server_id in
      elim (Bool-cases (contains targets s.server_id)) [
        | inl member ↦
            let (_, ret, eq) =
              for_each-Pushes n own vote k (InRange n) (relay_to_peer vote)
                (relay_to_peer-Pushes n own vote k d) s targets r u (i, v.peer_queues) in
            rw (member, and_then_eq (for_each (relay_to_peer vote) s targets) _ ret)
              (ap (λ m. find m k) (relay_votes-count_vote conf _ id client_id vote) ∙ eq)
        | inr other ↦
            let (_, ret, eq) =
              for_each-Pushes n own vote k (λ x. InRange n x × (x ≢ own)) (relay_to vote)
                (relay_to-Pushes n own vote k) s targets (others n own targets r (rw i at other)) u
                (i, v.peer_queues) in
            rw other eq
      ]

  -- With `server-count` from 1 to 2 ^ 64 - 2: in a valid server, when a client sends a block that
  -- has the client's vote and is not dead, the vote goes to the end of the queue of every other
  -- server that `get_server_id` names for the block, and to no other queue of another server,
  -- whether or not the block is pending here.
  pub vote_block_relays :
      (s : Server Bytes Key) (client_id : ℕ) (b : Block) (vote : BlockVote) (k : ℕ)
      → IsValid conf s
      → Servers conf.server_count
      → find b.votes client_id ≡ some vote
      → contains s.dead_block b.header.id ≡ false
      → k ≢ conf.server_id
      → find (vote_block conf codec client_id s b).0.relay_votes k
        ≡ Option.map
            (λ q. if serves b.header.id conf.server_count k then q ++ vote ∷ [] else q)
            (find s.relay_votes k)
  unfolding vote_block place_in
  vote_block_relays s client_id b vote k v n e alive d =
      let t = get_server_id-eq b conf.server_count n.0 in
      rw (e, vote_block, alive, t, ← contains-servers_of b conf.server_count k n)
        (place_vote_relays s b.header.id client_id vote (servers_of b conf.server_count) k v
          (get_server_id_range b conf.server_count _ n t).0 (servers_of-Unique b conf.server_count)
          d)
