-- ===== src/Server/Queues.antt =====
-- The maps of queues, one for each peer: `relay_votes`, `relay_blocks` and `bcast_commit_blocks`.
use dchain.Prelude.{ℕ, ◌≤◌, ◌≡◌, ◌≢◌, some, List, arith, ◌==◌, Bool-cases, inl, inr}
use dchain.Container.Assoc.{Assoc, find, adjust, adjust_all, find-adjust, find-adjust_all}

-- Every server from 1 to `n` but the own one has a queue.
abbrev pub PeerQueues : {A : Type 0} → ℕ → ℕ → Assoc (List A) → Type 0
PeerQueues {A} n own m = (k : ℕ) → 1 ≤ k → k ≤ n → k ≢ own → (q : List A) × (find m k ≡ some q)

pub PeerQueues-adjust :
    {A : Type 0} (n own : ℕ) (m : Assoc (List A)) (target : ℕ) (f : List A → List A)
    → PeerQueues n own m
    → PeerQueues n own (adjust m target f)
PeerQueues-adjust n own m target f v k l u d =
    let (q, e) = v k l u d in
    elim (Bool-cases (target == k)) [
      | inl hit ↦ (f q, ground (arith, find-adjust m target f k))
      | inr miss ↦ (q, ground (arith, find-adjust m target f k))
    ]

pub PeerQueues-adjust_all :
    {A : Type 0} (n own : ℕ) (m : Assoc (List A)) (f : List A → List A)
    → PeerQueues n own m
    → PeerQueues n own (adjust_all m f)
PeerQueues-adjust_all n own m f v k l u d =
    let (q, e) = v k l u d in (f q, ground (arith, find-adjust_all m f k))
