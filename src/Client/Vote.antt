-- ===== src/Client/Vote.antt =====
-- The call `VoteBlocks` of include/client/tc-client-grpc.hpp.
use dchain.Prelude.{
  ℕ, ◌+◌, Option, none, some, List, [], ◌∷◌, ◌++◌, Outcome, returned, thrown, faulted, and_then,
  get_elem?, set,
}
use dchain.Container.OrdMap
use dchain.Entity.Bls.{SigShare}
use dchain.Entity.Block.{Block, BlockVote}
use dchain.Entity.Transaction.{Transaction}
use dchain.Client.State.{Client}
use dchain.Wire.Codec.{Codec}
use Prim.Native.String.{String}

-- What the client calls: `snprintf(s.data(), s.size(), "%ld", n)`, the value buffer after a `Get`
-- with what it held before, `Put`, the hash of a block, and `sign` with the signer's index.
pub record Calls (Key Db Hash : Type 0) : Type 0 where
  pub print : String → ℕ → String
  pub get : Db → String → String → String
  pub put : Db → String → String → Db
  pub get_sha256 : Block → Hash
  pub sign : Key → Hash → ℕ → SigShare

module _ {Key Db Hash : Type 0} (calls : Calls Key Db Hash) where
  open calls use {print, get, put, get_sha256, sign}

  unfoldable pub print_at :
      Client Key Db → ℕ → Transaction → Option String → Option String → Client Key Db × Outcome
  print_at c i tx (some s) (some r) = (
    record c {
      sender_strvec = set c.sender_strvec i (print s tx.sender);
      receiver_strvec = set c.receiver_strvec i (print r tx.receiver);
    },
    returned,
  )
  print_at c i tx _ _ = (c, thrown)

  -- The first loop over the transactions: `at(i)` throws past the end of the two vectors.
  unfoldable pub print_accounts : Client Key Db → ℕ → List Transaction → Client Key Db × Outcome
  unfolding print_at
  print_accounts c i [] = (c, returned)
  print_accounts c i (tx ∷ txs) =
      and_then (print_at c i tx (get_elem? c.sender_strvec i) (get_elem? c.receiver_strvec i))
        (λ c'. print_accounts c' (i + 1) txs)

  unfoldable pub touch_at :
      Client Key Db
      → ℕ
      → Option String
      → Option String
      → Option String
      → Option String
      → Client Key Db × Outcome
  touch_at c i (some s) (some r) (some s_bal) (some r_bal) = (
    record c {
      sender_bal_strvec = set c.sender_bal_strvec i (get c.db s s_bal);
      receiver_bal_strvec = set c.receiver_bal_strvec i (get c.db r r_bal);
      db = put (put c.db s (get c.db s s_bal)) r (get c.db r r_bal);
    },
    returned,
  )
  touch_at c i _ _ _ _ = (c, faulted)

  -- The second loop: each balance is read and written back.
  unfoldable pub touch_accounts : Client Key Db → ℕ → List Transaction → Client Key Db × Outcome
  unfolding touch_at
  touch_accounts c i [] = (c, returned)
  touch_accounts c i (tx ∷ txs) =
      and_then
        (touch_at c i (get_elem? c.sender_strvec i) (get_elem? c.receiver_strvec i)
          (get_elem? c.sender_bal_strvec i) (get_elem? c.receiver_bal_strvec i))
        (λ c'. touch_accounts c' (i + 1) txs)

  -- the vote with the share of the block's hash
  unfoldable pub signed_vote : Key → ℕ → Block → BlockVote
  signed_vote key client_id b = record {
    block_id = b.header.id;
    voter_id = client_id;
    sig_share = some (sign key (get_sha256 b) client_id);
  }

  -- the block with the client's vote and without its transactions; the hash is taken before
  unfoldable pub signed_block : Key → ℕ → Block → Block
  unfolding signed_vote
  signed_block key client_id b = record b {
    tx_vec = [];
    votes = OrdMap.insert b.votes client_id (signed_vote key client_id b);
  }

  module _ {Bytes : Type 0} (codec : Codec Bytes) where
    -- The client, and the requests that were sent with the index of their stub, oldest first.
    abbrev pub Voting : Type 0
    Voting = Client Key Db × List (ℕ × Bytes)

    unfoldable pub send_vote : Voting → Block → Option Key → Voting × Outcome
    unfolding signed_block
    send_vote (c, sent) b none = ((c, sent), faulted)
    send_vote (c, sent) b (some key) =
        let bytes = codec.block_to_bytes (signed_block key c.client_id b) in
        ((c, sent ++ (0, bytes) ∷ (1, bytes) ∷ []), returned)

    -- One turn of the loop, for the block that was popped.
    unfoldable pub cast_vote : Voting → Block → Voting × Outcome
    unfolding print_accounts touch_accounts send_vote
    cast_vote (c, sent) b =
        let (c', o) = and_then (print_accounts c 0 b.tx_vec) (λ c'. touch_accounts c' 0 b.tx_vec) in
        and_then ((c', sent), o) (λ v. send_vote v b v.0.tss_key)

    unfoldable pub vote_queue : Voting → List Block → Voting × Outcome
    unfolding cast_vote
    vote_queue v [] = (v, returned)
    vote_queue (c, sent) (b ∷ queue) =
        and_then (cast_vote (record c { pending_blks = queue }, sent) b) (λ v. vote_queue v queue)

    -- `TcClient::VoteBlocks`: the queue is popped until it is empty.
    unfoldable pub vote_pending : Voting → Voting × Outcome
    unfolding vote_queue
    vote_pending v = vote_queue v v.0.pending_blks
