-- ===== src/Wire/Adapter.antt =====
-- src/entity/flexbuffers_adapter.cpp. `is_share` and `is_signature` say what the constructors of
-- `BLSSigShare` and `BLSSignature`, of libBLS, accept; they throw on anything else.
use Prim.Native.String.{String}
use dchain.Prelude.{
  ℕ, Bool, Option, none, some, List, [], ◌∷◌, ◌==◌, length, get_elem?, if◌then◌else◌,
}
use dchain.Container.Assoc.{Assoc}
use dchain.Container.OrdMap
use dchain.Entity.Bls.{SigShare, Signature}
use dchain.Entity.Block.{Block, BlockHeader, BlockVote, empty_block}
use dchain.Entity.Transaction.{Transaction, new_transaction}
use dchain.Wire.Codec.{Codec, Decoded, decoded, invalid, aborted, and_read}
use dchain.Wire.Flex.{FlexBuffers}
use dchain.Wire.Numeral.{to_string, stoi}

module _ {Bytes Value : Type 0} (fb : FlexBuffers Bytes Value) where
  -- `flexbuffers::GetRoot(*bytes).AsMap()`
  abbrev pub root : {A : Type 0} → Bytes → (Value → Decoded A) → Decoded A
  root bytes read = elim (fb.get_root bytes) [ none ↦ aborted | some map ↦ read map ]

  abbrev uint_at : Value → String → ℕ
  uint_at map key = fb.as_uint64 (fb.at map key)

  -- the lambda of `to_bytes`
  abbrev pub header_fields : BlockHeader → List (String × Value)
  header_fields h =
      ("id", fb.uint h.id)
      ∷ ("base_id", fb.uint h.base_id)
      ∷ ("proposal_ts", fb.uint h.proposal_ts)
      ∷ ("dist_ts", fb.uint h.dist_ts)
      ∷ ("commit_ts", fb.uint h.commit_ts)
      ∷ ("recv_ts", fb.uint h.recv_ts)
      ∷ []

  unfoldable pub header_to_bytes : BlockHeader → Bytes
  header_to_bytes h = fb.finish (fb.map (header_fields h))

  unfoldable pub header_from_bytes : Bytes → Decoded BlockHeader
  header_from_bytes bytes = root bytes (λ map. decoded (record {
    id = uint_at map "id";
    base_id = uint_at map "base_id";
    proposal_ts = uint_at map "proposal_ts";
    dist_ts = uint_at map "dist_ts";
    commit_ts = uint_at map "commit_ts";
    recv_ts = uint_at map "recv_ts";
  }))

  -- the lambda of `to_bytes`
  abbrev pub transaction_fields : Transaction → List (String × Value)
  transaction_fields tx =
      ("id", fb.uint tx.id)
      ∷ ("sender", fb.uint tx.sender)
      ∷ ("receiver", fb.uint tx.receiver)
      ∷ ("value", fb.uint tx.value)
      ∷ ("fee", fb.uint tx.fee)
      ∷ []

  unfoldable pub transaction_to_bytes : Transaction → Bytes
  transaction_to_bytes tx = fb.finish (fb.map (transaction_fields tx))

  unfoldable pub transaction_from_bytes : Bytes → Decoded Transaction
  transaction_from_bytes bytes = root bytes (λ map. decoded (
      new_transaction (uint_at map "id") (uint_at map "sender") (uint_at map "receiver")
        (uint_at map "value") (uint_at map "fee")))

  -- the lambda for "tx_vec" of `flexbuffers_adapter<Block>::to_bytes`
  unfoldable pub tx_values : List Transaction → List Value
  tx_values [] = []
  tx_values (tx ∷ txs) =
      fb.vector (
        fb.uint tx.id
        ∷ fb.uint tx.sender
        ∷ fb.uint tx.receiver
        ∷ fb.uint tx.value
        ∷ fb.uint tx.fee
        ∷ [])
      ∷ tx_values txs

  -- `curr_tx_datavec[i].AsUInt64()`: out of range there is a null reference.
  abbrev uint_elem : List Value → ℕ → ℕ
  uint_elem vs i = fb.as_uint64 (elim (get_elem? vs i) [ none ↦ fb.null | some v ↦ v ])

  -- the loop of `flexbuffers_adapter<Block>::from_bytes` over the transactions
  unfoldable pub read_txs : List Value → List Transaction
  read_txs [] = []
  read_txs (v ∷ vs) =
      let datavec = fb.as_vector v in
      new_transaction (uint_elem datavec 0) (uint_elem datavec 1) (uint_elem datavec 2)
        (uint_elem datavec 3) (uint_elem datavec 4)
      ∷ read_txs vs

  -- the lambda of `to_bytes`
  abbrev pub share_fields : SigShare → List (String × Value)
  share_fields s =
      ("g1", fb.blob (fb.raw s.g1))
      ∷ ("hint", fb.str s.hint)
      ∷ ("signer_index", fb.uint s.signer_index)
      ∷ ("t", fb.uint s.t)
      ∷ ("n", fb.uint s.n)
      ∷ []

  unfoldable pub share_to_bytes : SigShare → Bytes
  share_to_bytes s = fb.finish (fb.map (share_fields s))

  -- the lambda of `to_bytes`
  abbrev pub signature_fields : Signature → List (String × Value)
  signature_fields s =
      ("sig", fb.blob (fb.raw s.g1))
      ∷ ("hint", fb.str s.hint)
      ∷ ("t", fb.uint s.t)
      ∷ ("n", fb.uint s.n)
      ∷ []

  unfoldable pub signature_to_bytes : Signature → Bytes
  signature_to_bytes s = fb.finish (fb.map (signature_fields s))

  abbrev pub share_value : Option SigShare → Value
  share_value none = fb.null
  share_value (some s) = fb.blob (share_to_bytes s)

  -- the lambda of `to_bytes`
  abbrev pub vote_fields : BlockVote → List (String × Value)
  vote_fields v =
      ("block_id", fb.uint v.block_id)
      ∷ ("voter_id", fb.uint v.voter_id)
      ∷ ("sig_share", share_value v.sig_share)
      ∷ []

  unfoldable pub vote_to_bytes : BlockVote → Bytes
  vote_to_bytes v = fb.finish (fb.map (vote_fields v))

  -- the lambda for "votes"
  unfoldable pub vote_values : Assoc BlockVote → List (String × Value)
  vote_values [] = []
  vote_values ((voter, vote) ∷ votes) =
      (to_string voter, fb.blob (vote_to_bytes vote)) ∷ vote_values votes

  -- the lambda of `to_bytes`, which leaves the aggregated signature out
  abbrev pub block_fields : Block → List (String × Value)
  block_fields b =
      ("header", fb.blob (header_to_bytes b.header))
      ∷ ("tx_vec", fb.vector (tx_values b.tx_vec))
      ∷ ("votes", fb.map (vote_values b.votes))
      ∷ []

  unfoldable pub block_to_bytes : Block → Bytes
  block_to_bytes b = fb.finish (fb.map (block_fields b))

module _ {Bytes Value : Type 0} (fb : FlexBuffers Bytes Value)
    (is_signature : Signature → Bool) where
  abbrev made_signature : Signature → Decoded Signature
  made_signature s = if is_signature s then decoded s else invalid

  unfoldable pub signature_from_bytes : Bytes → Decoded Signature
  signature_from_bytes bytes = root fb bytes (λ map.
      let g1 = fb.contents (fb.as_blob (fb.at map "sig")) in
      if length g1 == 96
      then made_signature (record {
        g1 = g1;
        hint = fb.as_string (fb.at map "hint");
        t = uint_at fb map "t";
        n = uint_at fb map "n";
      })
      else aborted)

module _ {Bytes Value : Type 0} (fb : FlexBuffers Bytes Value) (is_share : SigShare → Bool) where
  abbrev made_share : SigShare → Decoded SigShare
  made_share s = if is_share s then decoded s else invalid

  unfoldable pub share_from_bytes : Bytes → Decoded SigShare
  share_from_bytes bytes = root fb bytes (λ map.
      let g1 = fb.contents (fb.as_blob (fb.at map "g1")) in
      if length g1 == 96
      then made_share (record {
        g1 = g1;
        hint = fb.as_string (fb.at map "hint");
        signer_index = uint_at fb map "signer_index";
        t = uint_at fb map "t";
        n = uint_at fb map "n";
      })
      else aborted)

  -- `vote.sig_share_`, from `map["sig_share"]`
  unfoldable pub share_at : Value → Decoded (Option SigShare)
  share_at ss =
      if fb.is_null ss
      then decoded none
      else and_read (share_from_bytes (fb.as_blob ss)) (λ s. decoded (some s))

  unfoldable pub vote_from_bytes : Bytes → Decoded BlockVote
  vote_from_bytes bytes = root fb bytes (λ map. and_read (share_at (fb.at map "sig_share")) (λ s.
      decoded (record {
        block_id = uint_at fb map "block_id";
        voter_id = uint_at fb map "voter_id";
        sig_share = s;
      })))

  -- the loop over the votes
  unfoldable pub read_votes : Value → List String → Assoc BlockVote → Decoded (Assoc BlockVote)
  read_votes votes_fb [] votes = decoded votes
  read_votes votes_fb (key ∷ keys) votes =
      and_read (vote_from_bytes (fb.as_blob (fb.at votes_fb key))) (λ vote. elim (stoi key) [
        | none ↦ invalid
        | some voter ↦ read_votes votes_fb keys (OrdMap.insert votes voter vote)
      ])

  unfoldable pub block_from_bytes : Bytes → Decoded Block
  block_from_bytes bytes = root fb bytes (λ map.
      and_read (header_from_bytes fb (fb.as_blob (fb.at map "header"))) (λ header.
        let tx_vec = read_txs fb (fb.as_vector (fb.at map "tx_vec")) in
        let votes_fb = fb.at map "votes" in
        and_read (read_votes votes_fb (fb.keys votes_fb) []) (λ votes.
          decoded (record empty_block { header = header; tx_vec = tx_vec; votes = votes }))))

  -- The adapter, as the handlers use it.
  abbrev pub adapter : Codec Bytes
  adapter = record {
    header_to_bytes = header_to_bytes fb;
    header_from_bytes = header_from_bytes fb;
    vote_to_bytes = vote_to_bytes fb;
    vote_from_bytes = vote_from_bytes;
    block_to_bytes = block_to_bytes fb;
    block_from_bytes = block_from_bytes;
  }
