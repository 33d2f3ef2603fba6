-- ===== src/Wire/Hash.antt =====
-- What include/entity/msgpack_adapter.hpp packs, and `Block::get_sha256` of src/entity/block.cpp.
-- `sig_text` is `toString` of `BLSSignature`, of libBLS, and `hash256` that of picosha2.
use Prim.Native.String.{String}
use dchain.Prelude.{ℕ, Option, none, some, List, [], ◌∷◌}
use dchain.Container.Assoc.{Assoc}
use dchain.Entity.Bls.{SigShare, Signature}
use dchain.Entity.Block.{Block, BlockHeader, BlockVote}
use dchain.Entity.Transaction.{Transaction}
use dchain.Wire.Msgpack.{Msgpack}

module _ {Bytes Object : Type 0} (mp : Msgpack Bytes Object) where
  -- `MSGPACK_DEFINE` of `BlockHeader`
  unfoldable pub header_object : BlockHeader → Object
  header_object h = mp.array (
      mp.uint h.id
      ∷ mp.uint h.base_id
      ∷ mp.uint h.proposal_ts
      ∷ mp.uint h.dist_ts
      ∷ mp.uint h.commit_ts
      ∷ mp.uint h.recv_ts
      ∷ [])

  -- `MSGPACK_DEFINE` of `Transaction`
  unfoldable pub transaction_object : Transaction → Object
  transaction_object tx = mp.array (
      mp.uint tx.id
      ∷ mp.uint tx.sender
      ∷ mp.uint tx.receiver
      ∷ mp.uint tx.value
      ∷ mp.uint tx.fee
      ∷ [])

  -- `pack<BLSSigShare>`
  abbrev pub packed_share : SigShare → List (String × Object)
  packed_share s =
      ("sig_share", mp.bin s.g1)
      ∷ ("hint", mp.str s.hint)
      ∷ ("signer_index", mp.uint s.signer_index)
      ∷ ("t", mp.uint s.t)
      ∷ ("n", mp.uint s.n)
      ∷ []

  -- A null `shared_ptr` is packed as nil.
  unfoldable pub share_object : Option SigShare → Object
  share_object none = mp.nil
  share_object (some s) = mp.struct (packed_share s)

  -- `pack<BlockVote>`
  abbrev pub packed_vote : BlockVote → List (String × Object)
  packed_vote v =
      ("block_id", mp.uint v.block_id)
      ∷ ("voter_id", mp.uint v.voter_id)
      ∷ ("sig_share", share_object v.sig_share)
      ∷ []

  unfoldable pub vote_object : BlockVote → Object
  vote_object v = mp.struct (packed_vote v)

  unfoldable pub tx_objects : List Transaction → List Object
  unfolding transaction_object
  tx_objects [] = []
  tx_objects (tx ∷ txs) = transaction_object tx ∷ tx_objects txs

  unfoldable pub vote_objects : Assoc BlockVote → List (ℕ × Object)
  unfolding vote_object
  vote_objects [] = []
  vote_objects ((voter, vote) ∷ votes) = (voter, vote_object vote) ∷ vote_objects votes

  module _ (sig_text : Signature → String) where
    -- `pack<BLSSignature>`
    unfoldable pub signature_object : Option Signature → Object
    signature_object none = mp.nil
    signature_object (some s) =
        mp.struct (("sig_str", mp.str (sig_text s)) ∷ ("t", mp.uint s.t) ∷ ("n", mp.uint s.n) ∷ [])

    -- `pack<Block>`
    abbrev pub block_object : Block → List (String × Object)
    block_object b =
        ("header", header_object b.header)
        ∷ ("tx_vec", mp.array (tx_objects b.tx_vec))
        ∷ ("votes", mp.table (vote_objects b.votes))
        ∷ ("tss_sig", signature_object b.tss_sig)
        ∷ []

    -- What `Block::get_sha256` hashes.
    unfoldable pub hashed : Block → Bytes
    hashed b = mp.pack (mp.struct (block_object b))

    -- `Block::get_sha256`
    unfoldable pub get_sha256 : {Hash : Type 0} → (Bytes → Hash) → Block → Hash
    unfolding hashed
    get_sha256 hash256 b = hash256 (hashed b)
