-- ===== src/Wire/Records.antt =====
-- What the adapter writes of shares, signatures, votes, headers and transactions is what it reads.
use Prim.Native.String.{String}
use mathlib.Core.List.{Memᴰ}
use mathlib.Core.List.Memᴰ.{head, tail}
use dchain.Prelude.{
  ℕ, ◌<◌, ◌≡◌, refl, Bool, true, Option, none, some, List, ◌∙◌, ap, length, u64_mod, eq→==,
  if◌then◌else◌,
}
use dchain.Entity.Bls.{SigShare, Signature}
use dchain.Entity.Block.{BlockHeader, BlockVote}
use dchain.Entity.Transaction.{Transaction}
use dchain.Wire.Codec.{Decoded, decoded, invalid}
use dchain.Wire.Flex.{FlexBuffers, FlexLaws, names, distinct, IsBytes}
use dchain.Wire.Adapter.{
  root, header_fields, transaction_fields, share_fields, vote_fields, signature_fields,
  share_to_bytes, share_from_bytes, signature_to_bytes, signature_from_bytes, vote_to_bytes,
  vote_from_bytes, share_at, share_value, header_to_bytes, header_from_bytes, transaction_to_bytes,
  transaction_from_bytes,
}

abbrev pub IsWord : ℕ → Type 0
IsWord n = n < u64_mod

-- a point of the curve, as its 96 bytes of memory
abbrev pub IsPoint : List ℕ → Type 0
IsPoint g1 = IsBytes g1 × (length g1 ≡ 96)

pub record IsHeader (h : BlockHeader) : Type 0 where
  pub id : IsWord h.id
  pub base_id : IsWord h.base_id
  pub proposal_ts : IsWord h.proposal_ts
  pub dist_ts : IsWord h.dist_ts
  pub commit_ts : IsWord h.commit_ts
  pub recv_ts : IsWord h.recv_ts

pub record IsTransaction (tx : Transaction) : Type 0 where
  pub id : IsWord tx.id
  pub sender : IsWord tx.sender
  pub receiver : IsWord tx.receiver
  pub value : IsWord tx.value
  pub fee : IsWord tx.fee

module _ (is_share : SigShare → Bool) where
  pub record IsWireShare (s : SigShare) : Type 0 where
    pub g1 : IsPoint s.g1
    pub signer_index : IsWord s.signer_index
    pub t : IsWord s.t
    pub n : IsWord s.n
    pub accepted : is_share s ≡ true

  abbrev pub IsWireOption : Option SigShare → Type 0
  IsWireOption none = Unit
  IsWireOption (some s) = IsWireShare s

  pub record IsWireVote (v : BlockVote) : Type 0 where
    pub block_id : IsWord v.block_id
    pub voter_id : IsWord v.voter_id
    pub sig_share : IsWireOption v.sig_share

module _ {Bytes Value : Type 0} (fb : FlexBuffers Bytes Value) (laws : FlexLaws fb) where
  pub uint_field :
      (kvs : List (String × Value)) (k : String) (n : ℕ)
      → distinct (names kvs) ≡ true
      → Memᴰ (k, fb.uint n) kvs
      → IsWord n
      → fb.as_uint64 (fb.at (fb.map kvs) k) ≡ n
  uint_field kvs k n d m w = ap fb.as_uint64 (laws.at_lem kvs k (fb.uint n) d m) ∙ laws.uint_lem n w

  pub root_eq :
      {A : Type 0} (v : Value) (read : Value → Decoded A) → root fb (fb.finish v) read ≡ read v
  root_eq v read = rw (root, laws.root_lem v) refl

  -- The header `h` of a block, its six numbers being words, is read as it was written.
  pub header_from_bytes-header_to_bytes :
      (h : BlockHeader) → IsHeader h → header_from_bytes fb (header_to_bytes fb h) ≡ decoded h
  unfolding header_from_bytes header_to_bytes
  header_from_bytes-header_to_bytes h w =
      let kvs = header_fields fb h in
      root_eq _ _
      ∙ rw
          (
            uint_field kvs "id" h.id refl (head refl) w.id,
            uint_field kvs "base_id" h.base_id refl (tail (head refl)) w.base_id,
            uint_field kvs "proposal_ts" h.proposal_ts refl (tail (tail (head refl))) w.proposal_ts,
            uint_field kvs "dist_ts" h.dist_ts refl (tail (tail (tail (head refl)))) w.dist_ts,
            uint_field kvs "commit_ts" h.commit_ts refl (tail (tail (tail (tail (head refl)))))
                w.commit_ts,
            uint_field kvs "recv_ts" h.recv_ts refl (tail (tail (tail (tail (tail (head refl))))))
                w.recv_ts,
          )
          refl

  pub transaction_from_bytes-transaction_to_bytes :
      (tx : Transaction)
      → IsTransaction tx
      → transaction_from_bytes fb (transaction_to_bytes fb tx) ≡ decoded tx
  unfolding transaction_from_bytes transaction_to_bytes
  transaction_from_bytes-transaction_to_bytes tx w =
      let kvs = transaction_fields fb tx in
      root_eq _ _
      ∙ rw
          (
            uint_field kvs "id" tx.id refl (head refl) w.id,
            uint_field kvs "sender" tx.sender refl (tail (head refl)) w.sender,
            uint_field kvs "receiver" tx.receiver refl (tail (tail (head refl))) w.receiver,
            uint_field kvs "value" tx.value refl (tail (tail (tail (head refl)))) w.value,
            uint_field kvs "fee" tx.fee refl (tail (tail (tail (tail (head refl))))) w.fee,
          )
          refl

  -- The 96 bytes of a point.
  g1_field :
      (kvs : List (String × Value)) (k : String) (g1 : List ℕ)
      → distinct (names kvs) ≡ true
      → Memᴰ (k, fb.blob (fb.raw g1)) kvs
      → IsBytes g1
      → fb.contents (fb.as_blob (fb.at (fb.map kvs) k)) ≡ g1
  g1_field kvs k g1 d m b =
      rw (laws.at_lem kvs k (fb.blob (fb.raw g1)) d m, laws.blob_lem) (laws.raw_lem g1 b)

  str_field :
      (kvs : List (String × Value)) (k : String) (s : String)
      → distinct (names kvs) ≡ true
      → Memᴰ (k, fb.str s) kvs
      → fb.as_string (fb.at (fb.map kvs) k) ≡ s
  str_field kvs k s d m = rw (laws.at_lem kvs k (fb.str s) d m) (laws.str_lem s)

  module _ (is_signature : Signature → Bool) where
    pub signature_from_bytes-signature_to_bytes :
        (s : Signature)
        → IsPoint s.g1
        → IsWord s.t
        → IsWord s.n
        → signature_from_bytes fb is_signature (signature_to_bytes fb s)
          ≡ (if is_signature s then decoded s else invalid)
    unfolding signature_from_bytes signature_to_bytes
    signature_from_bytes-signature_to_bytes s g t n =
        let kvs = signature_fields fb s in
        root_eq _ _
        ∙ rw
            (
              g1_field kvs "sig" s.g1 refl (head refl) g.0,
              str_field kvs "hint" s.hint refl (tail (head refl)),
              uint_field kvs "t" s.t refl (tail (tail (head refl))) t,
              uint_field kvs "n" s.n refl (tail (tail (tail (head refl)))) n,
              eq→== (length s.g1) 96 g.1,
            )
            refl

  module _ (is_share : SigShare → Bool) where
    pub share_from_bytes-share_to_bytes :
        (s : SigShare)
        → IsWireShare is_share s
        → share_from_bytes fb is_share (share_to_bytes fb s) ≡ decoded s
    unfolding share_from_bytes share_to_bytes
    share_from_bytes-share_to_bytes s w =
        let kvs = share_fields fb s in
        root_eq _ _
        ∙ rw
            (
              g1_field kvs "g1" s.g1 refl (head refl) w.g1.0,
              str_field kvs "hint" s.hint refl (tail (head refl)),
              uint_field kvs "signer_index" s.signer_index refl (tail (tail (head refl)))
                  w.signer_index,
              uint_field kvs "t" s.t refl (tail (tail (tail (head refl)))) w.t,
              uint_field kvs "n" s.n refl (tail (tail (tail (tail (head refl))))) w.n,
              eq→== (length s.g1) 96 w.g1.1,
              w.accepted,
            )
            refl

    share_at_eq :
        (o : Option SigShare)
        → IsWireOption is_share o
        → share_at fb is_share (share_value fb o) ≡ decoded o
    unfolding share_at
    share_at_eq none w = rw laws.null_lem refl
    share_at_eq (some s) w =
        rw
          (
            laws.blob_not_null (share_to_bytes fb s),
            laws.blob_lem,
            share_from_bytes-share_to_bytes s w,
          )
          refl

    -- Under what FlexBuffers promises of reading back: a vote whose numbers are words, and whose
    -- share is null, or 96 bytes with numbers that are words and that libBLS accepts, comes back as
    -- it was.
    pub vote_from_bytes-vote_to_bytes :
        (v : BlockVote)
        → IsWireVote is_share v
        → vote_from_bytes fb is_share (vote_to_bytes fb v) ≡ decoded v
    unfolding vote_from_bytes vote_to_bytes
    vote_from_bytes-vote_to_bytes v w =
        let kvs = vote_fields fb v in
        root_eq _ _
        ∙ rw
            (
              laws.at_lem kvs "sig_share" (share_value fb v.sig_share) refl
                  (tail (tail (head refl))),
              share_at_eq v.sig_share w.sig_share,
              uint_field kvs "block_id" v.block_id refl (head refl) w.block_id,
              uint_field kvs "voter_id" v.voter_id refl (tail (head refl)) w.voter_id,
            )
            refl
