-- ===== src/Wire/Plan.antt =====
-- What a block proposes, which neither votes nor the servers' times touch, and that it crosses the
-- wire.
use dchain.Prelude.{
  ℕ, ◌≡◌, refl, ◌∙◌, sym, subst, List, [], ◌∷◌, none, Bool, All, Option-cases, inl, inr, arith,
}
use Prim.Native.String.{String}
use mathlib.Core.List.Memᴰ.{head, tail}
use dchain.Container.Assoc.{Assoc}
use dchain.Container.OrdMap
use dchain.Container.OrdMap.{IsSorted, insert-IsSorted}
use dchain.Entity.Bls.{SigShare}
use dchain.Entity.Block.{Block, BlockHeader, BlockVote}
use dchain.Entity.Transaction.{Transaction}
use dchain.Server.Growth.{Grows}
use dchain.Wire.Codec.{Codec, Decoded, decoded, and_read, Decoded-cases}
use dchain.Wire.Flex.{FlexBuffers, FlexLaws}
use dchain.Wire.Records.{IsWord, IsTransaction, root_eq, uint_field}
use dchain.Wire.Entries.{read_txs-tx_values}
use dchain.Wire.Numeral.{stoi}
use dchain.Wire.Adapter.{
  adapter, vote_from_bytes, header_fields, header_to_bytes, header_from_bytes, block_fields,
  block_to_bytes, block_from_bytes, tx_values, vote_values, read_votes,
}

pub record Plan : Type 0 where
  pub id : ℕ
  pub base_id : ℕ
  pub proposal_ts : ℕ
  pub tx_vec : List Transaction

abbrev pub plan_of : Block → Plan
plan_of b = record {
  id = b.header.id;
  base_id = b.header.base_id;
  proposal_ts = b.header.proposal_ts;
  tx_vec = b.tx_vec;
}

-- Every number of the plan is a word.
pub record IsPlan (plan : Plan) : Type 0 where
  pub id : IsWord plan.id
  pub base_id : IsWord plan.base_id
  pub proposal_ts : IsWord plan.proposal_ts
  pub tx_vec : All IsTransaction plan.tx_vec

pub Grows-plan_of : (b b' : Block) → Grows b b' → plan_of b' ≡ plan_of b
Grows-plan_of b b' g = ground (arith, g.same_id, g.same_base, g.same_proposal, g.same_txs)

-- If the bytes of a block are read at all, then as a block with its plan, and with votes in the
-- order of their voters.
abbrev pub KeepsPlans : {Bytes : Type 0} → Codec Bytes → Type 0
KeepsPlans codec =
    (b b' : Block)
    → IsPlan (plan_of b)
    → codec.block_from_bytes (codec.block_to_bytes b) ≡ decoded b'
    → (plan_of b' ≡ plan_of b) × IsSorted b'.votes

and_read-kept :
    (P : Block → Type 0) {A : Type 0} (d : Decoded A) (f : A → Block) (b' : Block)
    → ((a : A) → d ≡ decoded a → P (f a))
    → and_read d (λ a. decoded (f a)) ≡ decoded b'
    → P b'
and_read-kept P d f b' keep e = elim (Decoded-cases d) [
  | inl (a, x) ↦
      let y : decoded (f a) ≡ decoded b' = rw x at e in
      let same : f a ≡ b' = ground (arith, y) in subst P same (keep a x)
  | inr (inl x) ↦ cc
  | inr (inr x) ↦ cc
]

module _ {Bytes Value : Type 0} (fb : FlexBuffers Bytes Value) (laws : FlexLaws fb)
    (is_share : SigShare → Bool) where
  header_plan :
      (h : BlockHeader)
      → IsWord h.id
      → IsWord h.base_id
      → IsWord h.proposal_ts
      → (h' : BlockHeader) × (header_from_bytes fb (header_to_bytes fb h) ≡ decoded h')
        × (h'.id ≡ h.id)
        × (h'.base_id ≡ h.base_id)
        × (h'.proposal_ts ≡ h.proposal_ts)
  unfolding header_from_bytes header_to_bytes
  header_plan h i b p =
      let kvs = header_fields fb h in
      (
        _,
        root_eq fb laws _ _,
        uint_field fb laws kvs "id" h.id refl (head refl) i,
        uint_field fb laws kvs "base_id" h.base_id refl (tail (head refl)) b,
        uint_field fb laws kvs "proposal_ts" h.proposal_ts refl (tail (tail (head refl))) p,
      )

  -- The votes under their key in the map of the block, as they are read.
  abbrev read_back : Block → Decoded (Assoc BlockVote)
  read_back b =
      let votes_fb = fb.map (vote_values fb b.votes) in
      read_votes fb is_share votes_fb (fb.keys votes_fb) []

  -- A block read back, `h` being its header read back.
  abbrev with_votes : Block → BlockHeader → Assoc BlockVote → Block
  with_votes b h votes = record b { header = h; votes = votes; tss_sig = none }

  read_eq :
      (b : Block) (h : BlockHeader)
      → IsPlan (plan_of b)
      → header_from_bytes fb (header_to_bytes fb b.header) ≡ decoded h
      → block_from_bytes fb is_share (block_to_bytes fb b)
        ≡ and_read (read_back b) (λ votes. decoded (with_votes b h votes))
  unfolding block_from_bytes block_to_bytes
  read_eq b h w x =
      let kvs = block_fields fb b in
      root_eq fb laws _ _
      ∙ rw
          (
            laws.at_lem kvs "header" (fb.blob (header_to_bytes fb b.header)) refl (head refl),
            laws.at_lem kvs "tx_vec" (fb.vector (tx_values fb b.tx_vec)) refl (tail (head refl)),
            laws.at_lem kvs "votes" (fb.map (vote_values fb b.votes)) refl
                (tail (tail (head refl))),
            laws.blob_lem,
            x,
            laws.vector_lem,
            read_txs-tx_values fb laws b.tx_vec w.tx_vec,
          )
          refl

  -- Each vote that is read is put in its place.
  read_votes-IsSorted :
      (votes_fb : Value) (keys : List String) (votes votes' : Assoc BlockVote)
      → IsSorted votes
      → read_votes fb is_share votes_fb keys votes ≡ decoded votes'
      → IsSorted votes'
  unfolding read_votes
  read_votes-IsSorted votes_fb [] votes votes' s e =
      let same : votes ≡ votes' = ground (arith, e) in subst IsSorted same s
  read_votes-IsSorted votes_fb (key ∷ keys) votes votes' s e =
      elim (Decoded-cases (vote_from_bytes fb is_share (fb.as_blob (fb.at votes_fb key)))) [
        | inl (vote, x) ↦ elim (Option-cases (stoi key)) [
          | inl y ↦ absurd (ground (arith, e, x, y))
          | inr (voter, y) ↦
              read_votes-IsSorted votes_fb keys (OrdMap.insert votes voter vote) votes'
                (insert-IsSorted votes voter vote s) (ground (arith, e, x, y))
        ]
        | inr (inl x) ↦ absurd (ground (arith, e, x))
        | inr (inr x) ↦ absurd (ground (arith, e, x))
      ]

  -- FlexBuffers keeps plans, whatever becomes of the votes.
  pub adapter-KeepsPlans : KeepsPlans (adapter fb is_share)
  adapter-KeepsPlans b b' w e =
      let (h, x, i, base, time) = header_plan b.header w.id w.base_id w.proposal_ts in
      and_read-kept (λ c. (plan_of c ≡ plan_of b) × IsSorted c.votes) (read_back b) (with_votes b h)
        b'
        (λ votes f. (
          ground (arith, i, base, time),
          read_votes-IsSorted (fb.map (vote_values fb b.votes)) _ [] votes tt f,
        ))
        (sym (read_eq b h w x) ∙ e)
