-- ===== src/Wire/RoundTrip.antt =====
-- A block through the adapter: it comes back without its aggregated signature, if the voters' ids
-- are of 31 bits, and otherwise reading throws.
use dchain.Prelude.{
  ℕ, ap, [], ◌≤◌, ◌-◌, ◌^◌, ◌≡◌, refl, Bool, false, true, none, some, ◌∙◌, All, arith, leb, inr,
}
use mathlib.Core.List.Memᴰ.{head, tail}
use dchain.Container.Assoc.{Assoc, find, All-find}
use dchain.Container.OrdMap.{IsSorted}
use dchain.Entity.Bls.{SigShare}
use dchain.Entity.Block.{Block, BlockVote}
use dchain.Wire.Codec.{Decoded, decoded, invalid, and_read}
use dchain.Wire.Flex.{FlexBuffers, FlexLaws}
use dchain.Wire.Numeral.{to_string}
use dchain.Wire.Adapter.{
  header_to_bytes, block_fields, block_to_bytes, block_from_bytes, tx_values, vote_values,
  read_votes,
}
use dchain.Wire.Records.{IsHeader, IsTransaction, root_eq, header_from_bytes-header_to_bytes}
use dchain.Wire.Entries.{IsEntry, read_txs-tx_values, names-distinct, name-Entry, name_written}
use dchain.Wire.Blocks.{read_votes_small, read_votes_big}

-- Every number of the block is a word, its shares are points that libBLS accepts, and its votes
-- are in the order of the voters, as a `std::map` keeps them.
pub record IsWireBlock (is_share : SigShare → Bool) (b : Block) : Type 0 where
  pub header : IsHeader b.header
  pub tx_vec : All IsTransaction b.tx_vec
  pub sorted : IsSorted b.votes
  pub votes : All (IsEntry is_share) b.votes

at_most : (j : ℕ) → j ≤ 2 ^ 31 - 1 → leb j (2 ^ 31 - 1) ≡ true
at_most j h = ground (arith, h)

above : (j : ℕ) → 2 ^ 31 ≤ j → leb j (2 ^ 31 - 1) ≡ false
above j h = ground (arith, h)

not_found : (j : ℕ) (v : BlockVote) → find [] j ≡ some v → ⊥
unfolding find
not_found j v f = cc

module _ {Bytes Value : Type 0} (fb : FlexBuffers Bytes Value) (laws : FlexLaws fb)
    (is_share : SigShare → Bool) (b : Block) (w : IsWireBlock is_share b) where
  -- The votes under their key in the map of the block.
  abbrev read_back : Decoded (Assoc BlockVote)
  read_back =
      let votes_fb = fb.map (vote_values fb b.votes) in
      read_votes fb is_share votes_fb (fb.keys votes_fb) []

  read_back_eq :
      block_from_bytes fb is_share (block_to_bytes fb b)
      ≡ and_read read_back (λ votes. decoded (record b { votes = votes; tss_sig = none }))
  unfolding block_from_bytes block_to_bytes
  read_back_eq =
      let kvs = block_fields fb b in
      root_eq fb laws _ _
      ∙ rw
          (
            laws.at_lem kvs "header" (fb.blob (header_to_bytes fb b.header)) refl (head refl),
            laws.at_lem kvs "tx_vec" (fb.vector (tx_values fb b.tx_vec)) refl (tail (head refl)),
            laws.at_lem kvs "votes" (fb.map (vote_values fb b.votes)) refl
                (tail (tail (head refl))),
            laws.blob_lem,
            header_from_bytes-header_to_bytes fb laws b.header w.header,
            laws.vector_lem,
            read_txs-tx_values fb laws b.tx_vec w.tx_vec,
          )
          refl

  -- Under what FlexBuffers promises of reading back: a block whose numbers are words, whose votes are
  -- in the order of their voters, with ids of 31 bits, and whose shares are 96 bytes that libBLS
  -- accepts, comes back as it was, but for the aggregated signature, which is lost.
  pub block_from_bytes-block_to_bytes :
      All (λ entry. entry.0 ≤ 2 ^ 31 - 1) b.votes
      → block_from_bytes fb is_share (block_to_bytes fb b) ≡ decoded (record b { tss_sig = none })
  block_from_bytes-block_to_bytes small =
      let d = names-distinct fb is_share b.votes w.sorted w.votes in
      let kvs = vote_values fb b.votes in
      read_back_eq
      ∙ ap (λ r. and_read r (λ votes. decoded (record b { votes = votes; tss_sig = none })))
          (read_votes_small fb laws is_share b.votes w.sorted w.votes (fb.keys (fb.map kvs)) []
            (λ j v f. at_most j (All-find (λ entry. entry.0 ≤ 2 ^ 31 - 1) b.votes j v small f)) tt
            (λ j v f. absurd (not_found j v f))
            (λ k q. name-Entry fb b.votes k w.sorted (laws.keys_sound kvs k d q))
            (λ j v f. inr (laws.keys_complete kvs (to_string j) d (name_written fb b.votes j v f))))

  -- Under what FlexBuffers promises of reading back: if one of the voters of such a block has an id
  -- of 2 ^ 31 or more, reading the bytes of the block ends in an exception.
  pub block_from_bytes_throws :
      (j : ℕ) (v : BlockVote)
      → find b.votes j ≡ some v
      → 2 ^ 31 ≤ j
      → block_from_bytes fb is_share (block_to_bytes fb b) ≡ invalid
  block_from_bytes_throws j v f big =
      let d = names-distinct fb is_share b.votes w.sorted w.votes in
      let kvs = vote_values fb b.votes in
      read_back_eq
      ∙ ap (λ r. and_read r (λ votes. decoded (record b { votes = votes; tss_sig = none })))
          (read_votes_big fb laws is_share b.votes w.sorted w.votes (fb.keys (fb.map kvs)) [] j v f
            (above j big) (λ k q. name-Entry fb b.votes k w.sorted (laws.keys_sound kvs k d q))
            (laws.keys_complete kvs (to_string j) d (name_written fb b.votes j v f)))
