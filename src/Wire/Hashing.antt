-- ===== src/Wire/Hashing.antt =====
-- The bytes that `Block::get_sha256` hashes stand for all of the block.
use Prim.Native.String.{String}
use mathlib.Core.List.{Memᴰ}
use mathlib.Core.List.Memᴰ.{head, tail}
use dchain.Prelude.{
  ℕ, ◌<◌, ◌≡◌, ◌≢◌, refl, sym, ◌∙◌, ap, true, Option, none, some, List, [], ◌∷◌, All, u64_mod,
}
use dchain.Container.Assoc.{Assoc}
use dchain.Entity.Bls.{SigShare, Signature}
use dchain.Entity.Block.{Block, BlockHeader, BlockVote}
use dchain.Entity.Transaction.{Transaction}
use dchain.Wire.Msgpack.{Msgpack, MsgpackLaws}
use dchain.Wire.Flex.{names, distinct, IsBytes}
use dchain.Wire.Records.{IsWord, IsHeader, IsTransaction}
use dchain.Wire.Hash.{
  header_object, transaction_object, packed_share, share_object, packed_vote, vote_object,
  tx_objects, vote_objects, block_object, hashed,
}

-- The numbers of a share are words, and its point is of bytes.
pub record IsPackedShare (s : SigShare) : Type 0 where
  pub g1 : IsBytes s.g1
  pub signer_index : IsWord s.signer_index
  pub t : IsWord s.t
  pub n : IsWord s.n

abbrev pub IsPackedOption : Option SigShare → Type 0
IsPackedOption none = Unit
IsPackedOption (some s) = IsPackedShare s

pub record IsPackedVote (v : BlockVote) : Type 0 where
  pub block_id : IsWord v.block_id
  pub voter_id : IsWord v.voter_id
  pub sig_share : IsPackedOption v.sig_share

pub record IsPackedBlock (b : Block) : Type 0 where
  pub header : IsHeader b.header
  pub tx_vec : All IsTransaction b.tx_vec
  pub votes : All (λ entry. IsWord entry.0 × IsPackedVote entry.1) b.votes

module _ {Bytes Object : Type 0} (mp : Msgpack Bytes Object) (laws : MsgpackLaws mp) where
  uint_injective : (m n : ℕ) → IsWord m → IsWord n → mp.uint m ≡ mp.uint n → m ≡ n
  uint_injective m n h g e = sym (laws.uint_lem m h) ∙ (ap mp.as_uint64 e ∙ laws.uint_lem n g)

  array_injective : (os ps : List Object) → mp.array os ≡ mp.array ps → os ≡ ps
  array_injective os ps e = sym (laws.array_lem os) ∙ (ap mp.as_array e ∙ laws.array_lem ps)

  -- Equal structures have equal fields.
  field_injective :
      (kvs kvs' : List (String × Object)) (k : String) (o o' : Object)
      → distinct (names kvs) ≡ true
      → distinct (names kvs') ≡ true
      → Memᴰ (k, o) kvs
      → Memᴰ (k, o') kvs'
      → mp.struct kvs ≡ mp.struct kvs'
      → o ≡ o'
  field_injective kvs kvs' k o o' d d' m m' e =
      sym (laws.field_lem kvs k o d m) ∙ (ap (λ s. mp.field s k) e ∙ laws.field_lem kvs' k o' d' m')

  header_object_injective :
      (h h' : BlockHeader)
      → IsHeader h
      → IsHeader h'
      → header_object mp h ≡ header_object mp h'
      → h ≡ h'
  unfolding header_object
  header_object_injective h h' w w' e =
      let l = array_injective _ _ e in
      let id = uint_injective h.id h'.id w.id w'.id cc in
      let base = uint_injective h.base_id h'.base_id w.base_id w'.base_id cc in
      let proposal = uint_injective h.proposal_ts h'.proposal_ts w.proposal_ts w'.proposal_ts cc in
      let dist = uint_injective h.dist_ts h'.dist_ts w.dist_ts w'.dist_ts cc in
      let commit = uint_injective h.commit_ts h'.commit_ts w.commit_ts w'.commit_ts cc in
      let recv = uint_injective h.recv_ts h'.recv_ts w.recv_ts w'.recv_ts cc in cc

  transaction_object_injective :
      (tx tx' : Transaction)
      → IsTransaction tx
      → IsTransaction tx'
      → transaction_object mp tx ≡ transaction_object mp tx'
      → tx ≡ tx'
  unfolding transaction_object
  transaction_object_injective tx tx' w w' e =
      let l = array_injective _ _ e in
      let id = uint_injective tx.id tx'.id w.id w'.id cc in
      let sender = uint_injective tx.sender tx'.sender w.sender w'.sender cc in
      let receiver = uint_injective tx.receiver tx'.receiver w.receiver w'.receiver cc in
      let value = uint_injective tx.value tx'.value w.value w'.value cc in
      let fee = uint_injective tx.fee tx'.fee w.fee w'.fee cc in cc

  share_injective :
      (s s' : SigShare)
      → IsPackedShare s
      → IsPackedShare s'
      → mp.struct (packed_share mp s) ≡ mp.struct (packed_share mp s')
      → s ≡ s'
  share_injective s s' w w' e =
      let p = packed_share mp s in
      let p' = packed_share mp s' in
      let bytes =
        field_injective p p' "sig_share" (mp.bin s.g1) (mp.bin s'.g1) refl refl (head refl)
          (head refl) e in
      let g1 = sym (laws.bin_lem s.g1 w.g1) ∙ (ap mp.as_bin bytes ∙ laws.bin_lem s'.g1 w'.g1) in
      let texts =
        field_injective p p' "hint" (mp.str s.hint) (mp.str s'.hint) refl refl (tail (head refl))
          (tail (head refl)) e in
      let hint = sym (laws.str_lem s.hint) ∙ (ap mp.as_str texts ∙ laws.str_lem s'.hint) in
      let index = uint_injective s.signer_index s'.signer_index w.signer_index w'.signer_index (
        field_injective p p' "signer_index" _ _ refl refl (tail (tail (head refl)))
          (tail (tail (head refl))) e) in
      let t = uint_injective s.t s'.t w.t w'.t (
        field_injective p p' "t" _ _ refl refl (tail (tail (tail (head refl))))
          (tail (tail (tail (head refl)))) e) in
      let n = uint_injective s.n s'.n w.n w'.n (
        field_injective p p' "n" _ _ refl refl (tail (tail (tail (tail (head refl)))))
          (tail (tail (tail (tail (head refl))))) e) in
      cc

  nil_apart : (kvs : List (String × Object)) → mp.nil ≡ mp.struct kvs → ⊥
  nil_apart kvs e =
      let f = ap mp.is_nil e in let n = laws.nil_lem in let s = laws.struct_not_nil kvs in cc

  share_object_injective :
      (o o' : Option SigShare)
      → IsPackedOption o
      → IsPackedOption o'
      → share_object mp o ≡ share_object mp o'
      → o ≡ o'
  unfolding share_object
  share_object_injective none none w w' e = refl
  share_object_injective none (some s) w w' e = absurd (nil_apart _ e)
  share_object_injective (some s) none w w' e = absurd (nil_apart _ (sym e))
  share_object_injective (some s) (some s') w w' e = ap some (share_injective s s' w w' e)

  vote_object_injective :
      (v v' : BlockVote)
      → IsPackedVote v
      → IsPackedVote v'
      → vote_object mp v ≡ vote_object mp v'
      → v ≡ v'
  unfolding vote_object
  vote_object_injective v v' w w' e =
      let p = packed_vote mp v in
      let p' = packed_vote mp v' in
      let block =
        uint_injective v.block_id v'.block_id w.block_id w'.block_id
          (field_injective p p' "block_id" _ _ refl refl (head refl) (head refl) e) in
      let voter =
        uint_injective v.voter_id v'.voter_id w.voter_id w'.voter_id
          (field_injective p p' "voter_id" _ _ refl refl (tail (head refl)) (tail (head refl)) e) in
      let share = share_object_injective v.sig_share v'.sig_share w.sig_share w'.sig_share (
        field_injective p p' "sig_share" _ _ refl refl (tail (tail (head refl)))
          (tail (tail (head refl))) e) in
      cc

  tx_objects_injective :
      (txs txs' : List Transaction)
      → All IsTransaction txs
      → All IsTransaction txs'
      → tx_objects mp txs ≡ tx_objects mp txs'
      → txs ≡ txs'
  unfolding tx_objects
  tx_objects_injective [] [] w w' e = refl
  tx_objects_injective [] (tx ∷ txs) w w' e = cc
  tx_objects_injective (tx ∷ txs) [] w w' e = cc
  tx_objects_injective (tx ∷ txs) (tx' ∷ txs') w w' e =
      let first = transaction_object_injective tx tx' w.0 w'.0 cc in
      let rest = tx_objects_injective txs txs' w.1 w'.1 cc in cc

  vote_objects_words :
      (m : Assoc BlockVote)
      → All (λ entry. IsWord entry.0 × IsPackedVote entry.1) m
      → All (λ entry. entry.0 < u64_mod) (vote_objects mp m)
  unfolding vote_objects
  vote_objects_words [] w = tt
  vote_objects_words ((i, v) ∷ m) w = (w.0.0, vote_objects_words m w.1)

  vote_objects_injective :
      (m m' : Assoc BlockVote)
      → All (λ entry. IsWord entry.0 × IsPackedVote entry.1) m
      → All (λ entry. IsWord entry.0 × IsPackedVote entry.1) m'
      → vote_objects mp m ≡ vote_objects mp m'
      → m ≡ m'
  unfolding vote_objects
  vote_objects_injective [] [] w w' e = refl
  vote_objects_injective [] ((i, v) ∷ m) w w' e = cc
  vote_objects_injective ((i, v) ∷ m) [] w w' e = cc
  vote_objects_injective ((i, v) ∷ m) ((i', v') ∷ m') w w' e =
      let first = vote_object_injective v v' w.0.1 w'.0.1 cc in
      let rest = vote_objects_injective m m' w.1 w'.1 cc in cc

  hashed_injective :
      (sig_text : Signature → String) (b b' : Block)
      → IsPackedBlock b
      → IsPackedBlock b'
      → b.tss_sig ≡ none
      → b'.tss_sig ≡ none
      → hashed mp sig_text b ≡ hashed mp sig_text b'
      → b ≡ b'
  unfolding hashed
  hashed_injective sig_text b b' w w' u u' e =
      let p = block_object mp sig_text b in
      let p' = block_object mp sig_text b' in
      let s =
        sym (laws.unpack_lem (mp.struct p)) ∙ (ap mp.unpack e ∙ laws.unpack_lem (mp.struct p')) in
      let header =
        header_object_injective b.header b'.header w.header w'.header
          (field_injective p p' "header" _ _ refl refl (head refl) (head refl) s) in
      let txs = tx_objects_injective b.tx_vec b'.tx_vec w.tx_vec w'.tx_vec (
        array_injective _ _
          (field_injective p p' "tx_vec" _ _ refl refl (tail (head refl)) (tail (head refl)) s)) in
      let table =
        field_injective p p' "votes" _ _ refl refl (tail (tail (head refl)))
          (tail (tail (head refl))) s in
      let votes = vote_objects_injective b.votes b'.votes w.votes w'.votes (
        sym (laws.table_lem _ (vote_objects_words b.votes w.votes))
        ∙ (ap mp.as_table table ∙ laws.table_lem _ (vote_objects_words b'.votes w'.votes))) in
      cc

  -- Under what msgpack promises of reading back: for two blocks without an aggregated signature
  -- that differ in anything, also in the time of distribution or the votes, and whose numbers are
  -- words and shares are bytes, `get_sha256` hashes different bytes.
  pub hashed_apart :
      (sig_text : Signature → String) (b b' : Block)
      → IsPackedBlock b
      → IsPackedBlock b'
      → b.tss_sig ≡ none
      → b'.tss_sig ≡ none
      → b ≢ b'
      → hashed mp sig_text b ≢ hashed mp sig_text b'
  hashed_apart sig_text b b' w w' u u' apart e = apart (hashed_injective sig_text b b' w w' u u' e)
