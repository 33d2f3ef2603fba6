-- ===== src/Wire/Entries.antt =====
-- The transactions and the votes of a block as values of FlexBuffers, and the keys of the votes.
use Prim.Native.String.{String}
use text.Mathlib.Text.{◌==◌ as str_eq}
use text.Mathlib.TextEquality.{eq_iff}
use mathlib.Core.List.{Memᴰ}
use mathlib.Core.List.Memᴰ.{head, tail}
use dchain.Prelude.{
  ℕ, zero, suc, ◌/◌, ◌%◌, ◌≡◌, ◌≢◌, refl, Bool, true, false, some, List, [], ◌∷◌, ◌∙◌, ap, sym,
  ◌==◌, All, Bool-cases, inl, inr, arith, get_elem?, ==→eq,
}
use dchain.Container.Assoc.{Assoc, find}
use dchain.Container.OrdMap.{
  IsSorted, Above, Above-find, Above-weaken, same_value, find_head, Above-IsSorted,
}
use dchain.Entity.Bls.{SigShare}
use dchain.Entity.Block.{BlockVote}
use dchain.Entity.Transaction.{Transaction}
use dchain.Wire.Flex.{plain, FlexBuffers, FlexLaws, names, has, distinct}
use dchain.Wire.Numeral.{digit, put_digits, to_string, to_string_injective}
use dchain.Wire.Adapter.{tx_values, read_txs, vote_values, vote_to_bytes}
use dchain.Wire.Records.{IsWord, IsTransaction, IsWireVote}

-- An entry of the votes whose voter and vote fit.
abbrev pub IsEntry : (SigShare → Bool) → ℕ × BlockVote → Type 0
IsEntry is_share (voter, vote) = IsWord voter × IsWireVote is_share vote

module _ {Bytes Value : Type 0} (fb : FlexBuffers Bytes Value) (laws : FlexLaws fb) where
  pub read_txs-tx_values :
      (txs : List Transaction) → All IsTransaction txs → read_txs fb (tx_values fb txs) ≡ txs
  unfolding read_txs tx_values get_elem?
  read_txs-tx_values [] w = refl
  read_txs-tx_values (tx ∷ txs) w =
      rw
        (
          laws.vector_lem,
          laws.uint_lem tx.id w.0.id,
          laws.uint_lem tx.sender w.0.sender,
          laws.uint_lem tx.receiver w.0.receiver,
          laws.uint_lem tx.value w.0.value,
          laws.uint_lem tx.fee w.0.fee,
          read_txs-tx_values txs w.1,
        )
        refl

plain-digit : (d : ℕ) (s : String) → plain (digit d s) ≡ plain s
unfolding digit
plain-digit d s = ground arith

plain-put_digits : (f n : ℕ) (s : String) → plain (put_digits f n s) ≡ plain s
unfolding put_digits
plain-put_digits zero n s = refl
plain-put_digits (suc f) n s = elim (Bool-cases (n / 10 == 0)) [
  | inl last ↦ rw (last, put_digits) (plain-digit (n % 10) s)
  | inr more ↦
      rw (more, put_digits)
        (plain-put_digits f (n / 10) (digit (n % 10) s) ∙ plain-digit (n % 10) s)
]

plain-to_string : (n : ℕ) → plain (to_string n) ≡ true
unfolding to_string
plain-to_string n = plain-put_digits 20 n ""

to_string_apart :
    (i j : ℕ) → IsWord i → IsWord j → i ≢ j → str_eq (to_string i) (to_string j) ≡ false
to_string_apart i j hi hj ne = elim (Bool-cases (str_eq (to_string i) (to_string j))) [
  | inl same ↦
      absurd (ne (to_string_injective i j hi hj ((eq_iff (to_string i) (to_string j)).0 same)))
  | inr apart ↦ apart
]

-- What is written under a key is the entry of a voter.
abbrev pub Entry : Assoc BlockVote → String → Type 0
Entry m k = (j : ℕ) × (v : BlockVote) × (k ≡ to_string j) × (find m j ≡ some v)

module _ {Bytes Value : Type 0} (fb : FlexBuffers Bytes Value) where
  pub entry_written :
      (m : Assoc BlockVote) (j : ℕ) (v : BlockVote)
      → find m j ≡ some v
      → Memᴰ (to_string j, fb.blob (vote_to_bytes fb v)) (vote_values fb m)
  unfolding vote_values find
  entry_written [] j v e = cc
  entry_written ((i, w) ∷ m) j v e = elim (Bool-cases (i == j)) [
    | inl hit ↦ let q = ==→eq i j hit in let u = same_value j i v w m (sym q) e in head cc
    | inr miss ↦ tail (entry_written m j v (ground (arith, e, miss)))
  ]

  pub name_written :
      (m : Assoc BlockVote) (j : ℕ) (v : BlockVote)
      → find m j ≡ some v
      → Memᴰ (to_string j) (names (vote_values fb m))
  unfolding vote_values find
  name_written [] j v e = cc
  name_written ((i, w) ∷ m) j v e = elim (Bool-cases (i == j)) [
    | inl hit ↦ head (ap to_string (sym (==→eq i j hit)))
    | inr miss ↦ tail (name_written m j v (ground (arith, e, miss)))
  ]

  pub name-Entry :
      (m : Assoc BlockVote) (k : String)
      → IsSorted m
      → Memᴰ k (names (vote_values fb m))
      → Entry m k
  unfolding vote_values find
  name-Entry [] k s e = elim e [ ]
  name-Entry ((i, w) ∷ m) k s (head e) = (i, w, e, find_head i w m)
  name-Entry ((i, w) ∷ m) k s (tail e) =
      let (j, v, g, f) = name-Entry m k (Above-IsSorted i m s) e in
      (j, v, g, (let above = Above-find i m j v s f in ground (arith, above, f)))

module _ {Bytes Value : Type 0} (fb : FlexBuffers Bytes Value) (is_share : SigShare → Bool) where
  fresh_name :
      (n : ℕ) (m : Assoc BlockVote)
      → IsWord n
      → Above n m
      → All (IsEntry is_share) m
      → has (names (vote_values fb m)) (to_string n) ≡ false
  unfolding vote_values
  fresh_name n [] w a e = refl
  fresh_name n ((i, v) ∷ m) w a e =
      rw (to_string_apart i n e.0.0 w (λ q. omega (arith, q, a.0)))
        (fresh_name n m w (Above-weaken n i m a.0 a.1) e.1)

  -- The keys of the votes are written once each.
  pub names-distinct :
      (m : Assoc BlockVote)
      → IsSorted m
      → All (IsEntry is_share) m
      → distinct (names (vote_values fb m)) ≡ true
  unfolding vote_values
  names-distinct [] s e = refl
  names-distinct ((i, v) ∷ m) s e =
      rw (plain-to_string i, fresh_name i m e.0.0 s e.1)
        (names-distinct m (Above-IsSorted i m s) e.1)
