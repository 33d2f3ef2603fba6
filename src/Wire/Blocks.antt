-- ===== src/Wire/Blocks.antt =====
-- Reading the votes of a block that the adapter wrote: all of them, if the voters' ids are of 31
-- bits, and otherwise an exception.
use Prim.Native.String.{String}
use mathlib.Core.List.{Memᴰ}
use mathlib.Core.List.Memᴰ.{head, tail, cases_cons}
use dchain.Prelude.{
  ℕ, ◌≡◌, refl, Bool, true, false, some, List, [], ◌∷◌, ◌∙◌, ap, sym, leb, ◌^◌, ◌-◌, All,
  Bool-cases, inl, inr, ◌⊎◌, arith, if◌then◌else◌, subst,
}
use dchain.Container.Assoc.{Assoc, find, All-find}
use dchain.Container.OrdMap
use dchain.Container.OrdMap.{
  IsSorted, Above, Above-find, Above-weaken, same_value, find_head, Above-IsSorted, Within,
  Within-insert, sorted_extensional, insert-IsSorted, insert_keeps, insert_found,
}
use dchain.Entity.Bls.{SigShare}
use dchain.Entity.Block.{BlockVote}
use dchain.Wire.Codec.{decoded, invalid}
use dchain.Wire.Flex.{FlexBuffers, FlexLaws}
use dchain.Wire.Numeral.{to_string, to_string_injective, stoi-to_string}
use dchain.Wire.Adapter.{vote_values, read_votes, vote_to_bytes}
use dchain.Wire.Records.{vote_from_bytes-vote_to_bytes}
use dchain.Wire.Entries.{IsEntry, Entry, names-distinct, entry_written}

clash : (i j : ℕ) → leb i (2 ^ 31 - 1) ≡ true → leb j (2 ^ 31 - 1) ≡ false → j ≡ i → ⊥
clash i j small big e = ground (arith, small, big, e)

module _ {Bytes Value : Type 0} (fb : FlexBuffers Bytes Value) (laws : FlexLaws fb)
    (is_share : SigShare → Bool) (m : Assoc BlockVote) (s : IsSorted m)
    (e : All (IsEntry is_share) m) where
  -- The turn for the key of a voter, whose id must be an `int`.
  read_votes_turn :
      (k : String) (ks : List String) (votes : Assoc BlockVote)
      → (entry : Entry m k)
      → read_votes fb is_share (fb.map (vote_values fb m)) (k ∷ ks) votes ≡ (
          if leb entry.0 (2 ^ 31 - 1)
          then read_votes fb is_share
              (fb.map (vote_values fb m))
              ks
              (OrdMap.insert votes entry.0 entry.1)
          else invalid)
  unfolding read_votes
  read_votes_turn k ks votes (j, v, g, f) =
      let w = All-find (IsEntry is_share) m j v e f in
      rw
        (
          g,
          laws.at_lem (vote_values fb m) (to_string j) (fb.blob (vote_to_bytes fb v))
              (names-distinct fb is_share m s e) (entry_written fb m j v f),
          laws.blob_lem,
          vote_from_bytes-vote_to_bytes fb laws is_share v w.1,
          stoi-to_string j w.0,
        )
        (elim (Bool-cases (leb j (2 ^ 31 - 1))) [ inl le ↦ rw le refl | inr gt ↦ rw gt refl ])

  -- Every voter's id is an `int`.
  abbrev pub Small : Type 0
  Small = (j : ℕ) (v : BlockVote) → find m j ≡ some v → leb j (2 ^ 31 - 1) ≡ true

  name_injective :
      (i j : ℕ) (u v : BlockVote)
      → find m i ≡ some u
      → find m j ≡ some v
      → to_string i ≡ to_string j
      → i ≡ j
  name_injective i j u v g f same =
      to_string_injective i j (All-find (IsEntry is_share) m i u e g).0
        (All-find (IsEntry is_share) m j v e f).0 same

  -- What the keys that are left, and the votes that were read, hold of the votes.
  abbrev Left : List String → Assoc BlockVote → Type 0
  Left ks votes =
      (j : ℕ) (v : BlockVote) → find m j ≡ some v → (find votes j ≡ some v) ⊎ Memᴰ (to_string j) ks

  Left-next :
      (j : ℕ) (v : BlockVote) (ks : List String) (votes : Assoc BlockVote)
      → find m j ≡ some v
      → Within votes m
      → Left (to_string j ∷ ks) votes
      → Left ks (OrdMap.insert votes j v)
  Left-next j v ks votes f h l i u g = elim (l i u g) [
    | inl done ↦ inl (insert_keeps votes j v i u done)
    | inr (head same) ↦
        let q = name_injective i j u v g f same in
        let at_j = subst (λ k. find m k ≡ some u) q g in
        inl (
          subst (λ k. find (OrdMap.insert votes j v) k ≡ some u) (sym q)
            (insert_found votes m j v h f ∙ (sym f ∙ at_j)))
    | inr (tail later) ↦ inr later
  ]

  pub read_votes_small :
      (ks : List String) (votes : Assoc BlockVote)
      → Small
      → IsSorted votes
      → Within votes m
      → ((k : String) → Memᴰ k ks → Entry m k)
      → Left ks votes
      → read_votes fb is_share (fb.map (vote_values fb m)) ks votes ≡ decoded m
  unfolding read_votes
  read_votes_small [] votes small sorted within entries left = ap decoded (
      sorted_extensional votes m sorted s within
        (λ j v f. elim (left j v f) [ inl g ↦ g | inr none_left ↦ elim none_left [ ] ]))
  read_votes_small (k ∷ ks) votes small sorted within entries left =
      let entry = entries k (head refl) in
      let (j, v, g, f) = entry in
      read_votes_turn k ks votes entry
      ∙ rw (small j v f) (
          read_votes_small ks (OrdMap.insert votes j v) small (insert-IsSorted votes j v sorted)
            (Within-insert votes m j v within f) (λ k' q. entries k' (tail q))
            (Left-next j v ks votes f within (subst (λ k. Left (k ∷ ks) votes) g left)))

  pub read_votes_big :
      (ks : List String) (votes : Assoc BlockVote) (j : ℕ) (v : BlockVote)
      → find m j ≡ some v
      → leb j (2 ^ 31 - 1) ≡ false
      → ((k : String) → Memᴰ k ks → Entry m k)
      → Memᴰ (to_string j) ks
      → read_votes fb is_share (fb.map (vote_values fb m)) ks votes ≡ invalid
  unfolding read_votes
  read_votes_big [] votes j v f big entries q = elim q [ ]
  read_votes_big (k ∷ ks) votes j v f big entries q =
      let entry = entries k (head refl) in
      let (i, u, g, h) = entry in
      read_votes_turn k ks votes entry ∙ elim (Bool-cases (leb i (2 ^ 31 - 1))) [
        | inl small ↦ rw small (
            read_votes_big ks (OrdMap.insert votes i u) j v f big (λ k' r. entries k' (tail r))
              (elim (cases_cons q) [
                | inl same ↦ absurd (clash i j small big (name_injective j i v u f h (same ∙ g)))
                | inr later ↦ later
              ]))
        | inr throws ↦ rw throws refl
      ]
