-- ===== src/Container/OrdMap.antt =====
-- `std::map` with integer keys: an association list in the order of its keys. Finding, erasing
-- and changing a value in place are those of `Assoc`.
use dchain.Prelude.{
  ℕ, ◌+◌, ◌<◌, ◌≡◌, none, some, [], ◌∷◌, arith, ◌==◌, ltb, if◌then◌else◌, length, Option-cases,
  Bool-cases, All, inl, inr, ◌≤◌, refl, ==→eq,
}
use mathlib.Core.Path.{sym, subst, subst₂}
use dchain.Container.Assoc.{Assoc, find, or_old}

le_antisym : (i j : ℕ) → i ≤ j → j ≤ i → i ≡ j
le_antisym i j h g = omega (arith, h, g)

module _ {ℓ} {V : Type ℓ} where
  unfoldable pub place : Assoc V → ℕ → V → Assoc V
  place [] k v = (k, v) ∷ []
  place ((j, w) ∷ m) k v = if ltb k j then (k, v) ∷ (j, w) ∷ m else (j, w) ∷ place m k v

  -- `m.insert(std::make_pair(k, v))`: nothing happens if the key is there.
  unfoldable pub insert : Assoc V → ℕ → V → Assoc V
  unfolding place
  insert m k v = elim (find m k) [ none ↦ place m k v | some _ ↦ m ]

  find-place :
      (m : Assoc V) (k : ℕ) (v : V) (j : ℕ)
      → find m k ≡ none
      → find (place m k v) j ≡ (if k == j then some v else find m j)
  unfolding find place
  find-place [] k v j h = ground arith
  find-place ((i, w) ∷ m) k v j h = ground (arith, find-place m k v j)

  length-place : (m : Assoc V) (k : ℕ) (v : V) → length (place m k v) ≡ length m + 1
  unfolding place
  length-place [] k v = omega arith
  length-place ((i, w) ∷ m) k v = ground (arith, length-place m k v)

  pub find-insert :
      (m : Assoc V) (k : ℕ) (v : V) (j : ℕ)
      → find (insert m k v) j ≡ (if k == j then some (or_old (find m k) v) else find m j)
  unfolding insert
  find-insert m k v j = ground (arith, find-place m k v j)

  pub length-insert :
      (m : Assoc V) (k : ℕ) (v : V)
      → length (insert m k v)
        ≡ (elim (find m k) as (λ _. ℕ) [ none ↦ length m + 1 | some _ ↦ length m ])
  unfolding insert
  length-insert m k v = ground (arith, length-place m k v)

  -- The keys rise along the list.
  abbrev pub Above : ℕ → Assoc V → Type 0
  Above n [] = Unit
  Above n ((j, v) ∷ m) = (n < j) × Above j m

  abbrev pub IsSorted : Assoc V → Type 0
  IsSorted [] = Unit
  IsSorted ((j, v) ∷ m) = Above j m

  Above-place :
      (n : ℕ) (m : Assoc V) (k : ℕ) (v : V)
      → n < k
      → find m k ≡ none
      → Above n m
      → Above n (place m k v)
  unfolding find place
  Above-place n [] k v h e a = (h, tt)
  Above-place n ((j, w) ∷ m) k v h e a = ground (arith, Above-place j m k v)

  pub insert-IsSorted : (m : Assoc V) (k : ℕ) (v : V) → IsSorted m → IsSorted (insert m k v)
  unfolding insert find place
  insert-IsSorted [] k v s = tt
  insert-IsSorted ((j, w) ∷ m) k v s = ground (arith, Above-place j m k v)

  pub Above-find : (n : ℕ) (m : Assoc V) (j : ℕ) (v : V) → Above n m → find m j ≡ some v → n < j
  unfolding find
  Above-find n [] j v a e = cc
  Above-find n ((i, w) ∷ m) j v a e = elim (Bool-cases (i == j)) [
    | inl hit ↦ ground arith
    | inr miss ↦ omega (arith, a.0, Above-find i m j v a.1 (ground arith))
  ]

  pub Above-IsSorted : (n : ℕ) (m : Assoc V) → Above n m → IsSorted m
  Above-IsSorted n [] a = tt
  Above-IsSorted n ((i, w) ∷ m) a = a.1

  pub Above-weaken : (n i : ℕ) (m : Assoc V) → n < i → Above i m → Above n m
  Above-weaken n i [] h a = tt
  Above-weaken n i ((j, w) ∷ m) h a = (omega (arith, h, a.0), a.1)

  -- Every entry of the one map is one of the other.
  abbrev pub Within : Assoc V → Assoc V → Type ℓ
  Within m m' = (j : ℕ) (v : V) → find m j ≡ some v → find m' j ≡ some v

  pub Within-insert :
      (m m' : Assoc V) (k : ℕ) (v : V) → Within m m' → find m' k ≡ some v → Within (insert m k v) m'
  Within-insert m m' k v h e j w g =
      let found = find-insert m k v j in
      elim (Bool-cases (k == j)) [
        | inl hit ↦ elim (Option-cases (find m k)) [
          | inl new ↦ ground (arith, found, e, g, new, hit)
          | inr (u, old) ↦ ground (arith, found, e, g, h k u old, old, hit)
        ]
        | inr miss ↦ h j w (ground (arith, found, g, miss))
      ]

  pub insert_keeps :
      (m : Assoc V) (k : ℕ) (v : V) (j : ℕ) (w : V)
      → find m j ≡ some w
      → find (insert m k v) j ≡ some w
  insert_keeps m k v j w e =
      let found = find-insert m k v j in
      elim (Bool-cases (k == j)) [
        | inl hit ↦
            ground (arith, found, e, hit, subst (λ i. find m i ≡ some w) (sym (==→eq k j hit)) e)
        | inr miss ↦ ground (arith, found, e, miss)
      ]

  pub insert_found :
      (m m' : Assoc V) (k : ℕ) (v : V)
      → Within m m'
      → find m' k ≡ some v
      → find (insert m k v) k ≡ some v
  insert_found m m' k v h e =
      let found = find-insert m k v k in
      elim (Option-cases (find m k)) [
        | inl new ↦ ground (arith, found, new)
        | inr (u, old) ↦ ground (arith, found, e, h k u old, old)
      ]

  Within-tail :
      (k : ℕ) (v : V) (m m' : Assoc V) → Above k m → Within ((k, v) ∷ m) ((k, v) ∷ m') → Within m m'
  unfolding find
  Within-tail k v m m' a h j w e =
      let below = Above-find k m j w a e in let g = h j w in ground (arith, below, g, e)

  pub find_head : (k : ℕ) (v : V) (m : Assoc V) → find ((k, v) ∷ m) k ≡ some v
  unfolding find
  find_head k v m = ground arith

  head_le : (i k : ℕ) (w v : V) (m : Assoc V) → Above i m → find ((i, w) ∷ m) k ≡ some v → i ≤ k
  unfolding find
  head_le i k w v m a e = elim (Bool-cases (i == k)) [
    | inl hit ↦ ground arith
    | inr miss ↦ omega (arith, Above-find i m k v a (ground arith))
  ]

  pub same_value :
      (i j : ℕ) (v w : V) (m' : Assoc V) → i ≡ j → find ((j, w) ∷ m') i ≡ some v → v ≡ w
  unfolding find
  same_value i j v w m' e h = ground (arith, e, h)

  -- A sorted map is determined by what is found in it.
  pub sorted_extensional :
      (m m' : Assoc V) → IsSorted m → IsSorted m' → Within m m' → Within m' m → m ≡ m'
  unfolding find
  sorted_extensional [] [] s s' h h' = refl
  sorted_extensional [] ((j, w) ∷ m') s s' h h' = (let g = h' j w (find_head j w m') in cc)
  sorted_extensional ((i, v) ∷ m) [] s s' h h' = (let g = h i v (find_head i v m) in cc)
  sorted_extensional ((i, v) ∷ m) ((j, w) ∷ m') s s' h h' =
      let at_j = h' j w (find_head j w m') in
      let at_i = h i v (find_head i v m) in
      let le = head_le i j v w m s at_j in
      let ge = head_le j i w v m' s' at_i in
      let e = le_antisym i j le ge in
      let f = same_value i j v w m' e at_i in
      let rest =
        sorted_extensional m m' (Above-IsSorted i m s) (Above-IsSorted j m' s')
          (Within-tail i v m m' s
            (subst₂ (λ a b. Within ((i, v) ∷ m) ((a, b) ∷ m')) (sym e) (sym f) h))
          (Within-tail j w m' m s' (subst₂ (λ a b. Within ((j, w) ∷ m') ((a, b) ∷ m)) e f h')) in
      cc

module _ {ℓ κ} {V : Type ℓ} (P : ℕ × V → Type κ) where
  All-place : (m : Assoc V) (k : ℕ) (v : V) → P (k, v) → All P m → All P (place m k v)
  unfolding place
  All-place [] k v p a = (p, tt)
  All-place ((j, w) ∷ m) k v p a = elim (Bool-cases (ltb k j)) [
    | inl before ↦ rw before (p, a)
    | inr after ↦ rw after (a.0, All-place m k v p a.1)
  ]

  pub All-insert : (m : Assoc V) (k : ℕ) (v : V) → P (k, v) → All P m → All P (insert m k v)
  unfolding insert
  All-insert m k v p a = elim (Option-cases (find m k)) [
    | inl e ↦ rw (e, insert) (All-place m k v p a)
    | inr (w, e) ↦ rw (e, insert) a
  ]
