-- ===== src/Container/Assoc.antt =====
-- `concurrent_hash_map` with integer keys. The order of the list stands for the order in which
-- an iterator visits the table, which the library leaves open.
use dchain.Prelude.{
  ℕ, ◌+◌, ◌≡◌, refl, Option, none, some, List, [], ◌∷◌, arith, ◌==◌, if◌then◌else◌, length, All,
  subst, inl, inr, Bool-cases,
}
use mathlib.Core.Option
use mathlib.Core.Path.{subst₂}

abbrev pub Assoc {ℓ} : Type ℓ → Type ℓ
Assoc V = List (ℕ × V)

module _ {ℓ} {V : Type ℓ} where
  -- `m.find(accessor, k)`
  unfoldable pub find : Assoc V → ℕ → Option V
  find [] k = none
  find ((j, v) ∷ m) k = if j == k then some v else find m k

  -- `m.insert(std::make_pair(k, v))`: an entry that is there stays as it is.
  unfoldable pub insert : Assoc V → ℕ → V → Assoc V
  insert [] k v = (k, v) ∷ []
  insert ((j, w) ∷ m) k v = if j == k then (j, w) ∷ m else (j, w) ∷ insert m k v

  -- `m.insert(accessor, k); accessor->second = v`
  unfoldable pub assign : Assoc V → ℕ → V → Assoc V
  assign [] k v = (k, v) ∷ []
  assign ((j, w) ∷ m) k v = if j == k then (j, v) ∷ m else (j, w) ∷ assign m k v

  -- `m.erase(k)`
  unfoldable pub erase : Assoc V → ℕ → Assoc V
  erase [] k = []
  erase ((j, w) ∷ m) k = let rest = erase m k in if j == k then rest else (j, w) ∷ rest

  -- `accessor->second` changed in place
  unfoldable pub adjust : Assoc V → ℕ → (V → V) → Assoc V
  adjust [] k f = []
  adjust ((j, w) ∷ m) k f = if j == k then (j, f w) ∷ m else (j, w) ∷ adjust m k f

  -- every value changed in place, by a loop over the iterators
  unfoldable pub adjust_all : Assoc V → (V → V) → Assoc V
  adjust_all [] f = []
  adjust_all ((j, w) ∷ m) f = (j, f w) ∷ adjust_all m f

  unfoldable pub keys : Assoc V → List ℕ
  keys [] = []
  keys ((j, w) ∷ m) = j ∷ keys m

  abbrev pub or_old : Option V → V → V
  or_old none v = v
  or_old (some w) v = w

  pub find-insert :
      (m : Assoc V) (k : ℕ) (v : V) (j : ℕ)
      → find (insert m k v) j ≡ (if k == j then some (or_old (find m k) v) else find m j)
  unfolding find insert
  find-insert [] k v j = ground arith
  find-insert ((i, w) ∷ m) k v j = ground (arith, find-insert m k v j)

  pub find-assign :
      (m : Assoc V) (k : ℕ) (v : V) (j : ℕ)
      → find (assign m k v) j ≡ (if k == j then some v else find m j)
  unfolding find assign
  find-assign [] k v j = ground arith
  find-assign ((i, w) ∷ m) k v j = ground (arith, find-assign m k v j)

  pub find-erase :
      (m : Assoc V) (k j : ℕ) → find (erase m k) j ≡ (if k == j then none else find m j)
  unfolding find erase
  find-erase [] k j = ground arith
  find-erase ((i, w) ∷ m) k j = ground (arith, find-erase m k j)

  pub find-adjust :
      (m : Assoc V) (k : ℕ) (f : V → V) (j : ℕ)
      → find (adjust m k f) j ≡ (if k == j then Option.map f (find m j) else find m j)
  unfolding find adjust
  find-adjust [] k f j = ground arith
  find-adjust ((i, w) ∷ m) k f j = ground (arith, find-adjust m k f j)

  pub find-adjust_all :
      (m : Assoc V) (f : V → V) (j : ℕ) → find (adjust_all m f) j ≡ Option.map f (find m j)
  unfolding find adjust_all
  find-adjust_all [] f j = refl
  find-adjust_all ((i, w) ∷ m) f j = ground (arith, find-adjust_all m f j)

  pub keys-adjust : (m : Assoc V) (k : ℕ) (f : V → V) → keys (adjust m k f) ≡ keys m
  unfolding keys adjust
  keys-adjust [] k f = refl
  keys-adjust ((i, w) ∷ m) k f = ground (arith, keys-adjust m k f)

  pub length-insert :
      (m : Assoc V) (k : ℕ) (v : V)
      → length (insert m k v)
        ≡ (elim (find m k) as (λ _. ℕ) [ none ↦ length m + 1 | some _ ↦ length m ])
  unfolding find insert
  length-insert [] k v = refl
  length-insert ((i, w) ∷ m) k v = ground (arith, length-insert m k v)

module _ {ℓ κ} {V : Type ℓ} (P : ℕ × V → Type κ) where
  -- A property of all entries is one of what is found, and each change keeps it.
  pub All-find : (m : Assoc V) (k : ℕ) (v : V) → All P m → find m k ≡ some v → P (k, v)
  unfolding find
  All-find [] k v a e = cc
  All-find ((j, w) ∷ m) k v a e = elim (Bool-cases (j == k)) [
    | inl hit ↦ subst₂ (λ i u. P (i, u)) (ground arith) (ground arith) a.0
    | inr miss ↦ All-find m k v a.1 (ground arith)
  ]

  pub All-assign : (m : Assoc V) (k : ℕ) (v : V) → P (k, v) → All P m → All P (assign m k v)
  unfolding assign
  All-assign [] k v p a = (p, tt)
  All-assign ((j, w) ∷ m) k v p a = elim (Bool-cases (j == k)) [
    | inl hit ↦ rw hit (subst (λ i. P (i, v)) (ground arith) p, a.1)
    | inr miss ↦ rw miss (a.0, All-assign m k v p a.1)
  ]

  pub All-erase : (m : Assoc V) (k : ℕ) → All P m → All P (erase m k)
  unfolding erase
  All-erase [] k a = tt
  All-erase ((j, w) ∷ m) k a = elim (Bool-cases (j == k)) [
    | inl hit ↦ rw hit (All-erase m k a.1)
    | inr miss ↦ rw miss (a.0, All-erase m k a.1)
  ]

  pub All-adjust :
      (m : Assoc V) (k : ℕ) (f : V → V)
      → ((j : ℕ) (v : V) → P (j, v) → P (j, f v))
      → All P m
      → All P (adjust m k f)
  unfolding adjust
  All-adjust [] k f g a = tt
  All-adjust ((j, w) ∷ m) k f g a = elim (Bool-cases (j == k)) [
    | inl hit ↦ rw hit (g j w a.0, a.1)
    | inr miss ↦ rw miss (a.0, All-adjust m k f g a.1)
  ]

  pub All-adjust_all :
      (m : Assoc V) (f : V → V)
      → ((j : ℕ) (v : V) → P (j, v) → P (j, f v))
      → All P m
      → All P (adjust_all m f)
  unfolding adjust_all
  All-adjust_all [] f g a = tt
  All-adjust_all ((j, w) ∷ m) f g a = (g j w a.0, All-adjust_all m f g a.1)
