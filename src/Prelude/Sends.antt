-- ===== src/Prelude/Sends.antt =====
-- The requests that were sent, with their targets.
use Prim.Native.Nat.{ℕ}
use mathlib.Core.Path.{◌≡◌, refl}
use mathlib.Core.Logic.{inl, inr}
use mathlib.Core.List.{List, [], ◌∷◌, ◌++◌}
use dchain.Prelude.Tests.{◌==◌, if◌then◌else◌, Bool-cases}

-- The requests that went to a target, oldest first.
abbrev pub sent_to {ℓ} : {Bytes : Type ℓ} → ℕ → List (ℕ × Bytes) → List Bytes
sent_to k [] = []
sent_to k ((j, bytes) ∷ sent) = let rest = sent_to k sent in if j == k then bytes ∷ rest else rest

pub sent_to-++ {ℓ} :
    {Bytes : Type ℓ} (k : ℕ) (xs ys : List (ℕ × Bytes))
    → sent_to k (xs ++ ys) ≡ sent_to k xs ++ sent_to k ys
sent_to-++ k [] ys = refl
sent_to-++ k ((j, b) ∷ xs) ys = elim (Bool-cases (j == k)) [
  | inl same ↦ rw (same, sent_to-++ k xs ys) refl
  | inr other ↦ rw (other, sent_to-++ k xs ys) refl
]
