-- ===== src/Container/OrdSet.antt =====
-- `std::set<uint64_t>` and `concurrent_set<uint64_t>`: a list in rising order.
use dchain.Prelude.{ℕ, ◌≡◌, Bool, false, ◌||◌, List, [], ◌∷◌, arith, ◌==◌, ltb, if◌then◌else◌}

unfoldable pub contains : List ℕ → ℕ → Bool
contains [] k = false
contains (j ∷ s) k = j == k || contains s k

place : List ℕ → ℕ → List ℕ
place [] k = k ∷ []
place (j ∷ s) k = if ltb k j then k ∷ j ∷ s else j ∷ place s k

unfoldable pub insert : List ℕ → ℕ → List ℕ
unfolding place
insert s k = if contains s k then s else place s k

contains-place : (s : List ℕ) (k j : ℕ) → contains (place s k) j ≡ (k == j || contains s j)
unfolding contains place
contains-place [] k j = ground arith
contains-place (i ∷ s) k j = ground (arith, contains-place s k j)

pub contains-insert : (s : List ℕ) (k j : ℕ) → contains (insert s k) j ≡ (k == j || contains s j)
unfolding insert
contains-insert s k j = ground (arith, contains-place s k j)
