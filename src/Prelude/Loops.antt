-- ===== src/Prelude/Loops.antt =====
-- The `for` loops of the handlers: a body that may return, throw or fault, over a list.
use mathlib.Core.Path.{◌≡◌, refl}
use mathlib.Core.List.{List, [], ◌∷◌}
use dchain.Prelude.Tests.{Outcome, returned, thrown, faulted}
use dchain.Prelude.Lists.{All}

-- What was done before a throw or a fault stays done, and what follows is skipped.
abbrev pub and_then {ℓ} : {S : Type ℓ} → S × Outcome → (S → S × Outcome) → S × Outcome
and_then (s, returned) rest = rest s
and_then (s, thrown) rest = (s, thrown)
and_then (s, faulted) rest = (s, faulted)

module _ {ℓ κ} {S : Type ℓ} {A : Type κ} (body : S → A → S × Outcome) where
  unfoldable pub for_each : S → List A → S × Outcome
  for_each s [] = (s, returned)
  for_each s (x ∷ xs) = and_then (body s x) (λ s'. for_each s' xs)

pub and_then_eq {ℓ} :
    {S : Type ℓ} (r : S × Outcome) (rest : S → S × Outcome)
    → r.1 ≡ returned
    → and_then r rest ≡ rest r.0
and_then_eq (s, returned) rest e = refl
and_then_eq (s, thrown) rest e = cc
and_then_eq (s, faulted) rest e = cc

module _ {ℓ μ ν} {S : Type ℓ} (P : S → Type μ) (Q : Outcome → Type ν) where
  pub and_then_correct :
      (r : S × Outcome) (rest : S → S × Outcome)
      → P r.0
      → Q r.1
      → ((s : S) → P s → P (rest s).0 × Q (rest s).1)
      → P (and_then r rest).0 × Q (and_then r rest).1
  and_then_correct (s, returned) rest p q f = f s p
  and_then_correct (s, thrown) rest p q f = (p, q)
  and_then_correct (s, faulted) rest p q f = (p, q)

  -- The same where the first part leaves more than the whole promises.
  pub and_then_from {ρ} :
      (R : S → Type ρ) (r : S × Outcome) (rest : S → S × Outcome)
      → ((s : S) → R s → P s)
      → R r.0
      → Q r.1
      → ((s : S) → R s → P (rest s).0 × Q (rest s).1)
      → P (and_then r rest).0 × Q (and_then r rest).1
  and_then_from R (s, returned) rest w p q f = f s p
  and_then_from R (s, thrown) rest w p q f = (w s p, q)
  and_then_from R (s, faulted) rest w p q f = (w s p, q)

  -- What every turn keeps holds after the loop, however the loop ends; and it ends as its turns do.
  pub for_each_correct {κ} :
      {A : Type κ} (body : S → A → S × Outcome)
      → Q returned
      → ((s : S) (x : A) → P s → P (body s x).0 × Q (body s x).1)
      → (s : S) (xs : List A) → P s
      → P (for_each body s xs).0 × Q (for_each body s xs).1
  unfolding for_each
  for_each_correct body q keep s [] h = (h, q)
  for_each_correct body q keep s (x ∷ xs) h =
      and_then_correct (body s x) _ (keep s x h).0 (keep s x h).1
        (λ s' p. for_each_correct body q keep s' xs p)

  -- The same where the turns rely on a property of the elements.
  pub for_each_correct_all {κ ρ} :
      {A : Type κ} (R : A → Type ρ) (body : S → A → S × Outcome)
      → Q returned
      → ((s : S) (x : A) → R x → P s → P (body s x).0 × Q (body s x).1)
      → (s : S) (xs : List A) → All R xs
      → P s
      → P (for_each body s xs).0 × Q (for_each body s xs).1
  unfolding for_each
  for_each_correct_all R body q keep s [] a h = (h, q)
  for_each_correct_all R body q keep s (x ∷ xs) a h =
      and_then_correct (body s x) _ (keep s x a.0 h).0 (keep s x a.0 h).1
        (λ s' p. for_each_correct_all R body q keep s' xs a.1 p)

-- What holds however a part ends, and what holds if it returns.
abbrev pub Leaves {ℓ μ ν} : {S : Type ℓ} → (S → Type μ) → (S → Type ν) → S × Outcome → Type (μ ⊔ ν)
Leaves P R r = P r.0 × (r.1 ≡ returned → R r.0)

module _ {ℓ μ ν ρ} {S : Type ℓ} (P : S → Type μ) (R : S → Type ν) (R' : S → Type ρ) where
  -- Two parts, the second from what the first leaves if it returns.
  pub and_then-Leaves :
      (r : S × Outcome) (rest : S → S × Outcome)
      → Leaves P R r
      → ((s : S) → R s → Leaves P R' (rest s))
      → Leaves P R' (and_then r rest)
  and_then-Leaves (s, returned) rest (p, q) f = f s (q refl)
  and_then-Leaves (s, thrown) rest (p, q) f = (p, λ e. cc)
  and_then-Leaves (s, faulted) rest (p, q) f = (p, λ e. cc)

module _ {ℓ μ ν κ} {S : Type ℓ} {A : Type κ} (P : S → Type μ) (R : S → Type ν) where
  -- A loop whose turns start from what the turn before leaves.
  pub for_each-Leaves :
      (body : S → A → S × Outcome)
      → ((s : S) → R s → P s)
      → ((s : S) (x : A) → R s → Leaves P R (body s x))
      → (s : S) (xs : List A) → R s
      → Leaves P R (for_each body s xs)
  unfolding for_each
  for_each-Leaves body w keep s [] h = (w s h, λ e. h)
  for_each-Leaves body w keep s (x ∷ xs) h =
      and_then-Leaves P R R (body s x) _ (keep s x h)
        (λ s' h'. for_each-Leaves body w keep s' xs h')
