-- ===== src/Container/Heap.antt =====
-- The store of the objects behind `std::shared_ptr`s that several containers share and that
-- handlers change in place. A pointer is a number; an object lives as long as the store.
use dchain.Prelude.{
  ℕ, zero, suc, ◌+◌, ◌<◌, ◌≡◌, refl, Option, some, List, [], ◌∷◌, ◌++◌, arith, ◌==◌, if◌then◌else◌,
  length, get_elem?, set, length-append,
}

-- A pointer into the store.
abbrev pub Ptr : Type 0
Ptr = ℕ

module _ {ℓ} {A : Type ℓ} where
  -- `*p`; `none` stands for a pointer to nothing.
  abbrev pub deref : List A → Ptr → Option A
  deref = get_elem?

  -- `std::make_shared`: the new pointer is `length h`.
  abbrev pub alloc : List A → A → List A
  alloc h a = h ++ a ∷ []

  -- `*p = a`
  abbrev pub write : List A → Ptr → A → List A
  write = set

  pub deref-write :
      (h : List A) (p : Ptr) (a : A) (q : Ptr)
      → p < length h
      → deref (write h p a) q ≡ (if p == q then some a else deref h q)
  unfolding get_elem? set
  deref-write [] p a q l = absurd (omega arith)
  deref-write (x ∷ h) zero a zero l = refl
  deref-write (x ∷ h) zero a (suc q) l = ground arith
  deref-write (x ∷ h) (suc p) a zero l = ground arith
  deref-write (x ∷ h) (suc p) a (suc q) l = ground (arith, deref-write h p a q)

  pub deref-alloc :
      (h : List A) (a : A) (q : Ptr)
      → deref (alloc h a) q ≡ (if length h == q then some a else deref h q)
  unfolding get_elem?
  deref-alloc [] a zero = refl
  deref-alloc [] a (suc q) = ground arith
  deref-alloc (x ∷ h) a zero = ground arith
  deref-alloc (x ∷ h) a (suc q) = ground (arith, deref-alloc h a q)

  pub deref-lt-length : (h : List A) (p : Ptr) (a : A) → deref h p ≡ some a → p < length h
  unfolding get_elem?
  deref-lt-length [] p a e = ground arith
  deref-lt-length (x ∷ h) zero a e = omega arith
  deref-lt-length (x ∷ h) (suc p) a e = omega (arith, deref-lt-length h p a e)

  pub length-alloc : (h : List A) (a : A) → length (alloc h a) ≡ length h + 1
  length-alloc h a = omega (arith, length-append h (a ∷ []))
