-- ===== src/SpxLatch/Totals.antt =====
-- Numbers of threads: a measure of each element of a list, added up.
use numstore.Prelude.{
  ℕ, zero, suc, ◌+◌, ◌≤◌, ◌≢◌, List, [], ◌∷◌, some, length, get_elem?, set, ◌≡◌, refl, arith, ap,
  some_inj,
}

module _ {ℓ} {A : Type ℓ} (f : A → ℕ) where
  abbrev pub total : List A → ℕ
  total [] = 0
  total (x ∷ xs) = f x + total xs

  -- An element that is replaced.
  pub total-set :
      (xs : List A) (i : ℕ) (x y : A)
      → get_elem? xs i ≡ some x
      → total (set xs i y) + f x ≡ total xs + f y
  total-set [] i x y h = cc
  total-set (z ∷ xs) zero x y h = omega (arith, ap f (some_inj h))
  total-set (z ∷ xs) (suc i) x y h = omega (arith, total-set xs i x y h)

  pub le-total : (xs : List A) (i : ℕ) (x : A) → get_elem? xs i ≡ some x → f x ≤ total xs
  le-total [] i x h = cc
  le-total (z ∷ xs) zero x h = omega (arith, ap f (some_inj h))
  le-total (z ∷ xs) (suc i) x h = omega (arith, le-total xs i x h)

  -- Two elements.
  pub add-le-total :
      (xs : List A) (i j : ℕ) (x y : A)
      → i ≢ j
      → get_elem? xs i ≡ some x
      → get_elem? xs j ≡ some y
      → f x + f y ≤ total xs
  add-le-total [] i j x y ne h k = cc
  add-le-total (z ∷ xs) zero zero x y ne h k = absurd (ne refl)
  add-le-total (z ∷ xs) zero (suc j) x y ne h k =
      omega (arith, ap f (some_inj h), le-total xs j y k)
  add-le-total (z ∷ xs) (suc i) zero x y ne h k =
      omega (arith, ap f (some_inj k), le-total xs i x h)
  add-le-total (z ∷ xs) (suc i) (suc j) x y ne h k =
      omega (arith, add-le-total xs i j x y (λ e. ne (ap suc e)) h k)

  pub total-le : (xs : List A) → ((x : A) → f x ≤ 1) → total xs ≤ length xs
  total-le [] h = omega arith
  total-le (x ∷ xs) h = omega (arith, h x, total-le xs h)
