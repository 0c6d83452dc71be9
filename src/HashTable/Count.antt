-- ===== src/HashTable/Count.antt =====
-- How many nodes of a table have a property: the measure by which the operations of libs/nscore/hash_table.c
-- are described. Nodes with equal hash codes stand in one bucket.
use numstore.Prelude.{
  none_is_not_some, ℕ, zero, suc, ◌+◌, ◌%◌, ◌≤◌, ◌<◌, Bool, true, false, List, [], ◌∷◌, none, some,
  length, replicate, get_elem?, set, All, ◌≡◌, refl, sym, arith, ap, ◌∙◌, Bool-cases, inl, inr,
  some_inj, subst, ◌≢◌,
}
use numstore.HashTable.{Node, bucket, find_from, remove_at}

abbrev pub one_if : Bool → ℕ
one_if true = 1
one_if false = 0

module _ {ℓ} {A : Type ℓ} (p : Node A → Bool) where
  abbrev pub count : List (Node A) → ℕ
  count [] = 0
  count (x ∷ xs) = one_if (p x) + count xs

  abbrev pub count_all : List (List (Node A)) → ℕ
  count_all [] = 0
  count_all (b ∷ bs) = count b + count_all bs

  pub count_all-set :
      (bs : List (List (Node A))) (i : ℕ) (b : List (Node A))
      → i < length bs
      → count_all (set bs i b) + count (bucket bs i) ≡ count_all bs + count b
  unfolding bucket
  count_all-set [] i b h = absurd (omega arith)
  count_all-set (c ∷ bs) zero b h = omega arith
  count_all-set (c ∷ bs) (suc i) b h = omega (arith, count_all-set bs i b (omega arith))

  pub count-bucket-le : (bs : List (List (Node A))) (i : ℕ) → count (bucket bs i) ≤ count_all bs
  unfolding bucket
  count-bucket-le [] i = omega arith
  count-bucket-le (c ∷ bs) zero = omega arith
  count-bucket-le (c ∷ bs) (suc i) = omega (arith, count-bucket-le bs i)

  pub count-remove_at :
      (xs : List (Node A)) (i : ℕ) (x : Node A)
      → get_elem? xs i ≡ some x
      → count (remove_at xs i) + one_if (p x) ≡ count xs
  unfolding remove_at
  count-remove_at [] i x e = cc
  count-remove_at (y ∷ xs) zero x e = omega (arith, ap (λ z. one_if (p z)) (some_inj e))
  count-remove_at (y ∷ xs) (suc i) x e = omega (arith, count-remove_at xs i x e)

  pub count_all-replicate : (n : ℕ) → count_all (replicate n []) ≡ 0
  count_all-replicate zero = refl
  count_all-replicate (suc n) = omega (arith, count_all-replicate n)

  -- A search of a chain finds a node with the property, or there is none.
  pub find_from-some :
      (xs : List (Node A)) (i j : ℕ)
      → find_from p i xs ≡ some j
      → (k : ℕ) × (x : Node A) × (j ≡ i + k) × (get_elem? xs k ≡ some x) × (p x ≡ true)
  unfolding find_from
  find_from-some [] i j e = elim (none_is_not_some e) [ ]
  find_from-some (y ∷ xs) i j e = elim (Bool-cases (p y)) [
    | inl yes_y ↦ let here : i ≡ j = some_inj (rw yes_y at e) in (0, y, omega arith, refl, yes_y)
    | inr no_y ↦
        let (k, x, off, at, px) = find_from-some xs (i + 1) j (rw no_y at e) in
        (suc k, x, omega arith, at, px)
  ]

  pub find_from-none : (xs : List (Node A)) (i : ℕ) → find_from p i xs ≡ none → count xs ≡ 0
  unfolding find_from
  find_from-none [] i e = refl
  find_from-none (y ∷ xs) i e = elim (Bool-cases (p y)) [
    | inl yes_y ↦ elim (none_is_not_some (sym (rw yes_y at e))) [ ]
    | inr no_y ↦ rw no_y (omega (arith, find_from-none xs (i + 1) (rw no_y at e)))
  ]

-- The nodes of the buckets from the `i`th on stand in the buckets of their hash codes.
abbrev pub Placed {ℓ} : {A : Type ℓ} → (cap i : ℕ) → List (List (Node A)) → Type 0
Placed cap i [] = Unit
Placed cap i (b ∷ bs) = All (λ x. x.hcode % cap ≡ i) b × Placed cap (suc i) bs

pub Placed-replicate {ℓ} : (A : Type ℓ) (cap n i : ℕ) → Placed {A = A} cap i (replicate n [])
Placed-replicate A cap zero i = tt
Placed-replicate A cap (suc n) i = (tt, Placed-replicate A cap n (suc i))

module _ {ℓ} {A : Type ℓ} (cap : ℕ) where
  pub Placed-set :
      (bs : List (List (Node A))) (i k : ℕ) (b : List (Node A))
      → Placed cap i bs
      → All (λ x. x.hcode % cap ≡ i + k) b
      → Placed cap i (set bs k b)
  Placed-set [] i k b h hb = tt
  Placed-set (c ∷ bs) i zero b (hc, h) hb =
      (subst (λ n. All (λ x. x.hcode % cap ≡ n) b) (let e : i + 0 ≡ i = omega arith in e) hb, h)
  Placed-set (c ∷ bs) i (suc k) b (hc, h) hb = (
    hc,
    Placed-set bs (suc i) k b h (
        subst (λ n. All (λ x. x.hcode % cap ≡ n) b)
          (let e : i + suc k ≡ suc i + k = omega arith in e) hb),
  )

  pub Placed-bucket :
      (bs : List (List (Node A))) (i k : ℕ)
      → Placed cap i bs
      → All (λ x. x.hcode % cap ≡ i + k) (bucket bs k)
  unfolding bucket
  Placed-bucket [] i k h = tt
  Placed-bucket (c ∷ bs) i zero (hc, h) =
      subst (λ n. All (λ x. x.hcode % cap ≡ n) c) (let e : i ≡ i + 0 = omega arith in e) hc
  Placed-bucket (c ∷ bs) i (suc k) (hc, h) =
      subst (λ n. All (λ x. x.hcode % cap ≡ n) (bucket bs k))
        (let e : suc i + k ≡ i + suc k = omega arith in e) (Placed-bucket bs (suc i) k h)

  -- Where all that have the property have one place, a bucket of another place has none.
  module _ (p : Node A → Bool) (pos : ℕ)
      (home : (x : Node A) → p x ≡ true → x.hcode % cap ≡ pos) where
    count-elsewhere :
        (b : List (Node A)) (i : ℕ) → All (λ x. x.hcode % cap ≡ i) b → i ≢ pos → count p b ≡ 0
    count-elsewhere [] i h ne = refl
    count-elsewhere (x ∷ b) i (hx, h) ne = elim (Bool-cases (p x)) [
      | inl px ↦ absurd (ne (sym hx ∙ home x px))
      | inr px ↦ rw px (omega (arith, count-elsewhere b i h ne))
    ]

    count_all-behind :
        (bs : List (List (Node A))) (i : ℕ) → Placed cap i bs → pos < i → count_all p bs ≡ 0
    count_all-behind [] i h lt = refl
    count_all-behind (b ∷ bs) i (hb, h) lt = omega (
      arith,
      count-elsewhere b i hb (λ e. omega arith),
      count_all-behind bs (suc i) h (omega arith),
    )

    pub count_all-bucket :
        (bs : List (List (Node A))) (i k : ℕ)
        → Placed cap i bs
        → i + k ≡ pos
        → count_all p bs ≡ count p (bucket bs k)
    unfolding bucket
    count_all-bucket [] i k h e = refl
    count_all-bucket (b ∷ bs) i zero (hb, h) e =
        omega (arith, count_all-behind bs (suc i) h (omega arith))
    count_all-bucket (b ∷ bs) i (suc k) (hb, h) e = omega (
      arith,
      count-elsewhere b i hb (λ f. omega arith),
      count_all-bucket bs (suc i) k h (omega arith),
    )
