-- ===== src/MemTree/Elements.antt =====
-- Which bytes of a list the operations of libs/cursors/nsrptcursor/rptree_mem.c are about, without
-- indices: elements of `b` bytes with `g` bytes between one and the next.
use numstore.Prelude.{
  min, ◌-◌, drop-drop, sym, ◌∙◌, ℕ, zero, suc, ◌+◌, ◌*◌, ◌≤◌, ◌<◌, List, [], ◌++◌, leb,
  if◌then◌else◌, length, take, drop, length-take, length-drop, length-append, drop_all, take_all,
  ltb, ◌%◌, ◌^◌, ◌≡◌, refl, arith, ap, Bool-cases, inl, inr, true, false,
}

-- The first `n` elements.
unfoldable pub pick : (n b g : ℕ) → List ℕ → List ℕ
pick zero b g xs = []
pick (suc n) b g xs =
    let rest = pick n b g (drop g (drop b xs)) in
    if leb b (length xs) then take b xs ++ rest else []

-- What is left without them.
unfoldable pub leave : (n b g : ℕ) → List ℕ → List ℕ
leave zero b g xs = xs
leave (suc n) b g xs =
    let rest = leave n b g (drop g (drop b xs)) in
    if leb b (length xs) then take g (drop b xs) ++ rest else xs

-- The list with `src` in their places, as far as it goes.
unfoldable pub put_in : (n b g : ℕ) → (src xs : List ℕ) → List ℕ
put_in zero b g src xs = xs
put_in (suc n) b g src xs =
    let rest = put_in n b g (drop b src) (drop g (drop b xs)) in
    if leb b (length xs) then take b src ++ (take g (drop b xs) ++ rest) else xs

-- How many of them there are.
unfoldable pub count : (n b g : ℕ) → List ℕ → ℕ
count zero b g xs = 0
count (suc n) b g xs =
    let rest = count n b g (drop g (drop b xs)) in if leb b (length xs) then suc rest else 0

module _ (b g : ℕ) (some_size : 0 < b) where
  pub pick-nil : (n : ℕ) → pick n b g [] ≡ []
  unfolding pick
  pick-nil zero = refl
  pick-nil (suc n) = ground arith

  pub leave-nil : (n : ℕ) → leave n b g [] ≡ []
  unfolding leave
  leave-nil zero = refl
  leave-nil (suc n) = ground arith

  pub put_in-nil : (n : ℕ) (src : List ℕ) → put_in n b g src [] ≡ []
  unfolding put_in
  put_in-nil zero src = refl
  put_in-nil (suc n) src = ground arith

  pub length-pick : (n : ℕ) (xs : List ℕ) → length (pick n b g xs) ≡ count n b g xs * b
  unfolding pick count
  length-pick zero xs = omega arith
  length-pick (suc n) xs = elim (Bool-cases (leb b (length xs))) [
    | inl one ↦ rw one (
        omega (
          arith,
          length-append (take b xs) (pick n b g (drop g (drop b xs))),
          length-take b xs,
          le_len one,
          length-pick n (drop g (drop b xs)),
          (suc_times (count n b g (drop g (drop b xs)))),
        ))
    | inr none_left ↦ rw none_left (omega arith)
  ]
    where
      le_len : leb b (length xs) ≡ true → b ≤ length xs
      le_len e = ground arith

      suc_times : (k : ℕ) → suc k * b ≡ b + k * b
      suc_times k = grind arith

-- A skip that stops at the end of the list.
pub drop-min :
    (xs : List ℕ) (i g : ℕ)
    → i ≤ length xs
    → drop (i + min g (length xs - i)) xs ≡ drop g (drop i xs)
drop-min xs i g h = elim (Bool-cases (leb g (length xs - i))) [
  | inl inside ↦ sym (drop-drop g i (i + min g (length xs - i)) xs (ground arith))
  | inr past ↦
      drop_all (i + min g (length xs - i)) xs (ground arith)
      ∙ sym (drop_all g (drop i xs) (ground (arith, length-drop i xs)))
]

-- `n` more elements are wanted, or none.
pub more_wanted : (m n b : ℕ) → 0 < b → m < m + suc n * b
more_wanted m n b h = grind arith

pub take-min :
    (xs : List ℕ) (i g : ℕ)
    → i ≤ length xs
    → take (min g (length xs - i)) (drop i xs) ≡ take g (drop i xs)
take-min xs i g h = elim (Bool-cases (leb g (length xs - i))) [
  | inl inside ↦ ap (λ k. take k (drop i xs)) (ground arith)
  | inr past ↦
      take_all (min g (length xs - i)) (drop i xs) (ground (arith, length-drop i xs))
      ∙ sym (take_all g (drop i xs) (ground (arith, length-drop i xs)))
]

-- One element of an operation, in numbers of bytes.
pub suc_times : (n b : ℕ) → suc n * b ≡ b + n * b
suc_times n b = grind arith

module _ (len i b : ℕ) (inside : i < len) (in_range : len + b < 2 ^ 64) where
  -- The test for a whole element.
  pub cut_short : ltb len ((i + b) % 2 ^ 64) ≡ true → leb b (len - i) ≡ false
  cut_short c = ground arith

  pub whole_left : ltb len ((i + b) % 2 ^ 64) ≡ false → b ≤ len - i
  whole_left c = ground arith
