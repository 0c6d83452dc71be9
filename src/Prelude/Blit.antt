-- ===== src/Prelude/Blit.antt =====
-- memcpy and memmove on a list that stands for an array of bytes or cells.
use Prim.Native.Nat.{ℕ, ◌+◌, ◌-◌, ◌≤◌}
use mathlib.Core.Path.{◌≡◌, ap, ap₂, sym, ◌∙◌}
use mathlib.Core.List.{List, ◌++◌, append_assoc}
use native.Mathlib.Omega.{arith}
use numstore.Prelude.Lists.{
  length, take, drop, length-append, length-take, length-drop, take-append_le, take-append_add,
  take-take, drop-append_add, drop-drop, take_all,
}

module _ {ℓ} {A : Type ℓ} where
  -- The `n` cells from index `o` on.
  abbrev pub slice : ℕ → ℕ → List A → List A
  slice o n xs = take n (drop o xs)

  -- memcpy (dst + o, src, length src)
  unfoldable pub blit : List A → ℕ → List A → List A
  blit dst o src = take o dst ++ (src ++ drop (o + length src) dst)

  pub length-blit :
      (dst : List A) (o : ℕ) (src : List A)
      → o + length src ≤ length dst
      → length (blit dst o src) ≡ length dst
  unfolding blit
  length-blit dst o src h = omega (
    arith,
    length-append (take o dst) (src ++ drop (o + length src) dst),
    length-append src (drop (o + length src) dst),
    length-take o dst,
    length-drop (o + length src) dst,
  )

  -- What stands before the copy is kept.
  pub take-blit :
      (dst : List A) (o n : ℕ) (src : List A)
      → n ≤ o
      → o ≤ length dst
      → take n (blit dst o src) ≡ take n dst
  unfolding blit
  take-blit dst o n src h k =
      take-append_le n (take o dst) (src ++ drop (o + length src) dst)
        (omega (arith, length-take o dst))
      ∙ take-take n o dst h

  -- Up to the end of the copy: the old cells, then the copied ones.
  pub take-blit_end :
      (dst : List A) (o n : ℕ) (src : List A)
      → n ≡ o + length src
      → o ≤ length dst
      → take n (blit dst o src) ≡ take o dst ++ src
  unfolding blit
  take-blit_end dst o n src h k =
      take-append_add n (length src) (take o dst) (src ++ drop (o + length src) dst)
        (omega (arith, length-take o dst))
      ∙ ap (λ t. take o dst ++ t)
          (take-append_le (length src) src (drop (o + length src) dst) (omega arith)
            ∙ take_all (length src) src (omega arith))

  -- What stands behind the copy is kept.
  pub drop-blit :
      (dst : List A) (o n : ℕ) (src : List A)
      → o + length src ≤ n
      → o ≤ length dst
      → drop n (blit dst o src) ≡ drop n dst
  unfolding blit
  drop-blit dst o n src h k =
      drop-append_add n (n - o) (take o dst) (src ++ drop (o + length src) dst)
        (omega (arith, length-take o dst))
      ∙ drop-append_add (n - o) (n - o - length src) src (drop (o + length src) dst) (omega arith)
      ∙ drop-drop (n - o - length src) (o + length src) n dst (omega arith)

  -- From the start of the copy on: the copied cells, then the old ones.
  pub drop-blit_start :
      (dst : List A) (o : ℕ) (src : List A)
      → o ≤ length dst
      → drop o (blit dst o src) ≡ src ++ drop (o + length src) dst
  unfolding blit
  drop-blit_start dst o src k =
      drop-append_add o 0 (take o dst) (src ++ drop (o + length src) dst)
        (omega (arith, length-take o dst))

  -- Two copies side by side are one.
  pub blit-blit :
      (dst : List A) (o n : ℕ) (xs ys : List A)
      → n ≡ o + length xs
      → n + length ys ≤ length dst
      → blit (blit dst o xs) n ys ≡ blit dst o (xs ++ ys)
  unfolding blit
  blit-blit dst o n xs ys e h =
      let k : n + length ys ≡ o + length (xs ++ ys) = omega (arith, length-append xs ys) in
      ap₂ (λ x y. x ++ (ys ++ y)) (take-blit_end dst o n xs e (omega arith))
        (drop-blit dst o (n + length ys) xs (omega arith) (omega arith))
      ∙ append_assoc (take o dst) xs (ys ++ drop (n + length ys) dst)
      ∙ ap (λ x. take o dst ++ x) (sym (append_assoc xs ys (drop (n + length ys) dst)))
      ∙ ap (λ m. take o dst ++ ((xs ++ ys) ++ drop m dst)) k
