-- ===== src/Cbuffer/Ring.antt =====
-- The array of libs/nscore/cbuffer.c seen from an index: what stands from there on, then what stands
-- before it.
use numstore.Prelude.{
  ℕ, ◌+◌, ◌-◌, ◌≤◌, List, ◌++◌, ◌≡◌, sym, ap, ap₂, ◌∙◌, arith, length, take, drop, blit,
  length-append, length-take, length-drop, take-append_le, take-append_add, drop-append_le,
  drop-append_add, take-blit, drop-blit, drop-take, drop-drop, take-take, append_assoc, take-add,
  take-append-drop,
}

module _ {ℓ} {A : Type ℓ} where
  abbrev pub rot : ℕ → List A → List A
  rot t d = drop t d ++ take t d

  pub length-rot : (t : ℕ) (d : List A) → length (rot t d) ≡ length d
  length-rot t d =
      omega (arith, length-append (drop t d) (take t d), length-drop t d, length-take t d)

  -- A step of the index without a wrap.
  pub rot_step :
      (t n u : ℕ) (d : List A)
      → u ≡ t + n
      → u ≤ length d
      → rot u d ≡ drop n (rot t d) ++ take n (rot t d)
  rot_step t n u d e h =
      ap₂ (λ x y. x ++ y) (sym (drop-drop n t u d e)) (take-add t n u d e)
      ∙ sym (append_assoc (drop n (drop t d)) (take t d) (take n (drop t d)))
      ∙ ap₂ (λ x y. x ++ y)
          (sym (drop-append_le n (drop t d) (take t d) (omega (arith, length-drop t d))))
          (sym (take-append_le n (drop t d) (take t d) (omega (arith, length-drop t d))))

  -- A step of the index past the end of the array.
  pub rot_wrap :
      (t n u : ℕ) (d : List A)
      → u + length d ≡ t + n
      → t ≤ length d
      → n ≤ length d
      → rot u d ≡ drop n (rot t d) ++ take n (rot t d)
  rot_wrap t n u d e h k =
      let l = length-drop t d in
      let a : drop n (rot t d) ≡ drop u (take t d) =
        drop-append_add n u (drop t d) (take t d) (omega arith) in
      let b : take n (rot t d) ≡ drop t d ++ take u d =
        take-append_add n u (drop t d) (take t d) (omega arith)
        ∙ ap (λ x. drop t d ++ x) (take-take u t d (omega arith)) in
      let c : drop u d ≡ drop u (take t d) ++ drop t d =
        ap (drop u) (sym (take-append-drop t d))
        ∙ drop-append_le u (take t d) (drop t d) (omega (arith, length-take t d)) in
      ap (λ x. x ++ take u d) c
      ∙ append_assoc (drop u (take t d)) (drop t d) (take u d)
      ∙ ap₂ (λ x y. x ++ y) (sym a) (sym b)

  -- A copy that starts behind the index.
  pub rot-blit_after :
      (t k h : ℕ) (d xs : List A)
      → h ≡ t + k
      → h + length xs ≤ length d
      → rot t (blit d h xs) ≡ blit (rot t d) k xs
  unfolding blit
  rot-blit_after t k h d xs e r =
      let n = h + length xs in
      let m = k + length xs in
      let l = length-drop t d in
      let a : drop t (blit d h xs) ≡ take k (drop t d) ++ (xs ++ drop n d) =
        drop-append_le t (take h d) (xs ++ drop n d) (omega (arith, length-take h d))
        ∙ ap (λ x. x ++ (xs ++ drop n d)) (drop-take t h k d e) in
      let b : take t (blit d h xs) ≡ take t d = take-blit d h t xs (omega arith) (omega arith) in
      let c : take k (rot t d) ≡ take k (drop t d) =
        take-append_le k (drop t d) (take t d) (omega arith) in
      let f : drop m (rot t d) ≡ drop n d ++ take t d =
        drop-append_le m (drop t d) (take t d) (omega arith)
        ∙ ap (λ x. x ++ take t d) (drop-drop m t n d (omega arith)) in
      ap₂ (λ x y. x ++ y) a b
      ∙ append_assoc (take k (drop t d)) (xs ++ drop n d) (take t d)
      ∙ ap₂ (λ x y. x ++ y) (sym c)
          (append_assoc xs (drop n d) (take t d) ∙ ap (λ x. xs ++ x) (sym f))

  -- A copy that lies before the index.
  pub rot-blit_before :
      (t k h : ℕ) (d xs : List A)
      → h + length d ≡ t + k
      → h + length xs ≤ t
      → t ≤ length d
      → rot t (blit d h xs) ≡ blit (rot t d) k xs
  unfolding blit
  rot-blit_before t k h d xs e r q =
      let n = h + length xs in
      let m = k + length xs in
      let l = length-drop t d in
      let v = t - n in
      let z = xs ++ take v (drop n d) in
      let a : drop t (blit d h xs) ≡ drop t d = drop-blit d h t xs r (omega arith) in
      let b : take t (blit d h xs) ≡ take h d ++ z =
        take-append_add t (t - h) (take h d) (xs ++ drop n d) (omega (arith, length-take h d))
        ∙ ap (λ x. take h d ++ x) (take-append_add (t - h) v xs (drop n d) (omega arith)) in
      let c : take k (rot t d) ≡ drop t d ++ take h d =
        take-append_add k h (drop t d) (take t d) (omega arith)
        ∙ ap (λ x. drop t d ++ x) (take-take h t d (omega arith)) in
      let f : drop m (rot t d) ≡ take v (drop n d) =
        drop-append_add m n (drop t d) (take t d) (omega arith) ∙ drop-take n t v d (omega arith) in
      ap₂ (λ x y. x ++ y) a b
      ∙ sym (append_assoc (drop t d) (take h d) z)
      ∙ ap₂ (λ x y. x ++ y) (sym c) (ap (λ x. xs ++ x) (sym f))
