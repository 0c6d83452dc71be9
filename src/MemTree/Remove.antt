-- ===== src/MemTree/Remove.antt =====
-- `rptm_remove` of libs/cursors/nsrptcursor/rptree_mem.c: the array is compacted in place.
use numstore.Prelude.{
  some, ℕ, zero, suc, ◌+◌, ◌-◌, ◌*◌, ◌/◌, ◌%◌, ◌^◌, ◌≤◌, ◌<◌, true, false, List, [], ◌++◌, ltb, leb,
  length, take, drop, min, slice, length-take, length-drop, length-append, length-blit,
  take-blit_end, drop-blit, drop_all, take_all, take-append-drop, drop-drop, append_assoc,
  append-nil, ◌≡◌, refl, sym, arith, ap, ap₂, ◌∙◌, Bool-cases, inl, inr, lt→ltb, le→ltb-false,
  ltb→lt, subst,
}
use native.Mathlib.Nat.{mul-div_cancel}
use numstore.MemTree.{
  MemTree, Params, nbytes, bofst, gap, State, element, between, Removal, remove_element,
  keep_between, remove_loop, remove_cleanup, rptm_remove, remove_run, rounds,
}
use numstore.MemTree.Elements.{
  pick, leave, count, leave-nil, length-pick, take-min, drop-min, more_wanted, suc_times, cut_short,
  whole_left,
}
use numstore.MemTree.Read.{from, phase, from-nil, from-zero}
use numstore.MemTree.Asserts.{InRange, behind, step, asserted_lem}

-- What is left of the array from a place on.
abbrev rest : State → (n b g : ℕ) → List ℕ → List ℕ
rest element n b g xs = leave n b g xs
rest between n b g xs = take g xs ++ leave n b g (drop g xs)

rest-zero : (st : State) (b g : ℕ) (xs : List ℕ) → rest st zero b g xs ≡ xs
unfolding leave
rest-zero element b g xs = refl
rest-zero between b g xs = take-append-drop g xs

rest-nil : (st : State) (n b g : ℕ) → 0 < b → rest st n b g [] ≡ []
rest-nil element n b g h = leave-nil b g h n
rest-nil between n b g h =
    ap₂ (λ x y. x ++ leave n b g y) (take_all g [] (omega arith)) (drop_all g [] (omega arith))
    ∙ leave-nil b g h n

-- The variables make sense.
record Sound (m : Removal) (len : ℕ) : Type 0 where
  same_length : length m.array ≡ len
  compacted : m.compacti ≤ m.srci
  within : m.srci ≤ len

cleanup_lem :
    (m : Removal) (len : ℕ)
    → Sound m len
    → remove_cleanup m ≡ take m.compacti m.array ++ drop m.srci m.array
unfolding remove_cleanup
cleanup_lem m len v = elim (Bool-cases (ltb m.srci (length m.array))) [
  | inl more ↦
      let src = slice m.srci (length m.array - m.srci) m.array in
      let l : length src ≡ length m.array - m.srci = omega (
        arith,
        length-take (length m.array - m.srci) (drop m.srci m.array),
        length-drop m.srci m.array,
      ) in
      rw more (
        take-blit_end m.array m.compacti (m.compacti + (length m.array - m.srci)) src
          (omega (arith, l)) (omega (arith, v.compacted, v.within, v.same_length))
        ∙ ap (λ t. take m.compacti m.array ++ t)
            (take_all (length m.array - m.srci) (drop m.srci m.array)
              (omega (arith, length-drop m.srci m.array))))
  | inr over ↦ rw over (
      sym (
        ap (λ t. take m.compacti m.array ++ t) (drop_all m.srci m.array (ground arith))
        ∙ append-nil (take m.compacti m.array)))
]

-- What a run of the loop leaves.
record Removes (m : Removal) (left out : List ℕ) : Type 0 where
  left_is : remove_cleanup m ≡ left
  out_is : m.dest ≡ out

-- The loop has ended.
ended :
    (s : Params) (m : Removal) (len n : ℕ) (st : State)
    → Sound m len
    → rest st n s.bsize (gap s) (drop m.srci m.array) ≡ drop m.srci m.array
    → from st n s.bsize (gap s) (drop m.srci m.array) ≡ []
    → Removes m
        (take m.compacti m.array ++ rest st n s.bsize (gap s) (drop m.srci m.array))
        (m.dest ++ from st n s.bsize (gap s) (drop m.srci m.array))
ended s m len n st v e f = record {
  left_is = cleanup_lem m len v ∙ ap (λ t. take m.compacti m.array ++ t) (sym e);
  out_is = sym (ap (λ t. m.dest ++ t) f ∙ append-nil m.dest);
}

-- The case RPTM_KEEPING: the bytes up to the next element go to the end of what is kept.
record Keeps (s : Params) (m m' : Removal) (len : ℕ) : Type 0 where
  kept : take m'.compacti m'.array ≡ take m.compacti m.array ++ take (gap s) (drop m.srci m.array)
  ahead : drop m'.srci m'.array ≡ drop (gap s) (drop m.srci m.array)
  sound : Sound m' len
  same_dest : m'.dest ≡ m.dest
  forward : m.srci ≤ m'.srci

keep_between-Keeps :
    (s : Params) (m : Removal) (len : ℕ) → Sound m len → Keeps s m (keep_between s m) len
unfolding keep_between
keep_between-Keeps s m len v =
    let k = min (gap s) (length m.array - m.srci) in
    let src = slice m.srci k m.array in
    let l : length src ≡ k =
      omega (arith, length-take k (drop m.srci m.array), length-drop m.srci m.array) in
    let le : m.srci ≤ length m.array = omega (arith, v.within, v.same_length) in
    let c_le : m.compacti ≤ length m.array = omega (arith, v.compacted, v.within, v.same_length) in
    let fits : m.compacti + length src ≤ length m.array = omega (arith, l, v.compacted, le) in
    record {
      kept =
          take-blit_end m.array m.compacti (m.compacti + k) src (omega (arith, l)) c_le
          ∙ ap (λ t. take m.compacti m.array ++ t) (take-min m.array m.srci (gap s) le);
      ahead =
          drop-blit m.array m.compacti (m.srci + k) src (omega (arith, l, v.compacted)) c_le
          ∙ drop-min m.array m.srci (gap s) le;
      sound = record {
        same_length = length-blit m.array m.compacti src fits ∙ v.same_length;
        compacted = omega (arith, v.compacted);
        within = omega (arith, v.within, v.same_length, le);
      };
      same_dest = refl;
      forward = omega arith;
    }

module _ (s : Params) (len : ℕ) (some_size : 0 < s.bsize) (in_range : len + s.bsize < 2 ^ 64) where
  remove_past :
      (fuel n : ℕ) (m : Removal) (st : State)
      → Sound m len
      → ltb m.srci (length m.array) ≡ false
      → Removes
          (remove_loop (suc fuel) s m st)
          (take m.compacti m.array ++ rest st n s.bsize (gap s) (drop m.srci m.array))
          (m.dest ++ from st n s.bsize (gap s) (drop m.srci m.array))
  unfolding remove_loop
  remove_past fuel n m st v e =
      let none_left : drop m.srci m.array ≡ [] = drop_all m.srci m.array (ground arith) in
      rw e (
        ended s m len n st v
          (subst (λ t. rest st n s.bsize (gap s) t ≡ t) (sym none_left)
            (rest-nil st n s.bsize (gap s) some_size))
          (subst (λ t. from st n s.bsize (gap s) t ≡ []) (sym none_left)
            (from-nil st n s.bsize (gap s) some_size)))

  remove_loop-Removes :
      (fuel n : ℕ) (m : Removal) (st : State)
      → Sound m len
      → nbytes s ≡ length m.dest + n * s.bsize
      → 2 * (len - m.srci) + phase st < fuel
      → Removes
          (remove_loop fuel s m st)
          (take m.compacti m.array ++ rest st n s.bsize (gap s) (drop m.srci m.array))
          (m.dest ++ from st n s.bsize (gap s) (drop m.srci m.array))
  unfolding remove_loop remove_element leave pick
  remove_loop-Removes zero n m st v e f = absurd (omega arith)
  remove_loop-Removes (suc fuel) zero m st v e f = elim (Bool-cases (ltb m.srci (length m.array))) [
    | inr past ↦ remove_past fuel zero m st v past
    | inl inside ↦
        rw (inside, le→ltb-false (length m.dest) (nbytes s) (omega arith))
          (ended s m len zero st v (rest-zero st s.bsize (gap s) (drop m.srci m.array))
            (from-zero st s.bsize (gap s) (drop m.srci m.array)))
  ]
  remove_loop-Removes (suc fuel) (suc n) m element v e f =
      elim (Bool-cases (ltb m.srci (length m.array))) [
        | inr past ↦ remove_past fuel (suc n) m element v past
        | inl inside ↦
            rw
              (
                inside,
                lt→ltb (length m.dest) (nbytes s)
                    (omega (arith, more_wanted (length m.dest) n s.bsize some_size)),
              )
              (let lt : m.srci < length m.array = ltb→lt m.srci (length m.array) inside in
                let room : length m.array + s.bsize < 2 ^ 64 = omega (arith, v.same_length) in
                let left = length-drop m.srci m.array in
                elim (Bool-cases (ltb (length m.array) ((m.srci + s.bsize) % 2 ^ 64))) [
                  | inl cut ↦
                      let c : leb s.bsize (length (drop m.srci m.array)) ≡ false =
                        ap (leb s.bsize) left
                        ∙ cut_short (length m.array) m.srci s.bsize lt room cut in
                      rw cut (ended s m len (suc n) element v (rw c refl) (rw c refl))
                  | inr whole ↦
                      let w = whole_left (length m.array) m.srci s.bsize lt room whole in
                      let c : leb s.bsize (length (drop m.srci m.array)) ≡ true =
                        ground (arith, left) in
                      let sl : length (slice m.srci s.bsize m.array) ≡ s.bsize =
                        omega (arith, length-take s.bsize (drop m.srci m.array), left) in
                      let d : drop (m.srci + s.bsize) m.array ≡ drop s.bsize (drop m.srci m.array) =
                        sym (drop-drop s.bsize m.srci (m.srci + s.bsize) m.array refl) in
                      let ih =
                        remove_loop-Removes fuel n (remove_element s m) between
                          (record {
                            same_length = v.same_length;
                            compacted = omega (arith, v.compacted);
                            within = omega (arith, v.same_length);
                          })
                          (omega (
                            arith,
                            length-append m.dest (slice m.srci s.bsize m.array),
                            sl,
                            suc_times n s.bsize,
                          ))
                          (omega (arith, v.same_length)) in
                      rw (whole, c)
                        (record {
                          left_is =
                              ih.left_is
                              ∙ ap
                                  (λ t. take m.compacti m.array ++ rest between n s.bsize (gap s) t)
                                  d;
                          out_is =
                              ih.out_is
                              ∙ append_assoc m.dest (slice m.srci s.bsize m.array) _
                              ∙ ap
                                  (λ t.
                                    m.dest
                                    ++ (slice m.srci s.bsize m.array
                                        ++ from between n s.bsize (gap s) t))
                                  d;
                        })
                ])
      ]
  remove_loop-Removes (suc fuel) (suc n) m between v e f =
      elim (Bool-cases (ltb m.srci (length m.array))) [
        | inr past ↦ remove_past fuel (suc n) m between v past
        | inl inside ↦
            rw
              (
                inside,
                lt→ltb (length m.dest) (nbytes s)
                    (omega (arith, more_wanted (length m.dest) n s.bsize some_size)),
              )
              (let k = keep_between-Keeps s m len v in
                let ih =
                  remove_loop-Removes fuel (suc n) (keep_between s m) element k.sound
                    (e ∙ ap (λ t. length t + suc n * s.bsize) (sym k.same_dest))
                    (omega (arith, k.forward)) in
                record {
                  left_is =
                      ih.left_is
                      ∙ ap₂ (λ x y. x ++ leave (suc n) s.bsize (gap s) y) k.kept k.ahead
                      ∙ append_assoc (take m.compacti m.array) (take (gap s) (drop m.srci m.array))
                          _;
                  out_is =
                      ih.out_is
                      ∙ ap₂ (λ x y. x ++ pick (suc n) s.bsize (gap s) y) k.same_dest k.ahead;
                })
      ]

-- What `rptm_remove` gives, its ASSERTs apart.
remove_run_lem :
    (r : MemTree) (s : Params)
    → InRange r s
    → s.bsize * s.ofst < length r.view
    → remove_run r s ≡ (
      record r {
        view = take (s.bsize * s.ofst) r.view ++ leave s.nelems s.bsize (step s) (behind r s);
      },
      count s.nelems s.bsize (step s) (behind r s),
      pick s.nelems s.bsize (step s) (behind r s),
    )
unfolding remove_run
remove_run_lem r s v inside =
    let off : bofst s ≡ s.bsize * s.ofst = omega (arith, v.bofst_in) in
    let hop : gap s ≡ step s = omega (arith, v.gap_in) in
    let all : nbytes s ≡ 0 + s.nelems * s.bsize = grind (arith, v.nbytes_in) in
    let start : Removal = record {
      array = r.view;
      srci = bofst s;
      compacti = bofst s;
      dest = [];
    } in
    let h =
      remove_loop-Removes s (length r.view) v.some_size v.view_in (rounds (length r.view)) s.nelems
        start element
        (record { same_length = refl; compacted = omega arith; within = omega (arith, off) }) all
        (omega arith) in
    let left =
      h.left_is ∙ ap₂ (λ g o. take o r.view ++ leave s.nelems s.bsize g (drop o r.view)) hop off in
    let out = h.out_is ∙ ap₂ (λ g o. pick s.nelems s.bsize g (drop o r.view)) hop off in
    let some_left : leb (length r.view) (bofst s) ≡ false = ground (arith, off) in
    let n : length (pick s.nelems s.bsize (step s) (behind r s)) / s.bsize
        ≡ count s.nelems s.bsize (step s) (behind r s) =
      ap (λ n. n / s.bsize) (length-pick s.bsize (step s) v.some_size s.nelems (behind r s))
      ∙ mul-div_cancel (count s.nelems s.bsize (step s) (behind r s)) v.some_size in
    rw some_left (
      ap₂ (λ x y. (record r { view = x }, length y / s.bsize, y)) left out
      ∙ ap
          (λ n. (
            record r {
              view = take (s.bsize * s.ofst) r.view ++ leave s.nelems s.bsize (step s) (behind r s);
            },
            n,
            pick s.nelems s.bsize (step s) (behind r s),
          ))
          n)

-- `rptm_remove` of an array of whole elements, at an offset within it, element by element: what it returns are the elements
-- that the parameters name, as many as the array has, and their number; what it leaves in the array,
-- compacted in place, is what stood before the offset and then the rest without them, in its order.
pub rptm_remove_lem :
    (r : MemTree) (s : Params)
    → InRange r s
    → 0 < s.stride
    → length r.view % s.bsize ≡ 0
    → s.bsize * s.ofst < length r.view
    → rptm_remove r s
      ≡ some (
        record r {
          view = take (s.bsize * s.ofst) r.view ++ leave s.nelems s.bsize (step s) (behind r s);
        },
        count s.nelems s.bsize (step s) (behind r s),
        pick s.nelems s.bsize (step s) (behind r s),
      )
unfolding rptm_remove
rptm_remove_lem r s v pos whole inside =
    asserted_lem r s (remove_run r s) v pos whole inside ∙ ap some (remove_run_lem r s v inside)
