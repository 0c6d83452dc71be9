-- ===== src/MemTree/Write.antt =====
-- `rptm_write` of libs/cursors/nsrptcursor/rptree_mem.c.
use numstore.Prelude.{
  some, ℕ, zero, suc, ◌+◌, ◌-◌, ◌*◌, ◌/◌, ◌%◌, ◌^◌, ◌≤◌, ◌<◌, true, false, List, [], ◌++◌, ltb, leb,
  length, take, drop, min, slice, blit, length-take, length-drop, length-blit, take-blit_end,
  drop-blit, drop_all, take_all, take-add, take-append-drop, drop-drop, append_assoc, ◌≡◌, refl,
  sym, arith, ap, ap₂, ◌∙◌, Bool-cases, inl, inr, lt→ltb, le→ltb-false, ltb→lt, subst,
}
use native.Mathlib.Nat.{mul-div_cancel}
use numstore.MemTree.{
  MemTree, Params, nbytes, bofst, gap, State, element, between, write_loop, rptm_write, write_run,
  rounds,
}
use numstore.MemTree.Elements.{
  put_in, put_in-nil, count, take-min, drop-min, more_wanted, suc_times, cut_short, whole_left,
}
use numstore.MemTree.Read.{phase}
use numstore.MemTree.Asserts.{InRange, behind, step, asserted_lem}

-- What the array becomes from a place on, and how many elements are written there.
abbrev onto : State → (n b g : ℕ) → (src xs : List ℕ) → List ℕ
onto element n b g src xs = put_in n b g src xs
onto between n b g src xs = take g xs ++ put_in n b g src (drop g xs)

abbrev many : State → (n b g : ℕ) → List ℕ → ℕ
many element n b g xs = count n b g xs
many between n b g xs = count n b g (drop g xs)

onto-zero : (st : State) (b g : ℕ) (src xs : List ℕ) → onto st zero b g src xs ≡ xs
unfolding put_in
onto-zero element b g src xs = refl
onto-zero between b g src xs = take-append-drop g xs

onto-nil : (st : State) (n b g : ℕ) (src : List ℕ) → 0 < b → onto st n b g src [] ≡ []
onto-nil element n b g src h = put_in-nil b g h n src
onto-nil between n b g src h =
    ap₂ (λ x y. x ++ put_in n b g src y) (take_all g [] (omega arith)) (drop_all g [] (omega arith))
    ∙ put_in-nil b g h n src

many-zero : (st : State) (b g : ℕ) (xs : List ℕ) → many st zero b g xs ≡ 0
unfolding count
many-zero element b g xs = refl
many-zero between b g xs = refl

count-nil : (n b g : ℕ) → 0 < b → count n b g [] ≡ 0
unfolding count
count-nil zero b g h = refl
count-nil (suc n) b g h = ground arith

many-nil : (st : State) (n b g : ℕ) → 0 < b → many st n b g [] ≡ 0
many-nil element n b g h = count-nil n b g h
many-nil between n b g h = ap (count n b g) (drop_all g [] (omega arith)) ∙ count-nil n b g h

-- What a run of the loop gives.
record Writes (out : List ℕ × ℕ) (view : List ℕ) (srci : ℕ) : Type 0 where
  view_is : out.0 ≡ view
  srci_is : out.1 ≡ srci

module _ (s : Params) (src : List ℕ) (len : ℕ) (some_size : 0 < s.bsize)
    (in_range : len + s.bsize < 2 ^ 64) where
  -- The loop has ended.
  write_ended :
      (n srci desti : ℕ) (view : List ℕ) (st : State)
      → onto st n s.bsize (gap s) (drop srci src) (drop desti view) ≡ drop desti view
      → many st n s.bsize (gap s) (drop desti view) ≡ 0
      → Writes
          (view, srci)
          (take desti view ++ onto st n s.bsize (gap s) (drop srci src) (drop desti view))
          (srci + many st n s.bsize (gap s) (drop desti view) * s.bsize)
  write_ended n srci desti view st e f = record {
    view_is = sym (ap (λ t. take desti view ++ t) e ∙ take-append-drop desti view);
    srci_is = rw f (omega arith);
  }

  write_past :
      (fuel n srci desti : ℕ) (view : List ℕ) (st : State)
      → ltb desti (length view) ≡ false
      → Writes
          (write_loop (suc fuel) s src view srci desti st)
          (take desti view ++ onto st n s.bsize (gap s) (drop srci src) (drop desti view))
          (srci + many st n s.bsize (gap s) (drop desti view) * s.bsize)
  unfolding write_loop
  write_past fuel n srci desti view st e =
      let none_left : drop desti view ≡ [] = drop_all desti view (ground arith) in
      rw e (
        write_ended n srci desti view st
          (subst (λ t. onto st n s.bsize (gap s) (drop srci src) t ≡ t) (sym none_left)
            (onto-nil st n s.bsize (gap s) (drop srci src) some_size))
          (subst (λ t. many st n s.bsize (gap s) t ≡ 0) (sym none_left)
            (many-nil st n s.bsize (gap s) some_size)))

  write_loop-Writes :
      (fuel n srci desti : ℕ) (view : List ℕ) (st : State)
      → length view ≡ len
      → nbytes s ≡ srci + n * s.bsize
      → nbytes s ≤ length src
      → 2 * (len - desti) + phase st < fuel
      → Writes
          (write_loop fuel s src view srci desti st)
          (take desti view ++ onto st n s.bsize (gap s) (drop srci src) (drop desti view))
          (srci + many st n s.bsize (gap s) (drop desti view) * s.bsize)
  unfolding write_loop put_in count
  write_loop-Writes zero n srci desti view st l e h f = absurd (omega arith)
  write_loop-Writes (suc fuel) zero srci desti view st l e h f =
      elim (Bool-cases (ltb desti (length view))) [
        | inr past ↦ write_past fuel zero srci desti view st past
        | inl inside ↦
            rw (inside, le→ltb-false srci (nbytes s) (omega arith))
              (write_ended zero srci desti view st
                (onto-zero st s.bsize (gap s) (drop srci src) (drop desti view))
                (many-zero st s.bsize (gap s) (drop desti view)))
      ]
  write_loop-Writes (suc fuel) (suc n) srci desti view element l e h f =
      elim (Bool-cases (ltb desti (length view))) [
        | inr past ↦ write_past fuel (suc n) srci desti view element past
        | inl inside ↦
            rw
              (inside, lt→ltb srci (nbytes s) (omega (arith, more_wanted srci n s.bsize some_size)))
              (let lt : desti < length view = ltb→lt desti (length view) inside in
                let room : length view + s.bsize < 2 ^ 64 = omega arith in
                let left = length-drop desti view in
                let times = suc_times n s.bsize in
                elim (Bool-cases (ltb (length view) ((desti + s.bsize) % 2 ^ 64))) [
                  | inl cut ↦
                      let c : leb s.bsize (length (drop desti view)) ≡ false =
                        ap (leb s.bsize) left ∙ cut_short (length view) desti s.bsize lt room cut in
                      rw cut (write_ended (suc n) srci desti view element (rw c refl) (rw c refl))
                  | inr whole ↦
                      let w = whole_left (length view) desti s.bsize lt room whole in
                      let c : leb s.bsize (length (drop desti view)) ≡ true =
                        ground (arith, left) in
                      let new = slice srci s.bsize src in
                      let sl : length new ≡ s.bsize =
                        omega (
                          arith,
                          length-take s.bsize (drop srci src),
                          length-drop srci src,
                          times,
                        ) in
                      let fits : desti + length new ≤ length view = omega (arith, sl) in
                      let ih =
                        write_loop-Writes fuel n (srci + s.bsize) (desti + s.bsize)
                          (blit view desti new) between (length-blit view desti new fits ∙ l)
                          (omega (arith, times)) h (omega (arith, l)) in
                      let before : take (desti + s.bsize) (blit view desti new)
                          ≡ take desti view ++ new =
                        take-blit_end view desti (desti + s.bsize) new (omega (arith, sl))
                          (omega arith) in
                      let after : drop (desti + s.bsize) (blit view desti new)
                          ≡ drop s.bsize (drop desti view) =
                        drop-blit view desti (desti + s.bsize) new (omega (arith, sl)) (omega arith)
                        ∙ sym (drop-drop s.bsize desti (desti + s.bsize) view refl) in
                      let src_after : drop (srci + s.bsize) src ≡ drop s.bsize (drop srci src) =
                        sym (drop-drop s.bsize srci (srci + s.bsize) src refl) in
                      let c' = many between n s.bsize (gap s) (drop s.bsize (drop desti view)) in
                      rw (whole, c)
                        (record {
                          view_is =
                              ih.view_is
                              ∙ ap₂
                                  (λ x y.
                                    x
                                    ++ onto between n s.bsize (gap s) (drop (srci + s.bsize) src) y)
                                  before after
                              ∙ append_assoc (take desti view) new _
                              ∙ ap
                                  (λ t.
                                    take desti view
                                    ++ (new
                                        ++ onto between n s.bsize (gap s) t
                                            (drop s.bsize (drop desti view))))
                                  src_after;
                          srci_is =
                              ih.srci_is
                              ∙ ap
                                  (λ y. srci + s.bsize + many between n s.bsize (gap s) y * s.bsize)
                                  after
                              ∙ omega (arith, suc_times c' s.bsize);
                        })
                ])
      ]
  write_loop-Writes (suc fuel) (suc n) srci desti view between l e h f =
      elim (Bool-cases (ltb desti (length view))) [
        | inr past ↦ write_past fuel (suc n) srci desti view between past
        | inl inside ↦
            rw
              (inside, lt→ltb srci (nbytes s) (omega (arith, more_wanted srci n s.bsize some_size)))
              (let k = min (gap s) (length view - desti) in
                let le : desti ≤ length view = ground arith in
                let ih =
                  write_loop-Writes fuel (suc n) srci (desti + k) view element l e h
                    (ground arith) in
                let before : take (desti + k) view
                    ≡ take desti view ++ take (gap s) (drop desti view) =
                  take-add desti k (desti + k) view refl
                  ∙ ap (λ t. take desti view ++ t) (take-min view desti (gap s) le) in
                let after = drop-min view desti (gap s) le in
                record {
                  view_is =
                      ih.view_is
                      ∙ ap₂ (λ x y. x ++ put_in (suc n) s.bsize (gap s) (drop srci src) y) before
                          after
                      ∙ append_assoc (take desti view) (take (gap s) (drop desti view)) _;
                  srci_is =
                      ih.srci_is ∙ ap (λ y. srci + count (suc n) s.bsize (gap s) y * s.bsize) after;
                })
      ]

-- What `rptm_write` gives, its ASSERTs apart.
write_run_lem :
    (r : MemTree) (s : Params) (src : List ℕ)
    → InRange r s
    → s.bsize * s.ofst < length r.view
    → s.bsize * s.nelems ≤ length src
    → write_run r s src ≡ (
      record r {
        view = take (s.bsize * s.ofst) r.view ++ put_in s.nelems s.bsize (step s) src (behind r s);
      },
      count s.nelems s.bsize (step s) (behind r s),
    )
unfolding write_run
write_run_lem r s src v inside given =
    let off : bofst s ≡ s.bsize * s.ofst = omega (arith, v.bofst_in) in
    let hop : gap s ≡ step s = omega (arith, v.gap_in) in
    let all : nbytes s ≡ 0 + s.nelems * s.bsize = grind (arith, v.nbytes_in) in
    let h =
      write_loop-Writes s src (length r.view) v.some_size v.view_in (rounds (length r.view))
        s.nelems 0 (bofst s) r.view element refl all (omega (arith, v.nbytes_in)) (omega arith) in
    let some_left : leb (length r.view) (bofst s) ≡ false = ground (arith, off) in
    let n : (0 + count s.nelems s.bsize (step s) (behind r s) * s.bsize) / s.bsize
        ≡ count s.nelems s.bsize (step s) (behind r s) =
      ap (λ n. n / s.bsize) (omega arith)
      ∙ mul-div_cancel (count s.nelems s.bsize (step s) (behind r s)) v.some_size in
    rw some_left (
      ap₂ (λ x y. (record r { view = x }, y / s.bsize))
        (h.view_is
          ∙ ap₂ (λ g o. take o r.view ++ put_in s.nelems s.bsize g src (drop o r.view)) hop off)
        (h.srci_is ∙ ap₂ (λ g o. 0 + count s.nelems s.bsize g (drop o r.view) * s.bsize) hop off)
      ∙ ap
          (λ n. (
            record r {
              view =
                  take (s.bsize * s.ofst) r.view
                  ++ put_in s.nelems s.bsize (step s) src (behind r s);
            },
            n,
          ))
          n)

-- `rptm_write` to an array of whole elements, at an offset within it: the elements that the parameters name, as many as
-- the array has, become those of the source, one after the other; all other bytes stay as they are, and
-- the number of elements is returned.
pub rptm_write_lem :
    (r : MemTree) (s : Params) (src : List ℕ)
    → InRange r s
    → 0 < s.stride
    → length r.view % s.bsize ≡ 0
    → s.bsize * s.ofst < length r.view
    → s.bsize * s.nelems ≤ length src
    → rptm_write r s src
      ≡ some (
        record r {
          view =
              take (s.bsize * s.ofst) r.view ++ put_in s.nelems s.bsize (step s) src (behind r s);
        },
        count s.nelems s.bsize (step s) (behind r s),
      )
unfolding rptm_write
rptm_write_lem r s src v pos whole inside given =
    asserted_lem r s (write_run r s src) v pos whole inside
    ∙ ap some (write_run_lem r s src v inside given)
