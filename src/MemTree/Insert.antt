-- ===== src/MemTree/Insert.antt =====
-- `rptm_insert` of libs/cursors/nsrptcursor/rptree_mem.c, by itself and before `rptm_remove`.
use native.Mathlib.Nat.{add-mul-mod_self_left}
use numstore.Prelude.{
  some, ℕ, zero, suc, ◌+◌, ◌-◌, ◌*◌, ◌%◌, ◌^◌, ◌≤◌, ◌<◌, true, List, ◌++◌, ltb, leb, length, take,
  drop, min, length-take, length-drop, length-append, take_all, take-add, take-append_le,
  drop-append_add, take-append-drop, drop-drop, take-take, ◌≡◌, refl, sym, arith, ap, ap₂, ◌∙◌,
  Bool-cases, inl, inr, subst,
}
use numstore.MemTree.{MemTree, Params, nbytes, bofst, target_len, rptm_insert, rptm_remove}
use numstore.MemTree.Elements.{pick, leave, count, suc_times}
use numstore.MemTree.Asserts.{InRange, behind, step}
use numstore.MemTree.Remove.{rptm_remove_lem}

-- Elements with nothing between them are a cut of the list.
record Dense (n b : ℕ) (xs : List ℕ) : Type 0 where
  picked : pick n b 0 xs ≡ take (n * b) xs
  left : leave n b 0 xs ≡ drop (n * b) xs
  counted : count n b 0 xs ≡ n

dense : (n b : ℕ) (xs : List ℕ) → n * b ≤ length xs → Dense n b xs
unfolding pick leave count
dense zero b xs h =
    let z : 0 ≡ 0 * b = omega arith in
    record { picked = ap (λ k. take k xs) z; left = ap (λ k. drop k xs) z; counted = refl }
dense (suc n) b xs h =
    let t = suc_times n b in
    let one : leb b (length xs) ≡ true = ground (arith, t) in
    let ih = dense n b (drop b xs) (omega (arith, t, length-drop b xs)) in
    record {
      picked =
          rw one (ap (λ y. take b xs ++ y) ih.picked ∙ sym (take-add b (n * b) (suc n * b) xs t));
      left = rw one (ih.left ∙ drop-drop (n * b) b (suc n * b) xs t);
      counted = rw one (ap suc ih.counted);
    }

-- What an insert of `src` at the offset `o` leaves.
abbrev inserted : MemTree → Params → List ℕ → List ℕ
inserted r s src =
    take (s.bsize * s.ofst) r.view
    ++ (take (s.bsize * s.nelems) src ++ drop (s.bsize * s.ofst) r.view)

-- The source is long enough, and the array stays below half of what its 32-bit length can hold.
pub record Insertable (r : MemTree) (s : Params) (src : List ℕ) : Type 0 where
  pub in_range : InRange r s
  pub given : s.bsize * s.nelems ≤ length src
  pub room : length r.view + s.bsize * s.nelems < 2 ^ 31
  pub inside : s.bsize * s.ofst ≤ length r.view

module _ (r : MemTree) (s : Params) (src : List ℕ) (v : Insertable r s src) where
  length-inserted : length (inserted r s src) ≡ length r.view + s.bsize * s.nelems
  length-inserted =
      let o = s.bsize * s.ofst in
      let n = s.bsize * s.nelems in
      omega (
        arith,
        length-append (take o r.view) (take n src ++ drop o r.view),
        length-append (take n src) (drop o r.view),
        length-take o r.view,
        length-take n src,
        length-drop o r.view,
        v.given,
        v.inside,
      )

  insert_view : (rptm_insert r s src).view ≡ inserted r s src
  unfolding rptm_insert
  insert_view =
      let off : min (bofst s) (length r.view) ≡ s.bsize * s.ofst =
        omega (arith, v.inside, v.in_range.bofst_in) in
      let all : nbytes s ≡ s.bsize * s.nelems = omega (arith, v.in_range.nbytes_in) in
      ap₂
        (λ o n.
          take ((length r.view + n) % 2 ^ 32) (take o r.view ++ (take n src ++ drop o r.view)))
        off all
      ∙ take_all ((length r.view + s.bsize * s.nelems) % 2 ^ 32) (inserted r s src)
          (omega (arith, length-inserted, v.room))

  insert_vcap : length r.view ≤ r.vcap → length (inserted r s src) ≤ (rptm_insert r s src).vcap
  unfolding rptm_insert
  insert_vcap cap =
      let len : target_len r s ≡ length r.view + s.bsize * s.nelems =
        omega (arith, v.room, v.in_range.nbytes_in) in
      elim (Bool-cases (ltb r.vcap (target_len r s))) [
        | inl grow ↦ rw grow (omega (arith, len, length-inserted, v.room))
        | inr enough ↦ rw enough (ground (arith, len, length-inserted))
      ]

  -- `rptm_insert` puts the first `nelems` elements of the source at the offset and moves what stood there
  -- behind them; the array grows by as many bytes, and its capacity is as large again wherever it was too small.
  pub rptm_insert_lem :
      length r.view ≤ r.vcap
      → ((rptm_insert r s src).view
          ≡ take (s.bsize * s.ofst) r.view
            ++ (take (s.bsize * s.nelems) src ++ drop (s.bsize * s.ofst) r.view))
        × (length (rptm_insert r s src).view ≡ length r.view + s.bsize * s.nelems)
        × (length (rptm_insert r s src).view ≤ (rptm_insert r s src).vcap)
  rptm_insert_lem cap =
      let e = ap length insert_view ∙ length-inserted in
      (
        insert_view,
        e,
        subst (λ t. length t ≤ (rptm_insert r s src).vcap) (sym insert_view) (insert_vcap cap),
      )

  -- An insert into an array of whole elements is undone by a removal: with a stride of one, `rptm_remove` after `rptm_insert` with the same
  -- parameters returns the elements that were inserted and their number, and leaves the array as it was before.
  pub rptm_insert-remove :
      s.stride ≡ 1
      → 0 < s.nelems
      → length r.view + s.bsize * s.nelems + s.bsize < 2 ^ 64
      → length r.view % s.bsize ≡ 0
      → rptm_remove (rptm_insert r s src) s
        ≡ some (
          record (rptm_insert r s src) { view = r.view },
          s.nelems,
          take (s.bsize * s.nelems) src,
        )
  rptm_insert-remove one some_elems fits whole =
      let o = s.bsize * s.ofst in
      let n = s.bsize * s.nelems in
      let t = rptm_insert r s src in
      let lo : length (take o r.view) ≡ o = omega (arith, length-take o r.view, v.inside) in
      let ln : length (take n src) ≡ n = omega (arith, length-take n src, v.given) in
      let e_len : length t.view ≡ length r.view + n = ap length insert_view ∙ length-inserted in
      let pos : 0 < n = grind (arith, some_elems, v.in_range.some_size) in
      let no_gap : step s ≡ 0 = ap (λ k. (k - 1) * s.bsize) one ∙ omega arith in
      let rest : behind t s ≡ take n src ++ drop o r.view =
        ap (drop o) insert_view
        ∙ drop-append_add o 0 (take o r.view) (take n src ++ drop o r.view) (omega (arith, lo)) in
      let comm : s.nelems * s.bsize ≡ n = grind arith in
      let d =
        dense s.nelems s.bsize (behind t s)
          (omega (arith, comm, ap length rest, length-append (take n src) (drop o r.view), ln)) in
      let out : pick s.nelems s.bsize 0 (behind t s) ≡ take n src =
        d.picked
        ∙ ap₂ take comm rest
        ∙ take-append_le n (take n src) (drop o r.view) (omega (arith, ln))
        ∙ take-take n n src (omega arith) in
      let left : leave s.nelems s.bsize 0 (behind t s) ≡ drop o r.view =
        d.left
        ∙ ap₂ drop comm rest
        ∙ drop-append_add n 0 (take n src) (drop o r.view) (omega (arith, ln)) in
      let front : take o t.view ≡ take o r.view =
        ap (take o) insert_view
        ∙ take-append_le o (take o r.view) (take n src ++ drop o r.view) (omega (arith, lo))
        ∙ take-take o o r.view (omega arith) in
      let range : InRange t s = record {
        some_size = v.in_range.some_size;
        view_in = omega (arith, e_len);
        nbytes_in = v.in_range.nbytes_in;
        bofst_in = v.in_range.bofst_in;
        gap_in = v.in_range.gap_in;
      } in
      let whole_after : length t.view % s.bsize ≡ 0 =
        ap (λ k. k % s.bsize) e_len
        ∙ add-mul-mod_self_left (length r.view) s.bsize s.nelems
        ∙ whole in
      rptm_remove_lem t s range (omega arith) whole_after (omega (arith, e_len, v.inside))
      ∙ ap some (
          ap
            (λ g. (
              record t { view = take o t.view ++ leave s.nelems s.bsize g (behind t s) },
              count s.nelems s.bsize g (behind t s),
              pick s.nelems s.bsize g (behind t s),
            ))
            no_gap
          ∙ ap
              (λ c. (
                record t { view = take o t.view ++ leave s.nelems s.bsize 0 (behind t s) },
                c,
                pick s.nelems s.bsize 0 (behind t s),
              ))
              d.counted
          ∙ ap₂ (λ x y. (record t { view = x }, s.nelems, y))
              (ap₂ (λ x y. x ++ y) front left ∙ take-append-drop o r.view) out)
