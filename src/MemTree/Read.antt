-- ===== src/MemTree/Read.antt =====
-- `rptm_read` of libs/cursors/nsrptcursor/rptree_mem.c.
use numstore.Prelude.{
  some, ℕ, zero, suc, ◌+◌, ◌-◌, ◌*◌, ◌/◌, ◌%◌, ◌^◌, ◌<◌, true, false, List, [], ◌++◌, ltb, leb,
  length, drop, min, slice, length-take, length-drop, length-append, drop_all, drop-drop,
  append_assoc, append-nil, ◌≡◌, refl, sym, arith, ap, ap₂, ◌∙◌, Bool-cases, inl, inr, lt→ltb,
  le→ltb-false,
}
use native.Mathlib.Nat.{mul-div_cancel}
use numstore.MemTree.{
  MemTree, Params, nbytes, bofst, gap, State, element, between, read_loop, rptm_read, read_run,
  rounds,
}
use numstore.MemTree.Asserts.{InRange, behind, step, asserted_lem}
use numstore.MemTree.Elements.{pick, count, pick-nil, length-pick, drop-min, more_wanted}

-- What is read from a place in the array on.
abbrev pub from : State → (n b g : ℕ) → List ℕ → List ℕ
from element n b g xs = pick n b g xs
from between n b g xs = pick n b g (drop g xs)

abbrev pub phase : State → ℕ
phase element = 0
phase between = 1

pub from-nil : (st : State) (n b g : ℕ) → 0 < b → from st n b g [] ≡ []
from-nil element n b g h = pick-nil b g h n
from-nil between n b g h = ap (pick n b g) (drop_all g [] (omega arith)) ∙ pick-nil b g h n

pub from-zero : (st : State) (b g : ℕ) (xs : List ℕ) → from st zero b g xs ≡ []
unfolding pick
from-zero element b g xs = refl
from-zero between b g xs = refl

module _ (s : Params) (view : List ℕ) (some_size : 0 < s.bsize)
    (in_range : length view + s.bsize < 2 ^ 64) where
  -- The array has come to its end.
  read_past :
      (fuel n srci : ℕ) (dest : List ℕ) (st : State)
      → ltb srci (length view) ≡ false
      → read_loop (suc fuel) s view srci dest st
        ≡ dest ++ from st n s.bsize (gap s) (drop srci view)
  unfolding read_loop
  read_past fuel n srci dest st e =
      rw (e, drop_all srci view (ground arith), from-nil st n s.bsize (gap s) some_size, append-nil)
        refl

  read_loop_lem :
      (fuel n srci : ℕ) (dest : List ℕ) (st : State)
      → nbytes s ≡ length dest + n * s.bsize
      → 2 * (length view - srci) + phase st < fuel
      → read_loop fuel s view srci dest st ≡ dest ++ from st n s.bsize (gap s) (drop srci view)
  unfolding read_loop pick
  read_loop_lem zero n srci dest st e m = absurd (omega arith)
  read_loop_lem (suc fuel) zero srci dest st e m = elim (Bool-cases (ltb srci (length view))) [
    | inr past ↦ read_past fuel zero srci dest st past
    | inl inside ↦
        rw (inside, le→ltb-false (length dest) (nbytes s) (omega arith))
          (sym
            (ap (λ t. dest ++ t) (from-zero st s.bsize (gap s) (drop srci view)) ∙ append-nil dest))
  ]
  read_loop_lem (suc fuel) (suc n) srci dest element e m =
      elim (Bool-cases (ltb srci (length view))) [
        | inr past ↦ read_past fuel (suc n) srci dest element past
        | inl inside ↦
            rw
              (
                inside,
                lt→ltb (length dest) (nbytes s)
                    (omega (arith, more_wanted (length dest) n s.bsize some_size)),
              )
              (elim (Bool-cases (ltb (length view) ((srci + s.bsize) % 2 ^ 64))) [
                | inl cut ↦ rw (cut, small cut) (sym (append-nil dest))
                | inr whole ↦
                    rw (whole, big inside whole)
                      (read_loop_lem fuel n (srci + s.bsize) (dest ++ slice srci s.bsize view)
                          between
                          (omega (
                            arith,
                            length-append dest (slice srci s.bsize view),
                            slice_len inside whole,
                            e,
                            suc_times,
                          ))
                          (ground arith)
                        ∙ append_assoc dest (slice srci s.bsize view) _
                        ∙ ap
                            (λ t.
                              dest
                              ++ (slice srci s.bsize view
                                  ++ pick n s.bsize (gap s) (drop (gap s) t)))
                            (sym (drop-drop s.bsize srci (srci + s.bsize) view refl)))
              ])
      ]
    where
      small :
          ltb (length view) ((srci + s.bsize) % 2 ^ 64) ≡ true
          → leb s.bsize (length (drop srci view)) ≡ false
      small c = ground (arith, length-drop srci view)

      big :
          ltb srci (length view) ≡ true
          → ltb (length view) ((srci + s.bsize) % 2 ^ 64) ≡ false
          → leb s.bsize (length (drop srci view)) ≡ true
      big i c = ground (arith, length-drop srci view)

      slice_len :
          ltb srci (length view) ≡ true
          → ltb (length view) ((srci + s.bsize) % 2 ^ 64) ≡ false
          → length (slice srci s.bsize view) ≡ s.bsize
      slice_len i c = ground (arith, length-take s.bsize (drop srci view), length-drop srci view)

      suc_times : suc n * s.bsize ≡ s.bsize + n * s.bsize
      suc_times = grind arith
  read_loop_lem (suc fuel) (suc n) srci dest between e m =
      elim (Bool-cases (ltb srci (length view))) [
        | inr past ↦ read_past fuel (suc n) srci dest between past
        | inl inside ↦
            rw
              (
                inside,
                lt→ltb (length dest) (nbytes s)
                    (omega (arith, more_wanted (length dest) n s.bsize some_size)),
              )
              (read_loop_lem fuel (suc n) (srci + min (gap s) (length view - srci)) dest element e
                  (ground arith)
                ∙ ap (λ t. dest ++ pick (suc n) s.bsize (gap s) t)
                    (drop-min view srci (gap s) (ground arith)))
      ]

-- What `rptm_read` gives, its ASSERTs apart.
read_run_lem :
    (r : MemTree) (s : Params)
    → InRange r s
    → read_run r s
      ≡ (count s.nelems s.bsize (step s) (behind r s), pick s.nelems s.bsize (step s) (behind r s))
unfolding read_run
read_run_lem r s v =
    let off : bofst s ≡ s.bsize * s.ofst = omega (arith, v.bofst_in) in
    let hop : gap s ≡ step s = omega (arith, v.gap_in) in
    let all : nbytes s ≡ 0 + s.nelems * s.bsize = grind (arith, v.nbytes_in) in
    let e =
      read_loop_lem s r.view v.some_size v.view_in (rounds (length r.view)) s.nelems (bofst s) []
        element all (omega arith) in
    let e' : read_loop (rounds (length r.view)) s r.view (bofst s) [] element
        ≡ pick s.nelems s.bsize (step s) (behind r s) =
      e ∙ ap₂ (λ g o. pick s.nelems s.bsize g (drop o r.view)) hop off in
    ap (λ t. (length t / s.bsize, t)) e'
    ∙ ap (λ n. (n / s.bsize, pick s.nelems s.bsize (step s) (behind r s)))
        (length-pick s.bsize (step s) v.some_size s.nelems (behind r s))
    ∙ ap (λ n. (n, pick s.nelems s.bsize (step s) (behind r s)))
        (mul-div_cancel (count s.nelems s.bsize (step s) (behind r s)) v.some_size)

-- `rptm_read` of an array of whole elements, at an offset within it, reads the elements that the parameters name, as many
-- as the array has, and returns their number.
pub rptm_read_lem :
    (r : MemTree) (s : Params)
    → InRange r s
    → 0 < s.stride
    → length r.view % s.bsize ≡ 0
    → s.bsize * s.ofst < length r.view
    → rptm_read r s
      ≡ some (
        count s.nelems s.bsize (step s) (behind r s),
        pick s.nelems s.bsize (step s) (behind r s),
      )
unfolding rptm_read
rptm_read_lem r s v pos whole inside =
    asserted_lem r s (read_run r s) v pos whole inside ∙ ap some (read_run_lem r s v)
