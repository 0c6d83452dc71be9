-- ===== src/MemTree.antt =====
-- libs/cursors/nsrptcursor/rptree_mem.c: the reference implementation of the R+tree on one array of
-- bytes, read, written, removed from and inserted into by elements with a stride.
-- `view` is the first `vlen` bytes of the C array. Offsets and sizes are 64-bit numbers; `vlen`, `vcap`,
-- `target_len` and the product that gives the gap between two elements are 32-bit ones.
pub mod Elements
pub mod Asserts
pub mod Read
pub mod Remove
pub mod Write
pub mod Insert
mod Tests
use numstore.Prelude.{
  Option, some, none, ℕ, zero, suc, ◌+◌, ◌-◌, ◌*◌, ◌/◌, ◌%◌, ◌^◌, Bool, true, false, ◌&&◌, List, [],
  ◌∷◌, ◌++◌, ltb, leb, ◌==◌, if◌then◌else◌, length, take, drop, min, slice, blit,
}

-- `struct rptree_mem`, without its latch.
pub record MemTree : Type 0 where
  pub view : List ℕ
  pub vcap : ℕ

-- `bsize` and `struct stride` of the parameters.
pub record Params : Type 0 where
  pub bsize : ℕ
  pub ofst : ℕ
  pub stride : ℕ
  pub nelems : ℕ

abbrev pub nbytes : Params → ℕ
nbytes s = s.bsize * s.nelems % 2 ^ 64

abbrev pub bofst : Params → ℕ
bofst s = s.bsize * s.ofst % 2 ^ 64

-- `(params.attr.stride - 1) * params.bsize`.
abbrev pub gap : Params → ℕ
gap s = (s.stride - 1) * s.bsize % 2 ^ 32

-- The states of the loops: at an element, or at what lies between two.
pub data State : Type 0 where
  element between : State

-- `rptm_new`.
unfoldable pub rptm_new : MemTree
rptm_new = record { view = []; vcap = 1000 }

-- The loop of `rptm_read`; `dest` holds the bytes that have been read, `desti` in number.
unfoldable pub read_loop : ℕ → Params → List ℕ → (srci : ℕ) → List ℕ → State → List ℕ
read_loop zero s view srci dest st = dest
read_loop (suc fuel) s view srci dest st =
    let bleft = length view - srci in
    let taken = read_loop fuel s view (srci + s.bsize) (dest ++ slice srci s.bsize view) between in
    let skipped = read_loop fuel s view (srci + min (gap s) bleft) dest element in
    if ltb srci (length view) && ltb (length dest) (nbytes s)
    then elim st [
      | element ↦ if ltb (length view) ((srci + s.bsize) % 2 ^ 64) then dest else taken
      | between ↦ skipped
    ]
    else dest

-- Enough rounds for a loop over `n` bytes: two rounds go at least one byte further.
abbrev pub rounds : ℕ → ℕ
rounds n = 2 * n + 2

-- The ASSERTs in the loops of `rptm_read`, `rptm_remove` and `rptm_write`, which all go through the array alike: at each
-- round, `at` bytes into the array and with `done` bytes read, removed or written, what is left of it is a multiple of
-- the size of an element.
unfoldable pub asserts : ℕ → Params → (len at done : ℕ) → State → Bool
asserts zero s len at done st = true
asserts (suc fuel) s len at done st =
    let taken = asserts fuel s len (at + s.bsize) (done + s.bsize) between in
    let skipped = asserts fuel s len (at + min (gap s) (len - at)) done element in
    if ltb at len && ltb done (nbytes s)
    then if (len - at) % s.bsize == 0
      then elim st [
        | element ↦ if ltb len ((at + s.bsize) % 2 ^ 64) then true else taken
        | between ↦ skipped
      ]
      else false
    else true

-- What an operation gives, or `none` where an ASSERT fails: the one on the stride, or one in the loop, which does not run
-- where the offset is not within the array.
unfoldable pub asserted {ℓ} : {A : Type ℓ} → MemTree → Params → A → Option A
asserted r s out =
    if s.stride == 0
    then none
    else if leb (length r.view) (bofst s)
    then some out
    else if asserts (rounds (length r.view)) s (length r.view) (bofst s) 0 element
    then some out
    else none

-- `rptm_read`, its ASSERTs apart: the number of elements, and what it puts at `params.dest`.
unfoldable pub read_run : MemTree → Params → ℕ × List ℕ
read_run r s =
    let dest = read_loop (rounds (length r.view)) s r.view (bofst s) [] element in
    (length dest / s.bsize, dest)

-- `rptm_read`.
unfoldable pub rptm_read : MemTree → Params → Option (ℕ × List ℕ)
rptm_read r s = asserted r s (read_run r s)

-- The variables of the loop of `rptm_remove`.
pub record Removal : Type 0 where
  pub array : List ℕ
  pub srci : ℕ
  pub compacti : ℕ
  pub dest : List ℕ

-- The case RPTM_REMOVING, where a whole element is left.
unfoldable pub remove_element : Params → Removal → Removal
remove_element s m = record m {
  dest = m.dest ++ slice m.srci s.bsize m.array;
  srci = m.srci + s.bsize;
}

-- The case RPTM_KEEPING.
unfoldable pub keep_between : Params → Removal → Removal
keep_between s m =
    let to_keep = min (gap s) (length m.array - m.srci) in
    record m {
      array = blit m.array m.compacti (slice m.srci to_keep m.array);
      compacti = m.compacti + to_keep;
      srci = m.srci + to_keep;
    }

unfoldable pub remove_loop : ℕ → Params → Removal → State → Removal
remove_loop zero s m st = m
remove_loop (suc fuel) s m st =
    let removed = remove_loop fuel s (remove_element s m) between in
    let kept = remove_loop fuel s (keep_between s m) element in
    if ltb m.srci (length m.array) && ltb (length m.dest) (nbytes s)
    then elim st [
      | element ↦ if ltb (length m.array) ((m.srci + s.bsize) % 2 ^ 64) then m else removed
      | between ↦ kept
    ]
    else m

-- The label `cleanup`: the bytes that are left, without what lies behind them.
unfoldable pub remove_cleanup : Removal → List ℕ
remove_cleanup m =
    if ltb m.srci (length m.array)
    then take (m.compacti + (length m.array - m.srci))
        (blit m.array m.compacti (slice m.srci (length m.array - m.srci) m.array))
    else take m.compacti m.array

-- `rptm_remove`, its ASSERTs apart: the tree, the number of elements, and what it puts at `params.dest`.
unfoldable pub remove_run : MemTree → Params → MemTree × ℕ × List ℕ
remove_run r s =
    let m =
      remove_loop (rounds (length r.view)) s
        (record { array = r.view; srci = bofst s; compacti = bofst s; dest = [] }) element in
    if leb (length r.view) (bofst s)
    then (r, 0, [])
    else (record r { view = remove_cleanup m }, length m.dest / s.bsize, m.dest)

-- `rptm_remove`.
unfoldable pub rptm_remove : MemTree → Params → Option (MemTree × ℕ × List ℕ)
rptm_remove r s = asserted r s (remove_run r s)

-- The loop of `rptm_write`; `srci` bytes of `src` have been written.
unfoldable pub write_loop : ℕ → Params → List ℕ → List ℕ → (srci desti : ℕ) → State → List ℕ × ℕ
write_loop zero s src view srci desti st = (view, srci)
write_loop (suc fuel) s src view srci desti st =
    let written =
      write_loop fuel s src (blit view desti (slice srci s.bsize src)) (srci + s.bsize)
        (desti + s.bsize) between in
    let skipped =
      write_loop fuel s src view srci (desti + min (gap s) (length view - desti)) element in
    if ltb desti (length view) && ltb srci (nbytes s)
    then elim st [
      | element ↦ if ltb (length view) ((desti + s.bsize) % 2 ^ 64) then (view, srci) else written
      | between ↦ skipped
    ]
    else (view, srci)

-- `rptm_write`, its ASSERTs apart.
unfoldable pub write_run : MemTree → Params → List ℕ → MemTree × ℕ
write_run r s src =
    let (view, srci) = write_loop (rounds (length r.view)) s src r.view 0 (bofst s) element in
    if leb (length r.view) (bofst s) then (r, 0) else (record r { view = view }, srci / s.bsize)

-- `rptm_write`.
unfoldable pub rptm_write : MemTree → Params → List ℕ → Option (MemTree × ℕ)
rptm_write r s src = asserted r s (write_run r s src)

-- `target_len` of `rptm_insert`.
abbrev pub target_len : MemTree → Params → ℕ
target_len r s = (length r.view + nbytes s) % 2 ^ 32

-- `rptm_insert`, where the allocations succeed: the bytes behind the offset are set aside, the new ones
-- are written there, and the others behind them. `src` holds `nbytes` bytes.
unfoldable pub rptm_insert : MemTree → Params → List ℕ → MemTree
rptm_insert r s src =
    let o = min (bofst s) (length r.view) in
    let right_half = drop o r.view in
    record {
      view = take (target_len r s) (take o r.view ++ (take (nbytes s) src ++ right_half));
      vcap = if ltb r.vcap (target_len r s) then target_len r s * 2 % 2 ^ 32 else r.vcap;
    }
