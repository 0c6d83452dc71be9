-- ===== src/MemTree/Tests.antt =====
-- The reference implementation at a concrete array.
use numstore.Prelude.{some, none, ℕ, ◌*◌, List, [], ◌∷◌, ◌++◌, ◌≡◌, refl, arith, take, blit}
use numstore.MemTree.{
  asserted, asserts, remove_run, MemTree, Params, rptm_remove, rptm_write, rptm_insert, remove_loop,
  remove_element, keep_between, remove_cleanup,
}
use numstore.MemTree.Elements.{pick, leave, put_in, count}
use numstore.MemTree.Asserts.{InRange, behind, step}
use numstore.MemTree.Remove.{rptm_remove_lem}
use numstore.MemTree.Write.{rptm_write_lem}
use numstore.MemTree.Insert.{Insertable, rptm_insert-remove}

-- Four elements of two bytes.
abbrev tree : MemTree
tree = record { view = 1 ∷ 2 ∷ 3 ∷ 4 ∷ 5 ∷ 6 ∷ 7 ∷ 8 ∷ []; vcap = 1000 }

-- Two of them, from the first on, with a stride of two.
abbrev every_other : Params
every_other = record { bsize = 2; ofst = 0; stride = 2; nelems = 2 }

every_other-InRange : InRange tree every_other
every_other-InRange = record {
  some_size = omega arith;
  view_in = omega arith;
  nbytes_in = omega arith;
  bofst_in = omega arith;
  gap_in = omega arith;
}

every_other_removed :
    rptm_remove tree every_other
    ≡ some (record tree { view = 3 ∷ 4 ∷ 7 ∷ 8 ∷ [] }, 2, 1 ∷ 2 ∷ 5 ∷ 6 ∷ [])
unfolding rptm_remove asserted asserts remove_run remove_loop remove_element keep_between
    remove_cleanup blit
every_other_removed = refl

rptm_remove_example :
    rptm_remove tree every_other
    ≡ some (
      record tree {
        view = take (2 * 0) tree.view ++ leave 2 2 (step every_other) (behind tree every_other);
      },
      count 2 2 (step every_other) (behind tree every_other),
      pick 2 2 (step every_other) (behind tree every_other),
    )
rptm_remove_example =
    rptm_remove_lem tree every_other every_other-InRange (omega arith) refl (omega arith)

abbrev source : List ℕ
source = 10 ∷ 11 ∷ 12 ∷ 13 ∷ []

rptm_write_example :
    rptm_write tree every_other source
    ≡ some (
      record tree {
        view =
            take (2 * 0) tree.view
            ++ put_in 2 2 (step every_other) source (behind tree every_other);
      },
      count 2 2 (step every_other) (behind tree every_other),
    )
rptm_write_example =
    rptm_write_lem tree every_other source every_other-InRange (omega arith) refl (omega arith)
      (omega arith)

-- Two elements before the third.
abbrev in_the_middle : Params
in_the_middle = record { bsize = 2; ofst = 2; stride = 1; nelems = 2 }

in_the_middle-Insertable : Insertable tree in_the_middle source
in_the_middle-Insertable = record {
  in_range = record {
    some_size = omega arith;
    view_in = omega arith;
    nbytes_in = omega arith;
    bofst_in = omega arith;
    gap_in = omega arith;
  };
  given = omega arith;
  room = omega arith;
  inside = omega arith;
}

rptm_insert-remove_example :
    rptm_remove (rptm_insert tree in_the_middle source) in_the_middle
    ≡ some (
      record (rptm_insert tree in_the_middle source) { view = tree.view },
      2,
      take (2 * 2) source,
    )
rptm_insert-remove_example =
    rptm_insert-remove tree in_the_middle source in_the_middle-Insertable refl (omega arith)
      (omega arith) refl

-- Five bytes are no whole number of elements.
partial_fails : rptm_remove (record tree { view = 1 ∷ 2 ∷ 3 ∷ 4 ∷ 5 ∷ [] }) every_other ≡ none
unfolding rptm_remove asserted asserts
partial_fails = refl
