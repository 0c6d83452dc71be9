-- ===== src/Restart/Undo.antt =====
-- `pgr_restart_undo` and `pgr_restart` of libs/nspager/pager.c: the newest record of the transactions
-- that are left is undone, until none of them is left.
use numstore.Prelude.{
  ℕ, zero, suc, Bool, true, false, ◌&&◌, List, [], ◌∷◌, Option, none, some, ltb, ◌==◌,
  if◌then◌else◌,
}
use numstore.Wal.{
  TxState, tx_candidate_for_undo, TxnData, Txn, begin, commit, end, update, clr, ckpt_begin,
  ckpt_end, Page, wal_append, flush_all, ReadResult, got, eof, corrupt, wal_read_entry,
}
use numstore.Pager.{Pager, Code, success, err_corrupt, put}
use numstore.Restart.{
  Aries, aries_ctx_create, txnt_get, txnt_remove_txn, txn_update, pgr_restart_analysis,
}
use numstore.Restart.Redo.{pgr_restart_redo}

abbrev pub is_candidate : TxState → Bool
is_candidate tx_candidate_for_undo = true
is_candidate _ = false

-- `find_max_undo` with the maximum so far; `none` is -1.
unfoldable pub find_max_undo : TxnData → Option ℕ → Option ℕ
find_max_undo d none = if is_candidate d.state then some d.undo_next_lsn else none
find_max_undo d (some m) =
    if is_candidate d.state && ltb m d.undo_next_lsn then some d.undo_next_lsn else some m

-- `txnt_max_u_undo_lsn`.
unfoldable pub txnt_max_u_undo_lsn : (ℕ → Txn) → List ℕ → Option ℕ → Option ℕ
txnt_max_u_undo_lsn bank [] m = m
txnt_max_u_undo_lsn bank (i ∷ is) m = txnt_max_u_undo_lsn bank is (find_max_undo (bank i).data_of m)

-- The case of an update, for the transaction in the cell `i`.
unfoldable pub restart_undo_update : Pager → Aries → (i tid prev pg : ℕ) → Page → Pager × Aries
restart_undo_update p a i tid prev pg undo =
    let d = (a.bank i).data_of in
    let (w, l) = wal_append p.wal (clr tid d.last_lsn pg prev undo) in
    (
      record p {
        wal = flush_all w;
        pages = put p.pages pg (record undo { page_lsn = l });
        dirty = put p.dirty pg true;
      },
      txn_update a i (record d { last_lsn = l; undo_next_lsn = prev }),
    )

-- The switch on the record at `l`; an error of the read ends the pass. `walf_write_clr` has an ASSERT that the next LSN
-- to undo is not 0.
unfoldable pub undo_switch : Pager → Aries → ℕ → ReadResult → Option (Pager × Aries × Code)
undo_switch p a l (got (update tid prev pg undo _)) = elim (txnt_get a.bank a.txt tid) [
  | none ↦ none
  | some i ↦
      let (p', a') = restart_undo_update p a i tid prev pg undo in
      if prev == 0 then none else some (p', a', success)
]
undo_switch p a l (got (clr tid _ _ undo_next _)) = elim (txnt_get a.bank a.txt tid) [
  | none ↦ none
  | some i ↦
      some (p, txn_update a i (record (a.bank i).data_of { undo_next_lsn = undo_next }), success)
]
undo_switch p a l (got (begin tid)) = elim (txnt_get a.bank a.txt tid) [
  | none ↦ none
  | some i ↦ some (
    record p { wal = (wal_append p.wal (end tid l)).0 },
    record a { txt = txnt_remove_txn a.bank a.txt tid },
    success,
  )
]
undo_switch p a l (got (commit _ _)) = some (p, a, success)
undo_switch p a l (got (end _ _)) = some (p, a, success)
undo_switch p a l (got ckpt_begin) = some (p, a, success)
undo_switch p a l (got (ckpt_end _ _)) = some (p, a, success)
undo_switch p a l eof = some (p, a, success)
undo_switch p a l corrupt = some (p, a, err_corrupt)

-- The pass goes on unless there was an error.
unfoldable pub and_then :
    (Pager → Aries → Option (Pager × Aries × Code))
    → Option (Pager × Aries × Code)
    → Option (Pager × Aries × Code)
and_then k none = none
and_then k (some (p, a, success)) = k p a
and_then k (some (p, a, c)) = some (p, a, c)

unfoldable pub undo_round :
    (Pager → Aries → Option (Pager × Aries × Code))
    → Pager
    → Aries
    → Option ℕ
    → Option (Pager × Aries × Code)
undo_round k p a none = some (p, a, success)
undo_round k p a (some l) =
    let (w, x) = wal_read_entry p.wal l in and_then k (undo_switch (record p { wal = w }) a l x)

-- `pgr_restart_undo`.
unfoldable pub pgr_restart_undo : ℕ → Pager → Aries → Option (Pager × Aries × Code)
pgr_restart_undo zero p a = none
pgr_restart_undo (suc fuel) p a =
    undo_round (pgr_restart_undo fuel) p a (txnt_max_u_undo_lsn a.bank a.txt none)

-- The end of `pgr_restart`.
unfoldable pub restarted : Option (Pager × Aries × Code) → Option (Pager × Aries × Code)
restarted none = none
restarted (some (p, a, c)) = some (record p { restarting = false }, a, c)

-- `pgr_restart`, with the context that `pgr_open_existing` makes for it.
unfoldable pub pgr_restart : ℕ → Pager → ℕ → Option (Pager × Aries × Code)
pgr_restart fuel p master_lsn =
    let analysed =
      pgr_restart_analysis (record p { restarting = true }) (aries_ctx_create master_lsn) in
    restarted (and_then (pgr_restart_undo fuel) (and_then pgr_restart_redo analysed))
