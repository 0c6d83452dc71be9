-- ===== src/Pager/Rollback.antt =====
-- `pgr_rollback` of libs/nspager/pager.c: the chain of a transaction's records is followed backwards
-- and each update on it is undone and logged as a compensation record.
-- The loop takes fuel; each round goes to a smaller LSN, so the LSN that it starts from is enough.
use numstore.Prelude.{ℕ, zero, suc, ◌+◌, true, Option, none, some, ltb, ◌==◌, if◌then◌else◌}
use numstore.Wal.{
  Page, TxnData, begin, commit, end, update, clr, ckpt_begin, ckpt_end, wal_append, ReadResult, got,
  eof, corrupt, wal_read_entry,
}
use numstore.Pager.{Pager, Code, success, err_corrupt, failed_assert, put}

-- Where the loop goes behind a record.
pub data Next : Type 0 where
  goto : ℕ → Next
  stop : Code → Next

abbrev pub with_last_lsn : TxnData → ℕ → TxnData
with_last_lsn d l = record d { last_lsn = l }

abbrev pub with_undo_next : TxnData → ℕ → TxnData
with_undo_next d l = record d { undo_next_lsn = l }

-- The case of an update: its undo image goes back onto the page, under a compensation record.
unfoldable pub undo_update : Pager → ℕ → (rec_tid prev pg : ℕ) → Page → Pager
undo_update p tid rec_tid prev pg undo =
    let (w, c) = wal_append p.wal (clr rec_tid (p.txns tid).last_lsn pg prev undo) in
    record p {
      wal = w;
      pages = put p.pages pg (record undo { page_lsn = c });
      dirty = put p.dirty pg true;
      txns = put p.txns tid (with_last_lsn (p.txns tid) c);
    }

-- The switch on the type of the record that was read; `walf_write_clr` has an ASSERT that the next LSN to undo, which
-- is the record's previous one, is not 0.
unfoldable pub rollback_record : Pager → ℕ → ReadResult → Pager × Next
rollback_record p tid (got (update rec_tid prev pg undo redo)) =
    if prev == 0
    then (p, stop failed_assert)
    else (undo_update p tid rec_tid prev pg undo, goto prev)
rollback_record p tid (got (clr rec_tid prev pg undo_next redo)) = (p, goto undo_next)
rollback_record p tid (got (begin rec_tid)) = (p, goto 0)
rollback_record p tid (got (commit _ _)) = (p, stop err_corrupt)
rollback_record p tid (got (end _ _)) = (p, stop err_corrupt)
rollback_record p tid (got ckpt_begin) = (p, stop err_corrupt)
rollback_record p tid (got (ckpt_end _ _)) = (p, stop err_corrupt)
rollback_record p tid eof = (p, stop success)
rollback_record p tid corrupt = (p, stop err_corrupt)

-- The end of a round: the transaction's UndoNxtLSN is set, and the loop goes on.
unfoldable pub rollback_next :
    (Pager → ℕ → Option (Pager × Code)) → ℕ → Pager × Next → Option (Pager × Code)
rollback_next k tid (p, goto l) =
    k (record p { txns = put p.txns tid (with_undo_next (p.txns tid) l) }) l
rollback_next k tid (p, stop c) = some (p, c)

unfoldable pub rollback_loop : ℕ → (save_lsn tid : ℕ) → Pager → ℕ → Option (Pager × Code)
rollback_loop zero save_lsn tid p l = none
rollback_loop (suc fuel) save_lsn tid p l =
    let (w, r) = wal_read_entry p.wal l in
    let rest =
      rollback_next (rollback_loop fuel save_lsn tid) tid
        (rollback_record (record p { wal = w }) tid r) in
    if ltb save_lsn l then rest else some (p, success)

-- `pgr_rollback`.
unfoldable pub pgr_rollback : Pager → ℕ → ℕ → Option (Pager × Code)
pgr_rollback p tid save_lsn =
    let l = (p.txns tid).undo_next_lsn in rollback_loop (l + 1) save_lsn tid p l
