-- ===== src/Restart/Redo.antt =====
-- `pgr_restart_redo` of libs/nspager/pager.c: the log is read forward from RedoLSN and what is missing
-- from the pages of the dirty page table is written to them again.
use numstore.Prelude.{
  ℕ, zero, suc, ◌+◌, true, List, [], ◌∷◌, Option, none, some, ltb, leb, ◌==◌, if◌then◌else◌,
}
use numstore.Wal.{
  Page, DpgEntry, Record, update, clr, ReadResult, got, eof, corrupt, wal_read_entry, wal_read_next,
}
use numstore.Pager.{Pager, Code, success, err_corrupt, put, dpe_get}
use numstore.Restart.{Aries, update_max_txid, wrh_get_tid}

-- `dpgt_update`.
unfoldable pub dpgt_update : List DpgEntry → ℕ → ℕ → List DpgEntry
dpgt_update [] pg new_rec_lsn = []
dpgt_update (d ∷ ds) pg new_rec_lsn =
    if d.pg == pg
    then record { pg = pg; rec_lsn = new_rec_lsn } ∷ ds
    else d ∷ dpgt_update ds pg new_rec_lsn

-- The body of the cases of an update and of a compensation record at the LSN `l`.
unfoldable pub redo_page : Pager → Aries → ℕ → ℕ → Page → Pager × Aries
redo_page p a l pg redo =
    let q = record p { dirty = put p.dirty pg true } in
    let page_lsn = (p.pages pg).page_lsn in
    elim (dpe_get a.dpt pg) [
      | none ↦ (p, a)
      | some rec_lsn ↦
          if leb rec_lsn l
          then if ltb page_lsn l
            then (record q { pages = put p.pages pg (record redo { page_lsn = l }) }, a)
            else (q, record a { dpt = dpgt_update a.dpt pg (page_lsn + 1) })
          else (p, a)
    ]

unfoldable pub redo_switch : Pager → Aries → ℕ → Record → Pager × Aries
redo_switch p a l (update _ _ pg _ redo) = redo_page p a l pg redo
redo_switch p a l (clr _ _ pg _ redo) = redo_page p a l pg redo
redo_switch p a l r = (p, a)

-- One round of the loop.
unfoldable pub redo_record : Pager → Aries → Record → Pager × Aries
redo_record p a r =
    redo_switch p (record a { max_tid = update_max_txid a.max_tid (wrh_get_tid r) }) a.redo_lsn r

-- `wal_read_next`, and on with what it gives.
unfoldable pub redo_next :
    (Pager → Aries → ReadResult → Option (Pager × Aries × Code))
    → Pager × Aries
    → Option (Pager × Aries × Code)
redo_next k (p, a) =
    let (w, l, x) = wal_read_next p.wal in k (record p { wal = w }) (record a { redo_lsn = l }) x

unfoldable pub redo_loop : ℕ → Pager → Aries → ReadResult → Option (Pager × Aries × Code)
redo_loop zero p a x = none
redo_loop (suc fuel) p a (got r) = redo_next (redo_loop fuel) (redo_record p a r)
redo_loop (suc fuel) p a eof = some (p, a, success)
redo_loop (suc fuel) p a corrupt = some (p, a, err_corrupt)

-- `pgr_restart_redo`, with a round for each byte of the file and one more.
unfoldable pub pgr_restart_redo : Pager → Aries → Option (Pager × Aries × Code)
pgr_restart_redo p a =
    let (w, x) = wal_read_entry p.wal a.redo_lsn in
    let run = redo_loop (p.wal.flushed + 2) (record p { wal = w }) a x in
    if a.redo_lsn == 0 then some (p, a, success) else run
