-- ===== src/Pager/AfterCheckpoint.antt =====
-- The write-ahead rule when `pgr_checkpoint` of libs/nspager/pager.c has returned.
use numstore.Prelude.{ℕ, arith, Bool-cases, inl, inr}
use numstore.Wal.{Page, ckpt_begin, ckpt_end, wal_append}
use numstore.Wal.Laws.{flush_all-IsWal}
use numstore.Pager.{
  Pager, Code, success, err_duplicate_commit, err_dpgt_full, err_corrupt, failed_assert,
  returned_early, negative_int, ckpt_log_end, pgr_begin_txn, pgr_flush_wall, table_txns, ckpt_log,
  ckpt_write_root, ckpt_finish, pgr_checkpoint, root_page,
}
use numstore.Pager.WalRule.{
  Obeys, append-Rule, flush-Rule, flush-IsDurable, begin-Obeys, save-Obeys, commit-Obeys,
}

-- The flush behind the write of the root page brings its log record into the file.
write_root_flush-Obeys : (q : Pager) → Obeys q → Obeys (pgr_flush_wall (ckpt_write_root q))
unfolding pgr_flush_wall ckpt_write_root
write_root_flush-Obeys q (live, h) = (
  live,
  record {
    valid = flush_all-IsWal q.wal h.valid;
    pages_past = (flush-Rule h).pages_past;
    disk_past =
        λ j. ground (arith, (flush-Rule h).disk_past j, (flush-Rule h).pages_past root_page);
    rule = λ j. flush-IsDurable q.wal _ h.valid;
  },
)

finish-Obeys : (q : Pager) (tid : ℕ) (c : Code) → Obeys q → Obeys (ckpt_finish (q, tid, c)).0
unfolding ckpt_finish
finish-Obeys q tid success h =
    commit-Obeys (pgr_flush_wall (ckpt_write_root q)) tid (write_root_flush-Obeys q h)
finish-Obeys q tid err_duplicate_commit h = h
finish-Obeys q tid err_dpgt_full h = h
finish-Obeys q tid err_corrupt h = h
finish-Obeys q tid failed_assert h = h
finish-Obeys q tid returned_early h = h

log-Obeys : (set_master : ℕ → Page → Page) (p : Pager) → Obeys p → Obeys (ckpt_log set_master p).0
unfolding ckpt_log ckpt_log_end
log-Obeys set_master p (live, h) =
    let l = (wal_append p.wal ckpt_begin).1 in
    let w1 = (wal_append p.wal ckpt_begin).0 in
    let h0 = append-Rule h ckpt_begin in
    let k = ckpt_end (table_txns p) p.dpt in
    let p1 = record p { wal = (wal_append w1 k).0 } in
    let h1 : Obeys p1 = (live, append-Rule h0 k) in
    let b = pgr_begin_txn p1 in
    elim (Bool-cases (negative_int l)) [
      | inl early ↦ rw early (live, h0)
      | inr fine ↦
          rw fine
            (save-Obeys b.0 b.1 root_page (set_master l (b.0.pages root_page)) (begin-Obeys p1 h1))
    ]

-- When `pgr_checkpoint` has returned, with success or with an error, the write-ahead rule holds again:
-- every page of the database file has an LSN whose log record is whole in the log file.
pub pgr_checkpoint-Obeys :
    (set_master : ℕ → Page → Page) (p : Pager) → Obeys p → Obeys (pgr_checkpoint set_master p).0
unfolding pgr_checkpoint
pgr_checkpoint-Obeys set_master p h =
    finish-Obeys (ckpt_log set_master p).0 (ckpt_log set_master p).1 (ckpt_log set_master p).2
      (log-Obeys set_master p h)
