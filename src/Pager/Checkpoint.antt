-- ===== src/Pager/Checkpoint.antt =====
-- `pgr_checkpoint` of libs/nspager/pager.c: it writes the root page to the database file before it
-- flushes the log.
use numstore.Prelude.{ℕ, ◌+◌, ◌≤◌, ◌<◌, ◌∷◌, ◌≡◌, refl, arith, subst, ap, All, Bool-cases, inl, inr}
use numstore.Wal.{
  Page, Record, begin, update, ckpt_begin, ckpt_end, Wal, wal_append, rec_len, avail, pieces, total,
}
use numstore.Wal.Laws.{IsWal, wal_append-Appended, rec_len_pos}
use numstore.Wal.Room.{wal_append_room}
use numstore.Pager.{
  Pager, success, returned_early, negative_int, ckpt_log_end, pgr_begin_txn, pgr_save, save_record,
  table_txns, ckpt_log, ckpt_write_root, root_page,
}
use numstore.Pager.Log.{pgr_save-Saved}
use numstore.Pager.WalRule.{IsDurable, Whole}

-- The bytes that a checkpoint logs before it writes the root page.
abbrev pub ckpt_bytes : Pager → ℕ
ckpt_bytes p =
    rec_len ckpt_begin + rec_len (ckpt_end (table_txns p) p.dpt) + rec_len (begin p.next_tid) + 4125

update_len : (tid prev pg : ℕ) (undo redo : Page) → rec_len (update tid prev pg undo redo) ≡ 4125
unfolding rec_len pieces total
update_len tid prev pg undo redo = refl

-- Two appends one behind the other, that fit into the buffer.
record Kept (w w' : Wal) (n : ℕ) : Type 0 where
  valid : IsWal w'
  next_is : w'.next ≡ w.next + n
  file : w'.flushed ≡ w.flushed

append-Kept :
    (w : Wal) (r : Record) → IsWal w → rec_len r ≤ avail w → Kept w (wal_append w r).0 (rec_len r)
append-Kept w r v h =
    let a = wal_append-Appended w r v in
    record { valid = a.valid; next_is = a.next_is; file = wal_append_room w r v h }

-- A record at the head of the log that does not lie in the file breaks the rule for its LSN.
not-IsDurable :
    (w v : Wal) (r : Record)
    → v.log ≡ record { at = w.next; rec = r } ∷ w.log
    → 0 < w.next
    → v.flushed < w.next + rec_len r
    → ¬ IsDurable v w.next
not-IsDurable w v r e pos h d =
    let x : All (Whole v w.next) (record { at = w.next; rec = r } ∷ w.log) =
      subst (All (Whole v w.next)) e d in
    absurd (omega (arith, x.0 (omega arith) refl))

early_is_not_success : returned_early ≡ success → ⊥
early_is_not_success e = cc

-- Where the LSN of the checkpoint's begin is not taken for an error.
breaks :
    (set_master : ℕ → Page → Page) (p : Pager)
    → IsWal p.wal
    → ckpt_bytes p ≤ avail p.wal
    → let (w, l) = wal_append p.wal ckpt_begin in
      (ckpt_log_end set_master p w l).2 ≡ success
      → let q = ckpt_write_root (ckpt_log_end set_master p w l).0 in
        ¬ IsDurable q.wal (q.disk root_page).page_lsn
unfolding ckpt_log_end ckpt_write_root pgr_begin_txn
breaks set_master p v room good =
    let w0 = p.wal in
    let k1 = append-Kept w0 ckpt_begin v (omega arith) in
    let w1 = (wal_append w0 ckpt_begin).0 in
    let r2 = ckpt_end (table_txns p) p.dpt in
    let k2 = append-Kept w1 r2 k1.valid (omega (arith, k1.next_is, k1.file)) in
    let w2 = (wal_append w1 r2).0 in
    let r3 = begin p.next_tid in
    let k3 = append-Kept w2 r3 k2.valid (omega (arith, k1.next_is, k1.file, k2.next_is, k2.file)) in
    let p3 = (pgr_begin_txn (record p { wal = w2 })).0 in
    let new = set_master (wal_append w0 ckpt_begin).1 (p.pages root_page) in
    let s = pgr_save-Saved p3 p.next_tid root_page new k3.valid good in
    let r4 = save_record p3 p.next_tid root_page new in
    let a = wal_append-Appended p3.wal r4 k3.valid in
    let n : rec_len r4 ≡ 4125 = update_len _ _ _ _ _ in
    let e4 =
      wal_append_room p3.wal r4 k3.valid
        (omega (arith, k1.next_is, k1.file, k2.next_is, k2.file, k3.next_is, k3.file)) in
    let bad =
      not-IsDurable p3.wal (wal_append p3.wal r4).0 r4 a.log_is
        (omega (arith, k3.next_is, rec_len_pos r3))
        (omega (
          arith,
          k3.next_is,
          v.behind,
          k1.next_is,
          k2.next_is,
          k1.file,
          k2.file,
          k3.file,
          e4,
          rec_len_pos r4,
        )) in
    λ d. bad (
      subst (λ (g : Page). IsDurable (wal_append p3.wal r4).0 g.page_lsn)
        (ap (λ f. f root_page) s.pages_are)
        (subst
          (λ (w : Wal).
            IsDurable w ((pgr_save p3 p.next_tid root_page new).0.pages root_page).page_lsn)
          s.wal_is d))

-- Where the records of a checkpoint fit into the log's buffer, the state in which `pgr_checkpoint` has
-- written the root page breaks the write-ahead rule: the log record of the root page's new LSN is not
-- in the log file.
pub checkpoint_breaks_rule :
    (set_master : ℕ → Page → Page) (p : Pager)
    → IsWal p.wal
    → ckpt_bytes p ≤ avail p.wal
    → (ckpt_log set_master p).2 ≡ success
    → let q = ckpt_write_root (ckpt_log set_master p).0 in
      ¬ IsDurable q.wal (q.disk root_page).page_lsn
unfolding ckpt_log
checkpoint_breaks_rule set_master p v room good =
    elim (Bool-cases (negative_int (wal_append p.wal ckpt_begin).1)) [
      | inl early ↦ absurd (early_is_not_success (rw early at good))
      | inr fine ↦ rw fine (breaks set_master p v room (rw fine at good))
    ]
