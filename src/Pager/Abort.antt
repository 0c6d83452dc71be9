-- ===== src/Pager/Abort.antt =====
-- A transaction of libs/nspager/pager.c that saves pages and is then rolled back, and one that commits.
use numstore.Prelude.{
  ℕ, ◌+◌, ◌≤◌, ◌<◌, Bool, true, false, List, [], ◌∷◌, some, ◌≡◌, refl, arith, ◌==◌, if◌then◌else◌,
  Bool-cases, inl, inr, sym, ap, ◌∙◌, subst, ==→eq,
}
use numstore.Wal.{
  Page, TxnData, tx_running, tx_done, begin, commit, end, Wal, wal_append, rec_len, find_at,
  flush_all,
}
use numstore.Wal.Laws.{IsWal, wal_append-Appended, flush_all-IsWal, rec_len_pos}
use numstore.Pager.{
  Pager, success, err_duplicate_commit, put, pgr_begin_txn, pgr_save, pgr_evict, pgr_commit,
  has_tid, pgr_flush_wall, save_record, saved_txn, is_running,
}
use numstore.Pager.Log.{
  Extends, Extends-refl, append-Extends, flush-Extends, append-find, pgr_save-Saved, put_self,
  append_end,
}
use numstore.Pager.Rollback.{pgr_rollback}
use numstore.Pager.Undo.{
  Chain, at_zero, at_begin, at_update, Chain-Extends, restore, SameBodies, restore-SameBodies,
  pgr_rollback-restore,
}

-- The pager after saves of one transaction, with evictions among them.
pub data Saves (p : Pager) (tid : ℕ) : Pager → Type 0 where
  none_yet : Saves p tid p
  save :
      {q : Pager} (pg : ℕ) (new : Page)
      → Saves p tid q
      → (pgr_save q tid pg new).1 ≡ success
      → Saves p tid (pgr_save q tid pg new).0
  evict : {q : Pager} (pg : ℕ) → Saves p tid q → Saves p tid (pgr_evict q pg)

-- The records of the running transaction form a chain whose undo images lead back to the pages that
-- it began with.
record Active (pages : ℕ → Page) (tid : ℕ) (us : List (ℕ × Page)) (q : Pager) : Type 0 where
  valid : IsWal q.wal
  last_past : 0 < (q.txns tid).last_lsn
  last_below : (q.txns tid).last_lsn < q.wal.next
  from_last : Chain q.wal.log q.wal.next (q.txns tid).last_lsn us
  from_undo : Chain q.wal.log q.wal.next (q.txns tid).undo_next_lsn us
  back : SameBodies (restore us q.pages) pages

begin-Active :
    (p : Pager)
    → IsWal p.wal
    → 0 < p.wal.next
    → Active p.pages (pgr_begin_txn p).1 [] (pgr_begin_txn p).0
unfolding pgr_begin_txn
begin-Active p v past =
    let r = begin p.next_tid in
    let a = wal_append-Appended p.wal r v in
    let d : TxnData = record {
      state = tx_running;
      last_lsn = (wal_append p.wal r).1;
      undo_next_lsn = 0;
    } in
    let e : put p.txns p.next_tid d p.next_tid ≡ d = put_self p.txns p.next_tid d in
    record {
      valid = a.valid;
      last_past = subst (λ (x : TxnData). 0 < x.last_lsn) (sym e) (omega (arith, a.at_end));
      last_below =
          subst (λ (x : TxnData). x.last_lsn < (wal_append p.wal r).0.next) (sym e)
            (omega (arith, a.at_end, a.next_is, rec_len_pos r));
      from_last =
          subst
            (λ (x : TxnData).
              Chain (wal_append p.wal r).0.log (wal_append p.wal r).0.next x.last_lsn [])
            (sym e)
            (subst (λ l. Chain (wal_append p.wal r).0.log (wal_append p.wal r).0.next l [])
              (sym a.at_end) (at_begin (append-find p.wal r v) (append_end p.wal r v)));
      from_undo =
          subst
            (λ (x : TxnData).
              Chain (wal_append p.wal r).0.log (wal_append p.wal r).0.next x.undo_next_lsn [])
            (sym e) at_zero;
      back = λ j. refl;
    }

-- Writing a page over and then writing back what stood there changes nothing but LSNs.
put_back : (f : ℕ → Page) (pg : ℕ) (new : Page) → SameBodies (put (put f pg new) pg (f pg)) f
put_back f pg new j = elim (Bool-cases (pg == j)) [ inl e ↦ rw (e, ==→eq pg j e) | inr e ↦ rw e ]

save-Active :
    (pages : ℕ → Page) (tid pg : ℕ) (new : Page) (us : List (ℕ × Page)) (q : Pager)
    → Active pages tid us q
    → (pgr_save q tid pg new).1 ≡ success
    → Active pages tid ((pg, q.pages pg) ∷ us) (pgr_save q tid pg new).0
save-Active pages tid pg new us q a h =
    let s = pgr_save-Saved q tid pg new a.valid h in
    let r = save_record q tid pg new in
    let w = (wal_append q.wal r).0 in
    let b = wal_append-Appended q.wal r a.valid in
    let d = saved_txn (q.txns tid) q.wal.next in
    let e : (pgr_save q tid pg new).0.txns tid ≡ d =
      ap (λ f. f tid) s.txns_are ∙ put_self q.txns tid d in
    let ch : Chain w.log w.next q.wal.next ((pg, q.pages pg) ∷ us) =
      at_update (append-find q.wal r a.valid) (append_end q.wal r a.valid) a.last_below a.last_past
        (Chain-Extends (append-Extends q.wal r a.valid) (omega (arith, b.next_is)) a.from_last) in
    let here =
      λ (l : ℕ). subst (λ (v : Wal). Chain v.log v.next l ((pg, q.pages pg) ∷ us)) (sym s.wal_is) in
    record {
      valid = subst IsWal (sym s.wal_is) b.valid;
      last_past =
          subst (λ (x : TxnData). 0 < x.last_lsn) (sym e)
            (omega (arith, a.last_past, a.last_below));
      last_below =
          subst (λ (x : TxnData). x.last_lsn < (pgr_save q tid pg new).0.wal.next) (sym e)
            (subst (λ (v : Wal). q.wal.next < v.next) (sym s.wal_is)
              (omega (arith, b.next_is, rec_len_pos r)));
      from_last =
          subst
            (λ (x : TxnData).
              Chain (pgr_save q tid pg new).0.wal.log (pgr_save q tid pg new).0.wal.next x.last_lsn
                ((pg, q.pages pg) ∷ us))
            (sym e) (here q.wal.next ch);
      from_undo =
          subst
            (λ (x : TxnData).
              Chain (pgr_save q tid pg new).0.wal.log (pgr_save q tid pg new).0.wal.next
                x.undo_next_lsn ((pg, q.pages pg) ∷ us))
            (sym e) (here q.wal.next ch);
      back = λ j.
          restore-SameBodies us _ q.pages
            (subst (λ f. SameBodies (put f pg (q.pages pg)) q.pages) (sym s.pages_are)
              (put_back q.pages pg (record new { page_lsn = q.wal.next })))
            j
          ∙ a.back j;
    }

flush_or_not :
    (b : Bool) (w : Wal)
    → IsWal w
    → Extends w (if b then w else flush_all w) × IsWal (if b then w else flush_all w)
flush_or_not true w v = (Extends-refl w, v)
flush_or_not false w v = (flush-Extends w v, flush_all-IsWal w v)

evict-Active :
    (pages : ℕ → Page) (tid pg : ℕ) (us : List (ℕ × Page)) (q : Pager)
    → Active pages tid us q
    → Active pages tid us (pgr_evict q pg)
unfolding pgr_evict
evict-Active pages tid pg us q a = elim (Bool-cases (q.dirty pg)) [
  | inr clean ↦ rw clean a
  | inl dirty ↦ rw dirty (
      let x = flush_or_not q.restarting q.wal a.valid in
      record {
        valid = x.1;
        last_past = a.last_past;
        last_below = omega (arith, a.last_below, x.0.longer);
        from_last = Chain-Extends x.0 x.0.longer a.from_last;
        from_undo = Chain-Extends x.0 x.0.longer a.from_undo;
        back = a.back;
      })
]

Saves-Active :
    (p : Pager) (tid : ℕ) (q : Pager)
    → Active p.pages tid [] p
    → Saves p tid q
    → (us : List (ℕ × Page)) × Active p.pages tid us q
Saves-Active p tid q a none_yet = ([], a)
Saves-Active p tid q a (save {q = x} pg new s h) =
    let (us, b) = Saves-Active p tid x a s in
    ((pg, x.pages pg) ∷ us, save-Active p.pages tid pg new us x b h)
Saves-Active p tid q a (evict {q = x} pg s) =
    let (us, b) = Saves-Active p tid x a s in (us, evict-Active p.pages tid pg us x b)

-- Abort is atomic, where the log is not empty: a transaction begins, saves any pages any number of times, with evictions among the
-- saves, the log is flushed and the transaction is rolled back. The rollback ends with success, and
-- every page holds what it held before the transaction, but for the LSN in it.
pub abort_restores :
    (p : Pager) {q : Pager}
    → IsWal p.wal
    → 0 < p.wal.next
    → Saves (pgr_begin_txn p).0 (pgr_begin_txn p).1 q
    → (r : Pager) × (pgr_rollback (pgr_flush_wall q) (pgr_begin_txn p).1 0 ≡ some (r, success))
      × SameBodies r.pages p.pages
unfolding pgr_flush_wall pgr_begin_txn flush_all
abort_restores p {q} v past s =
    let tid = (pgr_begin_txn p).1 in
    let (us, a) = Saves-Active (pgr_begin_txn p).0 tid q (begin_again p v past) s in
    let ch = flushed_chain q tid us a.valid a.from_undo in
    let (r, e, z) =
      pgr_rollback-restore (pgr_flush_wall q) tid (flush_all-IsWal q.wal a.valid) ch in
    (r, e, λ j. z.restored j ∙ a.back j)
  where
    begin_again :
        (x : Pager)
        → IsWal x.wal
        → 0 < x.wal.next
        → Active (pgr_begin_txn x).0.pages (pgr_begin_txn x).1 [] (pgr_begin_txn x).0
    begin_again x w h = begin-Active x w h

    flushed_chain :
        (x : Pager) (t : ℕ) (us : List (ℕ × Page))
        → IsWal x.wal
        → Chain x.wal.log x.wal.next (x.txns t).undo_next_lsn us
        → Chain (flush_all x.wal).log (flush_all x.wal).flushed (x.txns t).undo_next_lsn us
    flushed_chain x t us w c = c

flushed_is : (w : Wal) → (flush_all w).flushed ≡ w.next
unfolding flush_all
flushed_is w = refl

commit_not_running :
    (p : Pager) (tid : ℕ)
    → is_running (p.txns tid).state ≡ false
    → pgr_commit p tid ≡ (p, err_duplicate_commit)
unfolding pgr_commit
commit_not_running p tid h = rw h

-- `pgr_commit` of a running transaction that is in the table of transactions succeeds: the transaction is done, its commit record lies in
-- the log file whole, and the pages are as they were. A second `pgr_commit` returns
-- ERR_DUPLICATE_COMMIT and changes nothing.
pub pgr_commit_durable :
    (p : Pager) (tid : ℕ)
    → IsWal p.wal
    → is_running (p.txns tid).state ≡ true
    → has_tid p.tnxt tid ≡ true
    → let (q, c) = pgr_commit p tid in
      let k = commit tid (p.txns tid).last_lsn in
      (c ≡ success)
      × ((q.txns tid).state ≡ tx_done)
      × (find_at q.wal.log p.wal.next ≡ some k)
      × (p.wal.next + rec_len k ≤ q.wal.flushed)
      × (q.pages ≡ p.pages)
      × (pgr_commit q tid ≡ (q, err_duplicate_commit))
unfolding pgr_commit
pgr_commit_durable p tid v run listed =
    let d = p.txns tid in
    let r = commit tid d.last_lsn in
    let w = (wal_append p.wal r).0 in
    let a = wal_append-Appended p.wal r v in
    let k = end tid (wal_append p.wal r).1 in
    let f = flush_all-IsWal w a.valid in
    let b = append-Extends (flush_all w) k f in
    rw (run, listed)
      (
        refl,
        ap (λ (x : TxnData). x.state) (put_self p.txns tid (record d { state = tx_done })),
        b.keeps p.wal.next r ((flush-Extends w a.valid).keeps p.wal.next r (append-find p.wal r v)),
        omega (arith, b.durable, flushed_is w, a.next_is),
        refl,
        commit_not_running _ tid (
            ap (λ (x : TxnData). is_running x.state)
              (put_self p.txns tid (record d { state = tx_done }))),
      )
