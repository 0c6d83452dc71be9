-- ===== src/Pager/WalRule.antt =====
-- The write-ahead rule of libs/nspager/pager.c: a page reaches the database file only when the log
-- record that its LSN names is in the log file.
use numstore.Prelude.{
  ℕ, ◌+◌, ◌≤◌, ◌<◌, false, ◌≡◌, refl, arith, ◌==◌, Bool-cases, Option-cases, inl, inr, sym, subst,
  All, All-map, ◌≢◌, ◌⊎◌,
}
use numstore.Wal.{Page, Entry, Record, begin, commit, end, clr, Wal, wal_append, rec_len, flush_all}
use numstore.Wal.Laws.{IsWal, Below, wal_append-Appended, flush_all-IsWal, rec_len_pos}
use numstore.Pager.{
  Pager, put, pgr_begin_txn, pgr_save, pgr_evict, pgr_commit, has_tid, pgr_flush_wall, save_record,
  is_running, note_dirty,
}
use numstore.Pager.Rollback.{undo_update}

-- The record at `l` lies in the log file whole. LSN 0 is that of a page which was never saved.
abbrev pub Whole : Wal → ℕ → Entry → Type 0
Whole w l e = l ≢ 0 → e.at ≡ l → e.at + rec_len e.rec ≤ w.flushed

abbrev pub IsDurable : Wal → ℕ → Type 0
IsDurable w l = All (Whole w l) w.log

abbrev pub IsPast : Wal → Page → Type 0
IsPast w g = (g.page_lsn ≡ 0) ⊎ (g.page_lsn < w.next)

pub record Rule (w : Wal) (pages disk : ℕ → Page) : Type 0 where
  pub valid : IsWal w
  pub pages_past : (pg : ℕ) → IsPast w (pages pg)
  pub disk_past : (pg : ℕ) → IsPast w (disk pg)
  pub rule : (pg : ℕ) → IsDurable w (disk pg).page_lsn

-- The rule in a pager that is not in restart recovery.
abbrev pub Obeys : Pager → Type 0
Obeys p = (p.restarting ≡ false) × Rule p.wal p.pages p.disk

-- One more record does not reach back to an LSN that is past.
append-IsDurable :
    (w : Wal) (r : Record) (g : Page)
    → IsWal w
    → IsPast w g
    → IsDurable w g.page_lsn
    → IsDurable (wal_append w r).0 g.page_lsn
append-IsDurable w r g v past d =
    let a = wal_append-Appended w r v in
    subst (All (Whole (wal_append w r).0 g.page_lsn)) (sym a.log_is) (
      (λ ne e. ground arith),
      All-map (Whole w g.page_lsn) (Whole (wal_append w r).0 g.page_lsn)
          (λ e h ne q. omega (arith, h ne q, a.flushed_le)) w.log d,
    )

append-IsPast :
    (w : Wal) (r : Record) (g : Page) → IsWal w → IsPast w g → IsPast (wal_append w r).0 g
append-IsPast w r g v h = ground (arith, (wal_append-Appended w r v).next_is)

-- After a flush every record is in the file.
pub flush-IsDurable : (w : Wal) (l : ℕ) → IsWal w → IsDurable (flush_all w) l
unfolding flush_all
flush-IsDurable w l v =
    All-map (Below w.next) (Whole (record w { flushed = w.next }) l) (λ e h ne q. h) w.log v.within

module _ {w : Wal} {pages disk : ℕ → Page} (h : Rule w pages disk) where
  pub append-Rule : (r : Record) → Rule (wal_append w r).0 pages disk
  append-Rule r = record {
    valid = (wal_append-Appended w r h.valid).valid;
    pages_past = λ pg. append-IsPast w r (pages pg) h.valid (h.pages_past pg);
    disk_past = λ pg. append-IsPast w r (disk pg) h.valid (h.disk_past pg);
    rule = λ pg. append-IsDurable w r (disk pg) h.valid (h.disk_past pg) (h.rule pg);
  }

  pub flush-Rule : Rule (flush_all w) pages disk
  unfolding flush_all
  flush-Rule = record {
    valid = flush_all-IsWal w h.valid;
    pages_past = h.pages_past;
    disk_past = h.disk_past;
    rule = λ pg. flush-IsDurable w (disk pg).page_lsn h.valid;
  }

  -- A page may go to the file when the record of its LSN is there.
  disk-Rule : (pg : ℕ) → IsDurable w (pages pg).page_lsn → Rule w pages (put disk pg (pages pg))
  disk-Rule pg d = record {
    valid = h.valid;
    pages_past = h.pages_past;
    disk_past = λ j. ground (arith, h.disk_past j, h.pages_past pg);
    rule = λ j. elim (Bool-cases (pg == j)) [ inl e ↦ rw e d | inr e ↦ rw e (h.rule j) ];
  }

  -- A page gets the LSN of the record that has just been appended.
  log_page-Rule :
      (r : Record) (pg : ℕ) (g : Page)
      → g.page_lsn ≡ (wal_append w r).1
      → Rule (wal_append w r).0 (put pages pg g) disk
  log_page-Rule r pg g e =
      let a = wal_append-Appended w r h.valid in
      record {
        valid = a.valid;
        pages_past = λ j. ground (
          arith,
          append-IsPast w r (pages j) h.valid (h.pages_past j),
          a.at_end,
          a.next_is,
          rec_len_pos r,
        );
        disk_past = λ pg. append-IsPast w r (disk pg) h.valid (h.disk_past pg);
        rule = λ pg. append-IsDurable w r (disk pg) h.valid (h.disk_past pg) (h.rule pg);
      }

-- The steps that running transactions and the buffer pool take, in any order. A save may fail on a
-- full table; a step of a rollback writes back one update.
pub data Step (p : Pager) : Pager → Type 0 where
  begins : Step p (pgr_begin_txn p).0
  saves : (tid pg : ℕ) (new : Page) → Step p (pgr_save p tid pg new).0
  commits : (tid : ℕ) → Step p (pgr_commit p tid).0
  evicts : (pg : ℕ) → Step p (pgr_evict p pg)
  flushes : Step p (pgr_flush_wall p)
  undoes : (tid rec_tid prev pg : ℕ) (undo : Page) → Step p (undo_update p tid rec_tid prev pg undo)

pub data Reach (p : Pager) : Pager → Type 0 where
  start : Reach p p
  later : {q r : Pager} → Reach p q → Step q r → Reach p r

pub begin-Obeys : (p : Pager) → Obeys p → Obeys (pgr_begin_txn p).0
unfolding pgr_begin_txn
begin-Obeys p (live, h) = (live, append-Rule h (begin p.next_tid))

pub save-Obeys : (p : Pager) (tid pg : ℕ) (new : Page) → Obeys p → Obeys (pgr_save p tid pg new).0
unfolding pgr_save
save-Obeys p tid pg new (live, h) =
    let r = save_record p tid pg new in
    elim (Option-cases (note_dirty p.dpt pg (wal_append p.wal r).1)) [
      | inl full ↦ rw (full, pgr_save) (live, append-Rule h r)
      | inr (t, e) ↦ rw (e, pgr_save) (live, log_page-Rule h r pg _ refl)
    ]

pub commit-Obeys : (p : Pager) (tid : ℕ) → Obeys p → Obeys (pgr_commit p tid).0
unfolding pgr_commit
commit-Obeys p tid (live, h) =
    let r = commit tid (p.txns tid).last_lsn in
    elim (Bool-cases (is_running (p.txns tid).state)) [
      | inl run ↦
          let logged =
            append-Rule (flush-Rule (append-Rule h r)) (end tid (wal_append p.wal r).1) in
          elim (Bool-cases (has_tid p.tnxt tid)) [
            | inl listed ↦ rw (run, listed) (live, logged)
            | inr absent ↦ rw (run, absent) (live, logged)
          ]
      | inr no_run ↦ rw no_run (live, h)
    ]

evict-Obeys : (p : Pager) (pg : ℕ) → Obeys p → Obeys (pgr_evict p pg)
unfolding pgr_evict
evict-Obeys p pg (live, h) = elim (Bool-cases (p.dirty pg)) [
  | inl d ↦
      rw (d, live)
        (refl, disk-Rule (flush-Rule h) pg (flush-IsDurable p.wal (p.pages pg).page_lsn h.valid))
  | inr d ↦ rw d (live, h)
]

undo-Obeys :
    (p : Pager) (tid rec_tid prev pg : ℕ) (undo : Page)
    → Obeys p
    → Obeys (undo_update p tid rec_tid prev pg undo)
unfolding undo_update
undo-Obeys p tid rec_tid prev pg undo (live, h) =
    (live, log_page-Rule h (clr rec_tid (p.txns tid).last_lsn pg prev undo) pg _ refl)

Step-Obeys : {p q : Pager} → Step p q → Obeys p → Obeys q
unfolding pgr_flush_wall
Step-Obeys {p} begins h = begin-Obeys p h
Step-Obeys {p} (saves tid pg new) h = save-Obeys p tid pg new h
Step-Obeys {p} (commits tid) h = commit-Obeys p tid h
Step-Obeys {p} (evicts pg) h = evict-Obeys p pg h
Step-Obeys {p} flushes h = (h.0, flush-Rule h.1)
Step-Obeys {p} (undoes tid t prev pg undo) h = undo-Obeys p tid t prev pg undo h

-- The write-ahead rule: however begins, saves, commits, evictions, flushes and undo steps follow one
-- another, every page of the database file has an LSN whose log record is whole in the log file.
pub write_ahead :
    {p q : Pager} (pg : ℕ) → Obeys p → Reach p q → IsDurable q.wal (q.disk pg).page_lsn
write_ahead {p} pg h r = (Reach-Obeys h r).1.rule pg
  where
    Reach-Obeys : {x y : Pager} → Obeys x → Reach x y → Obeys y
    Reach-Obeys g start = g
    Reach-Obeys g (later s st) = Step-Obeys st (Reach-Obeys g s)
