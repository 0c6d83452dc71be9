-- ===== src/Restart/Reads.antt =====
-- Reading the log forward in libs/nspager/pager.c comes to an end, whatever the file holds: a record
-- that is read ends behind where it began, and not behind the end of the file.
use numstore.Prelude.{
  ℕ, zero, suc, ◌+◌, ◌-◌, ◌≤◌, ◌<◌, some, ◌≡◌, refl, arith, Option, Option-cases, Bool-cases, inl,
  inr, ◌==◌, leb,
}
use numstore.Wal.{
  Page, Wal, Record, update, clr, ReadResult, got, eof, corrupt, find_at, read_at, wal_read_entry,
  wal_read_next, rec_len, ckpt_begin,
}
use numstore.Wal.Laws.{rec_len_pos}
use numstore.Pager.{
  failed_assert, returned_early, Pager, Code, success, err_corrupt, err_duplicate_commit,
  err_dpgt_full,
}
use numstore.Restart.{
  Aries, analysis_record, analysis_next, analysis_read, analysis_loop, analysis_scan,
  analysis_start, analysis_end, analysis_finish, pgr_restart_analysis,
}
use numstore.Restart.Redo.{redo_page, redo_switch, redo_record}

-- What a read at `l` leaves of the stream.
abbrev pub Ahead : ℕ → Wal → Wal → ReadResult → Type 0
Ahead l w w' (got r) = (w'.flushed ≡ w.flushed) × (l < w'.curlsn) × (w'.curlsn ≤ w.flushed)
Ahead l w w' x = w'.flushed ≡ w.flushed

wal_read_entry-Ahead : (w : Wal) (l : ℕ) → Ahead l w (wal_read_entry w l).0 (wal_read_entry w l).1
unfolding wal_read_entry read_at
wal_read_entry-Ahead w l = elim (Bool-cases (leb w.flushed l)) [
  | inl past ↦ rw past refl
  | inr before ↦ elim (Option-cases (find_at w.log l)) [
    | inl no_rec ↦ rw (before, no_rec, read_at) refl
    | inr (r, e) ↦ elim (Bool-cases (leb (l + rec_len r) w.flushed)) [
      | inl whole ↦
          rw (before, e, read_at, whole) (refl, omega (arith, rec_len_pos r), ground arith)
      | inr part ↦ rw (before, e, read_at, part) refl
    ]
  ]
]

-- The rounds that are left where `m` bytes of the file are.
abbrev rounds : ReadResult → ℕ → ℕ
rounds (got r) m = m + 2
rounds x m = 1

abbrev pub Returns {ℓ} : {A : Type ℓ} → Option A → Type ℓ
Returns {A = A} o = (r : A) × (o ≡ some r)

analysis_next_total :
    (k : Aries → Option (Wal × Aries × Code)) (w : Wal) (out : Aries × Code)
    → ((a : Aries) → Returns (k a))
    → Returns (analysis_next k w out)
unfolding analysis_next
analysis_next_total k w (a, success) h = h a
analysis_next_total k w (a, err_duplicate_commit) h = (_, refl)
analysis_next_total k w (a, err_dpgt_full) h = (_, refl)
analysis_next_total k w (a, err_corrupt) h = (_, refl)
analysis_next_total k w (a, failed_assert) h = (_, refl)
analysis_next_total k w (a, returned_early) h = (_, refl)

analysis_read_total :
    (k : Wal → Aries → Option (Wal × Aries × Code)) (w w' : Wal) (a : Aries) (l : ℕ)
    (x : ReadResult)
    → Ahead w.curlsn w w' x
    → ((a' : Aries)
        → w'.flushed ≡ w.flushed
        → w.curlsn < w'.curlsn
        → w'.curlsn ≤ w.flushed
        → Returns (k w' a'))
    → Returns (analysis_read k a (w', l, x))
unfolding analysis_read
analysis_read_total k w w' a l (got r) h ih =
    analysis_next_total (k w') w' (analysis_record a l r) (λ a'. ih a' h.0 h.1 h.2)
analysis_read_total k w w' a l eof h ih = (_, refl)
analysis_read_total k w w' a l corrupt h ih = (_, refl)

analysis_loop_total :
    (fuel : ℕ) (w : Wal) (a : Aries)
    → w.flushed - w.curlsn < fuel
    → Returns (analysis_loop fuel w a)
unfolding analysis_loop wal_read_next
analysis_loop_total zero w a h = absurd (omega arith)
analysis_loop_total (suc fuel) w a h =
    let (w', x) = wal_read_entry w w.curlsn in
    analysis_read_total (analysis_loop fuel) w w' a w.curlsn x (wal_read_entry-Ahead w w.curlsn)
      (λ a' e lt le. analysis_loop_total fuel w' a' (omega (arith, e)))

analysis_scan_total : (w : Wal) (a : Aries) → Returns (analysis_scan w a)
unfolding analysis_scan
analysis_scan_total w a = analysis_loop_total (w.flushed + 1) w _ (omega arith)

analysis_start_total : (a : Aries) (r : Wal × ReadResult) → Returns (analysis_start a r)
unfolding analysis_start
analysis_start_total a (w, got ckpt_begin) = analysis_scan_total w a
analysis_start_total a (w, r) = (_, refl)

analysis_finish_total :
    (p : Pager) (o : Option (Wal × Aries × Code)) → Returns o → Returns (analysis_finish p o)
unfolding analysis_finish
analysis_finish_total p o (r, e) = (analysis_end p r, rw (e, analysis_finish) refl)

-- The analysis pass ends.
pub pgr_restart_analysis_total : (p : Pager) (a : Aries) → Returns (pgr_restart_analysis p a)
unfolding pgr_restart_analysis
pgr_restart_analysis_total p a = analysis_finish_total p _ (elim (Bool-cases (a.master_lsn == 0)) [
  | inl first ↦ rw first (analysis_scan_total p.wal a)
  | inr master ↦ rw master (analysis_start_total a (wal_read_entry p.wal a.master_lsn))
])

redo_page_wal :
    (p : Pager) (a : Aries) (l pg : ℕ) (redo : Page) → (redo_page p a l pg redo).0.wal ≡ p.wal
unfolding redo_page
redo_page_wal p a l pg redo = ground arith

pub redo_record_wal : (p : Pager) (a : Aries) (r : Record) → (redo_record p a r).0.wal ≡ p.wal
unfolding redo_record redo_switch
redo_record_wal p a (update _ _ pg _ redo) = redo_page_wal p _ a.redo_lsn pg redo
redo_record_wal p a (clr _ _ pg _ redo) = redo_page_wal p _ a.redo_lsn pg redo
redo_record_wal p a r = refl
