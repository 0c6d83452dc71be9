-- ===== src/Restart/Tests.antt =====
-- Runs of restart recovery, and its properties at concrete logs.
use numstore.Prelude.{
  ℕ, suc, false, List, [], ◌∷◌, some, ◌≡◌, refl, arith, inl, inr, Bool-cases, ◌==◌,
}
use numstore.Wal.{
  Page, Record, Wal, tx_done, begin, update, rec_len, pieces, total, find_at, wal_append, flush_all,
  wal_read_entry, wal_read_next, read_at, write_pieces, walos_write_all, write_loop, make_room,
}
use numstore.Wal.Laws.{IsWal}
use numstore.Wal.RoundTrip.{append_all, flushed_at}
use numstore.Pager.{Pager, success, dpe_get, note_dirty, dpgt_add}
use numstore.Restart.{
  Aries, aries_ctx_create, pgr_restart_analysis, analysis_scan, analysis_loop, analysis_read,
  analysis_next, analysis_record, analysis_switch, with_dpt, note_txn, add_txn,
  txnt_insert_txn_if_not_exists, txnt_get, txn_update, update_max_txid, wrh_get_tid,
  wrh_get_prev_lsn, analysis_finish, analysis_end, flush_ends, is_over, remove_done,
  txnt_remove_txn, dpgt_min_rec_lsn,
}
use numstore.Restart.Redo.{pgr_restart_redo}
use numstore.Restart.Undo.{pgr_restart_undo}
use numstore.Restart.Images.{Covered}
use numstore.Restart.Repeat.{Repeats, pgr_restart_redo-replay}
use numstore.Restart.Losers.{restart_loses_undo}

abbrev blank : Page
blank = record { page_lsn = 0; body = [] }

abbrev filled : Page
filled = record { page_lsn = 0; body = 7 ∷ [] }

abbrev empty_log : Wal
empty_log = record { log = []; flushed = 0; next = 0; curlsn = 0 }

abbrev pager_on : Wal → Pager
pager_on w = record {
  wal = w;
  restarting = false;
  dpt = [];
  tnxt = [];
  next_tid = 1;
  txns = λ _. record { state = tx_done; last_lsn = 0; undo_next_lsn = 0 };
  pages = λ _. blank;
  disk = λ _. blank;
  dirty = λ _. false;
}

-- Behind the begin record of transaction 1 comes its update of page 5.
abbrev begun_log : Wal
begun_log = record { log = []; flushed = 13; next = 13; curlsn = 0 }

abbrev one_update : List Record
one_update = update 1 0 5 blank filled ∷ []

abbrev redo_ctx : Aries
redo_ctx = record (aries_ctx_create 0) { redo_lsn = 13; dpt = record { pg = 5; rec_lsn = 13 } ∷ [] }

begun-IsWal : IsWal begun_log
begun-IsWal = record { behind = omega arith; fits = omega arith; within = tt }

redo_ctx-Covered : (pg : ℕ) → Covered (dpe_get redo_ctx.dpt pg) pg 0 13 one_update
unfolding dpe_get
redo_ctx-Covered pg = elim (Bool-cases (5 == pg)) [
  | inl e ↦ rw e (λ _. omega arith, tt)
  | inr e ↦ rw e (λ h. absurd (cc h), tt)
]

pgr_restart_redo-replay_example :
    Repeats
      (pgr_restart_redo (pager_on (flushed_at (append_all begun_log one_update) 0)) redo_ctx)
      13
      one_update
      (λ _. blank)
pgr_restart_redo-replay_example =
    pgr_restart_redo-replay begun_log one_update
      (pager_on (flushed_at (append_all begun_log one_update) 0)) redo_ctx (λ _. 0) (λ _. blank) 0
      begun-IsWal (omega arith) refl refl
      (λ pg. record { so_far = refl; behind = omega arith; listed = redo_ctx-Covered pg })

-- Transaction 1 has updated page 5 and not committed.
abbrev unfinished : List Record
unfinished = begin 1 ∷ update 1 0 5 blank filled ∷ []

abbrev crashed : Pager
crashed = pager_on (flushed_at (append_all empty_log unfinished) 0)

empty-IsWal : IsWal empty_log
empty-IsWal = record { behind = omega arith; fits = omega arith; within = tt }

crashed_analysed :
    (q : Pager) × (a : Aries) × (pgr_restart_analysis crashed (aries_ctx_create 0)
      ≡ some (q, a, success))
unfolding pgr_restart_analysis analysis_scan analysis_loop analysis_read analysis_next
    analysis_record analysis_switch with_dpt note_txn add_txn txnt_insert_txn_if_not_exists txnt_get
    txn_update update_max_txid wrh_get_tid wrh_get_prev_lsn analysis_finish analysis_end flush_ends
    is_over remove_done txnt_remove_txn dpgt_min_rec_lsn aries_ctx_create wal_append flush_all
    wal_read_entry wal_read_next read_at write_pieces walos_write_all write_loop make_room rec_len
    pieces total find_at dpe_get note_dirty dpgt_add
crashed_analysed = (_, _, refl)

restart_loses_undo_example :
    (crashed_analysed.1.txt ≡ [])
    × ((fuel : ℕ) (r : Pager) (b : Aries)
        → pgr_restart_undo (suc fuel) r (record b { txt = crashed_analysed.1.txt })
          ≡ some (r, record b { txt = crashed_analysed.1.txt }, success))
restart_loses_undo_example =
    restart_loses_undo empty_log unfinished crashed crashed_analysed.0 crashed_analysed.1
      empty-IsWal (refl, (refl, tt)) refl crashed_analysed.2
