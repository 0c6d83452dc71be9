-- ===== src/Pager/Tests.antt =====
-- Runs of the pager, and its properties at concrete states.
use numstore.Prelude.{◌+◌, ◌≤◌, false, [], ◌∷◌, some, ◌≡◌, refl, arith, inl}
use numstore.Wal.{
  wal_append, Page, TxnData, tx_running, tx_done, begin, commit, update, ckpt_begin, rec_len,
  pieces, total, find_at,
}
use numstore.Wal.Laws.{IsWal}
use numstore.Pager.{
  Pager, success, err_duplicate_commit, put, pgr_begin_txn, pgr_save, pgr_evict, pgr_commit,
  has_tid, ckpt_log_end, pgr_flush_wall, pgr_checkpoint, ckpt_log, ckpt_write_root, root_page,
  note_dirty, dpe_get, dpgt_add, dpgt_remove,
}
use numstore.Pager.Rollback.{pgr_rollback}
use numstore.Pager.Undo.{Chain, at_begin, at_update, SameBodies, RolledBack, pgr_rollback-restore}
use numstore.Pager.Abort.{Saves, none_yet, save, evict, abort_restores, pgr_commit_durable}
use numstore.Pager.WalRule.{
  Obeys, IsDurable, Reach, start, later, begins, saves, evicts, write_ahead,
}
use numstore.Pager.AfterCheckpoint.{pgr_checkpoint-Obeys}
use numstore.Pager.Checkpoint.{checkpoint_breaks_rule}

abbrev blank : Page
blank = record { page_lsn = 0; body = [] }

abbrev filled : Page
filled = record { page_lsn = 0; body = 7 ∷ [] }

abbrev no_txn : TxnData
no_txn = record { state = tx_done; last_lsn = 0; undo_next_lsn = 0 }

-- A pager on an empty database.
abbrev fresh : Pager
fresh = record {
  wal = record { log = []; flushed = 0; next = 0; curlsn = 0 };
  restarting = false;
  dpt = [];
  tnxt = [];
  next_tid = 1;
  txns = λ _. no_txn;
  pages = λ _. blank;
  disk = λ _. blank;
  dirty = λ _. false;
}

fresh-IsWal : IsWal fresh.wal
fresh-IsWal = record { behind = omega arith; fits = omega arith; within = tt }

-- The same, with a record in the log.
abbrev started : Pager
started = record fresh {
  wal = record {
    log = record { at = 0; rec = ckpt_begin } ∷ [];
    flushed = 5;
    next = 5;
    curlsn = 0;
  };
}

started-IsWal : IsWal started.wal
unfolding rec_len total pieces
started-IsWal = record { behind = omega arith; fits = omega arith; within = (omega arith, tt) }

-- Transaction 1 saves page 5, which is then evicted, and page 6.
two_saves : (q : Pager) × Saves (pgr_begin_txn started).0 (pgr_begin_txn started).1 q
unfolding pgr_save note_dirty dpe_get dpgt_add pgr_begin_txn pgr_evict dpgt_remove
two_saves = (_, save 6 filled (evict 5 (save 5 filled none_yet refl)) refl)

abort_restores_example :
    (r : Pager) × (pgr_rollback (pgr_flush_wall two_saves.0) (pgr_begin_txn started).1 0
      ≡ some (r, success))
    × SameBodies r.pages started.pages
abort_restores_example = abort_restores started started-IsWal (omega arith) two_saves.1

-- The log of transaction 1, which has updated page 5.
abbrev half_done : Pager
half_done = record fresh {
  wal = record {
    log =
        record { at = 18; rec = update 1 5 5 blank filled }
        ∷ record { at = 5; rec = begin 1 }
        ∷ record { at = 0; rec = ckpt_begin }
        ∷ [];
    flushed = 4143;
    next = 4143;
    curlsn = 0;
  };
  txns = λ _. record { state = tx_running; last_lsn = 18; undo_next_lsn = 18 };
  pages = put (λ _. blank) 5 filled;
  next_tid = 2;
  tnxt = 1 ∷ [];
}

half_done-IsWal : IsWal half_done.wal
unfolding rec_len total pieces
half_done-IsWal = record {
  behind = omega arith;
  fits = omega arith;
  within = (omega arith, (omega arith, (omega arith, tt)));
}

half_done-Chain : Chain half_done.wal.log 4143 18 ((5, blank) ∷ [])
unfolding rec_len total pieces find_at
half_done-Chain =
    at_update refl (omega arith) (omega arith) (omega arith) (at_begin refl (omega arith))

pgr_rollback-restore_example :
    (q : Pager) × (pgr_rollback half_done 1 0 ≡ some (q, success))
    × RolledBack half_done 1 ((5, blank) ∷ []) q
pgr_rollback-restore_example = pgr_rollback-restore half_done 1 half_done-IsWal half_done-Chain

pgr_commit_durable_example :
    let (q, c) = pgr_commit half_done 1 in
    (c ≡ success)
    × ((q.txns 1).state ≡ tx_done)
    × (find_at q.wal.log 4143 ≡ some (commit 1 18))
    × (4143 + rec_len (commit 1 18) ≤ q.wal.flushed)
    × (q.pages ≡ half_done.pages)
    × (pgr_commit q 1 ≡ (q, err_duplicate_commit))
unfolding has_tid
pgr_commit_durable_example = pgr_commit_durable half_done 1 half_done-IsWal refl refl

fresh-Obeys : Obeys fresh
fresh-Obeys = (
  refl,
  record {
    valid = fresh-IsWal;
    pages_past = λ _. inl refl;
    disk_past = λ _. inl refl;
    rule = λ _. tt;
  },
)

-- A page is saved and evicted.
saved_and_evicted : (q : Pager) × Reach fresh q
saved_and_evicted = (_, later (later (later start begins) (saves 1 5 filled)) (evicts 5))

write_ahead_example : IsDurable saved_and_evicted.0.wal (saved_and_evicted.0.disk 5).page_lsn
write_ahead_example = write_ahead 5 fresh-Obeys saved_and_evicted.1

checkpoint_breaks_rule_example :
    let q = ckpt_write_root (ckpt_log (λ _ g. g) fresh).0 in
    ¬ IsDurable q.wal (q.disk root_page).page_lsn
unfolding rec_len total pieces ckpt_log ckpt_log_end pgr_save note_dirty dpe_get dpgt_add
    pgr_begin_txn wal_append
checkpoint_breaks_rule_example =
    checkpoint_breaks_rule (λ _ g. g) fresh fresh-IsWal (omega arith) refl

pgr_checkpoint-Obeys_example : Obeys (pgr_checkpoint (λ _ g. g) fresh).0
pgr_checkpoint-Obeys_example = pgr_checkpoint-Obeys (λ _ g. g) fresh fresh-Obeys
