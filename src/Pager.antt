-- ===== src/Pager.antt =====
-- libs/nspager/pager.c, txn_table.c, dirty_page_table.c and file_pager.c in normal operation: a
-- transaction begins, saves pages and commits; a page is evicted; a checkpoint is taken.
-- `pages` is what a read through the buffer pool gives, `disk` what the database file holds.
-- Transactions are named by their ids; `txns` is the memory that holds the `struct txn`.
pub mod Rollback
pub mod Log
pub mod WalRule
pub mod Abort
pub mod Checkpoint
pub mod AfterCheckpoint
pub mod Undo
mod Tests
use numstore.Prelude.{
  ℕ, ◌+◌, ◌-◌, ◌%◌, Bool, true, false, not, ◌&&◌, List, [], ◌∷◌, Option, none, some, ltb, leb, ◌==◌,
  if◌then◌else◌, length, map,
}
use numstore.Wal.{
  Page, TxState, tx_running, tx_candidate_for_undo, tx_committed, tx_done, TxnData, Txn, DpgEntry,
  Record, begin, commit, end, update, clr, ckpt_begin, ckpt_end, Wal, wal_append, flush_all,
}

-- The slots of `_table` in `struct dpg_table`.
abbrev pub dpgt_cap : ℕ
dpgt_cap = 100000

abbrev pub root_page : ℕ
root_page = 0

-- `err_t`, as far as these operations return it; a failed ASSERT, at which the program ends; and the return of
-- `pgr_checkpoint` that takes an LSN for an error.
pub data Code : Type 0 where
  success err_duplicate_commit err_dpgt_full err_corrupt failed_assert returned_early : Code

-- `struct pager`, as far as transactions, the log and page contents go.
pub record Pager : Type 0 where
  pub wal : Wal
  pub restarting : Bool
  pub dpt : List DpgEntry
  pub tnxt : List ℕ
  pub next_tid : ℕ
  pub txns : ℕ → TxnData
  pub pages : ℕ → Page
  pub disk : ℕ → Page
  pub dirty : ℕ → Bool

-- One cell of a memory, an array or a table is written.
abbrev pub put {ℓ} : {A : Type ℓ} → (ℕ → A) → ℕ → A → ℕ → A
put f i v j = if i == j then v else f j

-- `dpe_get`.
unfoldable pub dpe_get : List DpgEntry → ℕ → Option ℕ
dpe_get [] pg = none
dpe_get (d ∷ ds) pg = if d.pg == pg then some d.rec_lsn else dpe_get ds pg

-- `dpgt_add`.
unfoldable pub dpgt_add : List DpgEntry → ℕ → ℕ → Option (List DpgEntry)
dpgt_add t pg rec_lsn =
    if ltb (length t) dpgt_cap then some (record { pg = pg; rec_lsn = rec_lsn } ∷ t) else none

-- `dpgt_remove`.
unfoldable pub dpgt_remove : List DpgEntry → ℕ → List DpgEntry
dpgt_remove [] pg = []
dpgt_remove (d ∷ ds) pg = if d.pg == pg then ds else d ∷ dpgt_remove ds pg

unfoldable pub remove_tid : List ℕ → ℕ → List ℕ
remove_tid [] tid = []
remove_tid (t ∷ ts) tid = if t == tid then ts else t ∷ remove_tid ts tid

-- `pgr_begin_txn`, with the id of the new transaction.
unfoldable pub pgr_begin_txn : Pager → Pager × ℕ
pgr_begin_txn p =
    let tid = p.next_tid in
    let (w, l) = wal_append p.wal (begin tid) in
    (
      record p {
        wal = w;
        next_tid = tid + 1;
        txns = put p.txns tid (record { state = tx_running; last_lsn = l; undo_next_lsn = 0 });
        tnxt = tid ∷ p.tnxt;
      },
      tid,
    )

-- The entry for a page that an update with LSN `l` has made dirty.
unfoldable pub note_dirty : List DpgEntry → ℕ → ℕ → Option (List DpgEntry)
note_dirty t pg l = elim (dpe_get t pg) [ some _ ↦ some t | none ↦ dpgt_add t pg l ]

-- The update record that `pgr_save` writes; `new` is the frame behind `pgw`.
abbrev pub save_record : Pager → ℕ → ℕ → Page → Record
save_record p tid pg new = update tid (p.txns tid).last_lsn pg (p.pages pg) new

-- The transaction behind an update with LSN `l`.
abbrev pub saved_txn : TxnData → ℕ → TxnData
saved_txn d l = record d { last_lsn = l; undo_next_lsn = l }

-- `pgr_save`: the update is logged, and the page with its new LSN becomes what readers see. If the
-- dirty page table is full, the record and the transaction have been changed, and the page has not.
unfoldable pub pgr_save : Pager → ℕ → ℕ → Page → Pager × Code
pgr_save p tid pg new =
    let (w, l) = wal_append p.wal (save_record p tid pg new) in
    let p1 = record p {
      wal = w;
      txns = put p.txns tid (saved_txn (p.txns tid) l);
      dirty = put p.dirty pg true;
    } in
    elim (note_dirty p.dpt pg l) [
      | none ↦ (p1, err_dpgt_full)
      | some t ↦
          (record p1 { dpt = t; pages = put p.pages pg (record new { page_lsn = l }) }, success)
    ]

abbrev pub is_running : TxState → Bool
is_running tx_running = true
is_running _ = false

-- The lookup of `txnt_remove_txn_expect`.
unfoldable pub has_tid : List ℕ → ℕ → Bool
has_tid [] tid = false
has_tid (t ∷ ts) tid = if t == tid then true else has_tid ts tid

-- `pgr_commit`, with the ASSERT of `txnt_remove_txn_expect` that the transaction is in the table.
unfoldable pub pgr_commit : Pager → ℕ → Pager × Code
pgr_commit p tid =
    let d = p.txns tid in
    let (w, l) = wal_append p.wal (commit tid d.last_lsn) in
    let (w', _) = wal_append (flush_all w) (end tid l) in
    if is_running d.state
    then if has_tid p.tnxt tid
      then (
        record p {
          wal = w';
          tnxt = remove_tid p.tnxt tid;
          txns = put p.txns tid (record d { state = tx_done });
        },
        success,
      )
      else (record p { wal = w' }, failed_assert)
    else (p, err_duplicate_commit)

-- `pgr_flush_wall`.
unfoldable pub pgr_flush_wall : Pager → Pager
pgr_flush_wall p = record p { wal = flush_all p.wal }

-- `pgr_evict` of the frame that holds page `pg`.
unfoldable pub pgr_evict : Pager → ℕ → Pager
pgr_evict p pg =
    if p.dirty pg
    then record p {
      wal = if p.restarting then p.wal else flush_all p.wal;
      disk = put p.disk pg (p.pages pg);
      dirty = put p.dirty pg false;
      dpt = dpgt_remove p.dpt pg;
    }
    else p

-- The transactions of the table, as `txnt_serialize` goes through them.
abbrev pub table_txns : Pager → List Txn
table_txns p = map (λ t. record { tid = t; data_of = p.txns t }) p.tnxt

-- What follows the record of the checkpoint's begin at the LSN `l`. The ASSERT of `dpgt_serialize` on a dirty page table
-- of more than 100 pages is in Serial and not repeated here.
unfoldable pub ckpt_log_end : (ℕ → Page → Page) → Pager → Wal → ℕ → Pager × ℕ × Code
ckpt_log_end set_master p w l =
    let (w', _) = wal_append w (ckpt_end (table_txns p) p.dpt) in
    let (p', tid) = pgr_begin_txn (record p { wal = w' }) in
    let (q, c) = pgr_save p' tid root_page (set_master l (p'.pages root_page)) in (q, tid, c)

-- An LSN is negative as an `int`, which `err_t_wrap` makes of it.
abbrev pub negative_int : ℕ → Bool
negative_int l = leb 2147483648 (l % 4294967296)

-- The first part of `pgr_checkpoint`, up to `pgr_save` of the root page: the state, the id of the
-- transaction that it opens, and the result of that save. `set_master` is `rn_set_master_lsn`.
unfoldable pub ckpt_log : (ℕ → Page → Page) → Pager → Pager × ℕ × Code
ckpt_log set_master p =
    let (w, l) = wal_append p.wal ckpt_begin in
    if negative_int l
    then (record p { wal = w }, 0, returned_early)
    else ckpt_log_end set_master p w l

-- `fpgr_write` of the root page in `pgr_checkpoint`.
unfoldable pub ckpt_write_root : Pager → Pager
ckpt_write_root p = record p { disk = put p.disk root_page (p.pages root_page) }

-- The rest of `pgr_checkpoint`.
unfoldable pub ckpt_finish : Pager × ℕ × Code → Pager × Code
ckpt_finish (q, tid, success) = pgr_commit (pgr_flush_wall (ckpt_write_root q)) tid
ckpt_finish (q, tid, returned_early) = (q, success)
ckpt_finish (q, tid, c) = (q, c)

-- `pgr_checkpoint`.
unfoldable pub pgr_checkpoint : (ℕ → Page → Page) → Pager → Pager × Code
pgr_checkpoint set_master p = ckpt_finish (ckpt_log set_master p)
