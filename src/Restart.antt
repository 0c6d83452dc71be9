-- ===== src/Restart.antt =====
-- Restart recovery, `pgr_restart` of libs/nspager/pager.c: its context `struct aries_ctx`, the analysis
-- of the log and the operations of txn_table.c and dirty_page_table.c that it calls. The redo and undo
-- passes are in the children.
-- A `struct txn` is a cell of `bank`, the buffer `txns` of the context, and the table holds the indices
-- of cells; the newest entry of a table is visited first. `none` means that the fuel ran out or that
-- an ASSERT failed.
pub mod Redo
pub mod Undo
pub mod Reads
pub mod Images
pub mod Repeat
pub mod Table
pub mod Ends
pub mod Losers
mod Tests
use numstore.Prelude.{
  ℕ, zero, suc, ◌+◌, ◌-◌, ◌^◌, Bool, true, false, ◌&&◌, ◌||◌, List, [], ◌∷◌, Option, none, some,
  ltb, ◌==◌, if◌then◌else◌,
}
use numstore.Wal.{
  TxState, tx_running, tx_candidate_for_undo, tx_committed, tx_done, TxnData, Txn, DpgEntry, Record,
  begin, commit, end, update, clr, ckpt_begin, ckpt_end, Wal, wal_append, ReadResult, got, eof,
  corrupt, wal_read_entry, wal_read_next,
}
use numstore.Pager.{Pager, Code, success, err_dpgt_full, err_corrupt, put, note_dirty, dpgt_remove}

-- `struct aries_ctx`; `nelem` is the number of cells of the bank that are allocated.
pub record Aries : Type 0 where
  pub master_lsn : ℕ
  pub redo_lsn : ℕ
  pub txt : List ℕ
  pub bank : ℕ → Txn
  pub nelem : ℕ
  pub dpt : List DpgEntry
  pub max_tid : ℕ

abbrev pub empty_txn : Txn
empty_txn = record {
  tid = 0;
  data_of = record { state = tx_running; last_lsn = 0; undo_next_lsn = 0 };
}

-- `aries_ctx_create`.
unfoldable pub aries_ctx_create : ℕ → Aries
aries_ctx_create master_lsn = record {
  master_lsn = master_lsn;
  redo_lsn = 0;
  txt = [];
  bank = λ _. empty_txn;
  nelem = 0;
  dpt = [];
  max_tid = 0;
}

-- `wrh_get_tid`, where `none` is -1.
unfoldable pub wrh_get_tid : Record → Option ℕ
wrh_get_tid (begin tid) = some tid
wrh_get_tid (commit tid _) = some tid
wrh_get_tid (end tid _) = some tid
wrh_get_tid (update tid _ _ _ _) = some tid
wrh_get_tid (clr tid _ _ _ _) = some tid
wrh_get_tid ckpt_begin = none
wrh_get_tid (ckpt_end _ _) = none

-- `wrh_get_prev_lsn` of a record that has a transaction.
unfoldable pub wrh_get_prev_lsn : Record → ℕ
wrh_get_prev_lsn (commit _ prev) = prev
wrh_get_prev_lsn (end _ prev) = prev
wrh_get_prev_lsn (update _ prev _ _ _) = prev
wrh_get_prev_lsn (clr _ prev _ _ _) = prev
wrh_get_prev_lsn r = 0

-- `update_max_txid`.
unfoldable pub update_max_txid : ℕ → Option ℕ → ℕ
update_max_txid cur none = cur
update_max_txid cur (some tid) = if ltb cur tid then tid else cur

-- `txnt_get`: the cell of the entry for a transaction.
unfoldable pub txnt_get : (ℕ → Txn) → List ℕ → ℕ → Option ℕ
txnt_get bank [] tid = none
txnt_get bank (i ∷ is) tid = if (bank i).tid == tid then some i else txnt_get bank is tid

-- `txnt_insert_txn_if_not_exists`.
unfoldable pub txnt_insert_txn_if_not_exists : (ℕ → Txn) → List ℕ → ℕ → List ℕ
txnt_insert_txn_if_not_exists bank t i = elim (txnt_get bank t (bank i).tid) [
  | some _ ↦ t
  | none ↦ i ∷ t
]

-- `txnt_remove_txn_expect` of an entry that is there.
unfoldable pub txnt_remove_txn : (ℕ → Txn) → List ℕ → ℕ → List ℕ
txnt_remove_txn bank [] tid = []
txnt_remove_txn bank (i ∷ is) tid =
    if (bank i).tid == tid then is else i ∷ txnt_remove_txn bank is tid

-- A transaction is written to the next cell of the bank and inserted unless the table has its id.
unfoldable pub add_txn : Aries → Txn → Aries
add_txn a tx =
    let bank = put a.bank a.nelem tx in
    record a {
      bank = bank;
      nelem = a.nelem + 1;
      txt = txnt_insert_txn_if_not_exists bank a.txt a.nelem;
    }

-- `merge_txn`: only a transaction that the table does not have is copied.
unfoldable pub merge_txn : Aries → Txn → Aries
merge_txn a tx = elim (txnt_get a.bank a.txt tx.tid) [ some _ ↦ a | none ↦ add_txn a tx ]

-- `txnt_merge_into` of the table of a checkpoint, whose transactions are candidates.
unfoldable pub txnt_merge_into : Aries → List Txn → Aries
txnt_merge_into a [] = a
txnt_merge_into a (tx ∷ txs) = txnt_merge_into (merge_txn a tx) txs

-- `dpgt_merge_into`: the entries of `src` replace those of `dest`.
unfoldable pub dpgt_merge_into : List DpgEntry → List DpgEntry → List DpgEntry
dpgt_merge_into dest [] = dest
dpgt_merge_into dest (e ∷ es) = dpgt_merge_into (e ∷ dpgt_remove dest e.pg) es

-- `dpgt_min_rec_lsn`, from `(lsn)-1`.
unfoldable pub dpgt_min_rec_lsn : List DpgEntry → ℕ
dpgt_min_rec_lsn [] = 2 ^ 64 - 1
dpgt_min_rec_lsn (e ∷ es) =
    if ltb e.rec_lsn (dpgt_min_rec_lsn es) then e.rec_lsn else dpgt_min_rec_lsn es

-- `txn_update` of the cell `i`.
unfoldable pub txn_update : Aries → ℕ → TxnData → Aries
txn_update a i d = record a { bank = put a.bank i (record { tid = (a.bank i).tid; data_of = d }) }

-- The transaction that `txn_init` makes of a record.
abbrev pub noted : (tid l prev : ℕ) → Txn
noted tid l prev = record {
  tid = tid;
  data_of = record { state = tx_candidate_for_undo; last_lsn = l; undo_next_lsn = prev };
}

-- The first part of a round: the record's transaction, if it has one, gets a new cell.
unfoldable pub note_txn : Aries → (l prev : ℕ) → Option ℕ → Aries
note_txn a l prev none = a
note_txn a l prev (some tid) = add_txn a (noted tid l prev)

-- The dirty page table with the page of an update, unless it was full.
unfoldable pub with_dpt : Aries → Option (List DpgEntry) → Aries × Code
with_dpt a none = (a, err_dpgt_full)
with_dpt a (some t) = (record a { dpt = t }, success)

-- The switch on the type of the record; `tx` is the cell that the round has allocated.
unfoldable pub analysis_switch : Aries → (tx l : ℕ) → Record → Aries × Code
analysis_switch a tx l (update _ _ pg _ _) =
    with_dpt (txn_update a tx (record (a.bank tx).data_of { last_lsn = l; undo_next_lsn = l }))
      (note_dirty a.dpt pg l)
analysis_switch a tx l (clr _ _ _ undo_next _) = (
  txn_update a tx (record (a.bank tx).data_of { last_lsn = l; undo_next_lsn = undo_next }),
  success,
)
analysis_switch a tx l ckpt_begin = (a, success)
analysis_switch a tx l (ckpt_end att dpt) =
    let a1 = txnt_merge_into a att in (record a1 { dpt = dpgt_merge_into a1.dpt dpt }, success)
analysis_switch a tx l (commit _ _) =
    (txn_update a tx (record (a.bank tx).data_of { state = tx_committed; last_lsn = l }), success)
analysis_switch a tx l (begin _) = (a, success)
analysis_switch a tx l (end tid _) = (record a { txt = txnt_remove_txn a.bank a.txt tid }, success)

-- One round of the loop of `pgr_restart_analysis`.
unfoldable pub analysis_record : Aries → ℕ → Record → Aries × Code
analysis_record a l r =
    let tid = wrh_get_tid r in
    let a1 = record a { max_tid = update_max_txid a.max_tid tid } in
    analysis_switch (note_txn a1 l (wrh_get_prev_lsn r) tid) a.nelem l r

-- What follows a round: the next one, or the end with its error.
unfoldable pub analysis_next :
    (Aries → Option (Wal × Aries × Code)) → Wal → Aries × Code → Option (Wal × Aries × Code)
analysis_next k w (a, success) = k a
analysis_next k w (a, c) = some (w, a, c)

unfoldable pub analysis_read :
    (Wal → Aries → Option (Wal × Aries × Code))
    → Aries
    → Wal × ℕ × ReadResult
    → Option (Wal × Aries × Code)
analysis_read k a (w, l, got r) = analysis_next (k w) w (analysis_record a l r)
analysis_read k a (w, l, eof) = some (w, a, success)
analysis_read k a (w, l, corrupt) = some (w, a, err_corrupt)

unfoldable pub analysis_loop : ℕ → Wal → Aries → Option (Wal × Aries × Code)
analysis_loop zero w a = none
analysis_loop (suc fuel) w a = analysis_read (analysis_loop fuel) a (wal_read_next w)

-- The test of `analaysis_end_phase_flush_ends`.
unfoldable pub is_over : TxnData → Bool
is_over d = elim d.state [
  | tx_candidate_for_undo ↦ d.undo_next_lsn == 0
  | tx_committed ↦ true
  | tx_running ↦ false
  | tx_done ↦ false
]

-- `analaysis_end_phase_flush_ends` of each entry of the table.
unfoldable pub flush_ends : Wal → (ℕ → Txn) → List ℕ → Wal × (ℕ → Txn)
flush_ends w bank [] = (w, bank)
flush_ends w bank (i ∷ is) =
    let tx = bank i in
    if is_over tx.data_of
    then flush_ends (wal_append w (end tx.tid tx.data_of.last_lsn)).0
        (put bank i (record tx { data_of = record tx.data_of { state = tx_done } })) is
    else flush_ends w bank is

abbrev pub is_done : TxState → Bool
is_done tx_done = true
is_done _ = false

-- The loop that removes the transactions that are done, `n` cells from the cell `i` on.
unfoldable pub remove_done : (ℕ → Txn) → ℕ → ℕ → List ℕ → List ℕ
remove_done bank zero i t = t
remove_done bank (suc n) i t =
    remove_done bank n (i + 1)
      (if is_done (bank i).data_of.state then txnt_remove_txn bank t (bank i).tid else t)

-- The end of `pgr_restart_analysis`.
unfoldable pub analysis_end : Pager → Wal × Aries × Code → Pager × Aries × Code
analysis_end p (w, a, success) =
    let (w', bank) = flush_ends w a.bank a.txt in
    (
      record p { wal = w' },
      record a {
        bank = bank;
        txt = remove_done bank a.nelem 0 a.txt;
        redo_lsn = dpgt_min_rec_lsn a.dpt;
      },
      success,
    )
analysis_end p (w, a, c) = (record p { wal = w }, a, c)

-- The scan with enough fuel: each round goes forward in the file.
unfoldable pub analysis_scan : Wal → Aries → Option (Wal × Aries × Code)
analysis_scan w a = analysis_loop (w.flushed + 1) w (record a { redo_lsn = 0 })

-- Where the scan begins: behind the master record, or where the log begins.
unfoldable pub analysis_start : Aries → Wal × ReadResult → Option (Wal × Aries × Code)
analysis_start a (w, got ckpt_begin) = analysis_scan w a
analysis_start a (w, r) = some (w, a, err_corrupt)

-- The label `theend`, where the scan got there.
unfoldable pub analysis_finish : Pager → Option (Wal × Aries × Code) → Option (Pager × Aries × Code)
analysis_finish p none = none
analysis_finish p (some r) = some (analysis_end p r)

unfoldable pub pgr_restart_analysis : Pager → Aries → Option (Pager × Aries × Code)
pgr_restart_analysis p a = analysis_finish p (
    if a.master_lsn == 0
    then analysis_scan p.wal a
    else analysis_start a (wal_read_entry p.wal a.master_lsn))
