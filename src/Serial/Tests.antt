-- ===== src/Serial/Tests.antt =====
-- Serialization at concrete tables.
use numstore.Prelude.{List, [], ◌∷◌, none, ◌≡◌, refl, arith}
use numstore.Wal.{Txn, tx_running, DpgEntry}
use numstore.Serial.{le_bytes, txnt_serialize}
use numstore.Serial.Txns.{txnt_serialize-full}

abbrev running_txn : Txn
running_txn = record {
  tid = 258;
  data_of = record { state = tx_running; last_lsn = 70000; undo_next_lsn = 13 };
}

bytes_of_tid : le_bytes 8 258 ≡ 2 ∷ 1 ∷ 0 ∷ 0 ∷ 0 ∷ 0 ∷ 0 ∷ 0 ∷ []
unfolding le_bytes
bytes_of_tid = refl

abbrev two_txns : List Txn
two_txns = running_txn ∷ record running_txn { tid = 259 } ∷ []

txnt_serialize-full_example : txnt_serialize 47 two_txns ≡ none
txnt_serialize-full_example = txnt_serialize-full 47 two_txns (omega arith) (omega arith)

abbrev two_pages : List DpgEntry
two_pages = record { pg = 5; rec_lsn = 13 } ∷ record { pg = 6; rec_lsn = 4200 } ∷ []
