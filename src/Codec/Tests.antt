-- ===== src/Codec/Tests.antt =====
-- Log records at concrete bytes.
use numstore.Prelude.{ℕ, List, [], ◌∷◌, ◌++◌, some, ◌≡◌, refl, arith, length, take, map}
use numstore.Wal.{Txn, tx_running, DpgEntry, commit, ckpt_end, rec_len}
use numstore.Wal.{candidate}
use numstore.Wal.{rev_onto}
use numstore.Codec.Checkpoint.{ckpt_end-walf_pread}
use numstore.Pager.{dpe_get}
use numstore.Serial.{has_txn, le_bytes}
use numstore.Codec.{
  crc_byte, crc_rounds, crc_loop, checksum_execute, piece_bytes, walf_write, walf_pread, parsed,
  at_eof, put_pieces, put_piece,
}
use numstore.Codec.RoundTrip.{walf_write-pread}
use numstore.Codec.Cut.{walf_pread-cut}

-- The check value of CRC-32C, of the nine digits.
check_value : checksum_execute 0 (49 ∷ 50 ∷ 51 ∷ 52 ∷ 53 ∷ 54 ∷ 55 ∷ 56 ∷ 57 ∷ []) ≡ 3808858755
unfolding checksum_execute crc_loop crc_byte crc_rounds
check_value = refl

walf_write-pread_example :
    (bytes : List ℕ) × (walf_write (commit 258 70000) ≡ some bytes)
    × (length bytes ≡ rec_len (commit 258 70000))
    × walf_pread (bytes ++ (9 ∷ 9 ∷ [])) ≡ parsed (commit 258 70000) (9 ∷ 9 ∷ [])
walf_write-pread_example =
    walf_write-pread (commit 258 70000) (9 ∷ 9 ∷ []) (omega arith, omega arith)

abbrev commit_bytes : List ℕ
commit_bytes =
    2 ∷ 2 ∷ 1 ∷ 0 ∷ 0 ∷ 0 ∷ 0 ∷ 0 ∷ 0 ∷ 112 ∷ 17 ∷ 1 ∷ 0 ∷ 0 ∷ 0 ∷ 0 ∷ 0 ∷ 51 ∷ 145 ∷ 64 ∷ 107 ∷ []

written : walf_write (commit 258 70000) ≡ some commit_bytes
unfolding walf_write piece_bytes put_pieces put_piece le_bytes checksum_execute crc_loop crc_byte
    crc_rounds
written = refl

walf_pread-cut_example : walf_pread (take 20 commit_bytes) ≡ at_eof
walf_pread-cut_example =
    walf_pread-cut (commit 258 70000) commit_bytes 20 (omega arith, omega arith) written
      (omega arith)

abbrev txns : List Txn
txns =
    record {
      tid = 258;
      data_of = record { state = tx_running; last_lsn = 70000; undo_next_lsn = 13 };
    }
    ∷ []

abbrev dirty : List DpgEntry
dirty = record { pg = 5; rec_lsn = 13 } ∷ record { pg = 6; rec_lsn = 4200 } ∷ []

ckpt_end-walf_pread_example :
    (bytes : List ℕ) × (walf_write (ckpt_end txns dirty) ≡ some bytes)
    × (length bytes ≡ rec_len (ckpt_end txns dirty))
    × walf_pread (bytes ++ (9 ∷ 9 ∷ []))
      ≡ parsed (ckpt_end (map candidate txns) (rev_onto dirty [])) (9 ∷ 9 ∷ [])
unfolding has_txn dpe_get
ckpt_end-walf_pread_example =
    ckpt_end-walf_pread txns dirty (9 ∷ 9 ∷ []) (omega arith) (omega arith) (refl, tt)
      (refl, (refl, tt)) (omega arith) (omega arith)
