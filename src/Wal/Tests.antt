-- ===== src/Wal/Tests.antt =====
-- The properties of the log at a concrete log.
use numstore.Prelude.{◌+◌, [], ◌∷◌, ◌≡◌, arith}
use numstore.Wal.{begin, commit, end, rec_len, Wal, flush_all, wal_append, got, wal_read_entry}
use numstore.Wal.Laws.{IsWal}
use numstore.Wal.RoundTrip.{append_all, wal_append-read, read_all, flushed_at, append_all-read_all}

abbrev empty_log : Wal
empty_log = record { log = []; flushed = 0; next = 0; curlsn = 0 }

empty_log-IsWal : IsWal empty_log
empty_log-IsWal = record { behind = omega arith; fits = omega arith; within = tt }

wal_append-read_example :
    let (w1, l) = wal_append empty_log (begin 7) in
    let w2 = flush_all (append_all w1 (commit 7 0 ∷ end 7 13 ∷ [])) in
    wal_read_entry w2 l ≡ (record w2 { curlsn = l + rec_len (begin 7) }, got (begin 7))
wal_append-read_example =
    wal_append-read empty_log (begin 7) (commit 7 0 ∷ end 7 13 ∷ []) empty_log-IsWal tt
      (tt, (tt, tt))

append_all-read_all_example :
    read_all 3 (flushed_at (append_all empty_log (begin 7 ∷ commit 7 0 ∷ [])) 0)
    ≡ begin 7 ∷ commit 7 0 ∷ []
append_all-read_all_example =
    append_all-read_all empty_log (begin 7 ∷ commit 7 0 ∷ []) 3 empty_log-IsWal (tt, (tt, tt))
      (omega arith)
