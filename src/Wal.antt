-- ===== src/Wal.antt =====
-- libs/nspager/wal.c, wal_file.c, wal_ostream.c, wal_istream.c and wal_rec_hdr.h: the write-ahead log.
-- A record keeps its fields as values; where it lies in the file is kept in bytes, since an LSN is a
-- byte offset. The bytes behind `flushed` are in the output buffer and not yet in the file, and a
-- read sees the file alone.
pub mod Laws
pub mod Room
pub mod RoundTrip
mod Tests
use numstore.Prelude.{
  ℕ, zero, suc, min, ◌+◌, ◌-◌, Bool, true, false, List, [], ◌∷◌, map, Option, none, some, ltb, leb,
  ◌==◌, if◌then◌else◌, length,
}
use numstore.Prelude.{◌*◌}

-- `page`: its LSN, and the rest of its PAGE_SIZE bytes.
pub record Page : Type 0 where
  pub page_lsn : ℕ
  pub body : List ℕ

-- `enum tx_state`.
pub data TxState : Type 0 where
  tx_running tx_candidate_for_undo tx_committed tx_done : TxState

-- `struct txn_data`.
pub record TxnData : Type 0 where
  pub state : TxState
  pub last_lsn : ℕ
  pub undo_next_lsn : ℕ

-- `struct txn`, without its latch and its hash node.
pub record Txn : Type 0 where
  pub tid : ℕ
  pub data_of : TxnData

-- `struct dpg_entry`.
pub record DpgEntry : Type 0 where
  pub pg : ℕ
  pub rec_lsn : ℕ

-- `struct wal_rec_hdr_read`, a case for each record type that is stored.
pub data Record : Type 0 where
  begin : (tid : ℕ) → Record
  commit : (tid prev : ℕ) → Record
  end : (tid prev : ℕ) → Record
  update : (tid prev pg : ℕ) (undo redo : Page) → Record
  clr : (tid prev pg undo_next : ℕ) (redo : Page) → Record
  ckpt_begin : Record
  ckpt_end : (att : List Txn) (dpt : List DpgEntry) → Record

abbrev pub page_size : ℕ
page_size = 2048

abbrev pub wal_buffer_cap : ℕ
wal_buffer_cap = 1000000

-- The lengths of the pieces that the writer of each record type hands to `walos_write_all`.
unfoldable pub pieces : Record → List ℕ
pieces (begin _) = 1 ∷ 8 ∷ 4 ∷ []
pieces (commit _ _) = 1 ∷ 8 ∷ 8 ∷ 4 ∷ []
pieces (end _ _) = 1 ∷ 8 ∷ 8 ∷ 4 ∷ []
pieces (update _ _ _ _ _) = 1 ∷ 8 ∷ 8 ∷ 8 ∷ page_size ∷ page_size ∷ 4 ∷ []
pieces (clr _ _ _ _ _) = 1 ∷ 8 ∷ 8 ∷ 8 ∷ 8 ∷ page_size ∷ 4 ∷ []
pieces ckpt_begin = 1 ∷ 4 ∷ []
pieces (ckpt_end att dpt) = 1 ∷ 4 ∷ 4 ∷ (length att * 24) ∷ (length dpt * 16) ∷ 4 ∷ []

unfoldable pub total : List ℕ → ℕ
total [] = 0
total (n ∷ ns) = n + total ns

-- WL_BEGIN_LEN, WL_UPDATE_LEN and so on.
unfoldable pub rec_len : Record → ℕ
rec_len r = total (pieces r)

-- A record, and the byte offset at which it begins.
pub record Entry : Type 0 where
  pub at : ℕ
  pub rec : Record

-- `struct wal`: `log` holds the newest record first, `next` is `flushed_lsn + cbuffer_len (buffer)`,
-- and `curlsn` is where the input stream stands.
pub record Wal : Type 0 where
  pub log : List Entry
  pub flushed : ℕ
  pub next : ℕ
  pub curlsn : ℕ

-- `walos_flush_to_impl` up to the end of the buffer.
unfoldable pub flush_all : Wal → Wal
flush_all w = record w { flushed = w.next }

abbrev pub avail : Wal → ℕ
avail w = wal_buffer_cap - (w.next - w.flushed)

-- The first half of a round in `walos_write_all`: what does not fit flushes the buffer.
unfoldable pub make_room : Wal → ℕ → Wal
make_room w left = if ltb (avail w) left then flush_all w else w

-- The loop of `walos_write_all`, with as much fuel as bytes are left: a round writes at least one.
unfoldable pub write_loop : ℕ → Wal → ℕ → Wal
write_loop zero w left = w
write_loop (suc fuel) w left =
    let w1 = make_room w left in
    let n = min left (avail w1) in
    let rest = write_loop fuel (record w1 { next = w1.next + n }) (left - n) in
    if left == 0 then w else rest

unfoldable pub walos_write_all : Wal → ℕ → Wal
walos_write_all w len = write_loop len w len

-- The pieces of one record, in order.
unfoldable pub write_pieces : Wal → List ℕ → Wal
write_pieces w [] = w
write_pieces w (n ∷ ns) = write_pieces (walos_write_all w n) ns

-- `walf_write`, under each `wal_append_*_log`: the record, and the LSN that it got. The ASSERTs of the writers are left to
-- the callers: a compensation record has a next LSN to undo that is not 0.
unfoldable pub wal_append : Wal → Record → Wal × ℕ
wal_append w r =
    let w' = write_pieces w (pieces r) in
    (record w' { log = record { at = w.next; rec = r } ∷ w.log }, w.next)

-- The transaction as the reading of a checkpoint makes it.
abbrev pub candidate : Txn → Txn
candidate tx = record {
  tid = tx.tid;
  data_of = record {
    state = tx_candidate_for_undo;
    last_lsn = tx.data_of.last_lsn;
    undo_next_lsn = tx.data_of.undo_next_lsn;
  };
}

-- The entries of a list, each put before those that were put before it.
abbrev pub rev_onto : List DpgEntry → List DpgEntry → List DpgEntry
rev_onto [] t = t
rev_onto (e ∷ es) t = rev_onto es (e ∷ t)

-- A record as its reading gives it back: the tables of a checkpoint are made anew from their bytes, with every
-- transaction a candidate for undo and each page put before those read before it. Codec has the bytes.
abbrev pub decoded : Record → Record
decoded (ckpt_end att dpt) = ckpt_end (map candidate att) (rev_onto dpt [])
decoded r = r

-- What a read gives: a record, the end of the file (`WL_EOF`), or an error.
pub data ReadResult : Type 0 where
  got : Record → ReadResult
  eof corrupt : ReadResult

unfoldable pub find_at : List Entry → ℕ → Option Record
find_at [] l = none
find_at (e ∷ es) l = if e.at == l then some e.rec else find_at es l

-- A record that is only partly in the file counts as the end of the file.
unfoldable pub read_at : Wal → ℕ → Option Record → Wal × ReadResult
read_at w l none = (record w { curlsn = l }, corrupt)
read_at w l (some r) =
    if leb (l + rec_len r) w.flushed
    then (record w { curlsn = l + rec_len r }, got (decoded r))
    else (record w { curlsn = l }, eof)

-- `walf_pread`: seek, then read. An offset inside a record fails the check of its header or CRC.
unfoldable pub wal_read_entry : Wal → ℕ → Wal × ReadResult
wal_read_entry w l =
    if leb w.flushed l then (record w { curlsn = l }, eof) else read_at w l (find_at w.log l)

-- `walf_read`: the next record, with its LSN.
unfoldable pub wal_read_next : Wal → Wal × ℕ × ReadResult
wal_read_next w = let (w', r) = wal_read_entry w w.curlsn in (w', w.curlsn, r)
