-- ===== src/Codec.antt =====
-- The bytes of a log record: what libs/nspager/wal_file.c writes for it and reads back, with the decoding of
-- wal_rec_hdr.c and the checksum of libs/nscore/checksums.c. Numbers are little-endian, as in Serial.
pub mod Checksum
pub mod Decode
pub mod Cut
pub mod Checkpoint
pub mod Lengths
pub mod RoundTrip
mod Tests
use Prim.Native.Nat.{bit_xor}
use numstore.Prelude.{
  ℕ, zero, suc, ◌+◌, ◌-◌, ◌*◌, ◌/◌, ◌%◌, ◌^◌, Bool, true, false, List, [], ◌∷◌, ◌++◌, Option, none,
  some, ltb, ◌==◌, if◌then◌else◌, length, take, drop,
}
use numstore.Wal.{
  Page, Record, begin, commit, end, update, clr, ckpt_begin, ckpt_end, Txn, DpgEntry, page_size,
}
use numstore.Serial.{
  le_bytes, le_value, txnt_serialize, txnt_deserialize, txn_serial_unit, dpgt_serialize,
  dpgt_deserialize, DpgtRead, table, err_corrupt, failed_assert, ◌>>=◌,
}

-- The eight rounds for one entry of `_crc32c_tbl`.
unfoldable pub crc_rounds : ℕ → ℕ → ℕ
crc_rounds zero c = c
crc_rounds (suc k) c = crc_rounds k (bit_xor (c / 2) (if c % 2 == 1 then 2197175160 else 0))

-- One byte, on a 32-bit number.
unfoldable pub crc_byte : ℕ → ℕ → ℕ
crc_byte c b = bit_xor (c / 256) (crc_rounds 8 (bit_xor c b % 256)) % 2 ^ 32

-- The loop of `checksum_execute`.
unfoldable pub crc_loop : ℕ → List ℕ → ℕ
crc_loop c [] = c
crc_loop c (b ∷ bs) = crc_loop (crc_byte c b) bs

-- The complement of a 32-bit number.
abbrev pub complement : ℕ → ℕ
complement c = 2 ^ 32 - 1 - c

unfoldable pub checksum_execute : ℕ → List ℕ → ℕ
checksum_execute state bytes = complement (crc_loop (complement state) bytes)

abbrev pub checksum_init : ℕ
checksum_init = 0

-- The 2048 bytes of a page: its LSN stands at PG_PLSN_OFST.
unfoldable pub page_bytes : Page → List ℕ
page_bytes g = take 5 g.body ++ (le_bytes 8 g.page_lsn ++ drop 5 g.body)

unfoldable pub page_of : List ℕ → Page
page_of bs = record { page_lsn = le_value (take 8 (drop 5 bs)); body = take 5 bs ++ drop 13 bs }

-- A piece that may be empty is not written then.
unfoldable pub non_empty : List ℕ → List (List ℕ)
non_empty [] = []
non_empty (b ∷ bs) = (b ∷ bs) ∷ []

-- What `walf_write_update` and the other writers hand to `walos_write_all`, before the checksum; `none`
-- where an ASSERT fails, of the writer or of the serialization.
unfoldable pub piece_bytes : Record → Option (List (List ℕ))
piece_bytes (begin tid) = some ((1 ∷ []) ∷ le_bytes 8 tid ∷ [])
piece_bytes (commit tid prev) = some ((2 ∷ []) ∷ le_bytes 8 tid ∷ le_bytes 8 prev ∷ [])
piece_bytes (end tid prev) = some ((3 ∷ []) ∷ le_bytes 8 tid ∷ le_bytes 8 prev ∷ [])
piece_bytes (update tid prev pg undo redo) = some (
    (4 ∷ [])
    ∷ le_bytes 8 tid
    ∷ le_bytes 8 prev
    ∷ le_bytes 8 pg
    ∷ page_bytes undo
    ∷ page_bytes redo
    ∷ [])
piece_bytes (clr tid prev pg undo_next redo) =
    if undo_next == 0
    then none
    else some (
        (5 ∷ [])
        ∷ le_bytes 8 tid
        ∷ le_bytes 8 prev
        ∷ le_bytes 8 pg
        ∷ le_bytes 8 undo_next
        ∷ page_bytes redo
        ∷ [])
piece_bytes ckpt_begin = some ((6 ∷ []) ∷ [])
piece_bytes (ckpt_end att dpt) = do
  a ← txnt_serialize (length att * txn_serial_unit) att
  d ← dpgt_serialize dpt
  some ((7 ∷ []) ∷ le_bytes 4 (length a) ∷ le_bytes 4 (length d) ∷ (non_empty a ++ non_empty d))

-- `walos_write_all` with a checksum: the bytes written so far, and the checksum of them.
unfoldable pub put_piece : List ℕ × ℕ → List ℕ → List ℕ × ℕ
put_piece (out, checksum) bytes = (out ++ bytes, checksum_execute checksum bytes)

unfoldable pub put_pieces : List ℕ × ℕ → List (List ℕ) → List ℕ × ℕ
put_pieces o [] = o
put_pieces o (p ∷ ps) = put_pieces (put_piece o p) ps

-- `walf_write`: the bytes of a record.
unfoldable pub walf_write : Record → Option (List ℕ)
walf_write r = do
  ps ← piece_bytes r
  let o = put_pieces ([], checksum_init) ps
  some (o.0 ++ le_bytes 4 o.1)

-- What a read gives: a record and what lies behind it, the end of the file, an error, or a failed ASSERT.
pub data Parsed : Type 0 where
  parsed : Record → List ℕ → Parsed
  at_eof corrupt failed : Parsed

-- `walf_decode_update` and the others, of the bytes between the type and the checksum.
unfoldable pub decode_begin : List ℕ → Record
decode_begin b = begin (le_value (take 8 b))

unfoldable pub decode_commit : List ℕ → Record
decode_commit b = commit (le_value (take 8 b)) (le_value (take 8 (drop 8 b)))

unfoldable pub decode_end : List ℕ → Record
decode_end b = end (le_value (take 8 b)) (le_value (take 8 (drop 8 b)))

unfoldable pub decode_update : List ℕ → Record
decode_update b =
    let b1 = drop 8 b in
    let b2 = drop 8 b1 in
    let b3 = drop 8 b2 in
    update (le_value (take 8 b)) (le_value (take 8 b1)) (le_value (take 8 b2))
      (page_of (take page_size b3)) (page_of (take page_size (drop page_size b3)))

unfoldable pub decode_clr : List ℕ → Record
decode_clr b =
    let b1 = drop 8 b in
    let b2 = drop 8 b1 in
    let b3 = drop 8 b2 in
    clr (le_value (take 8 b)) (le_value (take 8 b1)) (le_value (take 8 b2)) (le_value (take 8 b3))
      (page_of (take page_size (drop 8 b3)))

-- The checksum and what follows it.
unfoldable pub read_checksum : ℕ → List ℕ → (List ℕ → Parsed) → Parsed
read_checksum checksum s k =
    if ltb (length s) 4
    then at_eof
    else if checksum == le_value (take 4 s)
    then k (drop 4 s)
    else corrupt

-- `walf_read_full` of a record of type `t` with `n` bytes between the type and the checksum.
unfoldable pub walf_read_full : (t n : ℕ) → (List ℕ → Record) → List ℕ → Parsed
walf_read_full t n decode s =
    let c = checksum_execute checksum_init (t ∷ []) in
    let c' = if n == 0 then c else checksum_execute c (take n s) in
    if ltb (length s) n
    then at_eof
    else read_checksum c' (drop n s) (λ rest. parsed (decode (take n s)) rest)

-- `walf_decode_ckpt_end`: the two tables.
unfoldable pub decode_tables : Option (List Txn) → DpgtRead → List ℕ → Parsed
decode_tables none d rest = failed
decode_tables (some att) (table dpt) rest = parsed (ckpt_end att dpt) rest
decode_tables (some att) err_corrupt rest = corrupt
decode_tables (some att) failed_assert rest = failed

-- `walf_read_ckpt_end_full` and the decoding; the sum of the two sizes is a 32-bit number.
unfoldable pub walf_read_ckpt_end : List ℕ → Parsed
walf_read_ckpt_end s =
    let attsize = le_value (take 4 s) in
    let dptsize = le_value (take 4 (drop 4 s)) in
    let n = (attsize + dptsize) % 2 ^ 32 in
    let s1 = drop 8 s in
    let c = checksum_execute (checksum_execute checksum_init (7 ∷ [])) (take 8 s) in
    let c' = if n == 0 then c else checksum_execute c (take n s1) in
    if ltb (length s) 8
    then at_eof
    else if ltb (length s1) n
    then at_eof
    else read_checksum c' (drop n s1) (
        decode_tables (txnt_deserialize (take attsize s1))
          (dpgt_deserialize (take dptsize (drop attsize s1))))

-- The switch of `walf_pread` on the type of the record.
unfoldable pub read_type : ℕ → List ℕ → Parsed
read_type t s =
    if t == 4
    then walf_read_full 4 (24 + 2 * page_size) decode_update s
    else if t == 5
    then walf_read_full 5 (32 + page_size) decode_clr s
    else if t == 1
    then walf_read_full 1 8 decode_begin s
    else if t == 2
    then walf_read_full 2 16 decode_commit s
    else if t == 3
    then walf_read_full 3 16 decode_end s
    else if t == 6
    then walf_read_full 6 0 (λ _. ckpt_begin) s
    else if t == 7
    then walf_read_ckpt_end s
    else corrupt

-- `walf_pread` of the file from an offset on.
unfoldable pub walf_pread : List ℕ → Parsed
walf_pread [] = at_eof
walf_pread (t ∷ s) = read_type t s
