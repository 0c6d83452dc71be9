-- ===== src/Codec/RoundTrip.antt =====
-- A log record that libs/nspager/wal_file.c has written is read back.
use numstore.Prelude.{
  ℕ, ◌+◌, ◌*◌, ◌<◌, true, false, List, [], ◌∷◌, ◌++◌, some, ◌==◌, length, take, length-append,
  append_assoc, ◌≡◌, refl, arith, ap, ◌∙◌, le→ltb-false,
}
use numstore.Wal.{
  Record, begin, commit, end, update, clr, ckpt_begin, ckpt_end, page_size, rec_len, pieces, total,
}
use numstore.Serial.{le_bytes, le_value}
use numstore.Serial.Bytes.{length-le_bytes, le_value-le_bytes}
use numstore.Codec.{
  checksum_execute, checksum_init, page_bytes, piece_bytes, put_pieces, walf_write, parsed,
  decode_begin, decode_commit, decode_end, decode_update, decode_clr, read_checksum, walf_read_full,
  read_type, walf_pread,
}
use numstore.Codec.Checksum.{checksum_execute-append, checksum_execute-lt, concat, put_pieces_lem}
use numstore.Codec.Decode.{
  take_piece, drop_piece, Fits, decode_begin_lem, decode_commit_lem, decode_end_lem,
  decode_update_lem, decode_clr_lem,
}
use numstore.Codec.Lengths.{length-one, length-two, length-update, length-clr}

-- `walf_read_full` of what was written for the bytes `body` of a record of type `t`.
read_full :
    (t n : ℕ) (decode : List ℕ → Record) (body rest : List ℕ)
    → length body ≡ n
    → 0 < n
    → walf_read_full t n decode
        (body ++ (le_bytes 4 (checksum_execute checksum_init (t ∷ body)) ++ rest))
      ≡ parsed (decode body) rest
unfolding walf_read_full read_checksum
read_full t n decode body rest l pos =
    let sum = checksum_execute checksum_init (t ∷ body) in
    let s = body ++ (le_bytes 4 sum ++ rest) in
    let ls : length s ≡ n + 4 + length rest = omega (
      arith,
      length-append body (le_bytes 4 sum ++ rest),
      length-append (le_bytes 4 sum) rest,
      length-le_bytes 4 sum,
    ) in
    let some_bytes : (n == 0) ≡ false = ground arith in
    let b = take_piece body (le_bytes 4 sum ++ rest) n l in
    let d = drop_piece body (le_bytes 4 sum ++ rest) n l in
    let l4 = length-le_bytes 4 sum in
    let v : le_value (take 4 (le_bytes 4 sum ++ rest)) ≡ sum =
      ap le_value (take_piece (le_bytes 4 sum) rest 4 l4)
      ∙ le_value-le_bytes 4 sum (checksum_execute-lt checksum_init (t ∷ body)) in
    let same : (checksum_execute (checksum_execute checksum_init (t ∷ [])) body
          == le_value (take 4 (le_bytes 4 sum ++ rest)))
        ≡ true =
      rw (checksum_execute-append checksum_init (t ∷ []) body, v) (ground arith) in
    rw
      (
        some_bytes,
        le→ltb-false (length s) n (omega (arith, ls)),
        b,
        d,
        le→ltb-false (length (le_bytes 4 sum ++ rest)) 4
            (omega (arith, length-append (le_bytes 4 sum) rest, l4)),
        same,
        drop_piece (le_bytes 4 sum) rest 4 l4,
      )
      refl

-- The last pieces of a written record.
write_pieces :
    (t : ℕ) (ps : List (List ℕ))
    → put_pieces ([], checksum_init) ((t ∷ []) ∷ ps)
      ≡ (t ∷ concat ps, checksum_execute checksum_init (t ∷ concat ps))
write_pieces t ps = put_pieces_lem ((t ∷ []) ∷ ps) [] checksum_init (omega arith)

pub walf_write_eq :
    (r : Record) (t : ℕ) (ps : List (List ℕ))
    → piece_bytes r ≡ some ((t ∷ []) ∷ ps)
    → walf_write r
      ≡ some (t ∷ (concat ps ++ le_bytes 4 (checksum_execute checksum_init (t ∷ concat ps))))
unfolding walf_write
walf_write_eq r t ps e = rw (e, write_pieces t ps) refl

-- What was written for a record is read back, whatever follows it.
abbrev RoundTrips : Record → List ℕ → Type 0
RoundTrips r rest =
    (bytes : List ℕ) × (walf_write r ≡ some bytes)
    × (length bytes ≡ rec_len r)
    × walf_pread (bytes ++ rest) ≡ parsed r rest

read_back :
    (r : Record) (t n : ℕ) (ps : List (List ℕ)) (decode : List ℕ → Record) (rest : List ℕ)
    → piece_bytes r ≡ some ((t ∷ []) ∷ ps)
    → ((s : List ℕ) → read_type t s ≡ walf_read_full t n decode s)
    → length (concat ps) ≡ n
    → 0 < n
    → rec_len r ≡ n + 5
    → decode (concat ps) ≡ r
    → RoundTrips r rest
unfolding walf_pread
read_back r t n ps decode rest e reads l pos len d =
    let sum = checksum_execute checksum_init (t ∷ concat ps) in
    (
      t ∷ (concat ps ++ le_bytes 4 sum),
      walf_write_eq r t ps e,
      omega (arith, length-append (concat ps) (le_bytes 4 sum), length-le_bytes 4 sum),
      reads ((concat ps ++ le_bytes 4 sum) ++ rest)
          ∙ ap (walf_read_full t n decode) (append_assoc (concat ps) (le_bytes 4 sum) rest)
          ∙ read_full t n decode (concat ps) rest l pos
          ∙ ap (λ x. parsed x rest) d,
    )

ckpt_begin_back : (rest : List ℕ) → RoundTrips ckpt_begin rest
unfolding piece_bytes walf_pread read_type walf_read_full read_checksum rec_len pieces total
ckpt_begin_back rest =
    let sum = checksum_execute checksum_init (6 ∷ []) in
    let l4 = length-le_bytes 4 sum in
    let v : le_value (take 4 (le_bytes 4 sum ++ rest)) ≡ sum =
      ap le_value (take_piece (le_bytes 4 sum) rest 4 l4)
      ∙ le_value-le_bytes 4 sum (checksum_execute-lt checksum_init (6 ∷ [])) in
    let same : (sum == le_value (take 4 (le_bytes 4 sum ++ rest))) ≡ true = rw v (ground arith) in
    (
      6 ∷ le_bytes 4 sum,
      walf_write_eq ckpt_begin 6 [] refl,
      omega (arith, l4),
      rw
          (
            le→ltb-false (length (le_bytes 4 sum ++ rest)) 0 (omega arith),
            le→ltb-false (length (le_bytes 4 sum ++ rest)) 4
                (omega (arith, length-append (le_bytes 4 sum) rest, l4)),
            same,
            drop_piece (le_bytes 4 sum) rest 4 l4,
          )
          refl,
    )

pub undo_next_set : (undo_next : ℕ) → 0 < undo_next → (undo_next == 0) ≡ false
undo_next_set undo_next h = ground arith

-- The bytes that `walf_write` gives for a record whose fields fit theirs, other than the end of a checkpoint and than a
-- compensation record with no next record to undo, are `rec_len` in number, and `walf_pread` of them gives the record
-- back and what follows them.
pub walf_write-pread : (r : Record) (rest : List ℕ) → Fits r → RoundTrips r rest
unfolding piece_bytes read_type rec_len pieces total
walf_write-pread (begin tid) rest h =
    read_back (begin tid) 1 8 (le_bytes 8 tid ∷ []) decode_begin rest refl (λ s. refl)
      (length-one tid) (omega arith) refl (decode_begin_lem tid h)
walf_write-pread (commit tid prev) rest (h, k) =
    read_back (commit tid prev) 2 16 (le_bytes 8 tid ∷ le_bytes 8 prev ∷ []) decode_commit rest refl
      (λ s. refl) (length-two tid prev) (omega arith) refl (decode_commit_lem tid prev h k)
walf_write-pread (end tid prev) rest (h, k) =
    read_back (end tid prev) 3 16 (le_bytes 8 tid ∷ le_bytes 8 prev ∷ []) decode_end rest refl
      (λ s. refl) (length-two tid prev) (omega arith) refl (decode_end_lem tid prev h k)
walf_write-pread (update tid prev pg undo redo) rest (h1, h2, h3, h4, h5) =
    read_back (update tid prev pg undo redo) 4 (24 + 2 * page_size)
      (le_bytes 8 tid ∷ le_bytes 8 prev ∷ le_bytes 8 pg ∷ page_bytes undo ∷ page_bytes redo ∷ [])
      decode_update rest refl (λ s. refl) (length-update tid prev pg undo redo h4 h5) (omega arith)
      refl (decode_update_lem tid prev pg undo redo h1 h2 h3 h4 h5)
walf_write-pread (clr tid prev pg undo_next redo) rest (h1, h2, h3, h4, h5, pos) =
    read_back (clr tid prev pg undo_next redo) 5 (32 + page_size)
      (le_bytes 8 tid
        ∷ le_bytes 8 prev
        ∷ le_bytes 8 pg
        ∷ le_bytes 8 undo_next
        ∷ page_bytes redo
        ∷ [])
      decode_clr rest (rw (undo_next_set undo_next pos) refl) (λ s. refl)
      (length-clr tid prev pg undo_next redo h5) (omega arith) refl
      (decode_clr_lem tid prev pg undo_next redo h1 h2 h3 h4 h5)
walf_write-pread ckpt_begin rest h = ckpt_begin_back rest
walf_write-pread (ckpt_end att dpt) rest h = elim h [ ]
