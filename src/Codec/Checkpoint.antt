-- ===== src/Codec/Checkpoint.antt =====
-- The end of a checkpoint in the log: libs/nspager/wal_file.c writes it with its two tables and reads it back.
use numstore.Prelude.{
  ℕ, ◌+◌, ◌*◌, ◌%◌, ◌^◌, ◌≤◌, ◌<◌, true, List, [], ◌∷◌, ◌++◌, map, some, ◌==◌, if◌then◌else◌,
  length, take, drop, length-append, append_assoc, append-nil, All, ◌≡◌, refl, sym, arith, ap, ◌∙◌,
  le→ltb-false,
}
use numstore.Wal.{Txn, DpgEntry, ckpt_end, rec_len, pieces, total}
use numstore.Wal.{candidate, rev_onto}
use numstore.Serial.{
  max_dpgt_srl_size, txn_serial_unit, le_bytes, le_value, txnt_deserialize, dpgt_deserialize,
}
use numstore.Serial.Bytes.{length-le_bytes, le_value-le_bytes}
use numstore.Serial.Txns.{txnt_serialize-deserialize}
use numstore.Serial.Txns
use numstore.Serial.DirtyPages.{dpgt_serialize-deserialize}
use numstore.Serial.DirtyPages
use numstore.Codec.{
  checksum_execute, checksum_init, non_empty, piece_bytes, walf_write, Parsed, parsed,
  read_checksum, decode_tables, walf_read_ckpt_end, read_type, walf_pread,
}
use numstore.Codec.Checksum.{
  checksum_execute-append, checksum_execute-nil, checksum_execute-lt, concat,
}
use numstore.Codec.Decode.{take_piece, drop_piece}
use numstore.Codec.RoundTrip.{walf_write_eq}

concat-non_empty : (a d : List ℕ) → concat (non_empty a ++ non_empty d) ≡ a ++ d
unfolding non_empty
concat-non_empty [] [] = refl
concat-non_empty [] (y ∷ d) = append-nil (y ∷ d)
concat-non_empty (x ∷ a) [] = refl
concat-non_empty (x ∷ a) (y ∷ d) = ap (λ t. (x ∷ a) ++ t) (append-nil (y ∷ d))

-- A checksum that is right, and what follows it.
read_checksum_lem :
    (sum : ℕ) (rest : List ℕ) (k : List ℕ → Parsed)
    → sum < 2 ^ 32
    → read_checksum sum (le_bytes 4 sum ++ rest) k ≡ k rest
unfolding read_checksum
read_checksum_lem sum rest k lt =
    let l4 = length-le_bytes 4 sum in
    let v : le_value (take 4 (le_bytes 4 sum ++ rest)) ≡ sum =
      ap le_value (take_piece (le_bytes 4 sum) rest 4 l4) ∙ le_value-le_bytes 4 sum lt in
    let same : (sum == le_value (take 4 (le_bytes 4 sum ++ rest))) ≡ true = rw v (ground arith) in
    rw
      (
        le→ltb-false (length (le_bytes 4 sum ++ rest)) 4
            (omega (arith, length-append (le_bytes 4 sum) rest, l4)),
        same,
        drop_piece (le_bytes 4 sum) rest 4 l4,
      )
      refl

-- The checksum of a piece that may be empty.
checksum_non_empty :
    (c n : ℕ) (b : List ℕ)
    → c < 2 ^ 32
    → length b ≡ n
    → (if n == 0 then c else checksum_execute c b) ≡ checksum_execute c b
checksum_non_empty c n [] lt l = rw (← l) (sym (checksum_execute-nil c lt))
checksum_non_empty c n (x ∷ b) lt l = rw (← l) (ground arith)

module _ (a d : List ℕ) (small : length a + length d < 2 ^ 31) where
  abbrev sizes : List ℕ
  sizes = le_bytes 4 (length a) ++ le_bytes 4 (length d)

  abbrev sum_of_all : ℕ
  sum_of_all = checksum_execute checksum_init (7 ∷ (sizes ++ (a ++ d)))

  length-sizes : length sizes ≡ 8
  length-sizes = omega (
    arith,
    length-append (le_bytes 4 (length a)) (le_bytes 4 (length d)),
    length-le_bytes 4 (length a),
    length-le_bytes 4 (length d),
  )

  -- What stands behind the type.
  record Written (sum : ℕ) (rest s : List ℕ) : Type 0 where
    attsize : le_value (take 4 s) ≡ length a
    dptsize : le_value (take 4 (drop 4 s)) ≡ length d
    header : take 8 s ≡ sizes
    tables : drop 8 s ≡ (a ++ d) ++ (le_bytes 4 sum ++ rest)
    long : 8 ≤ length s
    is_sum : sum ≡ sum_of_all

  checksum_of_pieces :
      (if length a + length d == 0
        then checksum_execute (checksum_execute checksum_init (7 ∷ [])) sizes
        else checksum_execute
            (checksum_execute (checksum_execute checksum_init (7 ∷ [])) sizes)
            (a ++ d))
      ≡ sum_of_all
  checksum_of_pieces =
      let c = checksum_execute (checksum_execute checksum_init (7 ∷ [])) sizes in
      checksum_non_empty c (length a + length d) (a ++ d)
        (checksum_execute-lt (checksum_execute checksum_init (7 ∷ [])) sizes) (length-append a d)
      ∙ ap (λ x. checksum_execute x (a ++ d)) (checksum_execute-append checksum_init (7 ∷ []) sizes)
      ∙ checksum_execute-append checksum_init (7 ∷ sizes) (a ++ d)

  read_ckpt_end :
      (sum : ℕ) (rest s : List ℕ)
      → Written sum rest s
      → walf_read_ckpt_end s ≡ decode_tables (txnt_deserialize a) (dpgt_deserialize d) rest
  unfolding walf_read_ckpt_end
  read_ckpt_end sum rest s w =
      let n : (length a + length d) % 2 ^ 32 ≡ length a + length d = omega arith in
      let len : length (a ++ d) ≡ length a + length d = length-append a d in
      let back = le_bytes 4 sum ++ rest in
      let whole : length ((a ++ d) ++ back) ≡ length a + length d + length back =
        omega (arith, length-append (a ++ d) back, len) in
      let of_a : take (length a) ((a ++ d) ++ back) ≡ a =
        ap (take (length a)) (append_assoc a d back) ∙ take_piece a (d ++ back) (length a) refl in
      let of_d : take (length d) (drop (length a) ((a ++ d) ++ back)) ≡ d =
        ap (λ t. take (length d) (drop (length a) t)) (append_assoc a d back)
        ∙ ap (take (length d)) (drop_piece a (d ++ back) (length a) refl)
        ∙ take_piece d back (length d) refl in
      rw
        (
          w.attsize,
          w.dptsize,
          n,
          w.header,
          w.tables,
          le→ltb-false (length s) 8 w.long,
          le→ltb-false (length ((a ++ d) ++ back)) (length a + length d) (omega (arith, whole)),
          take_piece (a ++ d) back (length a + length d) len,
          drop_piece (a ++ d) back (length a + length d) len,
          of_a,
          of_d,
          checksum_of_pieces,
          w.is_sum,
        )
        (read_checksum_lem sum_of_all rest (decode_tables (txnt_deserialize a) (dpgt_deserialize d))
          (checksum_execute-lt checksum_init (7 ∷ (sizes ++ (a ++ d)))))

  abbrev ps : List (List ℕ)
  ps = le_bytes 4 (length a) ∷ le_bytes 4 (length d) ∷ (non_empty a ++ non_empty d)

  concat-ps : concat ps ≡ sizes ++ (a ++ d)
  concat-ps =
      ap (λ t. le_bytes 4 (length a) ++ (le_bytes 4 (length d) ++ t)) (concat-non_empty a d)
      ∙ sym (append_assoc (le_bytes 4 (length a)) (le_bytes 4 (length d)) (a ++ d))

  written :
      (sum : ℕ) (rest : List ℕ)
      → sum ≡ sum_of_all
      → Written sum rest (sizes ++ ((a ++ d) ++ (le_bytes 4 sum ++ rest)))
  written sum rest is =
      let t = (a ++ d) ++ (le_bytes 4 sum ++ rest) in
      let la = le_bytes 4 (length a) in
      let ld = le_bytes 4 (length d) in
      let regroup = append_assoc la ld t in
      record {
        attsize =
            ap (λ s. le_value (take 4 s)) regroup
            ∙ ap le_value (take_piece la (ld ++ t) 4 (length-le_bytes 4 (length a)))
            ∙ le_value-le_bytes 4 (length a) (omega arith);
        dptsize =
            ap (λ s. le_value (take 4 (drop 4 s))) regroup
            ∙ ap (λ s. le_value (take 4 s))
                (drop_piece la (ld ++ t) 4 (length-le_bytes 4 (length a)))
            ∙ ap le_value (take_piece ld t 4 (length-le_bytes 4 (length d)))
            ∙ le_value-le_bytes 4 (length d) (omega arith);
        header = take_piece sizes t 8 length-sizes;
        tables = drop_piece sizes t 8 length-sizes;
        long = omega (arith, length-append sizes t, length-sizes);
        is_sum = is;
      }

  -- What is written for the tables is read back.
  tables_back :
      (rest : List ℕ)
      → walf_pread
          ((7 ∷ (concat ps ++ le_bytes 4 (checksum_execute checksum_init (7 ∷ concat ps)))) ++ rest)
        ≡ decode_tables (txnt_deserialize a) (dpgt_deserialize d) rest
  unfolding walf_pread read_type
  tables_back rest =
      let sum = checksum_execute checksum_init (7 ∷ concat ps) in
      let is : sum ≡ sum_of_all = ap (λ c. checksum_execute checksum_init (7 ∷ c)) concat-ps in
      ap walf_read_ckpt_end (
        append_assoc (concat ps) (le_bytes 4 sum) rest
        ∙ ap (λ c. c ++ (le_bytes 4 sum ++ rest)) concat-ps
        ∙ append_assoc sizes (a ++ d) (le_bytes 4 sum ++ rest))
      ∙ read_ckpt_end sum rest (sizes ++ ((a ++ d) ++ (le_bytes 4 sum ++ rest)))
          (written sum rest is)

  length_written : (sum : ℕ) → length (7 ∷ (concat ps ++ le_bytes 4 sum)) ≡ 13 + length a + length d
  length_written sum = omega (
    arith,
    length-append (concat ps) (le_bytes 4 sum),
    length-le_bytes 4 sum,
    ap length concat-ps,
    length-append sizes (a ++ d),
    length-append a d,
    length-sizes,
  )

-- The end of a checkpoint comes back: where the fields of the two tables fit 64 bits and no id and no page stands twice in them, the dirty page table has no more
-- entries than MAX_DPGT_SRL_SIZE has room for and the table of transactions fewer than 2 ^ 26, the bytes that
-- `walf_write` gives are `rec_len` in number, and `walf_pread` of them gives the transactions, in their order, as
-- candidates for undo, the pages with their RecLSNs, the last one first, and what follows the bytes.
pub ckpt_end-walf_pread :
    (att : List Txn) (dpt : List DpgEntry) (rest : List ℕ)
    → All Txns.Fits64 att
    → All DirtyPages.Fits64 dpt
    → Txns.DistinctTids att
    → DirtyPages.AllNew dpt []
    → length att < 2 ^ 26
    → 16 * length dpt ≤ max_dpgt_srl_size
    → (bytes : List ℕ) × (walf_write (ckpt_end att dpt) ≡ some bytes)
      × (length bytes ≡ rec_len (ckpt_end att dpt))
      × walf_pread (bytes ++ rest) ≡ parsed (ckpt_end (map candidate att) (rev_onto dpt [])) rest
unfolding piece_bytes rec_len pieces total decode_tables
ckpt_end-walf_pread att dpt rest fa fd once new small_att small_dpt =
    let (a, written_a, la, read_a) =
      txnt_serialize-deserialize (length att * txn_serial_unit) att fa once (omega arith)
        (omega arith) in
    let (d, written_d, ld, read_d) = dpgt_serialize-deserialize dpt fd new small_dpt in
    let small : length a + length d < 2 ^ 31 = omega arith in
    let sum = checksum_execute checksum_init (7 ∷ concat (ps a d small)) in
    (
      7 ∷ (concat (ps a d small) ++ le_bytes 4 sum),
      walf_write_eq (ckpt_end att dpt) 7 (ps a d small) (rw (written_a, written_d) refl),
      omega (arith, length_written a d small sum, la, ld),
      tables_back a d small rest ∙ rw (read_a, read_d) refl,
    )
