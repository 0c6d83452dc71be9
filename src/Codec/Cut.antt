-- ===== src/Codec/Cut.antt =====
-- A log record that the end of the file cuts off, as libs/nspager/wal_file.c reads it.
use numstore.Prelude.{
  ℕ, zero, suc, ◌+◌, ◌*◌, ◌<◌, List, [], ◌∷◌, ◌++◌, some, length, take, length-append, length-take,
  length-drop, ◌≡◌, refl, sym, arith, ◌∙◌, some_inj, subst,
}
use numstore.Wal.{Record, begin, commit, end, update, clr, ckpt_begin, ckpt_end, page_size}
use numstore.Serial.{le_bytes}
use numstore.Serial.Bytes.{length-le_bytes}
use numstore.Codec.{
  checksum_execute, checksum_init, page_bytes, piece_bytes, walf_write, at_eof, decode_begin,
  decode_commit, decode_end, decode_update, decode_clr, read_checksum, walf_read_full, read_type,
  walf_pread,
}
use numstore.Codec.Checksum.{concat}
use numstore.Codec.Decode.{Fits}
use numstore.Codec.Lengths.{length-one, length-two, length-update, length-clr}
use numstore.Codec.RoundTrip.{walf_write_eq, undo_next_set}

-- Fewer bytes than the record has.
cut_short :
    (t n : ℕ) (decode : List ℕ → Record) (s : List ℕ)
    → length s < n + 4
    → walf_read_full t n decode s ≡ at_eof
unfolding walf_read_full read_checksum
cut_short t n decode s h = ground (arith, length-drop n s)

module _ (r : Record) (t n : ℕ) (ps : List (List ℕ)) (decode : List ℕ → Record)
    (e : piece_bytes r ≡ some ((t ∷ []) ∷ ps))
    (reads : (s : List ℕ) → read_type t s ≡ walf_read_full t n decode s)
    (whole : length (concat ps) ≡ n) where
  abbrev behind_type : List ℕ
  behind_type = concat ps ++ le_bytes 4 (checksum_execute checksum_init (t ∷ concat ps))

  length-behind_type : length behind_type ≡ n + 4
  length-behind_type =
      let sum = checksum_execute checksum_init (t ∷ concat ps) in
      omega (arith, whole, length-append (concat ps) (le_bytes 4 sum), length-le_bytes 4 sum)

  cut_pieces : (k : ℕ) → k < n + 5 → walf_pread (take k (t ∷ behind_type)) ≡ at_eof
  unfolding walf_pread
  cut_pieces zero h = refl
  cut_pieces (suc k) h =
      reads (take k behind_type)
      ∙ cut_short t n decode (take k behind_type)
          (omega (arith, h, length-take k behind_type, length-behind_type))

  cut_record :
      (bytes : List ℕ) (k : ℕ)
      → walf_write r ≡ some bytes
      → k < length bytes
      → walf_pread (take k bytes) ≡ at_eof
  cut_record bytes k w h =
      let same : t ∷ behind_type ≡ bytes = some_inj (sym (walf_write_eq r t ps e) ∙ w) in
      let cut : k < length (t ∷ behind_type) → walf_pread (take k (t ∷ behind_type)) ≡ at_eof =
        λ i. cut_pieces k (omega (arith, i, length-behind_type)) in
      subst (λ b. k < length b → walf_pread (take k b) ≡ at_eof) same cut h

-- Of the bytes that `walf_write` gives for a record whose fields fit theirs, other than the end of a checkpoint,
-- `walf_pread` makes the end of the file if the last of them, one or more and up to all, are missing.
pub walf_pread-cut :
    (r : Record) (bytes : List ℕ) (k : ℕ)
    → Fits r
    → walf_write r ≡ some bytes
    → k < length bytes
    → walf_pread (take k bytes) ≡ at_eof
unfolding piece_bytes read_type
walf_pread-cut (begin tid) bytes k fits =
    cut_record (begin tid) 1 8 (le_bytes 8 tid ∷ []) decode_begin refl (λ s. refl) (length-one tid)
      bytes k
walf_pread-cut (commit tid prev) bytes k fits =
    cut_record (commit tid prev) 2 16 (le_bytes 8 tid ∷ le_bytes 8 prev ∷ []) decode_commit refl
      (λ s. refl) (length-two tid prev) bytes k
walf_pread-cut (end tid prev) bytes k fits =
    cut_record (end tid prev) 3 16 (le_bytes 8 tid ∷ le_bytes 8 prev ∷ []) decode_end refl
      (λ s. refl) (length-two tid prev) bytes k
walf_pread-cut (update tid prev pg undo redo) bytes k (h1, h2, h3, h4, h5) =
    cut_record (update tid prev pg undo redo) 4 (24 + 2 * page_size)
      (le_bytes 8 tid ∷ le_bytes 8 prev ∷ le_bytes 8 pg ∷ page_bytes undo ∷ page_bytes redo ∷ [])
      decode_update refl (λ s. refl) (length-update tid prev pg undo redo h4 h5) bytes k
walf_pread-cut (clr tid prev pg undo_next redo) bytes k (h1, h2, h3, h4, h5, pos) =
    cut_record (clr tid prev pg undo_next redo) 5 (32 + page_size)
      (le_bytes 8 tid
        ∷ le_bytes 8 prev
        ∷ le_bytes 8 pg
        ∷ le_bytes 8 undo_next
        ∷ page_bytes redo
        ∷ [])
      decode_clr (rw (undo_next_set undo_next pos) refl) (λ s. refl)
      (length-clr tid prev pg undo_next redo h5) bytes k
walf_pread-cut ckpt_begin bytes k fits =
    cut_record ckpt_begin 6 0 [] (λ b. ckpt_begin) refl (λ s. refl) refl bytes k
walf_pread-cut (ckpt_end att dpt) bytes k fits = elim fits [ ]
