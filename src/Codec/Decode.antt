-- ===== src/Codec/Decode.antt =====
-- Decoding the bytes of a log record: the pages and the fields, as libs/nspager/wal_rec_hdr.c lays them out.
use numstore.Prelude.{
  ℕ, ◌^◌, ◌<◌, List, [], ◌∷◌, ◌++◌, length, take, drop, length-append, length-take, length-drop,
  take-append_le, take_all, drop-append_add, take-append-drop, ◌≡◌, refl, arith, ap, ap₂, ◌∙◌,
}
use numstore.Wal.{Page, Record, begin, commit, end, update, clr, ckpt_begin, ckpt_end, page_size}
use numstore.Serial.{le_bytes, le_value}
use numstore.Serial.Bytes.{length-le_bytes, le_value-le_bytes}
use numstore.Codec.{
  page_bytes, page_of, decode_begin, decode_commit, decode_end, decode_update, decode_clr,
}
use numstore.Codec.Checksum.{concat}

-- A piece at the head of what is read.
module _ (x rest : List ℕ) (n : ℕ) (whole : length x ≡ n) where
  pub take_piece : take n (x ++ rest) ≡ x
  take_piece = take-append_le n x rest (omega arith) ∙ take_all n x (omega arith)

  pub drop_piece : drop n (x ++ rest) ≡ rest
  drop_piece = drop-append_add n 0 x rest (omega arith)

abbrev pub Fits64 : ℕ → Type 0
Fits64 n = n < 2 ^ 64

-- A page has its 2048 bytes.
abbrev pub IsPage : Page → Type 0
IsPage g = (length g.body ≡ 2040) × (g.page_lsn < 2 ^ 64)

pub length-page_bytes : (g : Page) → IsPage g → length (page_bytes g) ≡ 2048
unfolding page_bytes
length-page_bytes g (l, lt) = omega (
  arith,
  length-append (take 5 g.body) (le_bytes 8 g.page_lsn ++ drop 5 g.body),
  length-append (le_bytes 8 g.page_lsn) (drop 5 g.body),
  length-le_bytes 8 g.page_lsn,
  length-take 5 g.body,
  length-drop 5 g.body,
)

pub page_of-page_bytes : (g : Page) → IsPage g → page_of (page_bytes g) ≡ g
unfolding page_of page_bytes
page_of-page_bytes g (l, lt) =
    let front : length (take 5 g.body) ≡ 5 = omega (arith, length-take 5 g.body) in
    let rest = le_bytes 8 g.page_lsn ++ drop 5 g.body in
    let a : drop 5 (take 5 g.body ++ rest) ≡ rest = drop_piece (take 5 g.body) rest 5 front in
    let b : take 5 (take 5 g.body ++ rest) ≡ take 5 g.body =
      take_piece (take 5 g.body) rest 5 front in
    let c : drop 13 (take 5 g.body ++ rest) ≡ drop 5 g.body =
      drop-append_add 13 8 (take 5 g.body) rest (omega (arith, front))
      ∙ drop_piece (le_bytes 8 g.page_lsn) (drop 5 g.body) 8 (length-le_bytes 8 g.page_lsn) in
    let lsn : le_value (take 8 (drop 5 (take 5 g.body ++ rest))) ≡ g.page_lsn =
      ap (λ t. le_value (take 8 t)) a
      ∙ ap le_value
          (take_piece (le_bytes 8 g.page_lsn) (drop 5 g.body) 8 (length-le_bytes 8 g.page_lsn))
      ∙ le_value-le_bytes 8 g.page_lsn lt in
    let body : take 5 (take 5 g.body ++ rest) ++ drop 13 (take 5 g.body ++ rest) ≡ g.body =
      ap₂ (λ x y. x ++ y) b c ∙ take-append-drop 5 g.body in
    ap₂ (λ x y. record { page_lsn = x; body = y }) lsn body

pub first_8 : (n : ℕ) (rest : List ℕ) → n < 2 ^ 64 → le_value (take 8 (le_bytes 8 n ++ rest)) ≡ n
first_8 n rest h =
    ap le_value (take_piece (le_bytes 8 n) rest 8 (length-le_bytes 8 n)) ∙ le_value-le_bytes 8 n h

pub behind_8 : (n : ℕ) (rest : List ℕ) → drop 8 (le_bytes 8 n ++ rest) ≡ rest
behind_8 n rest = drop_piece (le_bytes 8 n) rest 8 (length-le_bytes 8 n)

pub decode_begin_lem :
    (tid : ℕ) → Fits64 tid → decode_begin (concat (le_bytes 8 tid ∷ [])) ≡ begin tid
unfolding decode_begin
decode_begin_lem tid h = ap begin (first_8 tid [] h)

pub decode_commit_lem :
    (tid prev : ℕ)
    → Fits64 tid
    → Fits64 prev
    → decode_commit (concat (le_bytes 8 tid ∷ le_bytes 8 prev ∷ [])) ≡ commit tid prev
unfolding decode_commit
decode_commit_lem tid prev h k =
    ap₂ commit (first_8 tid (le_bytes 8 prev ++ []) h)
      (ap (λ s. le_value (take 8 s)) (behind_8 tid (le_bytes 8 prev ++ [])) ∙ first_8 prev [] k)

pub decode_end_lem :
    (tid prev : ℕ)
    → Fits64 tid
    → Fits64 prev
    → decode_end (concat (le_bytes 8 tid ∷ le_bytes 8 prev ∷ [])) ≡ end tid prev
unfolding decode_end
decode_end_lem tid prev h k =
    ap₂ end (first_8 tid (le_bytes 8 prev ++ []) h)
      (ap (λ s. le_value (take 8 s)) (behind_8 tid (le_bytes 8 prev ++ [])) ∙ first_8 prev [] k)

pub page_first :
    (g : Page) (rest : List ℕ) → IsPage g → page_of (take page_size (page_bytes g ++ rest)) ≡ g
page_first g rest h =
    ap page_of (take_piece (page_bytes g) rest 2048 (length-page_bytes g h))
    ∙ page_of-page_bytes g h

pub behind_page :
    (g : Page) (rest : List ℕ) → IsPage g → drop page_size (page_bytes g ++ rest) ≡ rest
behind_page g rest h = drop_piece (page_bytes g) rest 2048 (length-page_bytes g h)

pub decode_update_lem :
    (tid prev pg : ℕ) (undo redo : Page)
    → Fits64 tid
    → Fits64 prev
    → Fits64 pg
    → IsPage undo
    → IsPage redo
    → decode_update (
        concat (
          le_bytes 8 tid
          ∷ le_bytes 8 prev
          ∷ le_bytes 8 pg
          ∷ page_bytes undo
          ∷ page_bytes redo
          ∷ []))
      ≡ update tid prev pg undo redo
unfolding decode_update
decode_update_lem tid prev pg undo redo h1 h2 h3 h4 h5 =
    let s5 = page_bytes redo ++ [] in
    let s4 = page_bytes undo ++ s5 in
    let s3 = le_bytes 8 pg ++ s4 in
    let s2 = le_bytes 8 prev ++ s3 in
    rw
      (
        behind_8 tid s2,
        behind_8 prev s3,
        behind_8 pg s4,
        first_8 tid s2 h1,
        first_8 prev s3 h2,
        first_8 pg s4 h3,
        page_first undo s5 h4,
        behind_page undo s5 h4,
        page_first redo [] h5,
      )
      refl

pub decode_clr_lem :
    (tid prev pg undo_next : ℕ) (redo : Page)
    → Fits64 tid
    → Fits64 prev
    → Fits64 pg
    → Fits64 undo_next
    → IsPage redo
    → decode_clr (
        concat (
          le_bytes 8 tid
          ∷ le_bytes 8 prev
          ∷ le_bytes 8 pg
          ∷ le_bytes 8 undo_next
          ∷ page_bytes redo
          ∷ []))
      ≡ clr tid prev pg undo_next redo
unfolding decode_clr
decode_clr_lem tid prev pg undo_next redo h1 h2 h3 h4 h5 =
    let s5 = page_bytes redo ++ [] in
    let s4 = le_bytes 8 undo_next ++ s5 in
    let s3 = le_bytes 8 pg ++ s4 in
    let s2 = le_bytes 8 prev ++ s3 in
    rw
      (
        behind_8 tid s2,
        behind_8 prev s3,
        behind_8 pg s4,
        behind_8 undo_next s5,
        first_8 tid s2 h1,
        first_8 prev s3 h2,
        first_8 pg s4 h3,
        first_8 undo_next s5 h4,
        page_first redo [] h5,
      )
      refl

-- The fields of a record fit their bytes; the end of a checkpoint is left out.
abbrev pub Fits : Record → Type 0
Fits (begin tid) = Fits64 tid
Fits (commit tid prev) = Fits64 tid × Fits64 prev
Fits (end tid prev) = Fits64 tid × Fits64 prev
Fits (update tid prev pg undo redo) =
    Fits64 tid × Fits64 prev × Fits64 pg × IsPage undo × IsPage redo
Fits (clr tid prev pg undo_next redo) =
    Fits64 tid × Fits64 prev × Fits64 pg × Fits64 undo_next × IsPage redo × (0 < undo_next)
Fits ckpt_begin = Unit
Fits (ckpt_end att dpt) = ⊥
