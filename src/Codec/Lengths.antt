-- ===== src/Codec/Lengths.antt =====
-- The number of bytes between the type and the checksum of a log record of libs/nspager/wal_file.c.
use numstore.Prelude.{ℕ, ◌+◌, ◌*◌, List, [], ◌∷◌, length, length-append, ◌≡◌, arith}
use numstore.Wal.{Page, page_size}
use numstore.Serial.{le_bytes}
use numstore.Serial.Bytes.{length-le_bytes}
use numstore.Codec.{page_bytes}
use numstore.Codec.Checksum.{concat}
use numstore.Codec.Decode.{IsPage, length-page_bytes}

pub length-one : (n : ℕ) → length (concat (le_bytes 8 n ∷ [])) ≡ 8
length-one n = omega (arith, length-append (le_bytes 8 n) [], length-le_bytes 8 n)

pub length-concat_8 :
    (n : ℕ) (ps : List (List ℕ)) → length (concat (le_bytes 8 n ∷ ps)) ≡ 8 + length (concat ps)
length-concat_8 n ps = omega (arith, length-append (le_bytes 8 n) (concat ps), length-le_bytes 8 n)

pub length-concat_page :
    (g : Page) (ps : List (List ℕ))
    → IsPage g
    → length (concat (page_bytes g ∷ ps)) ≡ 2048 + length (concat ps)
length-concat_page g ps h =
    omega (arith, length-append (page_bytes g) (concat ps), length-page_bytes g h)

pub length-two : (n m : ℕ) → length (concat (le_bytes 8 n ∷ le_bytes 8 m ∷ [])) ≡ 16
length-two n m = omega (arith, length-concat_8 n (le_bytes 8 m ∷ []), length-concat_8 m [])

pub length-update :
    (tid prev pg : ℕ) (undo redo : Page)
    → IsPage undo
    → IsPage redo
    → length (
        concat (
          le_bytes 8 tid
          ∷ le_bytes 8 prev
          ∷ le_bytes 8 pg
          ∷ page_bytes undo
          ∷ page_bytes redo
          ∷ []))
      ≡ 24 + 2 * page_size
length-update tid prev pg undo redo h k =
    let p2 = page_bytes redo ∷ [] in
    let p3 = page_bytes undo ∷ p2 in
    omega (
      arith,
      length-concat_8 tid (le_bytes 8 prev ∷ le_bytes 8 pg ∷ p3),
      length-concat_8 prev (le_bytes 8 pg ∷ p3),
      length-concat_8 pg p3,
      length-concat_page undo p2 h,
      length-concat_page redo [] k,
    )

pub length-clr :
    (tid prev pg undo_next : ℕ) (redo : Page)
    → IsPage redo
    → length (
        concat (
          le_bytes 8 tid
          ∷ le_bytes 8 prev
          ∷ le_bytes 8 pg
          ∷ le_bytes 8 undo_next
          ∷ page_bytes redo
          ∷ []))
      ≡ 32 + page_size
length-clr tid prev pg undo_next redo k =
    let p2 = page_bytes redo ∷ [] in
    let p3 = le_bytes 8 undo_next ∷ p2 in
    omega (
      arith,
      length-concat_8 tid (le_bytes 8 prev ∷ le_bytes 8 pg ∷ p3),
      length-concat_8 prev (le_bytes 8 pg ∷ p3),
      length-concat_8 pg p3,
      length-concat_8 undo_next p2,
      length-concat_page redo [] k,
    )
