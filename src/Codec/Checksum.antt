-- ===== src/Codec/Checksum.antt =====
-- The checksum of libs/nscore/checksums.c over pieces.
use numstore.Prelude.{
  ℕ, ◌^◌, ◌<◌, List, [], ◌∷◌, ◌++◌, ◌≡◌, refl, arith, ap, ap₂, sym, ◌∙◌, append-nil, append_assoc,
}
use numstore.Codec.{crc_byte, crc_loop, complement, checksum_execute, put_piece, put_pieces}

crc_loop-append : (c : ℕ) (xs ys : List ℕ) → crc_loop c (xs ++ ys) ≡ crc_loop (crc_loop c xs) ys
unfolding crc_loop
crc_loop-append c [] ys = refl
crc_loop-append c (x ∷ xs) ys = crc_loop-append (crc_byte c x) xs ys

crc_byte-lt : (c b : ℕ) → crc_byte c b < 2 ^ 32
unfolding crc_byte
crc_byte-lt c b = omega arith

crc_loop-lt : (c : ℕ) (xs : List ℕ) → c < 2 ^ 32 → crc_loop c xs < 2 ^ 32
unfolding crc_loop
crc_loop-lt c [] h = h
crc_loop-lt c (x ∷ xs) h = crc_loop-lt (crc_byte c x) xs (crc_byte-lt c x)

-- A checksum of two pieces, one after the other, is that of both together.
pub checksum_execute-append :
    (c : ℕ) (xs ys : List ℕ)
    → checksum_execute (checksum_execute c xs) ys ≡ checksum_execute c (xs ++ ys)
unfolding checksum_execute
checksum_execute-append c xs ys =
    let back : complement (complement (crc_loop (complement c) xs)) ≡ crc_loop (complement c) xs =
      omega (arith, crc_loop-lt (complement c) xs (omega arith)) in
    ap (λ k. complement (crc_loop k ys)) back
    ∙ ap complement (sym (crc_loop-append (complement c) xs ys))

pub checksum_execute-nil : (c : ℕ) → c < 2 ^ 32 → checksum_execute c [] ≡ c
unfolding checksum_execute crc_loop
checksum_execute-nil c h = omega arith

pub checksum_execute-lt : (c : ℕ) (xs : List ℕ) → checksum_execute c xs < 2 ^ 32
unfolding checksum_execute
checksum_execute-lt c xs = omega arith

abbrev pub concat : List (List ℕ) → List ℕ
concat [] = []
concat (p ∷ ps) = p ++ concat ps

-- Pieces that are written one after the other are written as one.
pub put_pieces_lem :
    (ps : List (List ℕ)) (out : List ℕ) (c : ℕ)
    → c < 2 ^ 32
    → put_pieces (out, c) ps ≡ (out ++ concat ps, checksum_execute c (concat ps))
unfolding put_pieces put_piece
put_pieces_lem [] out c h =
    ap₂ (λ x y. (x, y)) (sym (append-nil out)) (sym (checksum_execute-nil c h))
put_pieces_lem (p ∷ ps) out c h =
    put_pieces_lem ps (out ++ p) (checksum_execute c p) (checksum_execute-lt c p)
    ∙ ap₂ (λ x y. (x, y)) (append_assoc out p (concat ps)) (checksum_execute-append c p (concat ps))
