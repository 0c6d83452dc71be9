-- ===== src/Serial/Bytes.antt =====
-- Reads and writes of libs/nscore/serializer.c and deserializer.c.
use numstore.Prelude.{
  ℕ, zero, suc, ◌+◌, ◌*◌, ◌/◌, ◌%◌, ◌^◌, ◌≤◌, ◌<◌, List, ◌++◌, none, some, length, take, drop,
  length-append, length-drop, take-append_le, take_all, drop-drop, drop-append_add, append_assoc,
  ◌≡◌, refl, sym, arith, ap, ◌∙◌, le→ltb-false, lt→ltb,
}
use numstore.Serial.{
  le_bytes, le_value, Serializer, srlizr_write, Deserializer, dsrlizr_read, read_u64,
}

pub length-le_bytes : (k n : ℕ) → length (le_bytes k n) ≡ k
unfolding le_bytes
length-le_bytes zero n = refl
length-le_bytes (suc k) n = ap suc (length-le_bytes k (n / 256))

abbrev pub bound : ℕ → ℕ
bound zero = 1
bound (suc k) = 256 * bound k

-- A number that fits is what its bytes stand for.
pub le_value-le_bytes : (k n : ℕ) → n < bound k → le_value (le_bytes k n) ≡ n
unfolding le_value le_bytes
le_value-le_bytes zero n h = omega arith
le_value-le_bytes (suc k) n h = omega (arith, le_value-le_bytes k (n / 256) (omega arith))

module _ (s : Serializer) (src : List ℕ) where
  pub srlizr_write_room :
      length s.written + length src ≤ s.dcap
      → s.dcap < 2 ^ 32
      → srlizr_write s src ≡ some (record s { written = s.written ++ src })
  unfolding srlizr_write
  srlizr_write_room h lt =
      rw (le→ltb-false s.dcap ((length s.written + length src) % 2 ^ 32) (omega arith)) refl

  pub srlizr_write_full :
      s.dcap < length s.written + length src
      → length s.written + length src < 2 ^ 32
      → srlizr_write s src ≡ none
  unfolding srlizr_write
  srlizr_write_full h lt =
      rw (lt→ltb s.dcap ((length s.written + length src) % 2 ^ 32) (omega arith)) refl

-- The serializer behind some bytes.
abbrev pub wrote : Serializer → List ℕ → Serializer
wrote s bs = record s { written = s.written ++ bs }

pub wrote-wrote : (s : Serializer) (xs ys : List ℕ) → wrote (wrote s xs) ys ≡ wrote s (xs ++ ys)
wrote-wrote s xs ys = ap (λ t. record s { written = t }) (append_assoc s.written xs ys)

-- Room for one number.
pub write_u64 :
    (s : Serializer) (n : ℕ)
    → length s.written + 8 ≤ s.dcap
    → s.dcap < 2 ^ 32
    → srlizr_write s (le_bytes 8 n) ≡ some (wrote s (le_bytes 8 n))
write_u64 s n h lt = srlizr_write_room s (le_bytes 8 n) (omega (arith, length-le_bytes 8 n)) lt

pub length-wrote :
    (s : Serializer) (n : ℕ) → length (wrote s (le_bytes 8 n)).written ≡ length s.written + 8
length-wrote s n = omega (arith, length-append s.written (le_bytes 8 n), length-le_bytes 8 n)

pub write_u64_full :
    (s : Serializer) (n : ℕ)
    → length s.written ≤ s.dcap
    → s.dcap < length s.written + 8
    → s.dcap + 8 < 2 ^ 32
    → srlizr_write s (le_bytes 8 n) ≡ none
write_u64_full s n h full lt =
    let l = length-le_bytes 8 n in
    srlizr_write_full s (le_bytes 8 n) (omega (arith, l)) (omega (arith, l))

-- What is left to read.
pub record Rest (d : Deserializer) (rest : List ℕ) : Type 0 where
  pub behind_head : drop d.head d.bytes ≡ rest
  pub in_all : d.head + length rest ≡ length d.bytes
  pub short : length d.bytes + 8 < 2 ^ 32

abbrev pub skip : Deserializer → ℕ → Deserializer
skip d n = record d { head = d.head + n }

pub read_u64_lem :
    (d : Deserializer) (n : ℕ) (rest : List ℕ)
    → n < 2 ^ 64
    → Rest d (le_bytes 8 n ++ rest)
    → (read_u64 d ≡ some (n, skip d 8)) × Rest (skip d 8) rest
unfolding read_u64 dsrlizr_read
read_u64_lem d n rest h r =
    let len8 : length (le_bytes 8 n) ≡ 8 = length-le_bytes 8 n in
    let all : d.head + 8 + length rest ≡ length d.bytes =
      omega (arith, length-append (le_bytes 8 n) rest, len8, r.in_all) in
    let here : take 8 (drop d.head d.bytes) ≡ le_bytes 8 n =
      ap (take 8) r.behind_head
      ∙ take-append_le 8 (le_bytes 8 n) rest (omega (arith, len8))
      ∙ take_all 8 (le_bytes 8 n) (omega (arith, len8)) in
    (
      rw
          (
            le→ltb-false (length d.bytes) ((d.head + 8) % 2 ^ 32) (omega (arith, r.short)),
            here,
            le_value-le_bytes 8 n h,
          )
          refl,
      record {
        behind_head =
            sym (drop-drop 8 d.head (d.head + 8) d.bytes refl)
            ∙ ap (drop 8) r.behind_head
            ∙ drop-append_add 8 0 (le_bytes 8 n) rest (omega (arith, len8));
        in_all = all;
        short = r.short;
      },
    )

-- Fewer bytes are left than a number has.
pub read_u64_end :
    (d : Deserializer) (rest : List ℕ) → Rest d rest → length rest < 8 → read_u64 d ≡ none
unfolding read_u64 dsrlizr_read
read_u64_end d rest r h =
    rw (lt→ltb (length d.bytes) ((d.head + 8) % 2 ^ 32) (omega (arith, r.in_all, r.short))) refl

-- Any eight bytes are a number.
pub read_u64_any :
    (d : Deserializer) (rest : List ℕ)
    → Rest d rest
    → 8 ≤ length rest
    → (n : ℕ) × (read_u64 d ≡ some (n, skip d 8)) × Rest (skip d 8) (drop 8 rest)
unfolding read_u64 dsrlizr_read
read_u64_any d rest r h = (
  le_value (take 8 (drop d.head d.bytes)),
  rw (le→ltb-false (length d.bytes) ((d.head + 8) % 2 ^ 32) (omega (arith, r.in_all, r.short)))
      refl,
  record {
    behind_head = sym (drop-drop 8 d.head (d.head + 8) d.bytes refl) ∙ ap (drop 8) r.behind_head;
    in_all = omega (arith, r.in_all, length-drop 8 rest);
    short = r.short;
  },
)
