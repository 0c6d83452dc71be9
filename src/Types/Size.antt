-- ===== src/Types/Size.antt =====
-- type_get_serial_size of libs/nstypes counts the bytes that type_serialize writes.
use numstore.Prelude.{
  ℕ, suc, ◌+◌, ◌*◌, ◌^◌, ◌≤◌, ◌<◌, List, [], ◌∷◌, ◌++◌, length, length-append, ◌≡◌, refl, arith,
}
use numstore.Serial.{le_bytes}
use numstore.Serial.Bytes.{length-le_bytes}
use numstore.Types.{
  Key, TypeT, prim, struct_t, union_t, enum_t, sarray_t, Fields, no_fields, field, count,
}
use numstore.Types.Serialize.{sum32, add_key_sizes, type_get_serial_size, add_field_sizes}
use numstore.Types.Encoding.{encode, encode_fields, encode_key, encode_keys, encode_dims}

length-encode_key : (k : Key) (bs : List ℕ) → length (encode_key k ++ bs) ≡ 2 + length k + length bs
length-encode_key k bs = omega (
  arith,
  length-append (encode_key k) bs,
  length-append (le_bytes 2 (length k)) k,
  length-le_bytes 2 (length k),
)

length-encode_keys : (ks : List Key) → 2 * length ks ≤ length (encode_keys ks)
length-encode_keys [] = omega arith
length-encode_keys (k ∷ ks) =
    omega (arith, length-encode_key k (encode_keys ks), length-encode_keys ks)

length-encode_fields : (fs : Fields) → 2 * count fs ≤ length (encode_fields fs)
unfolding encode_fields
length-encode_fields no_fields = omega arith
length-encode_fields (field k t fs) = omega (
  arith,
  length-encode_key k (encode t ++ encode_fields fs),
  length-append (encode t) (encode_fields fs),
  length-encode_fields fs,
)

length-encode_dims : (ds : List ℕ) → length (encode_dims ds) ≡ 4 * length ds
length-encode_dims [] = refl
length-encode_dims (n ∷ ds) = omega (
  arith,
  length-append (le_bytes 4 n) (encode_dims ds),
  length-le_bytes 4 n,
  length-encode_dims ds,
)

add_key_sizes_lem :
    (ks : List Key) (ret : ℕ)
    → ret + length (encode_keys ks) < 2 ^ 32 + 2 * length ks
    → ret < 2 ^ 32
    → add_key_sizes ret ks + 2 * length ks ≡ ret + length (encode_keys ks)
unfolding add_key_sizes
add_key_sizes_lem [] ret h lt = omega arith
add_key_sizes_lem (k ∷ ks) ret h lt =
    let l = length-encode_key k (encode_keys ks) in
    let m = length-encode_keys ks in
    let same : sum32 ret (length k) ≡ ret + length k = omega (arith, l, m) in
    omega (
      arith,
      l,
      same,
      add_key_sizes_lem ks (sum32 ret (length k)) (omega (arith, l, same)) (omega arith),
    )

-- What the loop over the fields adds up.
abbrev Sums : Fields → Type 0
Sums fs =
    (ret : ℕ)
    → ret + length (encode_fields fs) < 2 ^ 32 + 2 * count fs
    → ret < 2 ^ 32
    → add_field_sizes ret fs + 2 * count fs ≡ ret + length (encode_fields fs)

size_of_fields :
    (fs : Fields)
    → Sums fs
    → suc (length (le_bytes 2 (count fs) ++ encode_fields fs)) < 2 ^ 32
    → sum32 1 (add_field_sizes (sum32 2 (2 * count fs)) fs)
      ≡ suc (length (le_bytes 2 (count fs) ++ encode_fields fs))
size_of_fields fs sums h =
    let l = length-append (le_bytes 2 (count fs)) (encode_fields fs) in
    let l2 = length-le_bytes 2 (count fs) in
    omega (
      arith,
      l,
      l2,
      length-encode_fields fs,
      sums (sum32 2 (2 * count fs)) (omega (arith, l, l2, length-encode_fields fs)) (omega arith),
    )

mutual
  unfolding encode encode_fields type_get_serial_size add_field_sizes

  size_of_type :
      (t : TypeT) → length (encode t) < 2 ^ 32 → type_get_serial_size t ≡ length (encode t)
  size_of_type (prim p) h = omega (arith, length-le_bytes 1 p)
  size_of_type (struct_t fs) h = size_of_fields fs (sum_of_fields fs) h
  size_of_type (union_t fs) h = size_of_fields fs (sum_of_fields fs) h
  size_of_type (enum_t ks) h =
      let l = length-append (le_bytes 2 (length ks)) (encode_keys ks) in
      omega (
        arith,
        l,
        length-le_bytes 2 (length ks),
        length-encode_keys ks,
        add_key_sizes_lem ks (sum32 2 (2 * length ks))
            (omega (arith, l, length-le_bytes 2 (length ks), length-encode_keys ks)) (omega arith),
      )
  size_of_type (sarray_t ds t) h =
      let l = length-append (le_bytes 2 (length ds)) (encode_dims ds ++ encode t) in
      let m = length-append (encode_dims ds) (encode t) in
      omega (
        arith,
        l,
        m,
        length-le_bytes 2 (length ds),
        length-encode_dims ds,
        size_of_type t (omega (arith, l, m)),
      )

  sum_of_fields : (fs : Fields) → Sums fs
  sum_of_fields no_fields ret h lt = omega arith
  sum_of_fields (field k t fs) ret h lt =
      let l = length-encode_key k (encode t ++ encode_fields fs) in
      let m = length-append (encode t) (encode_fields fs) in
      let few = length-encode_fields fs in
      let size = size_of_type t (omega (arith, l, m, few)) in
      let same : sum32 (sum32 ret (length k)) (type_get_serial_size t)
          ≡ ret + length k + length (encode t) =
        omega (arith, l, m, few, size) in
      omega (
        arith,
        l,
        m,
        same,
        sum_of_fields fs (sum32 (sum32 ret (length k)) (type_get_serial_size t))
            (omega (arith, l, m, same)) (omega arith),
      )

pub type_get_serial_size_lem :
    (t : TypeT) → length (encode t) < 2 ^ 32 → type_get_serial_size t ≡ length (encode t)
type_get_serial_size_lem t h = size_of_type t h
