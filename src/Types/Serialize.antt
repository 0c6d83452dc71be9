-- ===== src/Types/Serialize.antt =====
-- The bytes of a type, as libs/nstypes writes them: type_serialize, and the number of bytes that
-- type_get_serial_size announces. Sizes are 32-bit numbers.
use numstore.Prelude.{
  ℕ, ◌+◌, ◌*◌, ◌%◌, ◌^◌, Bool, true, false, List, [], ◌∷◌, Option, none, some, length,
}
use numstore.Serial.{le_bytes, Serializer, srlizr_write, ◌>>=◌}
use numstore.Types.{
  Key, TypeT, prim, struct_t, union_t, enum_t, sarray_t, Fields, no_fields, field, count,
  type_validate,
}

-- A 32-bit sum.
abbrev pub sum32 : ℕ → ℕ → ℕ
sum32 a b = (a + b) % 2 ^ 32

-- The DBG_ASSERT at the head of an operation.
abbrev pub expect {ℓ} : {A : Type ℓ} → Bool → Option A → Option A
expect true m = m
expect false m = none

-- One string, behind its length.
unfoldable pub write_key : Serializer → Key → Option Serializer
write_key s k = do s1 ← srlizr_write s (le_bytes 2 (length k)); srlizr_write s1 k

unfoldable pub write_keys : Serializer → List Key → Option Serializer
write_keys s [] = some s
write_keys s (k ∷ ks) = do s1 ← write_key s k; write_keys s1 ks

unfoldable pub write_dims : Serializer → List ℕ → Option Serializer
write_dims s [] = some s
write_dims s (n ∷ ds) = do s1 ← srlizr_write s (le_bytes 4 n); write_dims s1 ds

unfoldable mutual
  -- `type_serialize`, where `none` is a failed ASSERT.
  pub type_serialize : Serializer → TypeT → Option Serializer
  type_serialize s (prim p) =
      expect (type_validate (prim p))
        (do s1 ← srlizr_write s (0 ∷ []); srlizr_write s1 (le_bytes 1 p))
  type_serialize s (struct_t fs) = expect (type_validate (struct_t fs)) (do
    s1 ← srlizr_write s (1 ∷ [])
    s2 ← srlizr_write s1 (le_bytes 2 (count fs))
    write_fields s2 fs)
  type_serialize s (union_t fs) = expect (type_validate (union_t fs)) (do
    s1 ← srlizr_write s (2 ∷ [])
    s2 ← srlizr_write s1 (le_bytes 2 (count fs))
    write_fields s2 fs)
  type_serialize s (enum_t ks) = expect (type_validate (enum_t ks)) (do
    s1 ← srlizr_write s (3 ∷ [])
    s2 ← srlizr_write s1 (le_bytes 2 (length ks))
    write_keys s2 ks)
  type_serialize s (sarray_t ds t) = expect (type_validate (sarray_t ds t)) (do
    s1 ← srlizr_write s (4 ∷ [])
    s2 ← srlizr_write s1 (le_bytes 2 (length ds))
    s3 ← write_dims s2 ds
    type_serialize s3 t)

  -- The loop of `struct_t_serialize`.
  pub write_fields : Serializer → Fields → Option Serializer
  write_fields s no_fields = some s
  write_fields s (field k t fs) = do
    s1 ← write_key s k
    s2 ← type_serialize s1 t
    write_fields s2 fs

-- The loop of `enum_t_get_serial_size`.
unfoldable pub add_key_sizes : ℕ → List Key → ℕ
add_key_sizes ret [] = ret
add_key_sizes ret (k ∷ ks) = add_key_sizes (sum32 ret (length k)) ks

unfoldable mutual
  pub type_get_serial_size : TypeT → ℕ
  type_get_serial_size (prim p) = 2
  type_get_serial_size (struct_t fs) = sum32 1 (add_field_sizes (sum32 2 (2 * count fs)) fs)
  type_get_serial_size (union_t fs) = sum32 1 (add_field_sizes (sum32 2 (2 * count fs)) fs)
  type_get_serial_size (enum_t ks) = sum32 1 (add_key_sizes (sum32 2 (2 * length ks)) ks)
  type_get_serial_size (sarray_t ds t) =
      sum32 1 (sum32 (sum32 2 (4 * length ds)) (type_get_serial_size t))

  -- The loop of `struct_t_get_serial_size`.
  pub add_field_sizes : ℕ → Fields → ℕ
  add_field_sizes ret no_fields = ret
  add_field_sizes ret (field k t fs) =
      add_field_sizes (sum32 (sum32 ret (length k)) (type_get_serial_size t)) fs
