-- ===== src/Types/Tests.antt =====
-- Types at concrete bytes.
use numstore.Prelude.{
  some, none, ℕ, true, List, [], ◌∷◌, ◌++◌, some, length, ◌≡◌, ◌≢◌, ◌↔◌, refl, arith, ap,
}
use numstore.Serial.{le_bytes, le_value, srlizr_create, Deserializer, dsrlizr_create, dsrlizr_read}
use numstore.Types.{
  TypeT, prim, struct_t, enum_t, sarray_t, no_fields, field, prim_t_validate, enum_t_validate,
  struct_t_validate, struct_t_validate_shallow, sarray_t_validate_shallow, dims_non_zero,
  keys_non_empty, strings_all_unique, unique_in, memcmp_equal, strncmp_equal, string_equal,
  type_validate, type_equal, enum_t_equal, dims_equal,
}
use numstore.Types.Serialize.{type_serialize, type_get_serial_size}
use numstore.Types.Encoding.{encode, AllValid}
use numstore.Types.Deserialize.{
  got, no_fuel, type_deserialize, used_in, read_header, from_header, read_body, prim_t_deserialize,
  read_number, read_bytes,
}
use numstore.Types.Reads.{Got}
use numstore.Types.RoundTrip.{Fits, type_serialize-deserialize}
use numstore.Types.WellTyped.{type_deserialize_total, type_deserialize-AllValid}
use numstore.Types.Equal.{type_equal_iff}

-- struct { a U32, bc [2]enum { x } }
abbrev small_struct : TypeT
small_struct = struct_t (
    field (97 ∷ []) (prim 2)
      (field (98 ∷ 99 ∷ []) (sarray_t (2 ∷ []) (enum_t ((120 ∷ []) ∷ []))) no_fields))

-- The validation of a struct does not look into its fields.
empty_enum_inside :
    type_validate (struct_t (field (97 ∷ []) (enum_t []) (field (98 ∷ []) (prim 0) no_fields)))
    ≡ true
unfolding type_validate struct_t_validate struct_t_validate_shallow keys_non_empty
    strings_all_unique unique_in memcmp_equal
empty_enum_inside = refl

-- Arrays of different elements are equal.
bytes_and_words : type_equal (sarray_t (3 ∷ []) (prim 0)) (sarray_t (3 ∷ []) (prim 3)) ≡ some true
unfolding type_equal dims_equal
bytes_and_words = refl

-- struct { a U32, bc enum { x } }, and with a U64.
abbrev flat_struct : ℕ → TypeT
flat_struct p =
    struct_t (field (97 ∷ []) (prim p) (field (98 ∷ 99 ∷ []) (enum_t ((120 ∷ []) ∷ [])) no_fields))

type_equal_iff_example :
    (type_equal (flat_struct 2) (flat_struct 3) ≡ some true) ↔ (flat_struct 2 ≡ flat_struct 3)
unfolding enum_t_validate keys_non_empty strings_all_unique unique_in
type_equal_iff_example =
    type_equal_iff (flat_struct 2) (flat_struct 3) (
      (omega arith, tt),
      tt,
      ((omega arith, (omega arith, tt)), (refl, ((omega arith, tt), tt)), tt),
    )

-- An enum without keys fails a DBG_ASSERT.
no_keys : type_equal (enum_t []) (enum_t []) ≡ none
unfolding type_equal enum_t_equal enum_t_validate
no_keys = refl

small_struct-AllValid : AllValid small_struct
unfolding type_validate struct_t_validate struct_t_validate_shallow keys_non_empty
    strings_all_unique unique_in memcmp_equal sarray_t_validate_shallow dims_non_zero
    enum_t_validate prim_t_validate
small_struct-AllValid = (refl, (refl, ((refl, refl), tt)))

abbrev small_bytes : List ℕ
small_bytes =
    1 ∷ 2 ∷ 0 ∷ 1 ∷ 0 ∷ 97 ∷ 0 ∷ 2 ∷ 2 ∷ 0 ∷ 98 ∷ 99 ∷ 4 ∷ 1 ∷ 0 ∷ 2 ∷ 0 ∷ 0 ∷ 0 ∷ 3 ∷ 1 ∷ 0 ∷ 1 ∷ 0
    ∷ 120 ∷ []

encoded : encode small_struct ≡ small_bytes
unfolding encode le_bytes
encoded = refl

small_struct-Fits : Fits small_struct
unfolding used_in string_equal strncmp_equal
small_struct-Fits = (
  omega arith,
  omega arith,
  (
    refl,
    omega arith,
    tt,
    (refl, omega arith, (omega arith, omega arith, (omega arith, omega arith)), tt),
  ),
)

type_serialize-deserialize_example :
    (bytes : List ℕ) × (type_serialize (srlizr_create 64) small_struct
      ≡ some (record { written = bytes; dcap = 64 }))
    × (length bytes ≡ type_get_serial_size small_struct)
    × Got
        (type_deserialize (length bytes) (dsrlizr_create (bytes ++ (7 ∷ []))))
        small_struct
        (7 ∷ [])
type_serialize-deserialize_example =
    type_serialize-deserialize small_struct 64 (7 ∷ []) small_struct-AllValid small_struct-Fits
      (omega (arith, ap length encoded)) (omega arith) (omega (arith, ap length encoded))

type_deserialize_total_example : type_deserialize 26 (dsrlizr_create small_bytes) ≢ no_fuel
type_deserialize_total_example =
    type_deserialize_total small_bytes 26 (omega arith) (omega arith) (omega arith)

abbrev after_prim : Deserializer
after_prim = record { bytes = 0 ∷ 5 ∷ []; head = 2 }

read_prim : type_deserialize 3 (dsrlizr_create (0 ∷ 5 ∷ [])) ≡ got (prim 5, after_prim)
unfolding type_deserialize read_header from_header read_body prim_t_deserialize read_number
    read_bytes dsrlizr_read dsrlizr_create le_value prim_t_validate
read_prim = refl

type_deserialize-AllValid_example : AllValid (prim 5)
type_deserialize-AllValid_example =
    type_deserialize-AllValid (0 ∷ 5 ∷ []) 3 (omega arith) (omega arith) (omega arith) (prim 5)
      after_prim read_prim
