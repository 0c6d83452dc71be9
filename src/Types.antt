-- ===== src/Types.antt =====
-- The types of stored values, libs/nstypes: types.c, prim.c, struct.c, union.c, enum.c, sarray.c and
-- kvt_builder.c. A string is the list of its bytes, and the `len` of a struct, a union, an enum or an
-- array is the length of its list. Allocations succeed; a failed ASSERT or DBG_ASSERT is `failed`.
pub mod Serialize
pub mod Encoding
pub mod Deserialize
pub mod Reads
pub mod Size
pub mod RoundTrip
pub mod Ends
pub mod Valid
pub mod WellTyped
pub mod Equal
mod Tests
use numstore.Prelude.{
  ℕ, zero, suc, ◌+◌, ◌*◌, ◌%◌, ◌^◌, Bool, true, false, not, ◌&&◌, ◌||◌, List, [], ◌∷◌, ◌++◌, Option,
  none, some, ltb, leb, ◌==◌, if◌then◌else◌, length,
}
use numstore.Serial.{le_bytes, le_value, Serializer, srlizr_write, Deserializer, dsrlizr_read}
use numstore.Serial

-- `struct string`.
abbrev pub Key : Type 0
Key = List ℕ

-- `struct type`. A primitive type is its number in `enum prim_t`.
mutual
  pub data TypeT : Type 0 where
    prim : ℕ → TypeT
    struct_t : Fields → TypeT
    union_t : Fields → TypeT
    enum_t : List Key → TypeT
    sarray_t : List ℕ → TypeT → TypeT

  -- `keys` and `types` of `struct struct_t` and `struct union_t`.
  pub data Fields : Type 0 where
    no_fields : Fields
    field : Key → TypeT → Fields → Fields

abbrev pub count : Fields → ℕ
count no_fields = 0
count (field k t fs) = suc (count fs)

abbrev pub keys_of : Fields → List Key
keys_of no_fields = []
keys_of (field k t fs) = k ∷ keys_of fs

-- `i_memcmp (a, b, n) == 0` and `i_strncmp (a, b, n) == 0`, at equal lengths.
unfoldable pub memcmp_equal : Key → Key → Bool
memcmp_equal [] b = true
memcmp_equal (x ∷ a) [] = false
memcmp_equal (x ∷ a) (y ∷ b) = x == y && memcmp_equal a b

unfoldable pub strncmp_equal : Key → Key → Bool
strncmp_equal [] b = true
strncmp_equal (x ∷ a) [] = false
strncmp_equal (x ∷ a) (y ∷ b) = x == y && (x == 0 || strncmp_equal a b)

unfoldable pub string_equal : Key → Key → Bool
string_equal a b = length a == length b && strncmp_equal a b

-- The inner loop of `strings_all_unique` for one string.
unfoldable pub unique_in : Key → List Key → Bool
unique_in k [] = true
unique_in k (j ∷ ks) = not (length k == length j && memcmp_equal k j) && unique_in k ks

unfoldable pub strings_all_unique : List Key → Bool
strings_all_unique [] = true
strings_all_unique (k ∷ ks) = unique_in k ks && strings_all_unique ks

-- No key is empty.
unfoldable pub keys_non_empty : List Key → Bool
keys_non_empty [] = true
keys_non_empty (k ∷ ks) = not (length k == 0) && keys_non_empty ks

-- `true` is SUCCESS, and `false` ERR_INTERP.
unfoldable pub prim_t_validate : ℕ → Bool
prim_t_validate p = leb p 23

unfoldable pub enum_t_validate : List Key → Bool
enum_t_validate ks = not (length ks == 0) && (keys_non_empty ks && strings_all_unique ks)

unfoldable pub struct_t_validate_shallow : Fields → Bool
struct_t_validate_shallow fs =
    not (count fs == 0) && (keys_non_empty (keys_of fs) && strings_all_unique (keys_of fs))

-- A `return false`, which is SUCCESS, stands behind the first test.
unfoldable pub struct_t_validate : Fields → Bool
struct_t_validate fs = struct_t_validate_shallow fs

-- `union_t_validate` has the same body.
abbrev pub union_t_validate : Fields → Bool
union_t_validate fs = struct_t_validate fs

unfoldable pub dims_non_zero : List ℕ → Bool
dims_non_zero [] = true
dims_non_zero (n ∷ ds) = not (n == 0) && dims_non_zero ds

unfoldable pub sarray_t_validate_shallow : List ℕ → Bool
sarray_t_validate_shallow ds = not (length ds == 0) && dims_non_zero ds

unfoldable pub type_validate : TypeT → Bool
type_validate (prim p) = prim_t_validate p
type_validate (struct_t fs) = struct_t_validate fs
type_validate (union_t fs) = union_t_validate fs
type_validate (enum_t ks) = enum_t_validate ks
type_validate (sarray_t ds t) = sarray_t_validate_shallow ds && type_validate t

-- `type_equal` and its parts; `none` where a DBG_ASSERT fails, which only `enum_t_equal` has.
unfoldable pub keys_equal : List Key → List Key → Bool
keys_equal [] [] = true
keys_equal [] (k ∷ ks) = false
keys_equal (k ∷ ks) [] = false
keys_equal (k ∷ ks) (j ∷ js) = string_equal k j && keys_equal ks js

unfoldable pub dims_equal : List ℕ → List ℕ → Bool
dims_equal [] [] = true
dims_equal [] (n ∷ ns) = false
dims_equal (n ∷ ns) [] = false
dims_equal (n ∷ ns) (m ∷ ms) = n == m && dims_equal ns ms

-- `enum_t_equal`.
unfoldable pub enum_t_equal : List Key → List Key → Option Bool
enum_t_equal ks js =
    if enum_t_validate ks && enum_t_validate js then some (keys_equal ks js) else none

-- The return where two types of fields differ.
unfoldable pub and_equal : Option Bool → Option Bool → Option Bool
and_equal none rest = none
and_equal (some true) rest = rest
and_equal (some false) rest = some false

unfoldable mutual
  pub type_equal : TypeT → TypeT → Option Bool
  type_equal (prim p) (prim q) = some (p == q)
  type_equal (struct_t fs) (struct_t gs) = fields_equal fs gs
  type_equal (union_t fs) (union_t gs) = fields_equal fs gs
  type_equal (enum_t ks) (enum_t js) = enum_t_equal ks js
  type_equal (sarray_t ds t) (sarray_t es u) = some (dims_equal ds es)
  type_equal _ _ = some false

  pub fields_equal : Fields → Fields → Option Bool
  fields_equal no_fields no_fields = some true
  fields_equal (field k t fs) (field j u gs) =
      if string_equal k j then and_equal (type_equal t u) (fields_equal fs gs) else some false
  fields_equal _ _ = some false
