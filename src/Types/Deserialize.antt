-- ===== src/Types/Deserialize.antt =====
-- Reading a type back, type_deserialize of libs/nstypes, with the builder of kvt_builder.c.
use numstore.Prelude.{
  ℕ, zero, suc, Bool, false, ◌&&◌, ◌||◌, List, [], ◌∷◌, ◌++◌, Option, none, some, ltb, ◌==◌,
  if◌then◌else◌, length,
}
use numstore.Serial.{le_value, Deserializer, dsrlizr_read}
use numstore.Types.{
  Key, TypeT, prim, struct_t, union_t, enum_t, sarray_t, Fields, no_fields, field, string_equal,
  prim_t_validate, enum_t_validate, sarray_t_validate_shallow,
}

-- What an operation gives: a value, ERR_INTERP or ERR_CORRUPT, a failed ASSERT, or a byte that was
-- never read; `no_fuel` is the model's own.
pub data Result {ℓ} (A : Type ℓ) : Type ℓ where
  got : A → Result A
  err_interp err_corrupt failed undefined no_fuel : Result A

infixl 5 ◌>>=◌
abbrev pub ◌>>=◌ {ℓ κ} : {A : Type ℓ} {B : Type κ} → Result A → (A → Result B) → Result B
got a >>= f = f a
err_interp >>= f = err_interp
err_corrupt >>= f = err_corrupt
failed >>= f = failed
undefined >>= f = undefined
no_fuel >>= f = no_fuel

-- `struct kvt_builder`: the keys and the types of its nodes, in their order.
pub record KvtBuilder : Type 0 where
  pub keys : List Key
  pub types : List TypeT

unfoldable pub kvb_create : KvtBuilder
kvb_create = record { keys = []; types = [] }

unfoldable pub used_in : Key → List Key → Bool
used_in k [] = false
used_in k (j ∷ ks) = string_equal j k || used_in k ks

-- `kvt_has_key_been_used`: a node that has only a type has the empty key.
unfoldable pub kvt_has_key_been_used : KvtBuilder → Key → Bool
kvt_has_key_been_used b k =
    used_in k b.keys || (ltb (length b.keys) (length b.types) && length k == 0)

-- The DBG_ASSERT of a builder.
unfoldable pub is_too_long : KvtBuilder → Bool
is_too_long b = ltb 10 (length b.keys) || ltb 10 (length b.types)

unfoldable pub kvb_accept_key : KvtBuilder → Key → Result KvtBuilder
kvb_accept_key b k =
    if is_too_long b
    then failed
    else if kvt_has_key_been_used b k
    then err_interp
    else got (record b { keys = b.keys ++ k ∷ [] })

unfoldable pub kvb_accept_type : KvtBuilder → TypeT → Result KvtBuilder
kvb_accept_type b t = if is_too_long b then failed else got (record b { types = b.types ++ t ∷ [] })

-- The loop of `kvb_build_common`.
unfoldable pub zip_fields : List Key → List TypeT → Fields
zip_fields [] ts = no_fields
zip_fields (k ∷ ks) [] = no_fields
zip_fields (k ∷ ks) (t ∷ ts) = field k t (zip_fields ks ts)

unfoldable pub kvb_build_common : KvtBuilder → Result Fields
kvb_build_common b =
    if length b.keys == 0
    then err_interp
    else if length b.keys == length b.types
    then got (zip_fields b.keys b.types)
    else err_interp

-- `kvb_struct_t_build` and `kvb_union_t_build`, which expect more than one field.
unfoldable pub kvb_struct_t_build : KvtBuilder → Result Fields
kvb_struct_t_build b = do fs ← kvb_build_common b; if ltb 1 (length b.keys) then got fs else failed

-- A read of `n` bytes; its failure is ERR_CORRUPT.
unfoldable pub read_bytes : ℕ → Deserializer → Result (List ℕ × Deserializer)
read_bytes n d = elim (dsrlizr_read n d) [ none ↦ err_corrupt | some r ↦ got r ]

unfoldable pub read_number : ℕ → Deserializer → Result (ℕ × Deserializer)
read_number n d = do r ← read_bytes n d; got (le_value r.0, r.1)

-- A string behind its length; `lmalloc` expects at least a byte.
unfoldable pub read_key : Deserializer → Result (Key × Deserializer)
read_key d = do n ← read_number 2 d; if n.0 == 0 then failed else read_bytes n.0 n.1

unfoldable pub read_keys : ℕ → Deserializer → Result (List Key × Deserializer)
read_keys zero d = got ([], d)
read_keys (suc n) d = do k ← read_key d; ks ← read_keys n k.1; got (k.0 ∷ ks.0, ks.1)

unfoldable pub read_dims : ℕ → Deserializer → Result (List ℕ × Deserializer)
read_dims zero d = got ([], d)
read_dims (suc n) d = do m ← read_number 4 d; ms ← read_dims n m.1; got (m.0 ∷ ms.0, ms.1)

unfoldable pub prim_t_deserialize : Deserializer → Result (TypeT × Deserializer)
prim_t_deserialize d = do
  p ← read_number 1 d
  if prim_t_validate p.0 then got (prim p.0, p.1) else err_interp

-- `enum_t_deserialize` behind the length.
unfoldable pub read_enum : ℕ → Deserializer → Result (TypeT × Deserializer)
read_enum n d = do
  ks ← read_keys n d
  if enum_t_validate ks.0 then got (enum_t ks.0, ks.1) else err_interp

-- `lcalloc` expects at least one string.
unfoldable pub enum_t_deserialize : Deserializer → Result (TypeT × Deserializer)
enum_t_deserialize d = do n ← read_number 2 d; if n.0 == 0 then failed else read_enum n.0 n.1

-- The operations that read a type inside another one take its reader.
module _ (type_reader : Deserializer → Result (TypeT × Deserializer)) where
  -- One round of the loop of `struct_t_deserialize`.
  unfoldable pub read_field : KvtBuilder → Deserializer → Result (KvtBuilder × Deserializer)
  read_field b d = do
    k ← read_key d
    t ← type_reader k.1
    b1 ← kvb_accept_key b k.0
    b2 ← kvb_accept_type b1 t.0
    got (b2, t.1)

  unfoldable pub read_fields : ℕ → KvtBuilder → Deserializer → Result (KvtBuilder × Deserializer)
  read_fields zero b d = got (b, d)
  read_fields (suc n) b d = do r ← read_field b d; read_fields n r.0 r.1

  unfoldable pub struct_t_deserialize : Deserializer → Result (Fields × Deserializer)
  struct_t_deserialize d = do
    n ← read_number 2 d
    r ← read_fields n.0 kvb_create n.1
    fs ← kvb_struct_t_build r.0
    got (fs, r.1)

  -- `union_t_deserialize` has the same body.
  abbrev pub union_t_deserialize : Deserializer → Result (Fields × Deserializer)
  union_t_deserialize d = struct_t_deserialize d

  -- `sarray_t_deserialize` behind the rank.
  unfoldable pub read_sarray : ℕ → Deserializer → Result (TypeT × Deserializer)
  read_sarray n d = do
    ds ← read_dims n d
    t ← type_reader ds.1
    if sarray_t_validate_shallow ds.0 then got (sarray_t ds.0 t.0, t.1) else err_interp

  unfoldable pub sarray_t_deserialize : Deserializer → Result (TypeT × Deserializer)
  sarray_t_deserialize d = do n ← read_number 2 d; if n.0 == 0 then failed else read_sarray n.0 n.1

  -- The switch of `type_deserialize`.
  unfoldable pub read_body : ℕ → Deserializer → Result (TypeT × Deserializer)
  read_body header d =
      if header == 0
      then prim_t_deserialize d
      else if header == 1
      then (do r ← struct_t_deserialize d; got (struct_t r.0, r.1))
      else if header == 2
      then (do r ← union_t_deserialize d; got (union_t r.0, r.1))
      else if header == 3
      then enum_t_deserialize d
      else if header == 4
      then sarray_t_deserialize d
      else err_interp

  -- Where no header is left, its variable is used as it is.
  unfoldable pub from_header : Option (List ℕ × Deserializer) → Result (TypeT × Deserializer)
  from_header none = undefined
  from_header (some r) = read_body (le_value r.0) r.1

  unfoldable pub read_header : Deserializer → Result (TypeT × Deserializer)
  read_header d = from_header (dsrlizr_read 1 d)

-- `type_deserialize`, a level of nesting for each unit of fuel.
unfoldable pub type_deserialize : ℕ → Deserializer → Result (TypeT × Deserializer)
type_deserialize zero d = no_fuel
type_deserialize (suc fuel) d = read_header (type_deserialize fuel) d
