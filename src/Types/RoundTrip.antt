-- ===== src/Types/RoundTrip.antt =====
-- A type that type_serialize of libs/nstypes has written is read back by type_deserialize.
use numstore.Prelude.{
  ℕ, zero, suc, ◌+◌, ◌^◌, ◌≤◌, ◌<◌, true, false, List, [], ◌∷◌, ◌++◌, some, length, length-append,
  append_assoc, append-nil, All, ◌≡◌, refl, sym, arith, ap, ap₂, ◌∙◌, subst, ◌==◌, if◌then◌else◌,
}
use numstore.Serial.{le_bytes, le_value, srlizr_create, Deserializer, dsrlizr_create}
use numstore.Serial.Bytes.{Rest, skip}
use numstore.Types.{
  Key, TypeT, prim, struct_t, union_t, enum_t, sarray_t, Fields, no_fields, field, count, keys_of,
  type_validate, prim_t_validate, enum_t_validate, sarray_t_validate_shallow,
}
use numstore.Types.Serialize.{type_serialize, type_get_serial_size}
use numstore.Types.Encoding.{
  encode, encode_fields, encode_key, encode_keys, encode_dims, AllValid, AllFieldsValid,
  type_serialize_lem,
}
use numstore.Types.Size.{type_get_serial_size_lem}
use numstore.Types.Deserialize.{
  Result, got, failed, KvtBuilder, kvb_create, used_in, kvt_has_key_been_used, is_too_long,
  kvb_accept_key, kvb_accept_type, zip_fields, kvb_build_common, kvb_struct_t_build, read_number,
  read_enum, prim_t_deserialize, enum_t_deserialize, read_field, read_fields, struct_t_deserialize,
  read_sarray, sarray_t_deserialize, read_body, from_header, read_header, type_deserialize,
}
use numstore.Types.Reads.{
  Got, Reads, dsrlizr_read_lem, read_nothing, read_map, read_both, read_number_lem, FitKey,
  read_key_lem, read_keys_lem, Fit32, read_dims_lem,
}

prim_small : (p : ℕ) → type_validate (prim p) ≡ true → p < 256
unfolding type_validate prim_t_validate
prim_small p v = ground arith

enum_not_empty : (ks : List Key) → type_validate (enum_t ks) ≡ true → (length ks == 0) ≡ false
unfolding type_validate enum_t_validate
enum_not_empty ks v = ground arith

sarray_valid :
    (ds : List ℕ) (t : TypeT)
    → type_validate (sarray_t ds t) ≡ true
    → ((length ds == 0) ≡ false) × (sarray_t_validate_shallow ds ≡ true)
unfolding type_validate sarray_t_validate_shallow
sarray_valid ds t v = (ground arith, ground arith)

abbrev types_of : Fields → List TypeT
types_of no_fields = []
types_of (field k t fs) = t ∷ types_of fs

-- Lengths fit their bytes, a struct and a union have two fields at least and ten at most, and no
-- key equals one before it.
abbrev mutual
  pub Fits : TypeT → Type 0
  Fits (prim p) = Unit
  Fits (struct_t fs) = (1 < count fs) × (count fs < 11) × FitFields [] fs
  Fits (union_t fs) = (1 < count fs) × (count fs < 11) × FitFields [] fs
  Fits (enum_t ks) = (length ks < 2 ^ 16) × All FitKey ks
  Fits (sarray_t ds t) = (length ds < 2 ^ 16) × All Fit32 ds × Fits t

  pub FitFields : List Key → Fields → Type 0
  FitFields ks no_fields = Unit
  FitFields ks (field k t fs) =
      (used_in k ks ≡ false) × FitKey k × Fits t × FitFields (ks ++ k ∷ []) fs

-- A field is added to a builder with room.
accept_field :
    (ks : List Key) (ts : List TypeT) (k : Key) (t : TypeT)
    → length ks ≡ length ts
    → length ks < 10
    → used_in k ks ≡ false
    → (kvb_accept_key (record { keys = ks; types = ts }) k
        ≡ got (record { keys = ks ++ k ∷ []; types = ts }))
      × (kvb_accept_type (record { keys = ks ++ k ∷ []; types = ts }) t
          ≡ got (record { keys = ks ++ k ∷ []; types = ts ++ t ∷ [] }))
unfolding kvb_accept_key kvb_accept_type is_too_long kvt_has_key_been_used
accept_field ks ts k t same room new = (ground arith, ground (arith, length-append ks (k ∷ [])))

zip_all : (fs : Fields) → zip_fields (keys_of fs) (types_of fs) ≡ fs
unfolding zip_fields
zip_all no_fields = refl
zip_all (field k t fs) = ap (field k t) (zip_all fs)

length-keys_of : (fs : Fields) → length (keys_of fs) ≡ count fs
length-keys_of no_fields = refl
length-keys_of (field k t fs) = ap suc (length-keys_of fs)

length-types_of : (fs : Fields) → length (types_of fs) ≡ count fs
length-types_of no_fields = refl
length-types_of (field k t fs) = ap suc (length-types_of fs)

kvb_struct_t_build_lem :
    (fs : Fields)
    → 1 < count fs
    → kvb_struct_t_build (record { keys = keys_of fs; types = types_of fs }) ≡ got fs
unfolding kvb_struct_t_build kvb_build_common
kvb_struct_t_build_lem fs more = ground (arith, length-keys_of fs, length-types_of fs, zip_all fs)

-- The types that hold no others.
read_prim :
    (p : ℕ) → type_validate (prim p) ≡ true → Reads prim_t_deserialize (prim p) (le_bytes 1 p)
unfolding prim_t_deserialize type_validate
read_prim p v d rest here =
    let small : p < 256 = prim_small p v in
    let (d1, e, r1) = read_number_lem 1 p small d rest here in (d1, rw (e, v) refl, r1)

read_enum_lem :
    (ks : List Key)
    → type_validate (enum_t ks) ≡ true
    → length ks < 2 ^ 16
    → All FitKey ks
    → Reads enum_t_deserialize (enum_t ks) (le_bytes 2 (length ks) ++ encode_keys ks)
unfolding enum_t_deserialize read_enum type_validate
read_enum_lem ks v lt fit =
    let some_keys : (length ks == 0) ≡ false = enum_not_empty ks v in
    read_both (read_number 2) (λ n d. if n == 0 then failed else read_enum n d) (length ks)
      (enum_t ks) (le_bytes 2 (length ks)) (encode_keys ks) (read_number_lem 2 (length ks) lt)
      (λ d rest here.
        let (d1, e, r1) = read_keys_lem ks fit d rest here in (d1, rw (some_keys, e, v) refl, r1))

read_sarray_lem :
    (r : Deserializer → Result (TypeT × Deserializer)) (ds : List ℕ) (t : TypeT)
    → type_validate (sarray_t ds t) ≡ true
    → length ds < 2 ^ 16
    → All Fit32 ds
    → Reads r t (encode t)
    → Reads
        (sarray_t_deserialize r)
        (sarray_t ds t)
        (le_bytes 2 (length ds) ++ (encode_dims ds ++ encode t))
unfolding sarray_t_deserialize read_sarray
read_sarray_lem r ds t v lt fit reads =
    let (some_dims, valid) = sarray_valid ds t v in
    read_both (read_number 2) (λ n d. if n == 0 then failed else read_sarray r n d) (length ds)
      (sarray_t ds t) (le_bytes 2 (length ds)) (encode_dims ds ++ encode t)
      (read_number_lem 2 (length ds) lt)
      (λ d rest here.
        let (d1, e, r1) =
          read_dims_lem ds fit d (encode t ++ rest)
            (subst (Rest d) (append_assoc (encode_dims ds) (encode t) rest) here) in
        let (d2, f, r2) = reads d1 rest r1 in (d2, rw (some_dims, e, f, valid) refl, r2))

-- `type_deserialize` with a fuel that reads every type whose bytes are not longer.
abbrev ReadsTypes : (Deserializer → Result (TypeT × Deserializer)) → ℕ → Type 0
ReadsTypes r n = (t : TypeT) → AllValid t → Fits t → length (encode t) ≤ n → Reads r t (encode t)

module _ (r : Deserializer → Result (TypeT × Deserializer)) (n : ℕ) (reads : ReadsTypes r n) where
  read_field_lem :
      (ks : List Key) (ts : List TypeT) (k : Key) (t : TypeT)
      → length ks ≡ length ts
      → length ks < 10
      → used_in k ks ≡ false
      → FitKey k
      → AllValid t
      → Fits t
      → length (encode t) ≤ n
      → Reads
          (read_field r (record { keys = ks; types = ts }))
          (record { keys = ks ++ k ∷ []; types = ts ++ t ∷ [] })
          (encode_key k ++ encode t)
  unfolding read_field
  read_field_lem ks ts k t same room new fit v f l d rest here =
      let (d1, e1, r1) =
        read_key_lem k fit d (encode t ++ rest)
          (subst (Rest d) (append_assoc (encode_key k) (encode t) rest) here) in
      let (d2, e2, r2) = reads t v f l d1 rest r1 in
      let (e3, e4) = accept_field ks ts k t same room new in (d2, rw (e1, e2, e3, e4) refl, r2)

  read_fields_lem :
      (fs : Fields) (ks : List Key) (ts : List TypeT)
      → length ks ≡ length ts
      → length ks + count fs < 11
      → AllFieldsValid fs
      → FitFields ks fs
      → length (encode_fields fs) ≤ n
      → Reads
          (read_fields r (count fs) (record { keys = ks; types = ts }))
          (record { keys = ks ++ keys_of fs; types = ts ++ types_of fs })
          (encode_fields fs)
  unfolding read_fields encode_fields
  read_fields_lem no_fields ks ts same room v f l =
      let b : KvtBuilder = record { keys = ks; types = ts } in
      let whole : b ≡ record { keys = ks ++ []; types = ts ++ [] } =
        ap₂ (λ x y. record { keys = x; types = y }) (sym (append-nil ks)) (sym (append-nil ts)) in
      subst (λ c. Reads (λ d. got (b, d)) c []) whole (read_nothing b)
  read_fields_lem (field k t fs) ks ts same room (vt, vs) (new, fit, ft, ffs) l =
      let x = encode_key k in
      let y = encode t in
      let z = encode_fields fs in
      let b1 : KvtBuilder = record { keys = ks ++ k ∷ []; types = ts ++ t ∷ [] } in
      let b2 : KvtBuilder = record {
        keys = (ks ++ k ∷ []) ++ keys_of fs;
        types = (ts ++ t ∷ []) ++ types_of fs;
      } in
      let lens : length y + length z ≤ n =
        omega (arith, length-append x (y ++ z), length-append y z) in
      let l1 = length-append ks (k ∷ []) in
      let first = read_field_lem ks ts k t same (omega arith) new fit vt ft (omega arith) in
      let others =
        read_fields_lem fs (ks ++ k ∷ []) (ts ++ t ∷ [])
          (omega (arith, l1, length-append ts (t ∷ []))) (omega (arith, l1)) vs ffs (omega arith) in
      let all =
        read_both (read_field r (record { keys = ks; types = ts })) (read_fields r (count fs)) b1 b2
          (x ++ y) z first others in
      let whole : b2 ≡ record { keys = ks ++ k ∷ keys_of fs; types = ts ++ t ∷ types_of fs } =
        ap₂ (λ x y. record { keys = x; types = y }) (append_assoc ks (k ∷ []) (keys_of fs))
          (append_assoc ts (t ∷ []) (types_of fs)) in
      subst
        (λ c.
          Reads (read_fields r (suc (count fs)) (record { keys = ks; types = ts })) c
            (x ++ (y ++ z)))
        whole
        (subst (Reads (read_fields r (suc (count fs)) (record { keys = ks; types = ts })) b2)
          (append_assoc x y z) all)

  read_struct :
      (fs : Fields)
      → 1 < count fs
      → count fs < 11
      → AllFieldsValid fs
      → FitFields [] fs
      → length (encode_fields fs) ≤ n
      → Reads (struct_t_deserialize r) fs (le_bytes 2 (count fs) ++ encode_fields fs)
  unfolding struct_t_deserialize kvb_create
  read_struct fs more few v f l =
      read_both (read_number 2) _ (count fs) fs (le_bytes 2 (count fs)) (encode_fields fs)
        (read_number_lem 2 (count fs) (omega arith))
        (λ d rest here.
          let (d1, e, r1) = read_fields_lem fs [] [] refl (omega arith) v f l d rest here in
          (d1, rw (e, kvb_struct_t_build_lem fs more) refl, r1))

  read_tagged :
      (tag : ℕ) (t : TypeT) (bs : List ℕ)
      → Reads (read_body r tag) t bs
      → Reads (read_header r) t (tag ∷ bs)
  unfolding read_header from_header le_value
  read_tagged tag t bs h d rest here =
      let (e, r1) = dsrlizr_read_lem (tag ∷ []) d (bs ++ rest) here in
      let (d2, f, r2) = h (skip d 1) rest r1 in
      let one : le_value (tag ∷ []) ≡ tag = omega arith in
      (d2, rw e (ap (λ n. read_body r n (skip d 1)) one ∙ f), r2)

  read_body_lem :
      (t : TypeT)
      → AllValid t
      → Fits t
      → length (encode t) ≤ suc n
      → Reads (read_header r) t (encode t)
  unfolding encode read_body
  read_body_lem (prim p) v f l = read_tagged 0 (prim p) (le_bytes 1 p) (read_prim p v)
  read_body_lem (struct_t fs) (v, vs) (more, few, fit) l =
      let bs = le_bytes 2 (count fs) ++ encode_fields fs in
      read_tagged 1 (struct_t fs) bs (
        read_map (struct_t_deserialize r) struct_t fs bs (
          read_struct fs more few vs fit
            (omega (arith, length-append (le_bytes 2 (count fs)) (encode_fields fs)))))
  read_body_lem (union_t fs) (v, vs) (more, few, fit) l =
      let bs = le_bytes 2 (count fs) ++ encode_fields fs in
      read_tagged 2 (union_t fs) bs (
        read_map (struct_t_deserialize r) union_t fs bs (
          read_struct fs more few vs fit
            (omega (arith, length-append (le_bytes 2 (count fs)) (encode_fields fs)))))
  read_body_lem (enum_t ks) v (lt, fit) l =
      read_tagged 3 (enum_t ks) (le_bytes 2 (length ks) ++ encode_keys ks)
        (read_enum_lem ks v lt fit)
  read_body_lem (sarray_t ds t) (v, vt) (lt, fit, ft) l =
      let rest = encode_dims ds ++ encode t in
      let long : length (encode t) ≤ n = omega (
        arith,
        length-append (le_bytes 2 (length ds)) rest,
        length-append (encode_dims ds) (encode t),
      ) in
      read_tagged 4 (sarray_t ds t) (le_bytes 2 (length ds) ++ rest)
        (read_sarray_lem r ds t v lt fit (reads t vt ft long))

encode_pos : (t : TypeT) → 0 < length (encode t)
unfolding encode
encode_pos (prim p) = omega arith
encode_pos (struct_t fs) = omega arith
encode_pos (union_t fs) = omega arith
encode_pos (enum_t ks) = omega arith
encode_pos (sarray_t ds t) = omega arith

type_reads : (n : ℕ) → ReadsTypes (type_deserialize n) n
unfolding type_deserialize
type_reads zero t v f l = absurd (omega (arith, encode_pos t))
type_reads (suc n) t v f l = read_body_lem (type_deserialize n) n (type_reads n) t v f l

-- A type whose parts are all valid and fit comes back: with room for its bytes, `type_serialize` writes as many
-- bytes as `type_get_serial_size` says, and `type_deserialize` of these, whatever follows them, gives the type and
-- stops behind them, with as much fuel as there are bytes.
pub type_serialize-deserialize :
    (t : TypeT) (cap : ℕ) (rest : List ℕ)
    → AllValid t
    → Fits t
    → length (encode t) ≤ cap
    → cap < 2 ^ 32
    → length (encode t) + length rest + 8 < 2 ^ 32
    → (bytes : List ℕ) × (type_serialize (srlizr_create cap) t
        ≡ some (record { written = bytes; dcap = cap }))
      × (length bytes ≡ type_get_serial_size t)
      × Got (type_deserialize (length bytes) (dsrlizr_create (bytes ++ rest))) t rest
unfolding srlizr_create dsrlizr_create
type_serialize-deserialize t cap rest v f room small whole =
    let bs = encode t in
    (
      bs,
      type_serialize_lem t (srlizr_create cap) v (omega (arith, room), small),
      sym (type_get_serial_size_lem t (omega arith)),
      type_reads (length bs) t v f (omega arith) (dsrlizr_create (bs ++ rest)) rest (record {
        behind_head = refl;
        in_all = omega (arith, length-append bs rest);
        short = omega (arith, length-append bs rest);
      }),
    )
