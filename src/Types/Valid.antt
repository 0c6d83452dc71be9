-- ===== src/Types/Valid.antt =====
-- What type_deserialize of libs/nstypes accepts: every type that it gives is valid, with all the
-- types inside it, which type_validate itself does not look at.
use numstore.Prelude.{
  suc, ◌<◌, true, false, List, [], ◌∷◌, ◌++◌, length, length-append, ◌≡◌, refl, sym, arith, ap, ◌∙◌,
  subst, ◌==◌, ltb, Bool-cases, inl, inr, All,
}
use numstore.Types.{
  Key, TypeT, Fields, no_fields, field, count, keys_of, memcmp_equal, strncmp_equal, string_equal,
  unique_in, strings_all_unique, keys_non_empty, struct_t_validate_shallow, struct_t_validate,
}
use numstore.Types.Encoding.{AllValid, AllFieldsValid}
use numstore.Types.Ends.{Holds}
use numstore.Types.Deserialize.{
  KvtBuilder, kvb_create, used_in, kvt_has_key_been_used, is_too_long, kvb_accept_key,
  kvb_accept_type, zip_fields, kvb_build_common, kvb_struct_t_build,
}

-- Strings with the same bytes are equal strings.
strncmp_equal_of_memcmp : (a b : Key) → memcmp_equal a b ≡ true → strncmp_equal a b ≡ true
unfolding memcmp_equal strncmp_equal
strncmp_equal_of_memcmp [] b h = refl
strncmp_equal_of_memcmp (x ∷ a) [] h = h
strncmp_equal_of_memcmp (x ∷ a) (y ∷ b) h = ground (arith, strncmp_equal_of_memcmp a b)

unique_in-snoc :
    (j k : Key) (ks : List Key)
    → unique_in j ks ≡ true
    → string_equal j k ≡ false
    → unique_in j (ks ++ k ∷ []) ≡ true
unfolding unique_in string_equal
unique_in-snoc j k [] h e = ground (arith, strncmp_equal_of_memcmp j k)
unique_in-snoc j k (i ∷ ks) h e = ground (arith, unique_in-snoc j k ks)

-- A string that equals none of a list of different ones can be put behind them.
strings_all_unique-snoc :
    (ks : List Key) (k : Key)
    → strings_all_unique ks ≡ true
    → used_in k ks ≡ false
    → strings_all_unique (ks ++ k ∷ []) ≡ true
unfolding strings_all_unique used_in unique_in
strings_all_unique-snoc [] k h e = refl
strings_all_unique-snoc (j ∷ ks) k h e =
    ground (arith, unique_in-snoc j k ks, strings_all_unique-snoc ks k)

keys_non_empty-snoc :
    (ks : List Key) (k : Key)
    → keys_non_empty ks ≡ true
    → 0 < length k
    → keys_non_empty (ks ++ k ∷ []) ≡ true
unfolding keys_non_empty
keys_non_empty-snoc [] k h pos = ground arith
keys_non_empty-snoc (j ∷ ks) k h pos = ground (arith, keys_non_empty-snoc ks k)

-- The invariant of a builder between two fields.
abbrev pub IsBuilder : KvtBuilder → Type 0
IsBuilder b =
    (keys_non_empty b.keys ≡ true)
    × (strings_all_unique b.keys ≡ true)
    × (length b.keys ≡ length b.types)
    × All AllValid b.types

pub kvb_create-IsBuilder : IsBuilder kvb_create
unfolding kvb_create keys_non_empty strings_all_unique
kvb_create-IsBuilder = (refl, refl, refl, tt)

not_used : (b : KvtBuilder) (k : Key) → kvt_has_key_been_used b k ≡ false → used_in k b.keys ≡ false
unfolding kvt_has_key_been_used
not_used b k h = ground arith

-- The builder behind a key, and behind a type.
abbrev pub WithKey : KvtBuilder → Key → KvtBuilder → Type 0
WithKey b k b' = (b' ≡ record b { keys = b.keys ++ k ∷ [] }) × (used_in k b.keys ≡ false)

abbrev pub WithType : KvtBuilder → TypeT → KvtBuilder → Type 0
WithType b t b' = b' ≡ record b { types = b.types ++ t ∷ [] }

pub kvb_accept_key-Holds : (b : KvtBuilder) (k : Key) → Holds (WithKey b k) (kvb_accept_key b k)
unfolding kvb_accept_key
kvb_accept_key-Holds b k = elim (Bool-cases (is_too_long b)) [
  | inl long ↦ rw long tt
  | inr short ↦ elim (Bool-cases (kvt_has_key_been_used b k)) [
    | inl old ↦ rw (short, old) tt
    | inr new ↦ rw (short, new) (refl, not_used b k new)
  ]
]

pub kvb_accept_type-Holds :
    (b : KvtBuilder) (t : TypeT) → Holds (WithType b t) (kvb_accept_type b t)
unfolding kvb_accept_type
kvb_accept_type-Holds b t = elim (Bool-cases (is_too_long b)) [
  | inl long ↦ rw long tt
  | inr short ↦ rw short refl
]

All-snoc :
    (ts : List TypeT) (t : TypeT) → All AllValid ts → AllValid t → All AllValid (ts ++ t ∷ [])
All-snoc [] t h v = (v, tt)
All-snoc (u ∷ ts) t (hu, h) v = (hu, All-snoc ts t h v)

pub accepted-IsBuilder :
    (b : KvtBuilder) (k : Key) (t : TypeT) (b1 b2 : KvtBuilder)
    → IsBuilder b
    → 0 < length k
    → AllValid t
    → WithKey b k b1
    → WithType b1 t b2
    → IsBuilder b2
accepted-IsBuilder b k t b1 b2 (full, unique, same, vs) pos v (e, new) f =
    subst IsBuilder (sym (f ∙ ap {A = KvtBuilder} (λ c. record c { types = c.types ++ t ∷ [] }) e))
      (
        keys_non_empty-snoc b.keys k full pos,
        strings_all_unique-snoc b.keys k unique new,
        omega (arith, length-append b.keys (k ∷ []), length-append b.types (t ∷ [])),
        All-snoc b.types t vs v,
      )

abbrev pub ValidFields : Fields → Type 0
ValidFields fs = (struct_t_validate fs ≡ true) × AllFieldsValid fs

keys_of-zip_fields :
    (ks : List Key) (ts : List TypeT) → length ks ≡ length ts → keys_of (zip_fields ks ts) ≡ ks
unfolding zip_fields
keys_of-zip_fields [] ts e = refl
keys_of-zip_fields (k ∷ ks) [] e = absurd (omega arith)
keys_of-zip_fields (k ∷ ks) (t ∷ ts) e = ap (λ x. k ∷ x) (keys_of-zip_fields ks ts (omega arith))

count-keys_of : (fs : Fields) → count fs ≡ length (keys_of fs)
count-keys_of no_fields = refl
count-keys_of (field k t fs) = ap suc (count-keys_of fs)

zip_fields-AllFieldsValid :
    (ks : List Key) (ts : List TypeT) → All AllValid ts → AllFieldsValid (zip_fields ks ts)
unfolding zip_fields
zip_fields-AllFieldsValid [] ts h = tt
zip_fields-AllFieldsValid (k ∷ ks) [] h = tt
zip_fields-AllFieldsValid (k ∷ ks) (t ∷ ts) (v, h) = (v, zip_fields-AllFieldsValid ks ts h)

struct_t_validate_lem :
    (fs : Fields)
    → (length (keys_of fs) == 0) ≡ false
    → keys_non_empty (keys_of fs) ≡ true
    → strings_all_unique (keys_of fs) ≡ true
    → struct_t_validate fs ≡ true
unfolding struct_t_validate struct_t_validate_shallow
struct_t_validate_lem fs more full unique = rw (count-keys_of fs, more, full, unique) refl

-- What a builder gives.
pub kvb_struct_t_build-Holds :
    (b : KvtBuilder) → IsBuilder b → Holds ValidFields (kvb_struct_t_build b)
unfolding kvb_struct_t_build kvb_build_common
kvb_struct_t_build-Holds b (full, unique, same, vs) = elim (Bool-cases (length b.keys == 0)) [
  | inl none_yet ↦ rw none_yet tt
  | inr more ↦
      let keys = keys_of-zip_fields b.keys b.types same in
      let valid : struct_t_validate (zip_fields b.keys b.types) ≡ true =
        struct_t_validate_lem (zip_fields b.keys b.types) (rw keys more) (rw keys full)
          (rw keys unique) in
      let both : (length b.keys == length b.types) ≡ true = ground arith in
      elim (Bool-cases (ltb 1 (length b.keys))) [
        | inl two ↦ rw (more, both, two) (valid, zip_fields-AllFieldsValid b.keys b.types vs)
        | inr one ↦ rw (more, both, one) tt
      ]
]
