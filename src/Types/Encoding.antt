-- ===== src/Types/Encoding.antt =====
-- The bytes that a type stands for, and that type_serialize of libs/nstypes writes these.
use numstore.Prelude.{
  ℕ, ◌+◌, ◌^◌, ◌≤◌, ◌<◌, Bool, true, List, [], ◌∷◌, ◌++◌, Option, some, subst, length,
  length-append, append_assoc, append-nil, ◌≡◌, sym, arith, ap, ◌∙◌,
}
use numstore.Serial.{le_bytes, Serializer, srlizr_write, ◌>>=◌}
use numstore.Serial.Bytes.{srlizr_write_room, wrote, wrote-wrote}
use numstore.Types.{
  Key, TypeT, prim, struct_t, union_t, enum_t, sarray_t, Fields, no_fields, field, count,
  type_validate,
}
use numstore.Types.Serialize.{
  write_key, write_keys, write_dims, type_serialize, write_fields, expect,
}

abbrev pub encode_key : Key → List ℕ
encode_key k = le_bytes 2 (length k) ++ k

abbrev pub encode_keys : List Key → List ℕ
encode_keys [] = []
encode_keys (k ∷ ks) = encode_key k ++ encode_keys ks

abbrev pub encode_dims : List ℕ → List ℕ
encode_dims [] = []
encode_dims (n ∷ ds) = le_bytes 4 n ++ encode_dims ds

unfoldable mutual
  pub encode : TypeT → List ℕ
  encode (prim p) = 0 ∷ le_bytes 1 p
  encode (struct_t fs) = 1 ∷ (le_bytes 2 (count fs) ++ encode_fields fs)
  encode (union_t fs) = 2 ∷ (le_bytes 2 (count fs) ++ encode_fields fs)
  encode (enum_t ks) = 3 ∷ (le_bytes 2 (length ks) ++ encode_keys ks)
  encode (sarray_t ds t) = 4 ∷ (le_bytes 2 (length ds) ++ (encode_dims ds ++ encode t))

  pub encode_fields : Fields → List ℕ
  encode_fields no_fields = []
  encode_fields (field k t fs) = encode_key k ++ (encode t ++ encode_fields fs)

-- Every type inside a type passes `type_validate`.
abbrev mutual
  pub AllValid : TypeT → Type 0
  AllValid (prim p) = type_validate (prim p) ≡ true
  AllValid (struct_t fs) = (type_validate (struct_t fs) ≡ true) × AllFieldsValid fs
  AllValid (union_t fs) = (type_validate (union_t fs) ≡ true) × AllFieldsValid fs
  AllValid (enum_t ks) = type_validate (enum_t ks) ≡ true
  AllValid (sarray_t ds t) = (type_validate (sarray_t ds t) ≡ true) × AllValid t

  pub AllFieldsValid : Fields → Type 0
  AllFieldsValid no_fields = Unit
  AllFieldsValid (field k t fs) = AllValid t × AllFieldsValid fs

-- A serializer with room for some bytes.
abbrev pub HasRoom : Serializer → List ℕ → Type 0
HasRoom s bs = (length s.written + length bs ≤ s.dcap) × (s.dcap < 2 ^ 32)

-- A writer writes some bytes, wherever there is room for them and for others behind them.
abbrev pub Wrote : Option Serializer → Serializer → List ℕ → List ℕ → Type 0
Wrote m s bs rest = (m ≡ some (wrote s bs)) × HasRoom (wrote s bs) rest

abbrev pub Writes : (Serializer → Option Serializer) → List ℕ → Type 0
Writes w bs = (s : Serializer) (rest : List ℕ) → HasRoom s (bs ++ rest) → Wrote (w s) s bs rest

write_one : (x : List ℕ) → Writes (λ s. srlizr_write s x) x
write_one x s rest (r, lt) = (
  srlizr_write_room s x (omega (arith, length-append x rest)) lt,
  (omega (arith, length-append x rest, length-append s.written x), lt),
)

write_none : Writes (λ s. some s) []
write_none s rest (r, lt) =
    let same : s ≡ wrote s [] = ap (λ t. record s { written = t }) (sym (append-nil s.written)) in
    (ap some same, subst (λ t. HasRoom t rest) same (r, lt))

write_both :
    (v w : Serializer → Option Serializer) (x y : List ℕ)
    → Writes v x
    → Writes w y
    → Writes (λ s. v s >>= w) (x ++ y)
write_both v w x y hv hw s rest room =
    let (e, room1) = hv s (y ++ rest) (subst (HasRoom s) (append_assoc x y rest) room) in
    let (f, room2) = hw (wrote s x) rest room1 in
    let same = wrote-wrote s x y in
    (rw e (f ∙ ap some same), subst (λ t. HasRoom t rest) same room2)

write_key_lem : (k : Key) → Writes (λ s. write_key s k) (encode_key k)
unfolding write_key
write_key_lem k =
    write_both (λ s. srlizr_write s (le_bytes 2 (length k))) (λ s. srlizr_write s k)
      (le_bytes 2 (length k)) k (write_one (le_bytes 2 (length k))) (write_one k)

write_keys_lem : (ks : List Key) → Writes (λ s. write_keys s ks) (encode_keys ks)
unfolding write_keys
write_keys_lem [] = write_none
write_keys_lem (k ∷ ks) =
    write_both (λ s. write_key s k) (λ s. write_keys s ks) (encode_key k) (encode_keys ks)
      (write_key_lem k) (write_keys_lem ks)

write_dims_lem : (ds : List ℕ) → Writes (λ s. write_dims s ds) (encode_dims ds)
unfolding write_dims
write_dims_lem [] = write_none
write_dims_lem (n ∷ ds) =
    write_both (λ s. srlizr_write s (le_bytes 4 n)) (λ s. write_dims s ds) (le_bytes 4 n)
      (encode_dims ds) (write_one (le_bytes 4 n)) (write_dims_lem ds)

-- The header of a type, a length, and what follows.
write_tagged :
    (tag n : ℕ) (w : Serializer → Option Serializer) (bs : List ℕ)
    → Writes w bs
    → Writes
        (λ s. srlizr_write s (tag ∷ []) >>= λ s1. srlizr_write s1 (le_bytes 2 n) >>= w)
        (tag ∷ (le_bytes 2 n ++ bs))
write_tagged tag n w bs h =
    write_both (λ s. srlizr_write s (tag ∷ [])) (λ s. srlizr_write s (le_bytes 2 n) >>= w)
      (tag ∷ []) (le_bytes 2 n ++ bs) (write_one (tag ∷ []))
      (write_both (λ s. srlizr_write s (le_bytes 2 n)) w (le_bytes 2 n) bs
        (write_one (le_bytes 2 n)) h)

-- The assertion at the head of `type_serialize` holds.
expected :
    (b : Bool) (w : Serializer → Option Serializer) (bs : List ℕ)
    → b ≡ true
    → Writes w bs
    → Writes (λ s. expect b (w s)) bs
expected b w bs e h = rw e h

mutual
  unfolding type_serialize write_fields encode encode_fields

  write_type : (t : TypeT) → AllValid t → Writes (λ s. type_serialize s t) (encode t)
  write_type (prim p) v =
      expected (type_validate (prim p))
        (λ s. srlizr_write s (0 ∷ []) >>= λ s1. srlizr_write s1 (le_bytes 1 p)) (0 ∷ le_bytes 1 p) v
        (write_both (λ s. srlizr_write s (0 ∷ [])) (λ s. srlizr_write s (le_bytes 1 p)) (0 ∷ [])
          (le_bytes 1 p) (write_one (0 ∷ [])) (write_one (le_bytes 1 p)))
  write_type (struct_t fs) (v, vs) = expected (type_validate (struct_t fs)) _ _ v (
      write_tagged 1 (count fs) (λ s. write_fields s fs) (encode_fields fs)
        (write_all_fields fs vs))
  write_type (union_t fs) (v, vs) = expected (type_validate (union_t fs)) _ _ v (
      write_tagged 2 (count fs) (λ s. write_fields s fs) (encode_fields fs)
        (write_all_fields fs vs))
  write_type (enum_t ks) v =
      expected (type_validate (enum_t ks)) _ _ v
        (write_tagged 3 (length ks) (λ s. write_keys s ks) (encode_keys ks) (write_keys_lem ks))
  write_type (sarray_t ds t) (v, vt) = expected (type_validate (sarray_t ds t)) _ _ v (
      write_tagged 4 (length ds) (λ s. write_dims s ds >>= λ s1. type_serialize s1 t)
        (encode_dims ds ++ encode t)
        (write_both (λ s. write_dims s ds) (λ s. type_serialize s t) (encode_dims ds) (encode t)
          (write_dims_lem ds) (write_type t vt)))

  write_all_fields :
      (fs : Fields) → AllFieldsValid fs → Writes (λ s. write_fields s fs) (encode_fields fs)
  write_all_fields no_fields v = write_none
  write_all_fields (field k t fs) (vt, vs) =
      write_both (λ s. write_key s k) (λ s. type_serialize s t >>= λ s1. write_fields s1 fs)
        (encode_key k) (encode t ++ encode_fields fs) (write_key_lem k)
        (write_both (λ s. type_serialize s t) (λ s. write_fields s fs) (encode t) (encode_fields fs)
          (write_type t vt) (write_all_fields fs vs))

-- Where there is room for the bytes of a type, `type_serialize` writes exactly these.
pub type_serialize_lem :
    (t : TypeT) (s : Serializer)
    → AllValid t
    → HasRoom s (encode t)
    → type_serialize s t ≡ some (wrote s (encode t))
type_serialize_lem t s v (r, lt) =
    (write_type t v s [] (omega (arith, length-append (encode t) []), lt)).0
