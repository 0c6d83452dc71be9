-- ===== src/Types/Reads.antt =====
-- What reading gives at bytes that were written for it: the reads of libs/nstypes but for the
-- types inside a type.
use numstore.Prelude.{
  ℕ, ◌+◌, ◌%◌, ◌^◌, ◌<◌, false, List, [], ◌∷◌, ◌++◌, some, length, take, drop, length-append,
  append_assoc, take-append_le, take_all, drop-drop, drop-append_add, All, ◌≡◌, refl, sym, arith,
  ap, ◌∙◌, subst, le→ltb-false, ◌==◌, if◌then◌else◌,
}
use numstore.Serial.{le_bytes, Deserializer, dsrlizr_read}
use numstore.Serial.Bytes.{length-le_bytes, le_value-le_bytes, bound, Rest, skip}
use numstore.Types.{Key}
use numstore.Types.Encoding.{encode_key, encode_keys, encode_dims}
use numstore.Types.Deserialize.{
  Result, got, ◌>>=◌, read_bytes, read_number, read_key, read_keys, read_dims,
}

-- An operation has given a value, with some bytes left.
abbrev pub Got {ℓ} : {A : Type ℓ} → Result (A × Deserializer) → A → List ℕ → Type ℓ
Got m a rest = (d : Deserializer) × (m ≡ got (a, d)) × Rest d rest

-- A reader reads a value from some bytes, whatever follows them.
abbrev pub Reads {ℓ} :
    {A : Type ℓ} → (Deserializer → Result (A × Deserializer)) → A → List ℕ → Type ℓ
Reads r a bs = (d : Deserializer) (rest : List ℕ) → Rest d (bs ++ rest) → Got (r d) a rest

pub dsrlizr_read_lem :
    (x : List ℕ) (d : Deserializer) (rest : List ℕ)
    → Rest d (x ++ rest)
    → (dsrlizr_read (length x) d ≡ some (x, skip d (length x))) × Rest (skip d (length x)) rest
unfolding dsrlizr_read
dsrlizr_read_lem x d rest r =
    let n = length x in
    let all : d.head + n + length rest ≡ length d.bytes =
      omega (arith, length-append x rest, r.in_all) in
    let here : take n (drop d.head d.bytes) ≡ x =
      ap (take n) r.behind_head
      ∙ take-append_le n x rest (omega arith)
      ∙ take_all n x (omega arith) in
    (
      rw (le→ltb-false (length d.bytes) ((d.head + n) % 2 ^ 32) (omega (arith, r.short, all)), here)
          refl,
      record {
        behind_head =
            sym (drop-drop n d.head (d.head + n) d.bytes refl)
            ∙ ap (drop n) r.behind_head
            ∙ drop-append_add n 0 x rest (omega arith);
        in_all = all;
        short = r.short;
      },
    )

pub read_bytes_lem : (x : List ℕ) → Reads (read_bytes (length x)) x x
unfolding read_bytes
read_bytes_lem x d rest r =
    let (e, r') = dsrlizr_read_lem x d rest r in (skip d (length x), rw (e, read_bytes) refl, r')

pub read_nothing {ℓ} : {A : Type ℓ} (a : A) → Reads (λ d. got (a, d)) a []
read_nothing a d rest r = (d, refl, r)

module _ {ℓ κ} {A : Type ℓ} {B : Type κ} where
  pub read_map :
      (m : Deserializer → Result (A × Deserializer)) (f : A → B) (a : A) (x : List ℕ)
      → Reads m a x
      → Reads (λ d. m d >>= λ r. got (f r.0, r.1)) (f a) x
  read_map m f a x h d rest r = let (d', e, r') = h d rest r in (d', rw e refl, r')

  pub read_both :
      (m : Deserializer → Result (A × Deserializer))
      (k : A → Deserializer → Result (B × Deserializer)) (a : A) (b : B) (x y : List ℕ)
      → Reads m a x
      → Reads (k a) b y
      → Reads (λ d. m d >>= λ r. k r.0 r.1) b (x ++ y)
  read_both m k a b x y h i d rest r =
      let (d1, e, r1) = h d (y ++ rest) (subst (Rest d) (append_assoc x y rest) r) in
      let (d2, f, r2) = i d1 rest r1 in (d2, rw e f, r2)

pub read_number_lem : (k n : ℕ) → n < bound k → Reads (read_number k) n (le_bytes k n)
unfolding read_number
read_number_lem k n h d rest r =
    let (d', e, r') = read_bytes_lem (le_bytes k n) d rest r in
    let e' : read_bytes k d ≡ got (le_bytes k n, d') =
      subst (λ m. read_bytes m d ≡ got (le_bytes k n, d')) (length-le_bytes k n) e in
    (d', rw (e', le_value-le_bytes k n h) refl, r')

-- A key that can be stored.
abbrev pub FitKey : Key → Type 0
FitKey k = (0 < length k) × (length k < 2 ^ 16)

pub read_key_lem : (k : Key) → FitKey k → Reads read_key k (encode_key k)
unfolding read_key
read_key_lem k (pos, lt) =
    let set : (length k == 0) ≡ false = ground arith in
    read_both (read_number 2) (λ n d. if n == 0 then Result.failed else read_bytes n d) (length k) k
      (le_bytes 2 (length k)) k (read_number_lem 2 (length k) lt) (rw set (read_bytes_lem k))

pub read_keys_lem :
    (ks : List Key) → All FitKey ks → Reads (read_keys (length ks)) ks (encode_keys ks)
unfolding read_keys
read_keys_lem [] h = read_nothing []
read_keys_lem (k ∷ ks) (h, hs) =
    read_both read_key (λ j d. read_keys (length ks) d >>= λ r. got (j ∷ r.0, r.1)) k (k ∷ ks)
      (encode_key k) (encode_keys ks) (read_key_lem k h)
      (read_map (read_keys (length ks)) (λ js. k ∷ js) ks (encode_keys ks) (read_keys_lem ks hs))

abbrev pub Fit32 : ℕ → Type 0
Fit32 n = n < 2 ^ 32

pub read_dims_lem : (ds : List ℕ) → All Fit32 ds → Reads (read_dims (length ds)) ds (encode_dims ds)
unfolding read_dims
read_dims_lem [] h = read_nothing []
read_dims_lem (n ∷ ds) (h, hs) =
    read_both (read_number 4) (λ j d. read_dims (length ds) d >>= λ r. got (j ∷ r.0, r.1)) n
      (n ∷ ds) (le_bytes 4 n) (encode_dims ds) (read_number_lem 4 n h)
      (read_map (read_dims (length ds)) (λ js. n ∷ js) ds (encode_dims ds) (read_dims_lem ds hs))
