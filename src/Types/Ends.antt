-- ===== src/Types/Ends.antt =====
-- Readers of libs/nstypes on any bytes: they end, and stay within what is left.
use numstore.Prelude.{
  ℕ, zero, suc, ◌+◌, ◌-◌, ◌%◌, ◌^◌, ◌≤◌, ◌<◌, List, [], ◌∷◌, length, take, drop, length-take,
  length-drop, All, ◌≡◌, arith, subst, ◌==◌, if◌then◌else◌, ltb, ltb-false→le, Bool-cases, inl, inr,
}
use numstore.Serial.{le_value, Deserializer, dsrlizr_read}
use numstore.Serial.Bytes.{bound}
use numstore.Types.{Key}
use numstore.Types.Deserialize.{
  Result, got, err_interp, err_corrupt, failed, undefined, no_fuel, ◌>>=◌, read_bytes, read_number,
  read_key, read_keys, read_dims,
}

-- The operation ends, and what it gives is as `P` says.
abbrev pub Ends {ℓ} :
    {A : Type ℓ} → (A → Deserializer → Type 0) → Result (A × Deserializer) → Type 0
Ends P (got r) = P r.0 r.1
Ends P no_fuel = ⊥
Ends P err_interp = Unit
Ends P err_corrupt = Unit
Ends P failed = Unit
Ends P undefined = Unit

module _ {ℓ κ} {A : Type ℓ} {B : Type κ} where
  pub Ends-bind :
      (P : A → Deserializer → Type 0) (Q : B → Deserializer → Type 0)
      (m : Result (A × Deserializer)) (k : A × Deserializer → Result (B × Deserializer))
      → Ends P m
      → ((r : A × Deserializer) → P r.0 r.1 → Ends Q (k r))
      → Ends Q (m >>= k)
  Ends-bind P Q (got r) k h f = f r h
  Ends-bind P Q no_fuel k h f = h
  Ends-bind P Q err_interp k h f = h
  Ends-bind P Q err_corrupt k h f = h
  Ends-bind P Q failed k h f = h
  Ends-bind P Q undefined k h f = h

-- The same for an operation that reads nothing.
abbrev pub Holds {ℓ} : {A : Type ℓ} → (A → Type 0) → Result A → Type 0
Holds P (got a) = P a
Holds P no_fuel = ⊥
Holds P err_interp = Unit
Holds P err_corrupt = Unit
Holds P failed = Unit
Holds P undefined = Unit

pub Holds-bind {ℓ κ} :
    {A : Type ℓ} {B : Type κ} (P : A → Type 0) (Q : B → Deserializer → Type 0) (m : Result A)
    (k : A → Result (B × Deserializer))
    → Holds P m
    → ((a : A) → P a → Ends Q (k a))
    → Ends Q (m >>= k)
Holds-bind P Q (got a) k h f = f a h
Holds-bind P Q no_fuel k h f = h
Holds-bind P Q err_interp k h f = h
Holds-bind P Q err_corrupt k h f = h
Holds-bind P Q failed k h f = h
Holds-bind P Q undefined k h f = h

pub Ends-map {ℓ} :
    {A : Type ℓ} (P Q : A → Deserializer → Type 0) (m : Result (A × Deserializer))
    → Ends P m
    → ((r : A × Deserializer) → P r.0 r.1 → Q r.0 r.1)
    → Ends Q m
Ends-map P Q (got r) h f = f r h
Ends-map P Q no_fuel h f = h
Ends-map P Q err_interp h f = h
Ends-map P Q err_corrupt h f = h
Ends-map P Q failed h f = h
Ends-map P Q undefined h f = h

abbrev pub IsByte : ℕ → Type 0
IsByte b = b < 256

-- The head is in the bytes, which are fewer than 2 ^ 31.
abbrev pub IsIn : Deserializer → Type 0
IsIn d = (d.head ≤ length d.bytes) × (length d.bytes < 2 ^ 31) × All IsByte d.bytes

abbrev pub left : Deserializer → ℕ
left d = length d.bytes - d.head

-- One state behind another.
abbrev pub After : Deserializer → Deserializer → Type 0
After d d' = IsIn d' × (left d' ≤ left d)

le_value-lt : (xs : List ℕ) → All IsByte xs → le_value xs < bound (length xs)
unfolding le_value
le_value-lt [] h = omega arith
le_value-lt (x ∷ xs) (h, hs) = omega (arith, le_value-lt xs hs)

All-take : (n : ℕ) (xs : List ℕ) → All IsByte xs → All IsByte (take n xs)
All-take zero xs h = tt
All-take (suc n) [] h = tt
All-take (suc n) (x ∷ xs) (h, hs) = (h, All-take n xs hs)

All-drop : (n : ℕ) (xs : List ℕ) → All IsByte xs → All IsByte (drop n xs)
All-drop zero xs h = h
All-drop (suc n) [] h = tt
All-drop (suc n) (x ∷ xs) (h, hs) = All-drop n xs hs

-- What a read of `n` bytes gives.
abbrev pub Took : ℕ → Deserializer → List ℕ → Deserializer → Type 0
Took n d x d' = (length x ≡ n) × All IsByte x × IsIn d' × (left d' + n ≤ left d)

pub read_bytes-Ends :
    (n : ℕ) (d : Deserializer) → n < 2 ^ 31 → IsIn d → Ends (Took n d) (read_bytes n d)
unfolding read_bytes dsrlizr_read
read_bytes-Ends n d small (within, short, bytes) =
    elim (Bool-cases (ltb (length d.bytes) ((d.head + n) % 2 ^ 32))) [
      | inl over ↦ rw (over, read_bytes) tt
      | inr room ↦
          let fits : d.head + n ≤ length d.bytes =
            omega (arith, ltb-false→le (length d.bytes) ((d.head + n) % 2 ^ 32) room) in
          rw (room, read_bytes)
            (
              omega (arith, length-take n (drop d.head d.bytes), length-drop d.head d.bytes),
              All-take n (drop d.head d.bytes) (All-drop d.head d.bytes bytes),
              (fits, short, bytes),
              omega arith,
            )
    ]

-- What a read of a number of `k` bytes gives.
abbrev pub TookNumber : ℕ → Deserializer → ℕ → Deserializer → Type 0
TookNumber k d n d' = (n < bound k) × IsIn d' × (left d' + k ≤ left d)

pub read_number-Ends :
    (k : ℕ) (d : Deserializer) → k < 2 ^ 31 → IsIn d → Ends (TookNumber k d) (read_number k d)
unfolding read_number
read_number-Ends k d small i =
    Ends-bind (Took k d) (TookNumber k d) (read_bytes k d) _ (read_bytes-Ends k d small i)
      (λ r h. (subst (λ m. le_value r.0 < bound m) h.0 (le_value-lt r.0 h.1), h.2, h.3))

-- What a read of a key gives.
abbrev pub TookKey : Deserializer → Key → Deserializer → Type 0
TookKey d k d' = (0 < length k) × After d d'

key_of :
    (d : Deserializer) (n : ℕ) (d1 : Deserializer)
    → TookNumber 2 d n d1
    → Ends (TookKey d) (if n == 0 then failed else read_bytes n d1)
key_of d n d1 (lt, i1, l) = elim (Bool-cases (n == 0)) [
  | inl none_left ↦ rw none_left tt
  | inr more ↦ rw more (
      Ends-map (Took n d1) (TookKey d) (read_bytes n d1) (read_bytes-Ends n d1 (omega arith) i1)
        (λ r h. (ground (arith, h.0), (h.2, omega (arith, h.3)))))
]

pub read_key-Ends : (d : Deserializer) → IsIn d → Ends (TookKey d) (read_key d)
unfolding read_key
read_key-Ends d i =
    Ends-bind (TookNumber 2 d) (TookKey d) (read_number 2 d) _
      (read_number-Ends 2 d (omega arith) i) (λ r h. key_of d r.0 r.1 h)

-- What the other reads give, of which the state behind is all that counts.
abbrev pub TookAny {ℓ} : {A : Type ℓ} → Deserializer → A → Deserializer → Type 0
TookAny d a d' = After d d'

pub read_keys-Ends : (n : ℕ) (d : Deserializer) → IsIn d → Ends (TookAny d) (read_keys n d)
unfolding read_keys
read_keys-Ends zero d i = (i, omega arith)
read_keys-Ends (suc n) d i =
    Ends-bind (TookKey d) (TookAny d) (read_key d) _ (read_key-Ends d i) (λ k h.
      Ends-bind (TookAny k.1) (TookAny d) (read_keys n k.1) _ (read_keys-Ends n k.1 h.1.0)
        (λ ks g. (g.0, omega (arith, g.1, h.1.1))))

pub read_dims-Ends : (n : ℕ) (d : Deserializer) → IsIn d → Ends (TookAny d) (read_dims n d)
unfolding read_dims
read_dims-Ends zero d i = (i, omega arith)
read_dims-Ends (suc n) d i =
    Ends-bind (TookNumber 4 d) (TookAny d) (read_number 4 d) _
      (read_number-Ends 4 d (omega arith) i)
      (λ m h.
        Ends-bind (TookAny m.1) (TookAny d) (read_dims n m.1) _ (read_dims-Ends n m.1 h.1)
          (λ ms g. (g.0, omega (arith, g.1, h.2))))
