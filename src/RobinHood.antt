-- ===== src/RobinHood.antt =====
-- The hash table with open addressing of libs/nscore/include/numstore/core/robin_hood_ht.h, with keys of 64 bits
-- (pgno). Each operation runs under the table's latch and is one step here.
pub mod Table
pub mod Insert
pub mod Lookup
pub mod Probe
pub mod Room
mod Tests
use numstore.Prelude.{
  ℕ, zero, suc, ◌+◌, ◌-◌, ◌%◌, ◌^◌, Bool, true, false, Option, none, some, ltb, ◌==◌, if◌then◌else◌,
}

-- `HDATA_T`.
pub record HData {ℓ} (A : Type ℓ) : Type ℓ where
  pub key : ℕ
  pub value : A

-- `HENTRY_T`, with the distance from the initial bucket; an entry that is not present is `none` in the table.
pub record HEntry {ℓ} (A : Type ℓ) : Type ℓ where
  pub data_of : HData A
  pub dib : ℕ

-- The entries of `HASH_TABLE_T`, by index.
abbrev pub Elems {ℓ} : Type ℓ → Type ℓ
Elems A = ℕ → Option (HEntry A)

-- `HTIR_SUCCESS` and the others.
pub data HtiRes : Type 0 where
  success exists full : HtiRes

-- The index that is probed at a distance; the sum is of KTYPE.
unfoldable pub probe : (nelem key d : ℕ) → ℕ
probe nelem key d = (key + d) % 2 ^ 64 % nelem

-- What a round of the loop of `HT_INSERT` leads to: the end, or the next round with its data and distance.
pub data Round {ℓ} (A : Type ℓ) : Type ℓ where
  stop : Elems A → HtiRes → Round A
  next : Elems A → HData A → ℕ → Round A

module _ {ℓ} {A : Type ℓ} where
  -- A write of the array.
  unfoldable pub put : Elems A → ℕ → HEntry A → Elems A
  put t i e j = if j == i then some e else t j

  -- `HT_INIT`.
  unfoldable pub ht_init : Elems A
  ht_init i = none

  -- A round at index `i`, of what stands there.
  unfoldable pub insert_at : Elems A → HData A → (dibn i : ℕ) → Option (HEntry A) → Round A
  insert_at t item dibn i none = stop (put t i (record { data_of = item; dib = dibn })) success
  insert_at t item dibn i (some e) =
      let swapped = put t i (record { data_of = item; dib = dibn }) in
      if ltb e.dib dibn
      then if item.key == e.data_of.key
        then stop swapped exists
        else next swapped e.data_of (e.dib + 1)
      else if e.data_of.key == item.key
      then stop t exists
      else next t item (dibn + 1)

  unfoldable pub insert_round : ℕ → Elems A → HData A → ℕ → Round A
  insert_round nelem t item dibn =
      let i = probe nelem item.key dibn in insert_at t item dibn i (t i)

  unfoldable pub follow : (Elems A → HData A → ℕ → Elems A × HtiRes) → Round A → Elems A × HtiRes
  follow rest (stop t r) = (t, r)
  follow rest (next t item dibn) = rest t item dibn

  -- The loop of `HT_INSERT`, with `k` rounds left.
  unfoldable pub insert_loop : (k nelem : ℕ) → Elems A → HData A → ℕ → Elems A × HtiRes
  insert_loop zero nelem t item dibn = (t, full)
  insert_loop (suc k) nelem t item dibn =
      follow (λ t' item' dibn'. insert_loop k nelem t' item' dibn') (insert_round nelem t item dibn)

  -- `HT_INSERT`.
  unfoldable pub ht_insert : ℕ → Elems A → HData A → Elems A × HtiRes
  ht_insert nelem t item = insert_loop nelem nelem t item 0

  -- A round of the loop of `HT_GET`, of what stands at its index and what the next rounds give.
  unfoldable pub get_at : (key dibn : ℕ) → Option (HData A) → Option (HEntry A) → Option (HData A)
  get_at key dibn rest none = none
  get_at key dibn rest (some e) =
      if ltb e.dib dibn then none else if e.data_of.key == key then some e.data_of else rest

  -- The loop of `HT_GET`, with `k` rounds left.
  unfoldable pub get_loop : (k nelem : ℕ) → Elems A → (key dibn : ℕ) → Option (HData A)
  get_loop zero nelem t key dibn = none
  get_loop (suc k) nelem t key dibn =
      get_at key dibn (get_loop k nelem t key (dibn + 1)) (t (probe nelem key dibn))

  -- `HT_GET`, `none` for HTAR_DOESNT_EXIST.
  unfoldable pub ht_get : ℕ → Elems A → ℕ → Option (HData A)
  ht_get nelem t key = get_loop nelem nelem t key 0
