-- ===== src/Serial.antt =====
-- libs/nscore/serializer.c and deserializer.c, and the two tables of a checkpoint that libs/nspager
-- writes with them: txn_table.c and dirty_page_table.c. Numbers are stored as the little-endian hosts
-- store them. The lengths of both records are 32-bit numbers.
pub mod Bytes
pub mod Txns
pub mod DirtyPages
mod Tests
use numstore.Prelude.{
  ℕ, zero, suc, ◌+◌, ◌*◌, ◌/◌, ◌%◌, ◌^◌, Bool, true, false, List, [], ◌∷◌, ◌++◌, Option, none, some,
  ltb, ◌&&◌, ◌==◌, if◌then◌else◌, length, slice,
}
use numstore.Wal.{Txn, TxnData, tx_candidate_for_undo, DpgEntry}
use numstore.Pager.{dpe_get, dpgt_cap, dpgt_add}
use numstore.Wal.{candidate}

-- The `k` bytes of a number.
unfoldable pub le_bytes : ℕ → ℕ → List ℕ
le_bytes zero n = []
le_bytes (suc k) n = (n % 256) ∷ le_bytes k (n / 256)

-- The number that bytes stand for.
unfoldable pub le_value : List ℕ → ℕ
le_value [] = 0
le_value (b ∷ bs) = b + 256 * le_value bs

-- `struct serializer`: `written` is the first `dlen` bytes of its buffer.
pub record Serializer : Type 0 where
  pub written : List ℕ
  pub dcap : ℕ

unfoldable pub srlizr_create : ℕ → Serializer
srlizr_create dcap = record { written = []; dcap = dcap }

-- `srlizr_write`, where `none` is false; the sum of the lengths is a 32-bit one.
unfoldable pub srlizr_write : Serializer → List ℕ → Option Serializer
srlizr_write s src =
    if ltb s.dcap ((length s.written + length src) % 2 ^ 32)
    then none
    else some (record s { written = s.written ++ src })

-- `struct deserializer`; `dlen` is the length of its bytes.
pub record Deserializer : Type 0 where
  pub bytes : List ℕ
  pub head : ℕ

unfoldable pub dsrlizr_create : List ℕ → Deserializer
dsrlizr_create src = record { bytes = src; head = 0 }

-- `dsrlizr_read` of `n` bytes, where `none` is false.
unfoldable pub dsrlizr_read : ℕ → Deserializer → Option (List ℕ × Deserializer)
dsrlizr_read n d =
    if ltb (length d.bytes) ((d.head + n) % 2 ^ 32)
    then none
    else some (slice d.head n d.bytes, record d { head = d.head + n })

-- The expecting forms fail where their ASSERT does: they are the same functions, and `none` is passed on.
infixl 5 ◌>>=◌
abbrev pub ◌>>=◌ {ℓ κ} : {A : Type ℓ} {B : Type κ} → Option A → (A → Option B) → Option B
none >>= f = none
some a >>= f = f a

-- Eight bytes that are read as a number.
unfoldable pub read_u64 : Deserializer → Option (ℕ × Deserializer)
read_u64 d = do r ← dsrlizr_read 8 d; some (le_value r.0, r.1)

-- `hnode_foreach_serialize`.
unfoldable pub hnode_foreach_serialize : Serializer → Txn → Option Serializer
hnode_foreach_serialize s tx = do
  s1 ← srlizr_write s (le_bytes 8 tx.tid)
  s2 ← srlizr_write s1 (le_bytes 8 tx.data_of.last_lsn)
  srlizr_write s2 (le_bytes 8 tx.data_of.undo_next_lsn)

unfoldable pub serialize_txns : Serializer → List Txn → Option Serializer
serialize_txns s [] = some s
serialize_txns s (tx ∷ txs) = do s1 ← hnode_foreach_serialize s tx; serialize_txns s1 txs

-- `txnt_serialize` into a buffer of `dlen` bytes: the bytes that it writes.
unfoldable pub txnt_serialize : ℕ → List Txn → Option (List ℕ)
txnt_serialize dlen txs = do s ← serialize_txns (srlizr_create dlen) txs; some s.written

-- TXN_SERIAL_UNIT.
abbrev pub txn_serial_unit : ℕ
txn_serial_unit = 24

-- One round of the loop of `txnt_deserialize`.
unfoldable pub read_txn : Deserializer → Option (Txn × Deserializer)
read_txn d = do
  t ← read_u64 d
  l ← read_u64 t.1
  u ← read_u64 l.1
  some (
    record {
      tid = t.0;
      data_of = record { state = tx_candidate_for_undo; last_lsn = l.0; undo_next_lsn = u.0 };
    },
    u.1,
  )

-- `txn_exists`.
unfoldable pub has_txn : List Txn → ℕ → Bool
has_txn [] tid = false
has_txn (tx ∷ txs) tid = if tx.tid == tid then true else has_txn txs tid

-- The ASSERT of `txnt_insert_txn`: no id is inserted twice.
unfoldable pub insert_txn : Txn → List Txn → Option (List Txn)
insert_txn tx txs = if has_txn txs tx.tid then none else some (tx ∷ txs)

-- `n` rounds: the bank, or `none` where an id comes twice.
unfoldable pub read_txns : ℕ → Deserializer → Option (List Txn)
read_txns zero d = some []
read_txns (suc n) d = do r ← read_txn d; rest ← read_txns n r.1; insert_txn r.0 rest

-- `txnt_deserialize`: the transactions of the bank, in its order.
unfoldable pub txnt_deserialize : List ℕ → Option (List Txn)
txnt_deserialize src =
    if length src % txn_serial_unit == 0
    then read_txns (length src / txn_serial_unit) (dsrlizr_create src)
    else none

-- MAX_DPGT_SRL_SIZE.
abbrev pub max_dpgt_srl_size : ℕ
max_dpgt_srl_size = 1600

unfoldable pub serialize_entries : Serializer → List DpgEntry → Option Serializer
serialize_entries s [] = some s
serialize_entries s (e ∷ es) = do
  s1 ← srlizr_write s (le_bytes 8 e.pg)
  s2 ← srlizr_write s1 (le_bytes 8 e.rec_lsn)
  serialize_entries s2 es

-- `dpgt_serialize`.
unfoldable pub dpgt_serialize : List DpgEntry → Option (List ℕ)
dpgt_serialize t = do s ← serialize_entries (srlizr_create max_dpgt_srl_size) t; some s.written

-- What `dpgt_deserialize` gives: a table, an error, or a failed ASSERT.
pub data DpgtRead : Type 0 where
  table : List DpgEntry → DpgtRead
  err_corrupt failed_assert : DpgtRead

-- `dpgt_add`, whose error the loop does not look at.
unfoldable pub add_entry : List DpgEntry → (pg rec_lsn : ℕ) → List DpgEntry
add_entry t pg l = elim (dpgt_add t pg l) [ none ↦ t | some t' ↦ t' ]

abbrev is_there : Option ℕ → Bool
is_there (some l) = true
is_there none = false

-- The ASSERT of `ht_insert_expect` in `dpgt_add` fails: there is room, and the page is in the table.
unfoldable pub entry_fails : List DpgEntry → ℕ → Bool
entry_fails t pg = ltb (length t) dpgt_cap && is_there (dpe_get t pg)

-- The second read of a round, and what follows it.
unfoldable pub with_lsn :
    (List DpgEntry → Deserializer → DpgtRead)
    → List DpgEntry
    → ℕ
    → Option (ℕ × Deserializer)
    → DpgtRead
with_lsn k t pg none = failed_assert
with_lsn k t pg (some (l, d)) = if entry_fails t pg then failed_assert else k (add_entry t pg l) d

-- The first read of a round.
unfoldable pub with_pg :
    (List DpgEntry → Deserializer → DpgtRead) → List DpgEntry → Option (ℕ × Deserializer) → DpgtRead
with_pg k t none = table t
with_pg k t (some (pg, d)) = with_lsn k t pg (read_u64 d)

-- The loop of `dpgt_deserialize`, with a round for each entry that fits and one more.
unfoldable pub read_entries : ℕ → List DpgEntry → Deserializer → DpgtRead
read_entries zero t d = failed_assert
read_entries (suc fuel) t d = with_pg (read_entries fuel) t (read_u64 d)

-- `dpgt_deserialize`.
unfoldable pub dpgt_deserialize : List ℕ → DpgtRead
dpgt_deserialize src =
    if ltb max_dpgt_srl_size (length src)
    then err_corrupt
    else read_entries (length src / 8 + 1) [] (dsrlizr_create src)
