-- ===== src/Serial/Txns.antt =====
-- The transaction table of a checkpoint, `txnt_serialize` and `txnt_deserialize` of
-- libs/nspager/txn_table.c.
use numstore.Prelude.{
  false, ℕ, ◌+◌, ◌*◌, ◌/◌, ◌%◌, ◌^◌, ◌≤◌, ◌<◌, List, [], ◌∷◌, ◌++◌, none, some, length, map,
  length-append, append_assoc, append-nil, ◌≡◌, refl, sym, arith, ap, ◌∙◌, All, subst, ◌==◌, true,
  leb, Bool-cases, inl, inr,
}
use numstore.Wal.{Txn}
use numstore.Wal.{candidate}
use numstore.Serial.{
  has_txn, insert_txn, le_bytes, Serializer, srlizr_create, Deserializer, dsrlizr_create,
  hnode_foreach_serialize, serialize_txns, txnt_serialize, txn_serial_unit, read_txn, read_txns,
  txnt_deserialize,
}
use numstore.Serial.Bytes.{
  length-le_bytes, wrote, wrote-wrote, write_u64, length-wrote, write_u64_full, Rest, skip,
  read_u64_lem,
}

-- The three numbers are 64-bit ones.
abbrev pub Fits64 : Txn → Type 0
Fits64 tx = (tx.tid < 2 ^ 64) × (tx.data_of.last_lsn < 2 ^ 64) × (tx.data_of.undo_next_lsn < 2 ^ 64)

abbrev txn_bytes : Txn → List ℕ
txn_bytes tx =
    le_bytes 8 tx.tid ++ (le_bytes 8 tx.data_of.last_lsn ++ le_bytes 8 tx.data_of.undo_next_lsn)

abbrev table_bytes : List Txn → List ℕ
table_bytes [] = []
table_bytes (tx ∷ txs) = txn_bytes tx ++ table_bytes txs

length-txn_bytes : (tx : Txn) → length (txn_bytes tx) ≡ 24
length-txn_bytes tx = omega (
  arith,
  length-append (le_bytes 8 tx.tid)
      (le_bytes 8 tx.data_of.last_lsn ++ le_bytes 8 tx.data_of.undo_next_lsn),
  length-append (le_bytes 8 tx.data_of.last_lsn) (le_bytes 8 tx.data_of.undo_next_lsn),
  length-le_bytes 8 tx.tid,
  length-le_bytes 8 tx.data_of.last_lsn,
  length-le_bytes 8 tx.data_of.undo_next_lsn,
)

length-table_bytes : (txs : List Txn) → length (table_bytes txs) ≡ 24 * length txs
length-table_bytes [] = refl
length-table_bytes (tx ∷ txs) = omega (
  arith,
  length-append (txn_bytes tx) (table_bytes txs),
  length-txn_bytes tx,
  length-table_bytes txs,
)

serialize_one :
    (s : Serializer) (tx : Txn)
    → length s.written + 24 ≤ s.dcap
    → s.dcap < 2 ^ 32
    → hnode_foreach_serialize s tx ≡ some (wrote s (txn_bytes tx))
unfolding hnode_foreach_serialize
serialize_one s tx h lt =
    let a = le_bytes 8 tx.tid in
    let b = le_bytes 8 tx.data_of.last_lsn in
    let c = le_bytes 8 tx.data_of.undo_next_lsn in
    let s1 = wrote s a in
    let s2 = wrote s1 b in
    let l1 = length-wrote s tx.tid in
    let l2 = length-wrote s1 tx.data_of.last_lsn in
    rw
      (write_u64 s tx.tid (omega arith) lt, write_u64 s1 tx.data_of.last_lsn (omega (arith, l1)) lt)
      (write_u64 s2 tx.data_of.undo_next_lsn (omega (arith, l1, l2)) lt
        ∙ ap some (wrote-wrote s1 b c ∙ wrote-wrote s a (b ++ c)))

serialize_all :
    (txs : List Txn) (s : Serializer)
    → length s.written + 24 * length txs ≤ s.dcap
    → s.dcap < 2 ^ 32
    → serialize_txns s txs ≡ some (wrote s (table_bytes txs))
unfolding serialize_txns
serialize_all [] s h lt = ap (λ t. some (record s { written = t })) (sym (append-nil s.written))
serialize_all (tx ∷ txs) s h lt =
    let l : length (s.written ++ txn_bytes tx) ≡ length s.written + 24 =
      omega (arith, length-append s.written (txn_bytes tx), length-txn_bytes tx) in
    rw (serialize_one s tx (omega arith) lt) (
      serialize_all txs (wrote s (txn_bytes tx)) (omega (arith, l)) lt
      ∙ ap some (wrote-wrote s (txn_bytes tx) (table_bytes txs)))

read_one :
    (tx : Txn) (d : Deserializer) (rest : List ℕ)
    → Fits64 tx
    → Rest d (txn_bytes tx ++ rest)
    → (read_txn d ≡ some (candidate tx, skip (skip (skip d 8) 8) 8))
      × Rest (skip (skip (skip d 8) 8) 8) rest
unfolding read_txn
read_one tx d rest (ft, fl, fu) r =
    let a = le_bytes 8 tx.tid in
    let b = le_bytes 8 tx.data_of.last_lsn in
    let c = le_bytes 8 tx.data_of.undo_next_lsn in
    let regroup : (a ++ (b ++ c)) ++ rest ≡ a ++ (b ++ (c ++ rest)) =
      append_assoc a (b ++ c) rest ∙ ap (λ t. a ++ t) (append_assoc b c rest) in
    let (e1, r1) = read_u64_lem d tx.tid (b ++ (c ++ rest)) ft (subst (Rest d) regroup r) in
    let (e2, r2) = read_u64_lem (skip d 8) tx.data_of.last_lsn (c ++ rest) fl r1 in
    let (e3, r3) = read_u64_lem (skip (skip d 8) 8) tx.data_of.undo_next_lsn rest fu r2 in
    (rw (e1, e2, e3) refl, r3)

-- No id stands twice.
abbrev pub DistinctTids : List Txn → Type 0
DistinctTids [] = Unit
DistinctTids (tx ∷ txs) = (has_txn txs tx.tid ≡ false) × DistinctTids txs

has_txn-map : (txs : List Txn) (tid : ℕ) → has_txn (map candidate txs) tid ≡ has_txn txs tid
unfolding has_txn
has_txn-map [] tid = refl
has_txn-map (tx ∷ txs) tid = rw (has_txn-map txs tid) refl

insert_candidate :
    (tx : Txn) (txs : List Txn)
    → has_txn txs tx.tid ≡ false
    → insert_txn (candidate tx) (map candidate txs) ≡ some (map candidate (tx ∷ txs))
unfolding insert_txn
insert_candidate tx txs h = rw (has_txn-map txs tx.tid ∙ h) refl

read_back :
    (txs : List Txn) (d : Deserializer)
    → All Fits64 txs
    → DistinctTids txs
    → Rest d (table_bytes txs)
    → read_txns (length txs) d ≡ some (map candidate txs)
unfolding read_txns
read_back [] d f u r = refl
read_back (tx ∷ txs) d (f, fs) (u, us) r =
    let (e, r') = read_one tx d (table_bytes txs) f r in
    rw (e, read_back txs (skip (skip (skip d 8) 8) 8) fs us r') (insert_candidate tx txs u)

-- The table of transactions in a checkpoint comes back: where no id stands twice and the buffer has 24 bytes for each
-- transaction, `txnt_serialize` writes exactly these, and `txnt_deserialize` reads from them the same
-- transactions in the same order, each with its id, LastLSN and UndoNxtLSN, as a candidate for undo.
pub txnt_serialize-deserialize :
    (dlen : ℕ) (txs : List Txn)
    → All Fits64 txs
    → DistinctTids txs
    → txn_serial_unit * length txs ≤ dlen
    → dlen + 8 < 2 ^ 32
    → (bytes : List ℕ) × (txnt_serialize dlen txs ≡ some bytes)
      × (length bytes ≡ txn_serial_unit * length txs)
      × (txnt_deserialize bytes ≡ some (map candidate txs))
unfolding txnt_serialize srlizr_create txnt_deserialize dsrlizr_create
txnt_serialize-deserialize dlen txs fits once room lt =
    let l = length-table_bytes txs in
    let bs = table_bytes txs in
    let e = serialize_all txs (srlizr_create dlen) (omega arith) (omega arith) in
    let whole : (length bs % 24 == 0) ≡ true = ground arith in
    let count : length bs / 24 ≡ length txs = omega (arith, l) in
    (
      bs,
      rw e refl,
      l,
      rw (whole, count)
          (read_back txs (dsrlizr_create bs) fits once
            (record { behind_head = refl; in_all = omega arith; short = omega (arith, l) })),
    )

-- No room for a whole transaction.
serialize_one_full :
    (s : Serializer) (tx : Txn)
    → length s.written ≤ s.dcap
    → s.dcap < length s.written + 24
    → s.dcap + 8 < 2 ^ 32
    → hnode_foreach_serialize s tx ≡ none
unfolding hnode_foreach_serialize
serialize_one_full s tx h full lt =
    let a = le_bytes 8 tx.tid in
    let b = le_bytes 8 tx.data_of.last_lsn in
    let l1 = length-wrote s tx.tid in
    let l2 = length-wrote (wrote s a) tx.data_of.last_lsn in
    elim (Bool-cases (leb (length s.written + 8) s.dcap)) [
      | inr none_fits ↦ rw (write_u64_full s tx.tid h (ground arith) lt) refl
      | inl first ↦
          rw (write_u64 s tx.tid (ground arith) (omega arith))
            (elim (Bool-cases (leb (length s.written + 16) s.dcap)) [
              | inr one_fits ↦
                  rw
                    (write_u64_full (wrote s a) tx.data_of.last_lsn (ground (arith, l1))
                      (ground (arith, l1)) lt)
                    refl
              | inl second ↦
                  rw (write_u64 (wrote s a) tx.data_of.last_lsn (ground (arith, l1)) (omega arith))
                    (write_u64_full (wrote (wrote s a) b) tx.data_of.undo_next_lsn
                      (ground (arith, l1, l2)) (omega (arith, l1, l2)) lt)
            ])
    ]

serialize_full :
    (txs : List Txn) (s : Serializer)
    → length s.written ≤ s.dcap
    → s.dcap < length s.written + 24 * length txs
    → s.dcap + 8 < 2 ^ 32
    → serialize_txns s txs ≡ none
unfolding serialize_txns
serialize_full [] s h full lt = absurd (omega arith)
serialize_full (tx ∷ txs) s h full lt =
    let l : length (s.written ++ txn_bytes tx) ≡ length s.written + 24 =
      omega (arith, length-append s.written (txn_bytes tx), length-txn_bytes tx) in
    elim (Bool-cases (leb (length s.written + 24) s.dcap)) [
      | inl fits ↦
          rw (serialize_one s tx (ground arith) (omega arith))
            (serialize_full txs (wrote s (txn_bytes tx)) (ground (arith, l)) (omega (arith, l)) lt)
      | inr full_here ↦ rw (serialize_one_full s tx h (ground arith) lt) refl
    ]

-- The bound is checked: where the buffer has fewer than 24 bytes for each transaction, the serialization
-- fails at the ASSERT of a write.
pub txnt_serialize-full :
    (dlen : ℕ) (txs : List Txn)
    → dlen < txn_serial_unit * length txs
    → dlen + 8 < 2 ^ 32
    → txnt_serialize dlen txs ≡ none
unfolding txnt_serialize srlizr_create
txnt_serialize-full dlen txs h lt =
    rw (serialize_full txs (srlizr_create dlen) (omega arith) (omega arith) lt) refl
