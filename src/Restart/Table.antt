-- ===== src/Restart/Table.antt =====
-- The transaction table of the analysis pass of libs/nspager/pager.c while the log from its beginning
-- on is scanned: an entry stays as the begin record of its transaction made it.
use numstore.Prelude.{
  ℕ, ◌+◌, ◌<◌, Bool, true, false, List, [], ◌∷◌, Option, some, none, ◌≡◌, refl, arith, inl, inr,
  Bool-cases, ◌==◌, if◌then◌else◌,
}
use numstore.Wal.{
  DpgEntry, tx_candidate_for_undo, Txn, Record, begin, commit, end, update, clr, ckpt_begin,
  ckpt_end,
}
use numstore.Pager.{put, note_dirty, remove_tid}
use numstore.Restart.{
  Aries, with_dpt, txnt_get, txnt_remove_txn, txnt_insert_txn_if_not_exists, add_txn, note_txn,
  txn_update, analysis_switch, analysis_record, noted, wrh_get_tid, wrh_get_prev_lsn,
}

abbrev pub has : List ℕ → ℕ → Bool
has [] t = false
has (x ∷ xs) t = if x == t then true else has xs t

-- The transactions that have begun and not ended.
abbrev pub live_after : List ℕ → Record → List ℕ
live_after live (begin t) = t ∷ live
live_after live (end t _) = remove_tid live t
live_after live _ = live

-- A record belongs to a transaction that has begun and not ended; it is not the end of a checkpoint.
abbrev pub Fits : List ℕ → Record → Type 0
Fits live (begin t) = has live t ≡ false
Fits live (commit t _) = has live t ≡ true
Fits live (end t _) = has live t ≡ true
Fits live (update t _ _ _ _) = has live t ≡ true
Fits live (clr t _ _ _ _) = has live t ≡ true
Fits live ckpt_begin = Unit
Fits live (ckpt_end _ _) = ⊥

abbrev pub IsBracketed : List ℕ → List Record → Type 0
IsBracketed live [] = Unit
IsBracketed live (r ∷ rs) = Fits live r × IsBracketed (live_after live r) rs

-- The cell of a transaction of which the table has seen the begin record only.
abbrev pub Begun : ℕ → ℕ → Txn → ℕ → Type 0
Begun n i tx t =
    (i < n)
    × (tx.tid ≡ t)
    × (tx.data_of.state ≡ tx_candidate_for_undo)
    × (tx.data_of.undo_next_lsn ≡ 0)

-- The entries are those of the live transactions, and each cell is as its begin record made it.
abbrev pub Table : ℕ → (ℕ → Txn) → List ℕ → List ℕ → Type 0
Table n bank [] [] = Unit
Table n bank (i ∷ is) (t ∷ ts) = Begun n i (bank i) t × (has ts t ≡ false) × Table n bank is ts
Table n bank _ _ = ⊥

-- Cells from `n` on may change.
Table-keep :
    (n : ℕ) (bank bank' : ℕ → Txn) (is ts : List ℕ)
    → ((i : ℕ) → i < n → bank' i ≡ bank i)
    → Table n bank is ts
    → Table (n + 1) bank' is ts
Table-keep n bank bank' [] [] h v = tt
Table-keep n bank bank' [] (t ∷ ts) h v = elim v [ ]
Table-keep n bank bank' (i ∷ is) [] h v = elim v [ ]
Table-keep n bank bank' (i ∷ is) (t ∷ ts) h ((lt, a, b, c), d, v) = (
  (omega arith, rw (h i lt) a, rw (h i lt) b, rw (h i lt) c),
  d,
  Table-keep n bank bank' is ts h v,
)

txnt_get-has :
    (n : ℕ) (bank : ℕ → Txn) (is ts : List ℕ) (t : ℕ)
    → Table n bank is ts
    → has ts t ≡ true
    → (i : ℕ) × (txnt_get bank is t ≡ some i)
unfolding txnt_get
txnt_get-has n bank [] [] t v h = absurd (ground arith)
txnt_get-has n bank [] (x ∷ ts) t v h = elim v [ ]
txnt_get-has n bank (i ∷ is) [] t v h = elim v [ ]
txnt_get-has n bank (i ∷ is) (x ∷ ts) t ((lt, a, b, c), d, v) h = elim (Bool-cases (x == t)) [
  | inl e ↦ (i, rw (a, e) refl)
  | inr e ↦ let (j, f) = txnt_get-has n bank is ts t v (rw e at h) in (j, rw (a, e) f)
]

txnt_get-hasnt :
    (n : ℕ) (bank : ℕ → Txn) (is ts : List ℕ) (t : ℕ)
    → Table n bank is ts
    → has ts t ≡ false
    → txnt_get bank is t ≡ none
unfolding txnt_get
txnt_get-hasnt n bank [] [] t v h = refl
txnt_get-hasnt n bank [] (x ∷ ts) t v h = elim v [ ]
txnt_get-hasnt n bank (i ∷ is) [] t v h = elim v [ ]
txnt_get-hasnt n bank (i ∷ is) (x ∷ ts) t ((lt, a, b, c), d, v) h = elim (Bool-cases (x == t)) [
  | inl e ↦ absurd (ground arith)
  | inr e ↦ rw (a, e) (txnt_get-hasnt n bank is ts t v (rw e at h))
]

pub has-remove_tid : (ts : List ℕ) (x t : ℕ) → has ts t ≡ false → has (remove_tid ts x) t ≡ false
unfolding remove_tid
has-remove_tid [] x t h = refl
has-remove_tid (y ∷ ts) x t h = ground (arith, has-remove_tid ts x t)

Table-remove :
    (n : ℕ) (bank : ℕ → Txn) (is ts : List ℕ) (t : ℕ)
    → Table n bank is ts
    → Table n bank (txnt_remove_txn bank is t) (remove_tid ts t)
unfolding txnt_remove_txn remove_tid
Table-remove n bank [] [] t v = tt
Table-remove n bank [] (x ∷ ts) t v = elim v [ ]
Table-remove n bank (i ∷ is) [] t v = elim v [ ]
Table-remove n bank (i ∷ is) (x ∷ ts) t (b, d, v) = elim (Bool-cases (x == t)) [
  | inl e ↦ rw (b.1, e) v
  | inr e ↦ rw (b.1, e) (b, has-remove_tid ts t x d, Table-remove n bank is ts t v)
]

put_at : (f : ℕ → Txn) (n : ℕ) (x : Txn) → put f n x n ≡ x
put_at f n x = ground arith

put_below : (f : ℕ → Txn) (n : ℕ) (x : Txn) (i : ℕ) → i < n → put f n x i ≡ f i
put_below f n x i h = ground arith

put-put_below : (f : ℕ → Txn) (n : ℕ) (x y : Txn) (i : ℕ) → i < n → put (put f n x) n y i ≡ f i
put-put_below f n x y i h = ground arith

abbrev pub Holds : Aries → List ℕ → Type 0
Holds a live = Table a.nelem a.bank a.txt live

-- A transaction that the table has is not inserted again, and a new one is.
insert_there :
    (n : ℕ) (bank : ℕ → Txn) (is ts : List ℕ) (x : Txn)
    → Table n bank is ts
    → has ts x.tid ≡ true
    → txnt_insert_txn_if_not_exists (put bank n x) is n ≡ is
unfolding txnt_insert_txn_if_not_exists
insert_there n bank is ts x v h =
    let (j, f) =
      txnt_get-has (n + 1) (put bank n x) is ts x.tid
        (Table-keep n bank (put bank n x) is ts (put_below bank n x) v) h in
    rw (put_at bank n x, f, txnt_insert_txn_if_not_exists) refl

insert_new :
    (n : ℕ) (bank : ℕ → Txn) (is ts : List ℕ) (x : Txn)
    → Table n bank is ts
    → has ts x.tid ≡ false
    → txnt_insert_txn_if_not_exists (put bank n x) is n ≡ n ∷ is
unfolding txnt_insert_txn_if_not_exists
insert_new n bank is ts x v h =
    let f =
      txnt_get-hasnt (n + 1) (put bank n x) is ts x.tid
        (Table-keep n bank (put bank n x) is ts (put_below bank n x) v) h in
    rw (put_at bank n x, f, txnt_insert_txn_if_not_exists) refl

with_dpt-Holds :
    (a : Aries) (live : List ℕ)
    → Holds a live
    → (o : Option (List DpgEntry)) → Holds (with_dpt a o).0 live
unfolding with_dpt
with_dpt-Holds a live h none = h
with_dpt-Holds a live h (some t) = h

-- What a round does to the table.
pub analysis_record-Table :
    (a : Aries) (l : ℕ) (r : Record) (live : List ℕ)
    → Holds a live
    → Fits live r
    → Holds (analysis_record a l r).0 (live_after live r)
unfolding analysis_record analysis_switch note_txn add_txn txn_update wrh_get_tid wrh_get_prev_lsn
analysis_record-Table a l (begin t) live v h =
    let x = noted t l 0 in
    rw (insert_new a.nelem a.bank a.txt live x v h, put_at a.bank a.nelem x)
      (
        (omega arith, refl, refl, refl),
        h,
        Table-keep a.nelem a.bank _ a.txt live (put_below a.bank a.nelem x) v,
      )
analysis_record-Table a l (commit t prev) live v h =
    rw (insert_there a.nelem a.bank a.txt live (noted t l prev) v h)
      (Table-keep a.nelem a.bank _ a.txt live (put-put_below a.bank a.nelem _ _) v)
analysis_record-Table a l (end t prev) live v h =
    let x = noted t l prev in
    rw (insert_there a.nelem a.bank a.txt live x v h) (
      Table-remove (a.nelem + 1) _ a.txt live t
        (Table-keep a.nelem a.bank _ a.txt live (put_below a.bank a.nelem x) v))
analysis_record-Table a l (update t prev pg undo redo) live v h =
    with_dpt-Holds _ live
      (rw (insert_there a.nelem a.bank a.txt live (noted t l prev) v h)
        (Table-keep a.nelem a.bank _ a.txt live (put-put_below a.bank a.nelem _ _) v))
      (note_dirty a.dpt pg l)
analysis_record-Table a l (clr t prev pg next redo) live v h =
    rw (insert_there a.nelem a.bank a.txt live (noted t l prev) v h)
      (Table-keep a.nelem a.bank _ a.txt live (put-put_below a.bank a.nelem _ _) v)
analysis_record-Table a l ckpt_begin live v h = v
analysis_record-Table a l (ckpt_end att dpt) live v h = elim h [ ]
