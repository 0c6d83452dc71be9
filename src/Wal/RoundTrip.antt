-- ===== src/Wal/RoundTrip.antt =====
-- What is appended to the log of libs/nspager/wal.c is what is read back.
use numstore.Prelude.{
  ℕ, zero, suc, ◌+◌, ◌<◌, List, [], ◌∷◌, some, ◌≡◌, arith, sym, ap, ◌∙◌, subst, length, All, refl,
  ◌*◌, ◌^◌, ◌≤◌,
}
use numstore.Wal.{
  begin, commit, end, update, clr, ckpt_begin, ckpt_end, decoded, Entry, Record, rec_len, Wal,
  flush_all, wal_append, ReadResult, got, eof, corrupt, find_at, wal_read_entry, wal_read_next,
}
use numstore.Wal.Laws.{
  IsWal, wal_append-Appended, find_at-append, find_at-within, wal_read_entry-got,
  wal_read_entry-eof, rec_len_pos,
}

-- Appends, one behind the other.
abbrev pub append_all : Wal → List Record → Wal
append_all w [] = w
append_all w (r ∷ rs) = append_all (wal_append w r).0 rs

-- What is in the log stays there.
pub append_all-find :
    (w : Wal) (rs : List Record) (l : ℕ) {r : Record}
    → IsWal w
    → l < w.next
    → find_at w.log l ≡ some r
    → IsWal (append_all w rs) × (find_at (append_all w rs).log l ≡ some r)
append_all-find w [] l v h f = (v, f)
append_all-find w (x ∷ rs) l {r} v h f =
    let a = wal_append-Appended w x v in
    append_all-find (wal_append w x).0 rs l a.valid (omega (arith, a.next_is)) (
      subst (λ es. find_at es l ≡ some r) (sym a.log_is)
        (find_at-append (record { at = w.next; rec = x }) w.log l h f))

-- The record appended last is at the head of the log.
head_found :
    (r : Record) (l : ℕ) (es : List Entry) → find_at (record { at = l; rec = r } ∷ es) l ≡ some r
unfolding find_at
head_found r l es = ground arith

-- The writing of a record meets no failing ASSERT.
abbrev pub Writable : Record → Type 0
Writable (clr _ _ _ undo_next _) = 0 < undo_next
Writable (ckpt_end att dpt) = (length att < 2 ^ 26) × (16 * length dpt ≤ 1600)
Writable _ = Unit

-- A record other than the end of a checkpoint.
abbrev pub Plain : Record → Type 0
Plain (clr _ _ _ undo_next _) = 0 < undo_next
Plain (ckpt_end _ _) = ⊥
Plain _ = Unit

Plain-decoded : (r : Record) → Plain r → decoded r ≡ r
Plain-decoded (begin t) h = refl
Plain-decoded (commit t l) h = refl
Plain-decoded (end t l) h = refl
Plain-decoded (update t l pg u r) h = refl
Plain-decoded (clr t l pg n r) h = refl
Plain-decoded ckpt_begin h = refl
Plain-decoded (ckpt_end att dpt) h = elim h [ ]

-- A record other than the end of a checkpoint, and other than a compensation record with no next record to undo, whose
-- writing fails, that is appended is read back at the LSN that its append returned, after any other records
-- whose writing does not fail have been appended and the log has been flushed; the read leaves the stream behind the record.
pub wal_append-read :
    (w : Wal) (r : Record) (rs : List Record)
    → IsWal w
    → Plain r
    → All Writable rs
    → let (w1, l) = wal_append w r in
      let w2 = flush_all (append_all w1 rs) in
      wal_read_entry w2 l ≡ (record w2 { curlsn = l + rec_len r }, got r)
unfolding flush_all
wal_append-read w r rs v plain others =
    let a = wal_append-Appended w r v in
    let l = (wal_append w r).1 in
    let f : find_at (wal_append w r).0.log l ≡ some r =
      subst (λ es. find_at es l ≡ some r) (sym a.log_is)
        (subst (λ i. find_at (record { at = w.next; rec = r } ∷ w.log) i ≡ some r) (sym a.at_end)
          (head_found r w.next w.log)) in
    let (ok, found) =
      append_all-find (wal_append w r).0 rs l a.valid
        (omega (arith, a.at_end, a.next_is, rec_len_pos r)) f in
    wal_read_entry-got (flush_all (append_all (wal_append w r).0 rs)) l r found (
      find_at-within (append_all (wal_append w r).0 rs).next (append_all (wal_append w r).0 rs).log
        l ok.within found)
    ∙ ap
        (λ x.
          (record (flush_all (append_all (wal_append w r).0 rs)) { curlsn = l + rec_len r }, got x))
        (Plain-decoded r plain)

-- What is done with a read: a record is kept and the reading goes on.
unfoldable pub read_step : (Wal → List Record) → Wal × ℕ × ReadResult → List Record
read_step k (w, l, got r) = r ∷ k w
read_step k (w, l, eof) = []
read_step k (w, l, corrupt) = []

-- Records read one behind the other with `wal_read_next`, until it gives no record, at most `fuel`.
unfoldable pub read_all : ℕ → Wal → List Record
read_all zero w = []
read_all (suc fuel) w = read_step (read_all fuel) (wal_read_next w)

-- The state in which the log is read from an LSN on.
abbrev pub flushed_at : Wal → ℕ → Wal
flushed_at w l = record (flush_all w) { curlsn = l }

pub read_first :
    (w : Wal) (l : ℕ) (r : Record)
    → IsWal w
    → find_at w.log l ≡ some r
    → wal_read_next (flushed_at w l) ≡ (flushed_at w (l + rec_len r), l, got (decoded r))
unfolding wal_read_next flush_all
read_first w l r v f =
    ap (λ p. (p.0, l, p.1))
      (wal_read_entry-got (flushed_at w l) l r f (find_at-within w.next w.log l v.within f))

pub read_end : (w : Wal) → wal_read_next (flushed_at w w.next) ≡ (flushed_at w w.next, w.next, eof)
unfolding wal_read_next flush_all
read_end w =
    ap (λ p. (p.0, w.next, p.1)) (wal_read_entry-eof (flushed_at w w.next) w.next (omega arith))

-- Where none of them is the end of a checkpoint or a compensation record with no next record to undo, reading on from the
-- LSN of the first of some appended records gives exactly those records, in the
-- order of their appends, and then the end of the log, once the log has been flushed.
pub append_all-read_all :
    (w : Wal) (rs : List Record) (fuel : ℕ)
    → IsWal w
    → All Plain rs
    → length rs < fuel
    → read_all fuel (flushed_at (append_all w rs) w.next) ≡ rs
unfolding read_all read_step
append_all-read_all w rs zero v ps h = absurd (omega arith)
append_all-read_all w [] (suc fuel) v ps h = ap (read_step (read_all fuel)) (read_end w)
append_all-read_all w (r ∷ rs) (suc fuel) v (p, ps) h =
    let a = wal_append-Appended w r v in
    let w1 = (wal_append w r).0 in
    let f : find_at w1.log w.next ≡ some r =
      subst (λ es. find_at es w.next ≡ some r) (sym a.log_is) (head_found r w.next w.log) in
    let (ok, found) =
      append_all-find w1 rs w.next a.valid (omega (arith, a.next_is, rec_len_pos r)) f in
    let e = read_first (append_all w1 rs) w.next r ok found in
    ap (read_step (read_all fuel)) e
    ∙ ap (λ x. x ∷ read_all fuel (flushed_at (append_all w1 rs) (w.next + rec_len r)))
        (Plain-decoded r p)
    ∙ ap (λ t. r ∷ t)
        (ap (λ l. read_all fuel (flushed_at (append_all w1 rs) l)) (sym a.next_is)
          ∙ append_all-read_all w1 rs fuel a.valid ps (omega arith))
