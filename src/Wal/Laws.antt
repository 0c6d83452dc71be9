-- ===== src/Wal/Laws.antt =====
-- The log of libs/nspager/wal_file.c and wal_ostream.c: what an append and a flush do to the bytes
-- and to the records that can be read.
use numstore.Prelude.{
  ℕ, zero, suc, ◌+◌, ◌-◌, ◌≤◌, ◌<◌, min, List, [], ◌∷◌, some, ◌==◌, ◌≡◌, refl, arith, inl, inr, All,
  All-map, some_inj, Bool-cases, ==→eq, ◌∙◌,
}
use numstore.Wal.{
  Record, begin, wal_buffer_cap, pieces, total, rec_len, Entry, Wal, flush_all, avail, make_room,
  write_loop, walos_write_all, write_pieces, wal_append, decoded, got, eof, find_at, read_at,
  wal_read_entry,
}

-- Every record ends where a later one begins, or before it.
abbrev pub Below : ℕ → Entry → Type 0
Below n e = e.at + rec_len e.rec ≤ n

pub record IsWal (w : Wal) : Type 0 where
  -- The file is no longer than the log, and the buffer holds the difference.
  pub behind : w.flushed ≤ w.next
  pub fits : w.next - w.flushed ≤ wal_buffer_cap
  -- The records lie within the log.
  pub within : All (Below w.next) w.log

abbrev pub Buffered : Wal → Type 0
Buffered w = (w.flushed ≤ w.next) × (w.next - w.flushed ≤ wal_buffer_cap)

-- What a write of `len` bytes does: it appends them, and may flush bytes, but no records move.
pub record Wrote (w : Wal) (len : ℕ) (w' : Wal) : Type 0 where
  pub end_at : w'.next ≡ w.next + len
  pub grown : w.flushed ≤ w'.flushed
  pub behind : w'.flushed ≤ w'.next
  pub fits : w'.next - w'.flushed ≤ wal_buffer_cap
  pub same : w'.log ≡ w.log
  pub cursor : w'.curlsn ≡ w.curlsn

-- Room is made without loss, and for at least one byte of those that are left.
record Room (w : Wal) (left : ℕ) (v : Wal) : Type 0 where
  keeps_next : v.next ≡ w.next
  grows : w.flushed ≤ v.flushed
  behind : v.flushed ≤ v.next
  fits : v.next - v.flushed ≤ wal_buffer_cap
  some_room : 0 < left → 0 < avail v
  log_same : v.log ≡ w.log
  cursor_same : v.curlsn ≡ w.curlsn

make_room-Room : (w : Wal) (left : ℕ) → Buffered w → Room w left (make_room w left)
unfolding make_room flush_all
make_room-Room w left b = ground arith

-- One round and the rounds behind it.
round-Wrote :
    (w v u : Wal) (left : ℕ)
    → Room w left v
    → Wrote (record v { next = v.next + min left (avail v) }) (left - min left (avail v)) u
    → Wrote w left u
round-Wrote w v u left r k = record {
  end_at = omega (arith, r.keeps_next, k.end_at);
  grown = omega (arith, r.grows, k.grown);
  behind = k.behind;
  fits = k.fits;
  same = k.same ∙ r.log_same;
  cursor = k.cursor ∙ r.cursor_same;
}

pub write_loop-Wrote :
    (fuel : ℕ) (w : Wal) (left : ℕ)
    → left ≤ fuel
    → Buffered w
    → Wrote w left (write_loop fuel w left)
unfolding write_loop
write_loop-Wrote zero w left h b = record {
  end_at = omega arith;
  grown = omega arith;
  behind = b.0;
  fits = b.1;
  same = refl;
  cursor = refl;
}
write_loop-Wrote (suc fuel) w left h b = elim (Bool-cases (left == 0)) [
  | inl none_left ↦ rw none_left (record {
    end_at = omega (arith, ==→eq left 0 none_left);
    grown = omega arith;
    behind = b.0;
    fits = b.1;
    same = refl;
    cursor = refl;
  })
  | inr more ↦ rw more (
      let v = make_room w left in
      let r : Room w left v = make_room-Room w left b in
      round-Wrote w v _ left r (
        write_loop-Wrote fuel (record v { next = v.next + min left (avail v) })
          (left - min left (avail v)) (ground (arith, r.some_room))
          (omega (arith, r.behind, r.fits))))
]

write_pieces-Wrote : (ns : List ℕ) (w : Wal) → Buffered w → Wrote w (total ns) (write_pieces w ns)
unfolding write_pieces total walos_write_all
write_pieces-Wrote [] w b = record {
  end_at = omega arith;
  grown = omega arith;
  behind = b.0;
  fits = b.1;
  same = refl;
  cursor = refl;
}
write_pieces-Wrote (n ∷ ns) w b =
    let k : Wrote w n (write_loop n w n) = write_loop-Wrote n w n (omega arith) b in
    let m = write_pieces-Wrote ns (write_loop n w n) (k.behind, k.fits) in
    record {
      end_at = omega (arith, k.end_at, m.end_at);
      grown = omega (arith, k.grown, m.grown);
      behind = m.behind;
      fits = m.fits;
      same = m.same ∙ k.same;
      cursor = m.cursor ∙ k.cursor;
    }

-- What an append of a record does.
pub record Appended (w : Wal) (r : Record) (w' : Wal) (l : ℕ) : Type 0 where
  pub at_end : l ≡ w.next
  pub next_is : w'.next ≡ w.next + rec_len r
  pub flushed_le : w.flushed ≤ w'.flushed
  pub log_is : w'.log ≡ record { at = w.next; rec = r } ∷ w.log
  pub valid : IsWal w'

-- An append puts the record at the end of the log and returns where it begins; the log grows by the
-- record's length, what was in the file stays there, and the log stays valid: the buffer holds what is
-- not in the file and no more than its capacity, and the records lie within the log.
pub wal_append-Appended :
    (w : Wal) (r : Record) → IsWal w → Appended w r (wal_append w r).0 (wal_append w r).1
unfolding wal_append rec_len
wal_append-Appended w r v =
    let k : Wrote w (total (pieces r)) (write_pieces w (pieces r)) =
      write_pieces-Wrote (pieces r) w (v.behind, v.fits) in
    record {
      at_end = refl;
      next_is = k.end_at;
      flushed_le = k.grown;
      log_is = refl;
      valid = record {
        behind = k.behind;
        fits = k.fits;
        within = (
          omega (arith, k.end_at),
          All-map (Below w.next) (Below (write_pieces w (pieces r)).next)
              (λ e h. omega (arith, k.end_at)) w.log v.within,
        );
      };
    }

pub flush_all-IsWal : (w : Wal) → IsWal w → IsWal (flush_all w)
unfolding flush_all
flush_all-IsWal w v = record { behind = omega arith; fits = omega arith; within = v.within }

-- A record that has been appended is found where it begins, also when others follow.
pub find_at-append :
    (e : Entry) (es : List Entry) (l : ℕ) {r : Record}
    → l < e.at
    → find_at es l ≡ some r
    → find_at (e ∷ es) l ≡ some r
unfolding find_at
find_at-append e es l h p = ground arith

pub rec_len_pos : (r : Record) → 0 < rec_len r
unfolding rec_len pieces total
rec_len_pos (begin t) = omega arith
rec_len_pos r = omega arith

-- What is found ends within the log.
pub find_at-within :
    (n : ℕ) (es : List Entry) (l : ℕ) {r : Record}
    → All (Below n) es
    → find_at es l ≡ some r
    → l + rec_len r ≤ n
unfolding find_at
find_at-within n [] l h p = cc
find_at-within n (e ∷ es) l {r} h p = elim (Bool-cases (e.at == l)) [
  | inl same ↦
      let q : some e.rec ≡ some r = rw same at p in rw (← ==→eq e.at l same, ← some_inj q) h.0
  | inr other ↦ find_at-within n es l h.1 (rw other at p)
]

-- A record that lies in the file whole is what a read at its LSN gives.
pub wal_read_entry-got :
    (w : Wal) (l : ℕ) (r : Record)
    → find_at w.log l ≡ some r
    → l + rec_len r ≤ w.flushed
    → wal_read_entry w l ≡ (record w { curlsn = l + rec_len r }, got (decoded r))
unfolding wal_read_entry read_at
wal_read_entry-got w l r f h = ground (arith, rec_len_pos r)

-- A record none of whose bytes is in the file reads as the end of the file.
pub wal_read_entry-eof :
    (w : Wal) (l : ℕ) → w.flushed ≤ l → wal_read_entry w l ≡ (record w { curlsn = l }, eof)
unfolding wal_read_entry
wal_read_entry-eof w l h = ground arith
