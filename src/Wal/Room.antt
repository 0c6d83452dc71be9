-- ===== src/Wal/Room.antt =====
-- Appends that fit into the buffer of libs/nspager/wal_ostream.c leave the log file alone.
use numstore.Prelude.{
  ℕ, zero, suc, ◌+◌, ◌-◌, ◌≤◌, min, List, [], ◌∷◌, ◌==◌, ◌≡◌, refl, arith, ◌∙◌, Bool-cases, inl,
  inr, le→ltb-false,
}
use numstore.Wal.{
  Record, pieces, total, rec_len, Wal, avail, make_room, write_loop, walos_write_all, write_pieces,
  wal_append,
}
use numstore.Wal.Laws.{IsWal, Wrote, Buffered, write_loop-Wrote}

write_loop_room :
    (fuel : ℕ) (w : Wal) (left : ℕ) → left ≤ avail w → (write_loop fuel w left).flushed ≡ w.flushed
unfolding write_loop make_room
write_loop_room zero w left h = refl
write_loop_room (suc fuel) w left h = elim (Bool-cases (left == 0)) [
  | inl e ↦ rw e
  | inr e ↦
      rw (e, le→ltb-false (avail w) left h)
        (write_loop_room fuel (record w { next = w.next + min left (avail w) })
          (left - min left (avail w)) (omega arith))
]

write_pieces_room :
    (ns : List ℕ) (w : Wal)
    → Buffered w
    → total ns ≤ avail w
    → (write_pieces w ns).flushed ≡ w.flushed
unfolding write_pieces total walos_write_all
write_pieces_room [] w b h = refl
write_pieces_room (n ∷ ns) w b h =
    let k : Wrote w n (write_loop n w n) = write_loop-Wrote n w n (omega arith) b in
    let e : (write_loop n w n).flushed ≡ w.flushed = write_loop_room n w n (omega arith) in
    write_pieces_room ns (write_loop n w n) (k.behind, k.fits) (omega (arith, k.end_at, e)) ∙ e

-- A record that fits into the buffer leaves the file as it was.
pub wal_append_room :
    (w : Wal) (r : Record) → IsWal w → rec_len r ≤ avail w → (wal_append w r).0.flushed ≡ w.flushed
unfolding wal_append rec_len
wal_append_room w r v h = write_pieces_room (pieces r) w (v.behind, v.fits) h
