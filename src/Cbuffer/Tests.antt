-- ===== src/Cbuffer/Tests.antt =====
-- Runs of the circular buffer, and its properties at concrete buffers.
use numstore.Prelude.{
  ℕ, ◌*◌, ◌≤◌, ◌<◌, true, false, [], ◌∷◌, ◌++◌, ◌≡◌, refl, arith, take, drop, blit,
}
use numstore.Cbuffer.{
  Cbuffer, cbuffer_len, cbuffer_avail, n_elems, cbuffer_read, cbuffer_write, read_loop, read_next,
  write_loop, write_room, advance, add32,
}
use numstore.Cbuffer.Consume.{IsCbuffer, contents}
use numstore.Cbuffer.Queue.{cbuffer_read_lem, cbuffer_write_lem}
use numstore.Cbuffer.Move.{move_count, cbuffer_cbuffer_move, Moved, cbuffer_cbuffer_move_lem}

-- Three bytes of five, around the end of the array.
abbrev around : Cbuffer
around = record { data_of = 12 ∷ 13 ∷ 0 ∷ 0 ∷ 11 ∷ []; cap = 5; head = 2; tail = 4; isfull = false }

around-contents : contents around ≡ 11 ∷ 12 ∷ 13 ∷ []
unfolding cbuffer_len
around-contents = refl

-- A full buffer.
abbrev full : Cbuffer
full = record { data_of = 1 ∷ 2 ∷ 3 ∷ 4 ∷ []; cap = 4; head = 2; tail = 2; isfull = true }

full-read : (cbuffer_read 1 3 full).1 ≡ 3 ∷ 4 ∷ 1 ∷ []
unfolding cbuffer_read cbuffer_len read_loop read_next advance add32
full-read = refl

around-write : contents (cbuffer_write (21 ∷ 22 ∷ []) 1 2 around).0 ≡ 11 ∷ 12 ∷ 13 ∷ 21 ∷ 22 ∷ []
unfolding cbuffer_write cbuffer_len write_loop write_room advance add32 blit
around-write = refl

around-IsCbuffer : IsCbuffer around
around-IsCbuffer = record {
  sized = refl;
  head_in = omega arith;
  tail_in = omega arith;
  full_meets = λ e. ground arith;
  small = omega arith;
}

full-IsCbuffer : IsCbuffer full
full-IsCbuffer = record {
  sized = refl;
  head_in = omega arith;
  tail_in = omega arith;
  full_meets = λ _. refl;
  small = omega arith;
}

cbuffer_read_example :
    let (b', output, ntoread) = cbuffer_read 1 2 around in
    IsCbuffer b'
    × (ntoread ≡ n_elems 1 2 (cbuffer_len around))
    × (output ≡ take (ntoread * 1) (contents around))
    × (contents b' ≡ drop (ntoread * 1) (contents around))
cbuffer_read_example = cbuffer_read_lem 1 2 around around-IsCbuffer

cbuffer_write_example :
    let (b', ntowrite) = cbuffer_write (21 ∷ 22 ∷ 23 ∷ []) 1 3 around in
    IsCbuffer b'
    × (ntowrite ≡ n_elems 1 3 (cbuffer_avail around))
    × (contents b' ≡ contents around ++ take (ntowrite * 1) (21 ∷ 22 ∷ 23 ∷ []))
cbuffer_write_example =
    cbuffer_write_lem (21 ∷ 22 ∷ 23 ∷ []) 1 3 around around-IsCbuffer (omega arith)

cbuffer_cbuffer_move_example :
    let (dest', src', n) = cbuffer_cbuffer_move around 1 4 full in
    (n ≡ move_count around 1 4 full) × Moved around full (n * 1) dest' src'
cbuffer_cbuffer_move_example =
    cbuffer_cbuffer_move_lem around 1 4 full around-IsCbuffer full-IsCbuffer (omega arith)

around_holds : (n : ℕ) → n ≤ 3 → 0 < cbuffer_len around → n ≤ cbuffer_len around
unfolding cbuffer_len
around_holds n h k = omega arith
