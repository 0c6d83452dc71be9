-- ===== src/Cbuffer/Runs.antt =====
-- The runs of data and of free bytes of libs/nscore/cbuffer.c, with `cbuffer_fakeread` and
-- `cbuffer_fakewrite`: reads and writes that a caller does itself.
use numstore.Prelude.{
  Bool-cases, inl, inr, refl, ltb, ◌==◌, ℕ, ◌+◌, ◌≤◌, ◌<◌, List, ◌++◌, ◌≡◌, ap, ◌∙◌, arith, length,
  take, drop, slice, blit, lt→ltb,
}
use numstore.Cbuffer.{
  advance, cbuffer_read_from_file_2, cbuffer_write_to_file_2, Cbuffer, cbuffer_len, cbuffer_avail,
  cbuffer_get_next_data_bytes, cbuffer_get_next_avail_bytes, cbuffer_fakeread, cbuffer_fakewrite,
}
use numstore.Cbuffer.Consume.{IsCbuffer, contents, consume-Consumed}
use numstore.Cbuffer.Produce.{blit-Filled, produce-Produced}
use numstore.Cbuffer.Queue.{slice-contents}

-- The run of data begins at the tail and ends in the array.
data_run :
    (b : Cbuffer) (n : ℕ)
    → IsCbuffer b
    → 0 < n
    → n ≤ (cbuffer_get_next_data_bytes b).1
    → ((cbuffer_get_next_data_bytes b).0 ≡ b.tail) × (n ≤ cbuffer_len b) × (b.tail + n ≤ b.cap)
unfolding cbuffer_get_next_data_bytes cbuffer_len
data_run b n v pos h = ground (arith, v.head_in, v.tail_in, v.full_meets)

-- The bytes of a run of data are the oldest in the queue, and `cbuffer_fakeread` of them, or of some,
-- takes those off its front.
pub data_run-fakeread :
    (b : Cbuffer) (n : ℕ)
    → IsCbuffer b
    → 0 < n
    → n ≤ (cbuffer_get_next_data_bytes b).1
    → (slice (cbuffer_get_next_data_bytes b).0 n b.data_of ≡ take n (contents b))
      × IsCbuffer (cbuffer_fakeread b n)
      × (contents (cbuffer_fakeread b n) ≡ drop n (contents b))
unfolding cbuffer_fakeread
data_run-fakeread b n v pos h =
    let (at, le, fits) = data_run b n v pos h in
    let c = consume-Consumed b n v pos le in
    rw (lt→ltb 0 n pos)
      (ap (λ o. slice o n b.data_of) at ∙ slice-contents b n v le fits, c.valid, c.rest)

-- The run of free bytes begins at the head and ends in the array.
avail_run :
    (b : Cbuffer) (n : ℕ)
    → IsCbuffer b
    → 0 < n
    → n ≤ (cbuffer_get_next_avail_bytes b).1
    → ((cbuffer_get_next_avail_bytes b).0 ≡ b.head) × (n ≤ cbuffer_avail b) × (b.head + n ≤ b.cap)
unfolding cbuffer_get_next_avail_bytes cbuffer_avail cbuffer_len
avail_run b n v pos h = ground (arith, v.head_in, v.tail_in)

-- Bytes that are copied to the start of a run of free bytes and then told to `cbuffer_fakewrite` stand
-- behind those in the queue.
pub avail_run-fakewrite :
    (b : Cbuffer) (xs : List ℕ)
    → IsCbuffer b
    → 0 < length xs
    → length xs ≤ (cbuffer_get_next_avail_bytes b).1
    → let d = blit b.data_of (cbuffer_get_next_avail_bytes b).0 xs in
      let b' = cbuffer_fakewrite (record b { data_of = d }) (length xs) in
      IsCbuffer b' × (contents b' ≡ contents b ++ xs)
unfolding cbuffer_fakewrite
avail_run-fakewrite b xs v pos h =
    let (at, le, fits) = avail_run b (length xs) v pos h in
    let p = produce-Produced b xs _ v pos le (blit-Filled b xs v pos le fits) in
    rw (lt→ltb 0 (length xs) pos, at) (p.valid, p.added)

-- The calls behind a read from a file and behind a write to one move the indices as `cbuffer_fakewrite`
-- and `cbuffer_fakeread` do.
pub file_2-fakewrite :
    (b : Cbuffer) (n : ℕ)
    → (cbuffer_read_from_file_2 b n ≡ cbuffer_fakewrite b n)
      × (cbuffer_write_to_file_2 b n ≡ cbuffer_fakeread b n)
unfolding cbuffer_read_from_file_2 cbuffer_write_to_file_2 cbuffer_fakewrite cbuffer_fakeread
file_2-fakewrite b n = elim (Bool-cases (ltb 0 n)) [
  | inl pos ↦ elim (Bool-cases (advance b.head n b.cap == b.tail)) [
    | inl meet ↦ rw (pos, meet) (refl, refl)
    | inr apart ↦ rw (pos, apart) (refl, refl)
  ]
  | inr none_moved ↦ elim (Bool-cases (advance b.head n b.cap == b.tail)) [
    | inl meet ↦ rw (none_moved, meet) (refl, refl)
    | inr apart ↦ rw (none_moved, apart) (refl, refl)
  ]
]
