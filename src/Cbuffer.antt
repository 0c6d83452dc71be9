-- ===== src/Cbuffer.antt =====
-- libs/nscore/cbuffer.c and include/numstore/core/cbuffer.h: the circular byte buffer. The C functions
-- that take a pointer for their output give the bytes as a result here; a caller that passes NULL
-- drops them. Sums of indices wrap at 32 bits where they can pass the capacity.
pub mod Ring
pub mod Consume
pub mod Produce
pub mod Queue
pub mod Move
pub mod Element
pub mod Runs
mod Tests
use numstore.Prelude.{
  ℕ, zero, suc, min, ◌+◌, ◌-◌, ◌*◌, ◌/◌, ◌%◌, Bool, true, false, not, ◌&&◌, List, [], ◌++◌, Option,
  none, some, ltb, leb, ◌==◌, if◌then◌else◌, take, drop, slice, blit, length,
}

-- `struct cbuffer`, without its latch.
pub record Cbuffer : Type 0 where
  pub data_of : List ℕ
  pub cap : ℕ
  pub head : ℕ
  pub tail : ℕ
  pub isfull : Bool

-- `a + b` in u32.
unfoldable pub add32 : ℕ → ℕ → ℕ
add32 a b = (a + b) % 4294967296

-- `a - b` in u32.
unfoldable pub sub32 : ℕ → ℕ → ℕ
sub32 a b = (a + 4294967296 - b) % 4294967296

-- `(i + n) % b->cap`, the step of either index.
unfoldable pub advance : ℕ → ℕ → ℕ → ℕ
advance i n cap = add32 i n % cap

-- `cbuffer_create`.
unfoldable pub cbuffer_create : List ℕ → Cbuffer
cbuffer_create bytes = record {
  data_of = bytes;
  cap = length bytes;
  head = 0;
  tail = 0;
  isfull = false;
}

-- `cbuffer_create_with`.
unfoldable pub cbuffer_create_with : List ℕ → ℕ → Cbuffer
cbuffer_create_with bytes len = record {
  data_of = bytes;
  cap = length bytes;
  head = len % length bytes;
  tail = 0;
  isfull = len == length bytes;
}

-- `cbuffer_len`.
unfoldable pub cbuffer_len : Cbuffer → ℕ
cbuffer_len b =
    if b.isfull
    then b.cap
    else if leb b.tail b.head
    then b.head - b.tail
    else b.cap - (b.tail - b.head)

-- `cbuffer_avail`.
unfoldable pub cbuffer_avail : Cbuffer → ℕ
cbuffer_avail b = b.cap - cbuffer_len b

-- `cbuffer_isempty`.
unfoldable pub cbuffer_isempty : Cbuffer → Bool
cbuffer_isempty b = not b.isfull && (b.head == b.tail)

-- `cbuffer_discard_all`.
unfoldable pub cbuffer_discard_all : Cbuffer → Cbuffer
cbuffer_discard_all b = record b { head = 0; tail = 0; isfull = false }

-- `cbuffer_get_next_data_bytes`: the offset and the length of the run of data at the tail.
unfoldable pub cbuffer_get_next_data_bytes : Cbuffer → ℕ × ℕ
cbuffer_get_next_data_bytes b =
    if (b.head == b.tail) && not b.isfull
    then (0, 0)
    else (b.tail, if ltb b.tail b.head then b.head - b.tail else b.cap - b.tail)

-- `cbuffer_get_next_avail_bytes`: the offset and the length of the run of free bytes at the head.
unfoldable pub cbuffer_get_next_avail_bytes : Cbuffer → ℕ × ℕ
cbuffer_get_next_avail_bytes b =
    if b.isfull
    then (0, 0)
    else (b.head, if leb b.tail b.head then b.cap - b.head else b.tail - b.head)

-- The tail moves over `n` bytes, and the buffer is no longer full.
abbrev pub consume : Cbuffer → ℕ → Cbuffer
consume b n = record b { tail = advance b.tail n b.cap; isfull = false }

-- The head moves over `n` bytes, and the buffer is full where it meets the tail.
abbrev pub produce : Cbuffer → ℕ → Cbuffer
produce b n = record b {
  head = advance b.head n b.cap;
  isfull = if advance b.head n b.cap == b.tail then true else b.isfull;
}

-- `cbuffer_fakewrite`.
unfoldable pub cbuffer_fakewrite : Cbuffer → ℕ → Cbuffer
cbuffer_fakewrite b nbytes =
    let head = advance b.head nbytes b.cap in
    record b { head = head; isfull = if ltb 0 nbytes && (head == b.tail) then true else b.isfull }

-- `cbuffer_fakeread`.
unfoldable pub cbuffer_fakeread : Cbuffer → ℕ → Cbuffer
cbuffer_fakeread b nbytes = record b {
  tail = advance b.tail nbytes b.cap;
  isfull = if ltb 0 nbytes then false else b.isfull;
}

-- `cbuffer_read_from_file_2`: the bytes that a read from a file has put at the head are taken in.
unfoldable pub cbuffer_read_from_file_2 : Cbuffer → ℕ → Cbuffer
cbuffer_read_from_file_2 b nread =
    let head = advance b.head nread b.cap in
    record b { head = head; isfull = if (head == b.tail) && ltb 0 nread then true else b.isfull }

-- `cbuffer_write_to_file_2`: the bytes that went to a file are taken off.
unfoldable pub cbuffer_write_to_file_2 : Cbuffer → ℕ → Cbuffer
cbuffer_write_to_file_2 b nwritten = record b {
  tail = advance b.tail nwritten b.cap;
  isfull = if ltb 0 nwritten then false else b.isfull;
}

-- The length of the next run that `cbuffer_read` copies when `left` bytes are still to be read.
unfoldable pub read_next : Cbuffer → ℕ → ℕ
read_next b left =
    if not b.isfull && ltb b.tail b.head
    then min (b.head - b.tail) left
    else min (b.cap - b.tail) left

-- The loop of `cbuffer_read`, with as much fuel as bytes are left: a round reads at least one.
unfoldable pub read_loop : ℕ → Cbuffer → ℕ → List ℕ → Cbuffer × List ℕ
read_loop zero b left output = (b, output)
read_loop (suc fuel) b left output =
    let next = read_next b left in
    let rest =
      read_loop fuel (consume b next) (left - next) (output ++ slice b.tail next b.data_of) in
    if left == 0 then (b, output) else rest

-- How many elements of `size` bytes out of `n` can be had from `bytes`.
abbrev pub n_elems : ℕ → ℕ → ℕ → ℕ
n_elems size n bytes = let len = bytes / size in if ltb n len then n else len

-- `cbuffer_read`: the buffer, the bytes that were read, and how many elements they are.
unfoldable pub cbuffer_read : ℕ → ℕ → Cbuffer → Cbuffer × List ℕ × ℕ
cbuffer_read size n b =
    let ntoread = n_elems size n (cbuffer_len b) in
    let btoread = ntoread * size in
    let (b', output) = read_loop btoread b btoread [] in (b', output, ntoread)

-- The loop of `cbuffer_copy`, on copies of the tail and the flag.
unfoldable pub copy_loop : ℕ → Cbuffer → ℕ → Bool → ℕ → List ℕ → List ℕ
copy_loop zero b tail isfull left output = output
copy_loop (suc fuel) b tail isfull left output =
    let next =
      if not isfull && ltb tail b.head then min (b.head - tail) left else min (b.cap - tail) left in
    let rest =
      copy_loop fuel b (advance tail next b.cap) false (left - next)
        (output ++ slice tail next b.data_of) in
    if left == 0 then output else rest

-- `cbuffer_copy`: the bytes, and how many elements they are.
unfoldable pub cbuffer_copy : ℕ → ℕ → Cbuffer → List ℕ × ℕ
cbuffer_copy size n b =
    let ntoread = n_elems size n (cbuffer_len b) in
    let btoread = ntoread * size in (copy_loop btoread b b.tail b.isfull btoread [], ntoread)

-- The next run of free bytes that `cbuffer_write` fills when `left` bytes are still to be written.
unfoldable pub write_room : Cbuffer → ℕ → Cbuffer × ℕ
write_room b left =
    let next = min (b.cap - b.head) left in
    if leb b.tail b.head
    then if next == 0 then (record b { head = 0 }, b.tail) else (b, next)
    else (b, min (b.tail - b.head) left)

-- The loop of `cbuffer_write`, with as much fuel as bytes are left; `input` is what is left of `src`.
unfoldable pub write_loop : ℕ → Cbuffer → ℕ → List ℕ → Cbuffer
write_loop zero b left input = b
write_loop (suc fuel) b left input =
    let (b1, next) = write_room b left in
    let b2 = record b1 { data_of = blit b1.data_of b1.head (take next input) } in
    let rest = write_loop fuel (produce b2 next) (left - next) (drop next input) in
    if left == 0 then b else rest

-- `cbuffer_write`: the buffer, and how many elements were written.
unfoldable pub cbuffer_write : List ℕ → ℕ → ℕ → Cbuffer → Cbuffer × ℕ
cbuffer_write src size n b =
    let ntowrite = n_elems size n (b.cap - cbuffer_len b) in
    let btowrite = ntowrite * size in (write_loop btowrite b btowrite src, ntowrite)
