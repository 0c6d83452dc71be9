-- ===== src/Cbuffer/Queue.antt =====
-- `cbuffer_read`, `cbuffer_copy` and `cbuffer_write` of libs/nscore/cbuffer.c as operations on the
-- queue of bytes in the buffer.
use numstore.Prelude.{
  ℕ, zero, suc, min, ◌+◌, ◌-◌, ◌*◌, ◌/◌, ◌≤◌, ◌<◌, Bool, false, List, [], ◌++◌, ◌≡◌, refl, sym, ap,
  ap₂, ◌∙◌, subst, arith, ltb, leb, ◌==◌, length, take, drop, slice, blit, take-append_le,
  drop-drop, take-take, take-add, length-take, length-drop, Bool-cases, inl, inr, append_assoc,
  append-nil, ==→eq, tests,
}
use numstore.Cbuffer.{
  Cbuffer, cbuffer_len, cbuffer_avail, consume, produce, read_next, read_loop, n_elems,
  cbuffer_read, copy_loop, cbuffer_copy, write_room, write_loop, cbuffer_write,
}
use native.Mathlib.Nat.{div-mul-le_self}
use numstore.Cbuffer.Ring.{rot, length-rot}
use numstore.Cbuffer.Consume.{IsCbuffer, contents, cbuffer_len-le, consume-Consumed}
use numstore.Cbuffer.Produce.{Produced, blit-Filled, produce-Produced}

pub length-contents : (b : Cbuffer) → IsCbuffer b → length (contents b) ≡ cbuffer_len b
length-contents b v = omega (
  arith,
  length-take (cbuffer_len b) (rot b.tail b.data_of),
  length-rot b.tail b.data_of,
  v.sized,
  cbuffer_len-le b v,
)

-- A round of a read takes at least one byte, no more than are left, and does not pass the end of the
-- array.
read_next_fits :
    (b : Cbuffer) (left : ℕ)
    → IsCbuffer b
    → 0 < left
    → left ≤ cbuffer_len b
    → (0 < read_next b left) × (read_next b left ≤ left) × (b.tail + read_next b left ≤ b.cap)
unfolding read_next cbuffer_len
read_next_fits b left v pos h = elim (Bool-cases b.isfull) [
  | inl full ↦ rw full (ground (arith, v.tail_in), ground arith, ground (arith, v.tail_in))
  | inr part ↦
      rw part (ground (arith, v.tail_in), ground arith, ground (arith, v.tail_in, v.head_in))
]

-- A memcpy from the tail gives the oldest bytes.
pub slice-contents :
    (b : Cbuffer) (n : ℕ)
    → IsCbuffer b
    → n ≤ cbuffer_len b
    → b.tail + n ≤ b.cap
    → slice b.tail n b.data_of ≡ take n (contents b)
slice-contents b n v h k = sym (
    take-take n (cbuffer_len b) (rot b.tail b.data_of) h
    ∙ take-append_le n (drop b.tail b.data_of) (take b.tail b.data_of)
        (omega (arith, length-drop b.tail b.data_of, v.sized)))

-- What the first `n` bytes of the queue are read out to, behind `output`.
record HasRead (b : Cbuffer) (n : ℕ) (output : List ℕ) (res : Cbuffer × List ℕ) : Type 0 where
  valid : IsCbuffer res.0
  len_is : cbuffer_len res.0 ≡ cbuffer_len b - n
  rest : contents res.0 ≡ drop n (contents b)
  bytes : res.1 ≡ output ++ take n (contents b)

read_loop-HasRead :
    (fuel : ℕ) (b : Cbuffer) (left : ℕ) (output : List ℕ)
    → IsCbuffer b
    → left ≤ fuel
    → left ≤ cbuffer_len b
    → HasRead b left output (read_loop fuel b left output)
unfolding read_loop
read_loop-HasRead zero b left output v h k =
    let e : 0 ≡ left = omega arith in
    subst (λ n. HasRead b n output (b, output)) e
      (record { valid = v; len_is = omega arith; rest = refl; bytes = sym (append-nil output) })
read_loop-HasRead (suc fuel) b left output v h k = elim (Bool-cases (left == 0)) [
  | inl z ↦ rw z (
      subst (λ n. HasRead b n output (b, output)) (sym (==→eq left 0 z))
        (record { valid = v; len_is = omega arith; rest = refl; bytes = sym (append-nil output) }))
  | inr nz ↦
      let n = read_next b left in
      let (pos, le, fits) = read_next_fits b left v (ground arith) k in
      let c = consume-Consumed b n v pos (omega arith) in
      let out = output ++ slice b.tail n b.data_of in
      let r =
        read_loop-HasRead fuel (consume b n) (left - n) out c.valid (omega arith)
          (omega (arith, c.len_is)) in
      rw nz (record {
        valid = r.valid;
        len_is = omega (arith, r.len_is, c.len_is);
        rest =
            r.rest
            ∙ ap (drop (left - n)) c.rest
            ∙ drop-drop (left - n) n left (contents b) (omega arith);
        bytes =
            r.bytes
            ∙ append_assoc output (slice b.tail n b.data_of)
                (take (left - n) (contents (consume b n)))
            ∙ ap (λ x. output ++ x)
                (ap₂ (λ x y. x ++ take (left - n) y) (slice-contents b n v (omega arith) fits)
                    c.rest
                  ∙ sym (take-add n (left - n) left (contents b) (omega arith)));
      })
]

pub n_elems_fit : (size n bytes : ℕ) → n_elems size n bytes * size ≤ bytes
n_elems_fit size n bytes = elim (Bool-cases (ltb n (bytes / size))) [
  | inl lt ↦ rw lt (grind (tests, div-mul-le_self bytes size))
  | inr ge ↦ rw ge (div-mul-le_self bytes size)
]

-- `cbuffer_read` of `n` elements takes as many whole elements as there are, at most `n`, off the front
-- of the queue and returns them in order; the buffer stays valid.
pub cbuffer_read_lem :
    (size n : ℕ) (b : Cbuffer)
    → IsCbuffer b
    → let (b', output, ntoread) = cbuffer_read size n b in
      IsCbuffer b'
      × (ntoread ≡ n_elems size n (cbuffer_len b))
      × (output ≡ take (ntoread * size) (contents b))
      × (contents b' ≡ drop (ntoread * size) (contents b))
unfolding cbuffer_read
cbuffer_read_lem size n b v =
    let k = n_elems size n (cbuffer_len b) * size in
    let r = read_loop-HasRead k b k [] v (omega arith) (n_elems_fit size n (cbuffer_len b)) in
    (r.valid, refl, r.bytes, r.rest)

copy_loop-read_loop :
    (fuel : ℕ) (b : Cbuffer) (tail : ℕ) (isfull : Bool) (left : ℕ) (output : List ℕ)
    → copy_loop fuel b tail isfull left output
      ≡ (read_loop fuel (record b { tail = tail; isfull = isfull }) left output).1
unfolding copy_loop read_loop read_next
copy_loop-read_loop zero b tail isfull left output = refl
copy_loop-read_loop (suc fuel) b tail isfull left output = elim (Bool-cases (left == 0)) [
  | inl z ↦ rw z refl
  | inr nz ↦ rw nz (copy_loop-read_loop fuel b _ false _ _)
]

-- `cbuffer_copy` gives the elements that `cbuffer_read` would read.
pub cbuffer_copy-read :
    (size n : ℕ) (b : Cbuffer)
    → cbuffer_copy size n b ≡ ((cbuffer_read size n b).1, (cbuffer_read size n b).2)
unfolding cbuffer_copy cbuffer_read
cbuffer_copy-read size n b =
    ap (λ x. (x, n_elems size n (cbuffer_len b))) (copy_loop-read_loop _ b b.tail b.isfull _ [])

-- A round of a write fills at least one byte, no more than are left, and does not pass the end of the
-- array.
write_room_fits :
    (b : Cbuffer) (left : ℕ)
    → IsCbuffer b
    → 0 < left
    → left ≤ cbuffer_avail b
    → ((write_room b left).0 ≡ b)
      × (0 < (write_room b left).1)
      × ((write_room b left).1 ≤ left)
      × (b.head + (write_room b left).1 ≤ b.cap)
unfolding write_room cbuffer_len cbuffer_avail
write_room_fits b left v pos h = elim (Bool-cases (leb b.tail b.head)) [
  | inl le ↦
      let nz : (min (b.cap - b.head) left == 0) ≡ false = ground (arith, v.head_in) in
      rw (le, nz) (refl, ground (arith, v.head_in), ground arith, ground (arith, v.head_in))
  | inr gt ↦ rw gt (refl, ground arith, ground arith, ground (arith, v.tail_in))
]

pub write_loop-Produced :
    (fuel : ℕ) (b : Cbuffer) (left : ℕ) (input : List ℕ)
    → IsCbuffer b
    → left ≤ fuel
    → left ≤ length input
    → left ≤ cbuffer_avail b
    → Produced b (take left input) (write_loop fuel b left input)
unfolding write_loop cbuffer_avail
write_loop-Produced zero b left input v h i k =
    let e : 0 ≡ left = omega arith in
    subst (λ n. Produced b (take n input) b) e
      (record {
        valid = v;
        len_is = omega arith;
        cap_is = refl;
        added = sym (append-nil (contents b));
      })
write_loop-Produced (suc fuel) b left input v h i k = elim (Bool-cases (left == 0)) [
  | inl z ↦ rw z (
      subst (λ n. Produced b (take n input) b) (sym (==→eq left 0 z))
        (record {
          valid = v;
          len_is = omega arith;
          cap_is = refl;
          added = sym (append-nil (contents b));
        }))
  | inr nz ↦
      let (same, pos, le, fits) = write_room_fits b left v (ground arith) k in
      let n = (write_room b left).1 in
      let xs = take n input in
      let l : length xs ≡ n = omega (arith, length-take n input) in
      let d = blit b.data_of b.head xs in
      let p : Produced b xs (produce (record b { data_of = d }) n) =
        subst (λ m. Produced b xs (produce (record b { data_of = d }) m)) l
          (produce-Produced b xs d v (omega arith) (omega arith)
            (blit-Filled b xs v (omega arith) (omega arith) (omega arith))) in
      let r =
        write_loop-Produced fuel (produce (record b { data_of = d }) n) (left - n) (drop n input)
          p.valid (omega arith) (omega (arith, length-drop n input)) (omega (arith, p.len_is, l)) in
      rw (nz, same)
        (record {
          valid = r.valid;
          cap_is = r.cap_is;
          len_is = omega (
            arith,
            r.len_is,
            p.len_is,
            length-take (left - n) (drop n input),
            length-drop n input,
            length-take left input,
            l,
          );
          added =
              r.added
              ∙ ap (λ x. x ++ take (left - n) (drop n input)) p.added
              ∙ append_assoc (contents b) xs (take (left - n) (drop n input))
              ∙ ap (λ x. contents b ++ x) (sym (take-add n (left - n) left input (omega arith)));
        })
]

-- `cbuffer_write` of `n` elements puts as many whole elements as there is room for, at most `n`, behind
-- the bytes in the queue and leaves these as they are; the buffer stays valid.
pub cbuffer_write_lem :
    (src : List ℕ) (size n : ℕ) (b : Cbuffer)
    → IsCbuffer b
    → n * size ≤ length src
    → let (b', ntowrite) = cbuffer_write src size n b in
      IsCbuffer b'
      × (ntowrite ≡ n_elems size n (cbuffer_avail b))
      × (contents b' ≡ contents b ++ take (ntowrite * size) src)
unfolding cbuffer_write cbuffer_avail
cbuffer_write_lem src size n b v h =
    let k = n_elems size n (b.cap - cbuffer_len b) * size in
    let p =
      write_loop-Produced k b k src v (omega arith)
        (omega (arith, h, n_elems_le size n (b.cap - cbuffer_len b)))
        (n_elems_fit size n (b.cap - cbuffer_len b)) in
    (p.valid, refl, p.added)
  where
    n_elems_le : (s m bytes : ℕ) → n_elems s m bytes * s ≤ m * s
    n_elems_le s m bytes = elim (Bool-cases (ltb m (bytes / s))) [
      | inl lt ↦ rw lt (omega arith)
      | inr ge ↦ rw ge (grind tests)
    ]
