-- ===== src/Cbuffer/Produce.antt =====
-- What a step of the head does to the bytes in the buffer of libs/nscore/cbuffer.c, after bytes have
-- been copied to the free space.
use numstore.Prelude.{
  ℕ, ◌+◌, ◌≤◌, ◌<◌, false, List, ◌++◌, ◌≡◌, refl, ap₂, ◌∙◌, arith, ◌==◌, length, take, blit,
  length-blit, take-blit_end, Bool-cases, inl, inr, ◌⊎◌, ==→eq,
}
use numstore.Cbuffer.{Cbuffer, advance, cbuffer_len, cbuffer_avail, produce}
use numstore.Cbuffer.Ring.{rot, length-rot, rot-blit_after, rot-blit_before}
use numstore.Cbuffer.Consume.{IsCbuffer, contents, advance-cases, advance-in, cbuffer_len-le}

-- Bytes are added behind those in the buffer.
pub record Produced (b : Cbuffer) (xs : List ℕ) (b' : Cbuffer) : Type 0 where
  pub valid : IsCbuffer b'
  pub len_is : cbuffer_len b' ≡ cbuffer_len b + length xs
  pub added : contents b' ≡ contents b ++ xs
  pub cap_is : b'.cap ≡ b.cap

-- Where the head is, counted from the tail.
pub head-cases :
    (b : Cbuffer)
    → IsCbuffer b
    → 0 < cbuffer_avail b
    → (b.isfull ≡ false)
      × ((b.head ≡ b.tail + cbuffer_len b)
          ⊎ (b.head + b.cap ≡ b.tail + cbuffer_len b) × (b.head < b.tail))
unfolding cbuffer_len cbuffer_avail
head-cases b v h = elim (Bool-cases b.isfull) [
  | inl full ↦ absurd (ground (arith, full))
  | inr part ↦ (part, ground (arith, part, v.head_in, v.tail_in))
]

-- A copy of `xs` into the free space, seen from the tail.
pub record Filled (b : Cbuffer) (xs d : List ℕ) : Type 0 where
  pub same : length d ≡ length b.data_of
  pub seen : rot b.tail d ≡ blit (rot b.tail b.data_of) (cbuffer_len b) xs

-- One memcpy at the head.
pub blit-Filled :
    (b : Cbuffer) (xs : List ℕ)
    → IsCbuffer b
    → 0 < length xs
    → length xs ≤ cbuffer_avail b
    → b.head + length xs ≤ b.cap
    → Filled b xs (blit b.data_of b.head xs)
unfolding cbuffer_avail
blit-Filled b xs v pos h k =
    let (part, c) = head-cases b v (omega arith) in
    let le = cbuffer_len-le b v in
    record {
      same = length-blit b.data_of b.head xs (omega (arith, v.sized));
      seen = elim c [
        | inl e ↦
            rot-blit_after b.tail (cbuffer_len b) b.head b.data_of xs e (omega (arith, v.sized))
        | inr (e, lt) ↦
            rot-blit_before b.tail (cbuffer_len b) b.head b.data_of xs (omega (arith, v.sized))
              (omega arith) (omega (arith, v.sized, v.tail_in))
      ];
    }

produce-len :
    (b : Cbuffer) (n : ℕ)
    → IsCbuffer b
    → 0 < n
    → n ≤ cbuffer_avail b
    → cbuffer_len (produce b n) ≡ cbuffer_len b + n
unfolding cbuffer_len cbuffer_avail
produce-len b n v pos h =
    let (part, c) = head-cases b v (omega arith) in
    ground (
      arith,
      part,
      v.head_in,
      v.tail_in,
      advance-cases b.head n b.cap v.head_in (ground (arith, part, v.head_in, v.tail_in)) v.small,
    )

pub produce-Produced :
    (b : Cbuffer) (xs d : List ℕ)
    → IsCbuffer b
    → 0 < length xs
    → length xs ≤ cbuffer_avail b
    → Filled b xs d
    → Produced b xs (produce (record b { data_of = d }) (length xs))
unfolding cbuffer_avail cbuffer_len
produce-Produced b xs d v pos h f =
    let n = length xs in
    let le = cbuffer_len-le b v in
    let (part, c) = head-cases b v (omega arith) in
    let r = rot b.tail b.data_of in
    let len = produce-len b n v pos h in
    record {
      valid = record {
        sized = f.same ∙ v.sized;
        head_in = advance-in b.head n b.cap v.head_in (omega arith) v.small;
        tail_in = v.tail_in;
        full_meets = λ e. elim (Bool-cases (advance b.head n b.cap == b.tail)) [
          | inl q ↦ ==→eq (advance b.head n b.cap) b.tail q
          | inr q ↦ absurd (ground (arith, q, part))
        ];
        small = v.small;
      };
      len_is = len;
      cap_is = refl;
      added =
          ap₂ take len f.seen
          ∙ take-blit_end r (cbuffer_len b) (cbuffer_len b + n) xs refl
              (omega (arith, length-rot b.tail b.data_of, v.sized));
    }
