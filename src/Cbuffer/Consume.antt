-- ===== src/Cbuffer/Consume.antt =====
-- What a step of the tail does to the bytes in the buffer of libs/nscore/cbuffer.c, and the reads that
-- are made of such steps.
use numstore.Prelude.{
  ℕ, ◌+◌, ◌-◌, ◌%◌, ◌≤◌, ◌<◌, true, List, ◌++◌, ◌≡◌, sym, ap, ap₂, ◌∙◌, arith, ltb, length, take,
  drop, take-append_le, drop-take, length-drop, Bool-cases, inl, inr, ◌⊎◌,
}
use numstore.Cbuffer.{Cbuffer, add32, advance, cbuffer_len, consume}
use numstore.Cbuffer.Ring.{rot, length-rot, rot_step, rot_wrap}

-- The assertions on a buffer, and a capacity below 2 ^ 31.
pub record IsCbuffer (b : Cbuffer) : Type 0 where
  pub sized : length b.data_of ≡ b.cap
  pub head_in : b.head < b.cap
  pub tail_in : b.tail < b.cap
  pub full_meets : b.isfull ≡ true → b.head ≡ b.tail
  pub small : b.cap ≤ 2147483648

-- The bytes in the buffer, the oldest first.
abbrev pub contents : Cbuffer → List ℕ
contents b = take (cbuffer_len b) (rot b.tail b.data_of)

pub mod_below : (a c : ℕ) → a < c → a % c ≡ a
mod_below a c h = grind arith

pub mod_once : (a c : ℕ) → c ≤ a → a < c + c → a % c ≡ a - c
mod_once a c h k = grind arith

-- An index moves by at most the capacity: it wraps once or not at all.
pub advance-cases :
    (i n cap : ℕ)
    → i < cap
    → n ≤ cap
    → cap ≤ 2147483648
    → ((advance i n cap ≡ i + n) × (i + n < cap))
      ⊎ ((advance i n cap + cap ≡ i + n) × (advance i n cap < cap))
unfolding advance add32
advance-cases i n cap h k s =
    let e : (i + n) % 4294967296 ≡ i + n = omega arith in
    elim (Bool-cases (ltb (i + n) cap)) [
      | inl lt ↦ inl (ap (λ x. x % cap) e ∙ mod_below (i + n) cap (ground arith), ground arith)
      | inr ge ↦
          let z : (i + n) % 4294967296 % cap ≡ i + n - cap =
            ap (λ x. x % cap) e ∙ mod_once (i + n) cap (ground arith) (omega arith) in
          let le : cap ≤ i + n = ground arith in inr (omega arith, omega arith)
    ]

pub advance-in : (i n cap : ℕ) → i < cap → n ≤ cap → cap ≤ 2147483648 → advance i n cap < cap
advance-in i n cap h k s = ground (arith, advance-cases i n cap h k s)

pub rot-advance :
    (i n cap : ℕ) (d : List ℕ)
    → length d ≡ cap
    → i < cap
    → n ≤ cap
    → cap ≤ 2147483648
    → rot (advance i n cap) d ≡ drop n (rot i d) ++ take n (rot i d)
rot-advance i n cap d l h k s = elim (advance-cases i n cap h k s) [
  | inl (e, lt) ↦ rot_step i n (advance i n cap) d e (omega arith)
  | inr (e, lt) ↦ rot_wrap i n (advance i n cap) d (omega arith) (omega arith) (omega arith)
]

pub cbuffer_len-le : (b : Cbuffer) → IsCbuffer b → cbuffer_len b ≤ b.cap
unfolding cbuffer_len
cbuffer_len-le b v = ground (arith, v.head_in, v.tail_in)

-- The tail moves over `n` bytes.
pub record Consumed (b : Cbuffer) (n : ℕ) (b' : Cbuffer) : Type 0 where
  pub valid : IsCbuffer b'
  pub len_is : cbuffer_len b' ≡ cbuffer_len b - n
  pub rest : contents b' ≡ drop n (contents b)

consume-len :
    (b : Cbuffer) (n : ℕ)
    → IsCbuffer b
    → 0 < n
    → n ≤ cbuffer_len b
    → cbuffer_len (consume b n) ≡ cbuffer_len b - n
unfolding cbuffer_len
consume-len b n v pos h = elim (Bool-cases b.isfull) [
  | inl full ↦ ground (
    arith,
    full,
    v.full_meets full,
    v.head_in,
    v.tail_in,
    advance-cases b.tail n b.cap v.tail_in (ground (arith, full)) v.small,
  )
  | inr part ↦ ground (
    arith,
    part,
    v.head_in,
    v.tail_in,
    advance-cases b.tail n b.cap v.tail_in (ground (arith, part, v.head_in, v.tail_in)) v.small,
  )
]

pub consume-Consumed :
    (b : Cbuffer) (n : ℕ) → IsCbuffer b → 0 < n → n ≤ cbuffer_len b → Consumed b n (consume b n)
consume-Consumed b n v pos h =
    let le = cbuffer_len-le b v in
    let len = consume-len b n v pos h in
    let r = rot b.tail b.data_of in
    let k = cbuffer_len b - n in
    record {
      valid = record {
        sized = v.sized;
        head_in = v.head_in;
        tail_in = advance-in b.tail n b.cap v.tail_in (omega arith) v.small;
        full_meets = λ e. absurd (ground arith);
        small = v.small;
      };
      len_is = len;
      rest =
          ap₂ take len
            (rot-advance b.tail n b.cap b.data_of v.sized v.tail_in (omega arith) v.small)
          ∙ take-append_le k (drop n r) (take n r)
              (omega (arith, length-drop n r, length-rot b.tail b.data_of, v.sized))
          ∙ sym (drop-take n (cbuffer_len b) k r (omega arith));
    }
