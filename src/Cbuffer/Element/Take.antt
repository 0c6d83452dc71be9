-- ===== src/Cbuffer/Element/Take.antt =====
-- What the operations of libs/nscore/cbuffer.c that give an element return: pop, get and peek.
use numstore.Prelude.{
  ℕ, ◌+◌, ◌-◌, ◌*◌, ◌%◌, ◌≤◌, ◌<◌, true, false, not, ◌&&◌, ◌++◌, none, some, ◌≡◌, refl, sym, ap,
  ap₂, ◌∙◌, arith, leb, ◌==◌, if◌then◌else◌, take, drop, take-append_le, take-append_add, take-take,
  drop-take, take_all, length-drop, drop_all, Bool-cases, inl, inr, leb→le,
}
use numstore.Cbuffer.{Cbuffer, add32, sub32, advance, cbuffer_len, cbuffer_isempty}
use numstore.Cbuffer.Ring.{rot, length-rot}
use numstore.Cbuffer.Consume.{
  IsCbuffer, contents, consume-Consumed, cbuffer_len-le, advance-in, rot-advance, mod_once,
  mod_below,
}
use numstore.Cbuffer.Queue.{length-contents}
use numstore.Cbuffer.Element.{load, cbuffer_get_no_check, cbuffer_get, cbuffer_peek, cbuffer_pop}

-- A copy out gives what stands from the offset on, around the end of the array.
load-rot :
    (b : Cbuffer) (offset size : ℕ)
    → IsCbuffer b
    → offset < b.cap
    → size ≤ b.cap
    → load b offset size ≡ take size (rot offset b.data_of)
unfolding load add32
load-rot b offset size v h k =
    let l = length-drop offset b.data_of in
    let s = v.small in
    elim (Bool-cases (leb ((offset + size) % 4294967296) b.cap)) [
      | inl le ↦ rw le (
          sym (
            take-append_le size (drop offset b.data_of) (take offset b.data_of)
              (omega (arith, v.sized, leb→le _ _ le))))
      | inr gt ↦
          let first = b.cap - offset in
          let past : b.cap < offset + size = ground arith in
          rw gt (
            ap₂ (λ x y. x ++ y) (take_all first (drop offset b.data_of) (omega (arith, v.sized)))
              (sym (take-take (size - first) offset b.data_of (omega arith)))
            ∙ sym (
                take-append_add size (size - first) (drop offset b.data_of) (take offset b.data_of)
                  (omega (arith, v.sized))))
    ]

load-contents :
    (b : Cbuffer) (size : ℕ)
    → IsCbuffer b
    → size ≤ cbuffer_len b
    → load b b.tail size ≡ take size (contents b)
load-contents b size v h =
    load-rot b b.tail size v v.tail_in (omega (arith, cbuffer_len-le b v))
    ∙ sym (take-take size (cbuffer_len b) (rot b.tail b.data_of) h)

pub cbuffer_isempty-len : (b : Cbuffer) → IsCbuffer b → cbuffer_isempty b ≡ true → cbuffer_len b ≡ 0
unfolding cbuffer_isempty cbuffer_len
cbuffer_isempty-len b v e = ground (arith, e, v.head_in)

pub cbuffer_isempty-len_pos :
    (b : Cbuffer) → IsCbuffer b → cbuffer_isempty b ≡ false → 0 < cbuffer_len b
unfolding cbuffer_isempty cbuffer_len
cbuffer_isempty-len_pos b v e = ground (arith, e, v.head_in, v.tail_in)

pub sub_add32 : (i cap n : ℕ) → i + cap < 4294967296 → n ≤ cap → sub32 (add32 i cap) n ≡ i + cap - n
unfolding sub32 add32
sub_add32 i cap n h k = omega arith

-- The guard of `cbuffer_get` lets an index below the number of bytes pass.
get_guard :
    (b : Cbuffer) (idx : ℕ)
    → IsCbuffer b
    → idx < cbuffer_len b
    → (not b.isfull && leb (sub32 (add32 b.head b.cap) b.tail % b.cap) idx) ≡ false
unfolding cbuffer_len
get_guard b idx v h = elim (Bool-cases b.isfull) [
  | inl full ↦ rw full refl
  | inr part ↦ elim (Bool-cases (leb b.tail b.head)) [
    | inl le ↦
        let e =
          mod_once (b.head + b.cap - b.tail) b.cap (ground (arith, v.tail_in))
            (ground (arith, v.head_in, v.tail_in)) in
        rw
          (
            part,
            sub_add32 b.head b.cap b.tail (omega (arith, v.head_in, v.small))
                (omega (arith, v.tail_in)),
            e,
          )
          (ground (arith, part, le))
    | inr gt ↦
        let e = mod_below (b.head + b.cap - b.tail) b.cap (ground (arith, v.tail_in)) in
        rw
          (
            part,
            sub_add32 b.head b.cap b.tail (omega (arith, v.head_in, v.small))
                (omega (arith, v.tail_in)),
            e,
          )
          (ground (arith, part, gt, v.tail_in))
  ]
]

-- `cbuffer_pop_back` and `cbuffer_pop_front` take the oldest element off the queue; on an empty buffer
-- they return false and change nothing. The caller has to see to it that a whole element is there.
pub cbuffer_pop_lem :
    (size : ℕ) (b : Cbuffer)
    → IsCbuffer b
    → 0 < size
    → (0 < cbuffer_len b → size ≤ cbuffer_len b)
    → let (b', output) = cbuffer_pop size b in
      IsCbuffer b'
      × (output ≡ (if cbuffer_len b == 0 then none else some (take size (contents b))))
      × (contents b' ≡ drop size (contents b))
unfolding cbuffer_pop
cbuffer_pop_lem size b v pos h = elim (Bool-cases (cbuffer_isempty b)) [
  | inl e ↦
      let z = empty_len b v e in
      rw (e, ap (λ n. n == 0) z)
        (
          v,
          refl,
          ap (λ n. take n (rot b.tail b.data_of)) z
              ∙ sym (drop_all size (contents b) (omega (arith, length-contents b v))),
        )
  | inr ne ↦
      let some_len = nonempty_len b v ne in
      let k = h some_len in
      let c = consume-Consumed b size v pos k in
      let nz : (cbuffer_len b == 0) ≡ false = ground arith in
      rw (ne, nz) (c.valid, ap some (load-contents b size v k), c.rest)
]
  where
    empty_len : (x : Cbuffer) → IsCbuffer x → cbuffer_isempty x ≡ true → cbuffer_len x ≡ 0
    empty_len x v e = cbuffer_isempty-len x v e

    nonempty_len : (x : Cbuffer) → IsCbuffer x → cbuffer_isempty x ≡ false → 0 < cbuffer_len x
    nonempty_len x v e = cbuffer_isempty-len_pos x v e

-- `cbuffer_get` of an element that is whole in the queue gives the bytes of that element.
pub cbuffer_get_lem :
    (size idx : ℕ) (b : Cbuffer)
    → IsCbuffer b
    → 0 < size
    → (idx + 1) * size ≤ cbuffer_len b
    → cbuffer_get size idx b ≡ some (take size (drop (idx * size) (contents b)))
unfolding cbuffer_get cbuffer_get_no_check
cbuffer_get_lem size idx b v pos h =
    let le = cbuffer_len-le b v in
    let n = idx * size in
    let r = rot b.tail b.data_of in
    let k : n + size ≤ cbuffer_len b = grind arith in
    let small_idx : idx < cbuffer_len b = grind arith in
    let i = advance b.tail n b.cap in
    rw (get_guard b idx v small_idx) (
      ap some (
        load-rot b i size v (advance-in b.tail n b.cap v.tail_in (omega arith) v.small)
          (omega arith)
        ∙ ap (take size)
            (rot-advance b.tail n b.cap b.data_of v.sized v.tail_in (omega arith) v.small)
        ∙ take-append_le size (drop n r) (take n r)
            (omega (arith, length-drop n r, length-rot b.tail b.data_of, v.sized))
        ∙ sym (take-take size (cbuffer_len b - n) (drop n r) (omega arith))
        ∙ ap (take size) (sym (drop-take n (cbuffer_len b) (cbuffer_len b - n) r (omega arith)))))

-- `cbuffer_peek_back` and `cbuffer_peek_front` show what `cbuffer_pop_back` and `cbuffer_pop_front` would
-- return, when the buffer is empty or holds a whole element.
pub cbuffer_peek-pop :
    (size : ℕ) (b : Cbuffer)
    → IsCbuffer b
    → 0 < size
    → (0 < cbuffer_len b → size ≤ cbuffer_len b)
    → cbuffer_peek size b ≡ (cbuffer_pop size b).1
unfolding cbuffer_peek cbuffer_pop
cbuffer_peek-pop size b v pos h = elim (Bool-cases (cbuffer_isempty b)) [
  | inl e ↦ rw e refl
  | inr ne ↦
      let k = h (cbuffer_isempty-len_pos b v ne) in
      let z : 0 * size ≡ 0 = omega arith in
      rw ne (
        cbuffer_get_lem size 0 b v pos (omega arith)
        ∙ ap (λ n. some (take size (drop n (contents b)))) z
        ∙ ap some (sym (load-contents b size v k)))
]
