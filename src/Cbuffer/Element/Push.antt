-- ===== src/Cbuffer/Element/Push.antt =====
-- What the operations of libs/nscore/cbuffer.c that add an element do to the queue of bytes.
use numstore.Prelude.{
  ℕ, ◌+◌, ◌-◌, ◌%◌, ◌≤◌, ◌<◌, true, false, List, ◌++◌, ◌≡◌, refl, sym, ap, ap₂, ◌∙◌, arith, ◌⊎◌,
  ltb, leb, ◌==◌, if◌then◌else◌, length, take, drop, blit, take-append_le, take-append_add,
  take-append-drop, length-take, length-drop, length-blit, blit-blit, Bool-cases, inl, inr,
  ltb-false→le, leb→le, ==→eq,
}
use numstore.Cbuffer.{Cbuffer, add32, sub32, advance, cbuffer_len, cbuffer_avail}
use numstore.Cbuffer.Ring.{rot, length-rot, rot-blit_before}
use numstore.Cbuffer.Consume.{
  IsCbuffer, contents, cbuffer_len-le, advance-cases, rot-advance, mod_once, mod_below,
}
use numstore.Cbuffer.Produce.{Filled, blit-Filled, head-cases, produce-Produced}
use numstore.Cbuffer.Element.Take.{sub_add32}
use numstore.Cbuffer.Element.{store, cbuffer_push_back, cbuffer_push_front}

-- A copy in, whose second part goes to the start of the array, seen from the tail.
store-Filled :
    (b : Cbuffer) (src : List ℕ)
    → IsCbuffer b
    → 0 < length src
    → length src ≤ cbuffer_avail b
    → Filled b src (store b b.head src)
unfolding store add32 cbuffer_avail blit
store-Filled b src v pos h =
    let s = v.small in
    let le = cbuffer_len-le b v in
    elim (Bool-cases (leb ((b.head + length src) % 4294967296) b.cap)) [
      | inl fits ↦ rw fits (blit-Filled b src v pos h (omega (arith, leb→le _ _ fits)))
      | inr over ↦
          let first = b.cap - b.head in
          let past : b.cap < b.head + length src = ground arith in
          let (part, c) = head-cases b v (omega arith) in
          let at_head : b.head ≡ b.tail + cbuffer_len b = ground (arith, c) in
          let lt : length (take first src) ≡ first = omega (arith, length-take first src) in
          let ld : length (drop first src) ≡ length src - first =
            omega (arith, length-drop first src) in
          let d = blit b.data_of b.head (take first src) in
          let a = blit-Filled b (take first src) v (omega arith) (omega arith) (omega arith) in
          rw over (record {
            same = length-blit d 0 (drop first src) (omega (arith, a.same, v.sized)) ∙ a.same;
            seen =
                rot-blit_before b.tail (cbuffer_len b + first) 0 d (drop first src)
                  (omega (arith, a.same, v.sized)) (omega arith) (omega (arith, a.same, v.sized))
                ∙ ap (λ x. blit x (cbuffer_len b + first) (drop first src)) a.seen
                ∙ blit-blit (rot b.tail b.data_of) (cbuffer_len b) (cbuffer_len b + first)
                    (take first src) (drop first src) (omega arith)
                    (omega (arith, length-rot b.tail b.data_of, v.sized))
                ∙ ap (λ x. blit (rot b.tail b.data_of) (cbuffer_len b) x)
                    (take-append-drop first src);
          })
    ]

-- `cbuffer_push_back` puts the element behind the bytes in the queue if it fits; otherwise it returns
-- false and changes nothing.
pub cbuffer_push_back_lem :
    (src : List ℕ) (b : Cbuffer)
    → IsCbuffer b
    → 0 < length src
    → let (b', ok) = cbuffer_push_back src b in
      IsCbuffer b'
      × (ok ≡ leb (length src) (cbuffer_avail b))
      × (contents b' ≡ (if ok then contents b ++ src else contents b))
unfolding cbuffer_push_back
cbuffer_push_back_lem src b v pos = elim (Bool-cases (ltb (cbuffer_avail b) (length src))) [
  | inl full ↦ rw full (v, ground arith, refl)
  | inr room ↦
      let le = ltb-false→le _ _ room in
      let p = produce-Produced b src (store b b.head src) v pos le (store-Filled b src v pos le) in
      rw room (p.valid, ground arith, p.added)
]

-- The new tail of `cbuffer_push_front` stands `n` bytes before the old one.
new_tail-is :
    (b : Cbuffer) (n : ℕ)
    → IsCbuffer b
    → 0 < n
    → n ≤ b.cap
    → let nt = sub32 (add32 b.tail b.cap) n % b.cap in
      (nt < b.cap) × ((nt + n ≡ b.tail) ⊎ (nt + n ≡ b.tail + b.cap))
new_tail-is b n v pos h =
    let s : b.tail + b.cap < 4294967296 = omega (arith, v.tail_in, v.small) in
    elim (Bool-cases (ltb b.tail n)) [
      | inl lt ↦
          let e = mod_below (b.tail + b.cap - n) b.cap (ground (arith, v.tail_in)) in
          rw (sub_add32 b.tail b.cap n s h, e)
            (ground (arith, v.tail_in), ground (arith, v.tail_in))
      | inr ge ↦
          let e =
            mod_once (b.tail + b.cap - n) b.cap (ground (arith, v.tail_in))
              (ground (arith, v.tail_in)) in
          rw (sub_add32 b.tail b.cap n s h, e)
            (ground (arith, v.tail_in), ground (arith, v.tail_in))
    ]

-- The tail moves back over `n` free bytes.
back_len :
    (b : Cbuffer) (d : List ℕ) (nt n : ℕ)
    → IsCbuffer b
    → 0 < n
    → n ≤ cbuffer_avail b
    → nt < b.cap
    → (nt + n ≡ b.tail) ⊎ (nt + n ≡ b.tail + b.cap)
    → (b.isfull ≡ false)
      × (cbuffer_len
            (record b { data_of = d; tail = nt; isfull = if b.head == nt then true else b.isfull })
          ≡ cbuffer_len b + n)
unfolding cbuffer_len cbuffer_avail
back_len b d nt n v pos h lt c =
    let (part, k) = head-cases b v (omega arith) in
    (part, ground (arith, part, v.head_in, v.tail_in))

avail_le : (b : Cbuffer) (n : ℕ) → n ≤ cbuffer_avail b → n ≤ b.cap
unfolding cbuffer_avail
avail_le b n h = omega arith

-- An empty buffer with the same array, at another index.
abbrev emptied : Cbuffer → ℕ → Cbuffer
emptied b i = record b { head = i; tail = i; isfull = false }

push_front_room :
    (src : List ℕ) (b : Cbuffer) (nt : ℕ)
    → IsCbuffer b
    → 0 < length src
    → length src ≤ cbuffer_avail b
    → (nt < b.cap) × ((nt + length src ≡ b.tail) ⊎ (nt + length src ≡ b.tail + b.cap))
    → let b' = record b {
      data_of = store b nt src;
      tail = nt;
      isfull = if b.head == nt then true else b.isfull;
    } in
      IsCbuffer b' × (contents b' ≡ src ++ contents b)
unfolding cbuffer_avail cbuffer_len store blit
push_front_room src b nt v pos h (lt, c) =
    let n = length src in
    let len = cbuffer_len b in
    let le = cbuffer_len-le b v in
    let r = rot nt b.data_of in
    let ev : IsCbuffer (emptied b nt) = record {
      sized = v.sized;
      head_in = lt;
      tail_in = lt;
      full_meets = λ _. refl;
      small = v.small;
    } in
    let f = store-Filled (emptied b nt) src ev pos (ground arith) in
    let (part, k) = back_len b (store b nt src) nt n v pos h lt c in
    let adv : advance nt n b.cap ≡ b.tail =
      ground (arith, advance-cases nt n b.cap lt (omega arith) v.small, v.tail_in) in
    let zl : cbuffer_len (emptied b nt) ≡ 0 = ground arith in
    let zero_n : 0 + n ≡ n = omega arith in
    let old : rot b.tail b.data_of ≡ drop n r ++ take n r =
      ap (λ i. rot i b.data_of) (sym adv)
      ∙ rot-advance nt n b.cap b.data_of v.sized lt (omega arith) v.small in
    (
      record {
        sized = f.same ∙ v.sized;
        head_in = v.head_in;
        tail_in = lt;
        full_meets = λ e. ground (arith, part, ==→eq b.head nt);
        small = v.small;
      },
      ap₂ take k (f.seen ∙ ap (λ i. blit r i src) zl)
          ∙ take-append_add (len + n) len src (drop (0 + n) r) (omega arith)
          ∙ ap (λ x. src ++ x)
              (ap (λ m. take len (drop m r)) zero_n
                ∙ sym (
                    ap (take len) old
                    ∙ take-append_le len (drop n r) (take n r)
                        (omega (arith, length-drop n r, length-rot nt b.data_of, v.sized)))),
    )

-- `cbuffer_push_front` puts the element before the bytes in the queue if it fits; otherwise it returns
-- false and changes nothing.
pub cbuffer_push_front_lem :
    (src : List ℕ) (b : Cbuffer)
    → IsCbuffer b
    → 0 < length src
    → let (b', ok) = cbuffer_push_front src b in
      IsCbuffer b'
      × (ok ≡ leb (length src) (cbuffer_avail b))
      × (contents b' ≡ (if ok then src ++ contents b else contents b))
unfolding cbuffer_push_front
cbuffer_push_front_lem src b v pos = elim (Bool-cases (ltb (cbuffer_avail b) (length src))) [
  | inl full ↦ rw full (v, ground arith, refl)
  | inr room ↦
      let le = ltb-false→le _ _ room in
      rw room (
        let p =
          push_front_room src b _ v pos le
            (new_tail-is b (length src) v pos (avail_le b (length src) le)) in
        (p.0, ground arith, p.1))
]
