-- ===== src/Cbuffer/Element.antt =====
-- The operations of libs/nscore/cbuffer.c on single elements: push, pop, peek and get.
pub mod Take
pub mod Push
use numstore.Prelude.{
  ℕ, zero, suc, min, ◌+◌, ◌-◌, ◌*◌, ◌%◌, ◌≤◌, ◌<◌, Bool, true, false, not, ◌&&◌, List, [], ◌++◌,
  Option, none, some, ◌≡◌, refl, sym, ap, ap₂, ◌∙◌, subst, arith, ◌⊎◌, ltb, leb, ◌==◌,
  if◌then◌else◌, length, take, drop, slice, blit, take-append_le, take-append_add, drop-append_le,
  drop-drop, take-take, take-append-drop, drop-blit_start, drop-take, take_all, length-take,
  length-drop, length-append, length-blit, blit-blit, drop_all, Bool-cases, inl, inr, append_assoc,
  append-nil, lt→ltb, le→ltb-false, ltb-false→le, ltb→lt, leb→le, ==→eq,
}
use numstore.Cbuffer.{
  Cbuffer, add32, sub32, advance, consume, produce, cbuffer_len, cbuffer_avail, cbuffer_isempty,
}
use numstore.Cbuffer.Ring.{rot, length-rot, rot-blit_after, rot-blit_before}
use numstore.Cbuffer.Consume.{
  IsCbuffer, contents, Consumed, consume-Consumed, cbuffer_len-le, advance-in, advance-cases,
  rot-advance, mod_once, mod_below,
}
use numstore.Cbuffer.Produce.{Produced, Filled, blit-Filled, head-cases, produce-Produced}
use numstore.Cbuffer.Queue.{length-contents}

-- The two cases of the copies out of the array: `size` bytes from `offset` on.
unfoldable pub load : Cbuffer → ℕ → ℕ → List ℕ
load b offset size =
    let first = b.cap - offset in
    if leb (add32 offset size) b.cap
    then slice offset size b.data_of
    else slice offset first b.data_of ++ slice 0 (size - first) b.data_of

-- The two cases of the copies into the array.
unfoldable pub store : Cbuffer → ℕ → List ℕ → List ℕ
store b offset src =
    let first = b.cap - offset in
    if leb (add32 offset (length src)) b.cap
    then blit b.data_of offset src
    else blit (blit b.data_of offset (take first src)) 0 (drop first src)

-- `cbuffer_get_no_check`.
unfoldable pub cbuffer_get_no_check : ℕ → ℕ → Cbuffer → List ℕ
cbuffer_get_no_check size idx b = load b (advance b.tail (idx * size) b.cap) size

-- `cbuffer_get`.
unfoldable pub cbuffer_get : ℕ → ℕ → Cbuffer → Option (List ℕ)
cbuffer_get size idx b =
    if not b.isfull && leb (sub32 (add32 b.head b.cap) b.tail % b.cap) idx
    then none
    else some (cbuffer_get_no_check size idx b)

-- `cbuffer_peek_back`; `cbuffer_peek_front` has the same body.
unfoldable pub cbuffer_peek : ℕ → Cbuffer → Option (List ℕ)
cbuffer_peek size b = if cbuffer_isempty b then none else cbuffer_get size 0 b

-- `cbuffer_push_back`; `src` is the element.
unfoldable pub cbuffer_push_back : List ℕ → Cbuffer → Cbuffer × Bool
cbuffer_push_back src b =
    if ltb (cbuffer_avail b) (length src)
    then (b, false)
    else (produce (record b { data_of = store b b.head src }) (length src), true)

-- `cbuffer_push_front`.
unfoldable pub cbuffer_push_front : List ℕ → Cbuffer → Cbuffer × Bool
cbuffer_push_front src b =
    let new_tail = sub32 (add32 b.tail b.cap) (length src) % b.cap in
    if ltb (cbuffer_avail b) (length src) then (b, false) else (
      record b {
        data_of = store b new_tail src;
        tail = new_tail;
        isfull = if b.head == new_tail then true else b.isfull;
      },
      true,
    )

-- `cbuffer_pop_back`; `cbuffer_pop_front` has the same body.
unfoldable pub cbuffer_pop : ℕ → Cbuffer → Cbuffer × Option (List ℕ)
cbuffer_pop size b =
    if cbuffer_isempty b then (b, none) else (consume b size, some (load b b.tail size))
