-- ===== src/DataList/Buffer.antt =====
-- The operations of libs/nspager/data_list.c between a page and a circular buffer of
-- libs/nscore/cbuffer.c.
use numstore.Prelude.{
  ℕ, min, ◌+◌, ◌-◌, ◌*◌, ◌≤◌, ◌++◌, ◌≡◌, sym, ap, ap₂, ◌∙◌, arith, ltb, ◌==◌, length, take, drop,
  slice, blit, length-take, length-drop, length-blit, take-blit_end, take-take, drop-take, take_all,
  drop_all, Bool-cases, inl, inr, append-nil, ==→eq,
}
use native.Mathlib.Nat.{div-one}
use numstore.Cbuffer.{Cbuffer, cbuffer_len, cbuffer_avail, n_elems, cbuffer_read, cbuffer_write}
use numstore.Cbuffer.Consume.{IsCbuffer, contents as queued}
use numstore.Cbuffer.Queue.{length-contents as length-queued, cbuffer_read_lem, cbuffer_write_lem}
use numstore.DataList.{DataList, dl_avail, dl_read_out_into_cbuffer, dl_append_from_cbuffer}
use numstore.DataList.Contents.{IsDataList, contents, length-contents, slice-contents}

single_bytes : (n bytes : ℕ) → n_elems 1 n bytes ≡ min n bytes
single_bytes n bytes = rw (div-one bytes) (ground arith)

-- A gap is closed by moving the bytes behind it.
close_gap :
    (d : DataList) (o n : ℕ)
    → IsDataList d
    → o + n ≤ d.used
    → let rest = slice (o + n) (d.used - n - o) d.data_of in
      let d' = record d { data_of = blit d.data_of o rest; used = o + (d.used - n - o) } in
      IsDataList d' × (contents d' ≡ take o (contents d) ++ drop (o + n) (contents d))
close_gap d o n v h =
    let k = d.used - n - o in
    let rest = slice (o + n) k d.data_of in
    let l : length rest ≡ k = omega (
      arith,
      length-take k (drop (o + n) d.data_of),
      length-drop (o + n) d.data_of,
      v.sized,
      v.within,
    ) in
    (
      record {
        sized = length-blit d.data_of o rest (omega (arith, v.sized, v.within)) ∙ v.sized;
        within = omega (arith, v.within);
      },
      take-blit_end d.data_of o (o + k) rest (omega arith) (omega (arith, v.sized, v.within))
          ∙ ap₂ (λ x y. x ++ y) (sym (take-take o d.used d.data_of (omega arith)))
              (sym (drop-take (o + n) d.used k d.data_of (omega arith))),
    )

nothing_out :
    (d : DataList) (dest : Cbuffer) (o b : ℕ)
    → IsDataList d
    → IsCbuffer dest
    → d.used ≤ o
    → IsDataList d
      × IsCbuffer dest
      × (0 ≡ min (min (d.used - o) b) (cbuffer_avail dest))
      × (contents d ≡ take o (contents d) ++ drop (o + 0) (contents d))
      × (queued dest ≡ queued dest ++ slice o 0 (contents d))
nothing_out d dest o b v c h =
    let l = length-contents d v in
    (
      v,
      c,
      omega arith,
      sym (append-nil (contents d))
          ∙ ap₂ (λ x y. x ++ y) (sym (take_all o (contents d) (omega arith)))
              (sym (drop_all (o + 0) (contents d) (omega arith))),
      sym (append-nil (queued dest)),
    )

-- `dl_read_out_into_cbuffer` moves bytes from the offset on out of the page and behind those in the
-- buffer: at most `b`, those that there are, and those that the buffer has room for. The bytes behind
-- them close the gap; both sides stay valid.
pub dl_read_out_into_cbuffer_lem :
    (d : DataList) (dest : Cbuffer) (offset b : ℕ)
    → IsDataList d
    → IsCbuffer dest
    → offset ≤ d.used
    → let (d', dest', n) = dl_read_out_into_cbuffer d dest offset b in
      IsDataList d'
      × IsCbuffer dest'
      × (n ≡ min (min (d.used - offset) b) (cbuffer_avail dest))
      × (contents d' ≡ take offset (contents d) ++ drop (offset + n) (contents d))
      × (queued dest' ≡ queued dest ++ slice offset n (contents d))
unfolding dl_read_out_into_cbuffer
dl_read_out_into_cbuffer_lem d dest offset b v c h = elim (Bool-cases (offset == d.used)) [
  | inl e ↦ rw e (nothing_out d dest offset b v c (omega (arith, ==→eq offset d.used e)))
  | inr ne ↦
      let avail = min (d.used - offset) b in
      elim (Bool-cases (ltb 0 avail)) [
        | inr none_left ↦
            let z : avail ≡ 0 = ground arith in
            let g = close_gap d offset avail v (omega arith) in
            rw (ne, none_left)
              (
                g.0,
                c,
                omega arith,
                g.1,
                sym (append-nil (queued dest))
                    ∙ ap (λ k. queued dest ++ slice offset k (contents d)) (sym z),
              )
        | inl pos ↦
            let xs = slice offset avail d.data_of in
            let l : length xs ≡ avail = omega (
              arith,
              length-take avail (drop offset d.data_of),
              length-drop offset d.data_of,
              v.sized,
              v.within,
            ) in
            let (ok, count, bytes) = cbuffer_write_lem xs 1 avail dest c (omega arith) in
            let n = (cbuffer_write xs 1 avail dest).1 in
            let e : n ≡ min avail (cbuffer_avail dest) =
              count ∙ single_bytes avail (cbuffer_avail dest) in
            let one : n * 1 ≡ n = omega arith in
            let g = close_gap d offset n v (omega arith) in
            rw (ne, pos)
              (
                g.0,
                ok,
                e,
                g.1,
                bytes
                    ∙ ap (λ k. queued dest ++ take k xs) one
                    ∙ ap (λ x. queued dest ++ x)
                        (take-take n avail (drop offset d.data_of) (omega arith)
                          ∙ slice-contents d offset n (omega arith)),
              )
      ]
]

-- `dl_append_from_cbuffer` moves the oldest bytes of the buffer behind those of the page.
pub dl_append_from_cbuffer_lem :
    (d : DataList) (src : Cbuffer) (amnt : ℕ)
    → IsDataList d
    → IsCbuffer src
    → amnt ≤ dl_avail d
    → amnt ≤ cbuffer_len src
    → let (d', src') = dl_append_from_cbuffer d src amnt in
      IsDataList d'
      × IsCbuffer src'
      × (contents d' ≡ contents d ++ take amnt (queued src))
      × (queued src' ≡ drop amnt (queued src))
unfolding dl_append_from_cbuffer
dl_append_from_cbuffer_lem d src amnt v c h k =
    let (ok, count, bytes, rest) = cbuffer_read_lem 1 amnt src c in
    let n = (cbuffer_read 1 amnt src).2 in
    let e : n * 1 ≡ amnt = omega (arith, count ∙ single_bytes amnt (cbuffer_len src)) in
    let b : (cbuffer_read 1 amnt src).1 ≡ take amnt (queued src) =
      bytes ∙ ap (λ j. take j (queued src)) e in
    let l : length (cbuffer_read 1 amnt src).1 ≡ amnt =
      ap length b ∙ length-take amnt (queued src) ∙ omega (arith, length-queued src c) in
    (
      record {
        sized =
            length-blit d.data_of d.used (cbuffer_read 1 amnt src).1
              (omega (arith, v.sized, v.within))
            ∙ v.sized;
        within = omega (arith, v.within);
      },
      ok,
      take-blit_end d.data_of d.used (d.used + amnt) (cbuffer_read 1 amnt src).1 (omega arith)
            (omega (arith, v.sized, v.within))
          ∙ ap (λ x. contents d ++ x) b,
      rest ∙ ap (λ j. drop j (queued src)) e,
    )
