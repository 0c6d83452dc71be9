-- ===== src/DataList/Contents.antt =====
-- What the operations of libs/nspager/data_list.c on one page do to the bytes that it holds.
use numstore.Prelude.{
  ℕ, min, ◌+◌, ◌-◌, ◌≤◌, true, List, ◌++◌, ◌≡◌, refl, sym, ap, ◌∙◌, arith, ltb, ◌==◌, length, take,
  drop, slice, blit, length-take, length-blit, take-blit, take-blit_end, drop-blit, take-take,
  drop-take, take_all, take-append_le, Bool-cases, inl, inr, append-nil, ==→eq, drop-blit_start,
  drop_all,
}
use numstore.DataList.{
  DataList, dl_data_size, dl_avail, dl_read, dl_read_out_from, dl_append, dl_write, dl_memset,
}

-- The array of a page, and a length within it.
pub record IsDataList (d : DataList) : Type 0 where
  pub sized : length d.data_of ≡ dl_data_size
  pub within : d.used ≤ dl_data_size

-- The bytes that a page holds.
abbrev pub contents : DataList → List ℕ
contents d = take d.used d.data_of

pub length-contents : (d : DataList) → IsDataList d → length (contents d) ≡ d.used
length-contents d v = omega (arith, length-take d.used d.data_of, v.sized, v.within)

-- A run within the bytes of a page.
pub slice-contents :
    (d : DataList) (o n : ℕ) → o + n ≤ d.used → slice o n d.data_of ≡ slice o n (contents d)
slice-contents d o n h =
    sym (take-take n (d.used - o) (drop o d.data_of) (omega arith))
    ∙ ap (take n) (sym (drop-take o d.used (d.used - o) d.data_of (omega arith)))

-- `dl_append` puts as many bytes as there is room for behind those in the page.
pub dl_append_lem :
    (d : DataList) (src : List ℕ) (nbytes : ℕ)
    → IsDataList d
    → nbytes ≤ length src
    → let (d', n) = dl_append d src nbytes in
      IsDataList d'
      × (n ≡ min (dl_avail d) nbytes)
      × (d'.used ≡ d.used + n)
      × (contents d' ≡ contents d ++ take n src)
unfolding dl_append
dl_append_lem d src nbytes v h =
    let n = min (dl_avail d) nbytes in
    let w = v.within in
    let s = v.sized in
    elim (Bool-cases (ltb 0 n)) [
      | inl pos ↦
          let l : length (take n src) ≡ n = omega (arith, length-take n src) in
          rw pos (
            record {
              sized = length-blit d.data_of d.used (take n src) (omega arith) ∙ v.sized;
              within = omega arith;
            },
            refl,
            refl,
            take-blit_end d.data_of d.used (d.used + n) (take n src) (omega arith) (omega arith),
          )
      | inr none_fit ↦
          let z : 0 ≡ n = ground arith in
          rw none_fit (
            v,
            refl,
            omega arith,
            sym (append-nil (contents d)) ∙ ap (λ k. contents d ++ take k src) z,
          )
    ]

-- `dl_read_out_from` cuts the bytes from the offset on off the page and returns them.
pub dl_read_out_from_lem :
    (d : DataList) (offset : ℕ)
    → IsDataList d
    → offset ≤ d.used
    → let (d', dest, n) = dl_read_out_from d offset in
      IsDataList d'
      × (n ≡ d.used - offset)
      × (contents d' ≡ take offset (contents d))
      × (dest ≡ drop offset (contents d))
unfolding dl_read_out_from
dl_read_out_from_lem d offset v h = elim (Bool-cases (offset == d.used)) [
  | inl e ↦
      let q = ==→eq offset d.used e in
      let l = length-contents d v in
      rw e (
        v,
        omega arith,
        sym (take_all offset (contents d) (omega arith)),
        sym (drop_all offset (contents d) (omega arith)),
      )
  | inr ne ↦
      let pos : ltb 0 (d.used - offset) ≡ true = ground arith in
      let back : d.used - (d.used - offset) ≡ offset = omega arith in
      rw (ne, pos)
        (
          record { sized = v.sized; within = omega (arith, v.within) },
          refl,
          ap (λ n. take n d.data_of) back ∙ sym (take-take offset d.used d.data_of h),
          sym (drop-take offset d.used (d.used - offset) d.data_of (omega arith)),
        )
]

-- A read at an offset gives the bytes from there on, as many as there are.
pub dl_read_lem :
    (d : DataList) (offset nbytes : ℕ)
    → offset ≤ d.used
    → let (dest, n) = dl_read d offset nbytes in
      (n ≡ min (d.used - offset) nbytes) × (dest ≡ slice offset n (contents d))
unfolding dl_read
dl_read_lem d offset nbytes h = elim (Bool-cases (offset == d.used)) [
  | inl e ↦ rw e (omega (arith, ==→eq offset d.used e), refl)
  | inr ne ↦ rw ne (refl, slice-contents d offset (min (d.used - offset) nbytes) (omega arith))
]

-- `dl_write` overwrites bytes of the page from the offset on, as many as there are; `dl_read` of them
-- gives the bytes written back, and the bytes before and behind them stay.
pub dl_write-read :
    (d : DataList) (src : List ℕ) (offset nbytes : ℕ)
    → IsDataList d
    → offset ≤ d.used
    → nbytes ≤ length src
    → let (d', n) = dl_write d src offset nbytes in
      IsDataList d'
      × (n ≡ min (d.used - offset) nbytes)
      × (d'.used ≡ d.used)
      × (dl_read d' offset nbytes ≡ (take n src, n))
      × (take offset (contents d') ≡ take offset (contents d))
      × (drop (offset + n) (contents d') ≡ drop (offset + n) (contents d))
unfolding dl_write dl_read
dl_write-read d src offset nbytes v h k = elim (Bool-cases (offset == d.used)) [
  | inl e ↦ rw e (v, omega (arith, ==→eq offset d.used e), refl, rw e refl, refl, refl)
  | inr ne ↦
      let n = min (d.used - offset) nbytes in
      let w = v.within in
      let s = v.sized in
      elim (Bool-cases (ltb 0 n)) [
        | inr none_left ↦
            let z : 0 ≡ n = ground arith in
            rw (ne, none_left)
              (
                v,
                refl,
                refl,
                rw ne (
                    ap (λ b. (b, n))
                      (ap (λ m. slice offset m d.data_of) (sym z) ∙ ap (λ m. take m src) z)),
                refl,
                refl,
              )
        | inl pos ↦
            let l : length (take n src) ≡ n = omega (arith, length-take n src) in
            let x = blit d.data_of offset (take n src) in
            rw (ne, pos)
              (
                record {
                  sized = length-blit d.data_of offset (take n src) (omega arith) ∙ v.sized;
                  within = v.within;
                },
                refl,
                refl,
                rw ne (
                    ap (λ b. (b, n))
                      (ap (take n) (drop-blit_start d.data_of offset (take n src) (omega arith))
                        ∙ take-append_le n (take n src)
                            (drop (offset + length (take n src)) d.data_of) (omega arith)
                        ∙ take_all n (take n src) (omega arith))),
                take-take offset d.used x h
                    ∙ take-blit d.data_of offset offset (take n src) (omega arith) (omega arith)
                    ∙ sym (take-take offset d.used d.data_of h),
                drop-take (offset + n) d.used (d.used - (offset + n)) x (omega arith)
                    ∙ ap (take (d.used - (offset + n))) (
                        drop-blit d.data_of offset (offset + n) (take n src) (omega arith)
                          (omega arith))
                    ∙ sym (
                        drop-take (offset + n) d.used (d.used - (offset + n)) d.data_of
                          (omega arith)),
              )
      ]
]

-- `dl_memset` makes the bytes given the contents of the page.
pub dl_memset_is :
    (d : DataList) (buf : List ℕ)
    → IsDataList d
    → length buf ≤ dl_data_size
    → IsDataList (dl_memset d buf) × (contents (dl_memset d buf) ≡ buf)
unfolding dl_memset
dl_memset_is d buf v h = (
  record { sized = length-blit d.data_of 0 buf (omega (arith, v.sized)) ∙ v.sized; within = h },
  take-blit_end d.data_of 0 (length buf) buf (omega arith) (omega arith),
)
